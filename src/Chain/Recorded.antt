-- ===== src/Chain/Recorded.antt =====
-- How the broadcasts of one `send` account for its result, attempt by attempt.
use big_x.Base.{
  ℕ, suc, ◌≤◌, ◌≡◌, refl, ap, ◌∙◌, String, some, List, [], ◌∷◌, ◌++◌, arith, length, ◌⊎◌,
  length-append, All, inl, inr,
}
use big_x.Base.Exec.{Result, ok, err}
use big_x.Chain.Client.{
  Config, AttemptError, ClientError, passed, contract_reverted, contract_call, contract_write,
  event_not_found, transaction_reverted, provider_unavailable, broken_breaker, nonce_error, raised,
  Broadcast,
}
use big_x.Chain.Sends.{Sent, ends_send}
use big_x.Chain.Attempts.{Reports, Attempted, early, numbered, gave}
use big_x.Chain.Frame.{IsPlain}

module _ {V : Type 0} (config : Config) (function_name : String) (args : List V) (value : ℕ) where
  -- A broadcast of what the caller asked for.
  pub record Requested (b : Broadcast V) : Type 0 where
    pub called : b.function_name ≡ function_name
    pub given : b.args ≡ args
    pub paid : b.fields.value ≡ value
    pub signer : b.fields.from_address ≡ config.signer

  -- Of the broadcasts of one `send`, the latest first: a returned hash, and a revert's, is the node's
  -- answer to the latest; nothing else is raised but an unavailable provider and a failed write.
  abbrev pub Reported : Result ClientError Sent → List (Broadcast V) → Type 0
  Reported (ok sent) (b ∷ bs) = b.answer ≡ ok sent.tx_hash
  Reported (err (passed (transaction_reverted h))) (b ∷ bs) = b.answer ≡ ok h
  Reported (err (passed provider_unavailable)) bs = Unit
  Reported (err (contract_write last)) bs = Unit
  Reported r bs = ⊥

  -- At most `k` broadcasts were added to the journal `js`, and they account for the result.
  pub record Recorded (k : ℕ) (js : List (Broadcast V)) (r : Result ClientError Sent)
      (ks : List (Broadcast V)) : Type 0 where
    pub added : List (Broadcast V)
    pub journal : ks ≡ added ++ js
    pub bounded : length added ≤ k
    pub requested : All Requested added
    pub reported : Reported r added

  snoc_append :
      (bs : List (Broadcast V)) (b : Broadcast V) (js : List (Broadcast V))
      → bs ++ (b ∷ js) ≡ (bs ++ (b ∷ [])) ++ js
  snoc_append [] b js = refl
  snoc_append (x ∷ bs) b js = ap (λ l. x ∷ l) (snoc_append bs b js)

  All-snoc :
      (bs : List (Broadcast V)) (b : Broadcast V)
      → All Requested bs
      → Requested b
      → All Requested (bs ++ (b ∷ []))
  All-snoc [] b h r = (r, tt)
  All-snoc (x ∷ bs) b h r = (h.0, All-snoc bs b h.1 r)

  Reported-snoc :
      (r : Result ClientError Sent) (bs : List (Broadcast V)) (b : Broadcast V)
      → Reported r bs
      → Reported r (bs ++ (b ∷ []))
  Reported-snoc (ok sent) (x ∷ bs) b h = h
  Reported-snoc (ok sent) [] b h = absurd h
  Reported-snoc (err (passed (transaction_reverted m))) (x ∷ bs) b h = h
  Reported-snoc (err (passed (transaction_reverted m))) [] b h = absurd h
  Reported-snoc (err (passed provider_unavailable)) bs b h = tt
  Reported-snoc (err (passed broken_breaker)) bs b h = absurd h
  Reported-snoc (err (passed (nonce_error _))) bs b h = absurd h
  Reported-snoc (err (passed (raised _))) bs b h = absurd h
  Reported-snoc (err (contract_write last)) bs b h = tt
  Reported-snoc (err (contract_reverted _)) bs b h = absurd h
  Reported-snoc (err (contract_call _)) bs b h = absurd h
  Reported-snoc (err event_not_found) bs b h = absurd h

  -- An attempt broadcasts at most once.
  abbrev pub Grown : List (Broadcast V) → List (Broadcast V) → Type 0
  Grown js ks = (ks ≡ js) ⊎ ((b : Broadcast V) × (ks ≡ b ∷ js) × Requested b)

  later :
      (k : ℕ) (js is : List (Broadcast V)) (r : Result ClientError Sent) (ks : List (Broadcast V))
      → is ≡ js
      → Recorded k is r ks
      → Recorded (suc k) js r ks
  later k js is r ks e h = record {
    added = h.added;
    journal = rw (← e) h.journal;
    bounded = omega (arith, h.bounded);
    requested = h.requested;
    reported = h.reported;
  }

  after :
      (k : ℕ) (js is : List (Broadcast V)) (b : Broadcast V) (r : Result ClientError Sent)
      (ks : List (Broadcast V))
      → is ≡ b ∷ js
      → Requested b
      → Recorded k is r ks
      → Recorded (suc k) js r ks
  after k js is b r ks e q h = record {
    added = h.added ++ (b ∷ []);
    journal = h.journal ∙ ap (λ l. h.added ++ l) e ∙ snoc_append h.added b js;
    bounded = omega (arith, h.bounded, length-append h.added (b ∷ []));
    requested = All-snoc h.added b h.requested q;
    reported = Reported-snoc r h.added b h.reported;
  }

  -- The same outcome, seen from before an attempt.
  pub stepped :
      (k : ℕ) (js is : List (Broadcast V)) (r : Result ClientError Sent) (ks : List (Broadcast V))
      → Grown js is
      → Recorded k is r ks
      → Recorded (suc k) js r ks
  stepped k js is r ks (inl same) h = later k js is r ks same h
  stepped k js is r ks (inr (b, e, q)) h = after k js is b r ks e q h

  pub nothing :
      (k : ℕ) (js : List (Broadcast V)) (r : Result ClientError Sent)
      → Reported r []
      → Recorded k js r js
  nothing k js r h = record {
    added = [];
    journal = refl;
    bounded = omega arith;
    requested = tt;
    reported = h;
  }

  module _ (ns ms : List (String × ℕ)) (js ks : List (Broadcast V)) (r : Result AttemptError Sent)
      (a : Attempted config ns js function_name args value r ms ks) where
    pub grown : Grown js ks
    grown = go a
      where
        go : Attempted config ns js function_name args value r ms ks → Grown js ks
        go (early e x p s) = inl s.journal
        go (numbered n e x p s) = inl s.journal
        go (gave n b h s) = inr (
          b,
          s.journal,
          record { called = s.called; given = s.given; paid = s.paid; signer = s.signer },
        )

    -- An attempt that reports a hash broadcast once, and the node answered the hash.
    answered :
        (k : ℕ) (q : Result ClientError Sent)
        → ((e : AttemptError) → r ≡ err e → IsPlain e → ⊥)
        → ((b : Broadcast V)
            → Reports config ns js function_name args value r b
            → Reported q (b ∷ []))
        → Recorded (suc k) js q ks
    answered k q reports tells = go a
      where
        go : Attempted config ns js function_name args value r ms ks → Recorded (suc k) js q ks
        go (early e x p s) = absurd (reports e x p)
        go (numbered n e x p s) = absurd (reports e x p)
        go (gave n b h s) = record {
          added = b ∷ [];
          journal = s.journal;
          bounded = omega arith;
          requested =
              (record { called = s.called; given = s.given; paid = s.paid; signer = s.signer }, tt);
          reported = tells b h;
        }

    pub won : (k : ℕ) (sent : Sent) → r ≡ ok sent → Recorded (suc k) js (ok sent) ks
    won k sent e = answered k (ok sent) (λ x y p. cc) (λ b h. rw e at h)

    pub ended :
        (k : ℕ) (e : AttemptError) (error : ClientError)
        → r ≡ err e
        → ends_send e ≡ some error
        → Recorded (suc k) js (err error) ks
    ended k (transaction_reverted h) error x y =
        let same : error ≡ passed (transaction_reverted h) = cc in
        rw same (
          answered k (err (passed (transaction_reverted h)))
            (λ z lost plain. let same : z ≡ transaction_reverted h = cc in rw same at plain)
            (λ b z. rw x at z))
    ended k provider_unavailable error x y =
        let same : error ≡ passed provider_unavailable = cc in
        rw same (stepped k js ks _ ks grown (nothing k ks (err (passed provider_unavailable)) tt))
    ended k broken_breaker error x y = cc
    ended k (nonce_error e) error x y = cc
    ended k (raised e) error x y = cc
