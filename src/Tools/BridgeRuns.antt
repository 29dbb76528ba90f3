-- ===== src/Tools/BridgeRuns.antt =====
-- Proofs about the bridge tool's `quote` as a whole: what it returns and what it queues.
use big_x.Base.{
  ◌≡◌, refl, ap, arith, ◌∙◌, String, Bool, true, false, Option, none, some, List, [], ◌∷◌, ◌++◌, ℕ,
  ◌||◌, ◌&&◌, not, Bool-cases, inl, inr,
}
use big_x.Base.Exec.{Result, ok, err, Exec, or_raise, pure, ◌>>=◌, Result-cases}
use big_x.Base.Triple.{Post, Triple, Top, Triple-bind}
use big_x.Resilience.Cache.{lookup}
use big_x.Tools.Bridge.{
  name, Quote, Response, refused, offered, BridgeError, no_route, duplicate, key_error,
  oracle_mismatch, invalid_token, invalid, exceeds_spend, is_within, guard, Circuits, Request,
  BridgeEnv, Tool, outside, search, enqueue, settle, quote, returned, answered, ask_if, is_allowed,
  quote_provider, find_best, source_chain,
}
use big_x.Tools.BridgeLaws.{IsQuote, IsQuotes, find_best-IsCheapest}
use package.text.Mathlib.Text.{◌==◌ as same_text}

lookup-append :
    (k : String) (xs ys : Quote) → lookup k xs ≡ none → lookup k (xs ++ ys) ≡ lookup k ys
unfolding lookup
lookup-append k [] ys h = refl
lookup-append k ((j, v) ∷ xs) ys h = elim (Bool-cases (same_text j k)) [
  | inl here ↦ absurd (ground arith)
  | inr there ↦ ground (arith, lookup-append k xs ys)
]

returned-src :
    (id : String) (best : Quote) (r : Request)
    → lookup "src" best ≡ none
    → lookup "src" (returned id best r) ≡ some (name r.src)
unfolding lookup
returned-src id best r h = lookup-append "src" best _ h

module _ {W : Type 0} (env : BridgeEnv W) where
  quote_provider-queue :
      (p : String) (r : Request) (n : ℕ) (t : Tool W)
      → (quote_provider env p r n t).1.queue ≡ t.queue
  unfolding quote_provider
  quote_provider-queue p r n t = asked-queue (is_allowed env.minute (env.now t.world) p t.circ)
    where
      answered-queue :
          (x : Result BridgeError Response × W) (u : Tool W)
          → (answered env p n x u).1.queue ≡ u.queue
      answered-queue (ok (offered fee dst_amount tx), w) u = refl
      answered-queue (ok refused, w) u = refl
      answered-queue (err e, w) u = refl

      asked-queue : (a : Bool × Circuits) → (ask_if env a p r n t).1.queue ≡ t.queue
      asked-queue (false, circ) = refl
      asked-queue (true, circ) = elim (Bool-cases (env.has_api p)) [
        | inl known ↦ rw known (answered-queue (env.fetch p r n t.world) (record t { circ = circ }))
        | inr unknown ↦ rw unknown refl
      ]

  find_best-queue :
      (ps : List String) (r : Request) (n : ℕ) (best : Option Quote) (t : Tool W)
      → (find_best env ps r n best t).1.queue ≡ t.queue
  unfolding find_best
  find_best-queue [] r n best t = refl
  find_best-queue (p ∷ ps) r n best t = find_best-queue ps r n _ _ ∙ quote_provider-queue p r n t

  guard-queue : (b : Bool) (e : BridgeError) (t : Tool W) → (guard b e t).1.queue ≡ t.queue
  guard-queue true e t = refl
  guard-queue false e t = refl

  module _ (qs : List (String × Quote)) where
    -- The queue is `qs` still, and `P` is known.
    abbrev Same : Type 0 → Tool W → Type 0
    Same P t = P × (t.queue ≡ qs)

    Triple-Same :
        (P : Type 0) {A B : Type 0} {R : B → Tool W → Type 0} (act : Exec BridgeError (Tool W) A)
        {f : A → Exec BridgeError (Tool W) B}
        → ((t : Tool W) → (act t).1.queue ≡ t.queue)
        → ((a : A) → Triple Top (Same P) (f a) R)
        → Triple Top (Same P) (act >>= f) R
    Triple-Same P act {f} same k =
        Triple-bind act f
          (record {
            at = λ t h. elim (Result-cases (act t).0) [
              | inl (a, e) ↦ rw (e, Post) (h.0, same t ∙ h.1)
              | inr (x, e) ↦ rw (e, Post) tt
            ];
          })
          k

    -- What `quote` returns, and what it has queued.
    abbrev Queued : Request → Quote → Tool W → Type 0
    Queued r q t =
        (id : String) × (best : Quote) × IsQuote best
        × (t.queue ≡ qs ++ ((id, best) ∷ []))
        × (q ≡ returned id best r)

    search-IsQuotes :
        (r : Request) (n : ℕ)
        → Triple Top (Same Unit) (search env r n) (λ best. Same (IsQuotes best))
    search-IsQuotes r n = record {
      at = λ t h. (
        (find_best-IsCheapest env env.providers r n none t tt).1,
        find_best-queue env.providers r n none t ∙ h.1,
      );
    }

    or_raise-IsQuote :
        (best : Option Quote)
        → Triple Top (Same (IsQuotes best)) (or_raise best no_route) (λ q. Same (IsQuote q))
    or_raise-IsQuote none = record { at = λ s h. tt }
    or_raise-IsQuote (some q) = record { at = λ s h. h }

    enqueue-Queued :
        (r : Request) (id : String) (q : Quote)
        → Triple Top
            (Same (IsQuote q))
            (enqueue env id q >>= λ _. pure (returned id q r))
            (Queued r)
    enqueue-Queued r id q = record {
      at = λ t h. elim (Result-cases (env.push id q t.world).0) [
        | inl (a, e) ↦ rw (e, Post) (id, q, h.0, ap (λ l. l ++ ((id, q) ∷ [])) h.1, refl)
        | inr (x, e) ↦ rw (e, Post) tt
      ];
    }

    settle-Queued : (r : Request) (n : ℕ) → Triple Top (Same Unit) (settle env r n) (Queued r)
    unfolding settle
    settle-Queued r n = Triple-bind (search env r n) _ (search-IsQuotes r n) λ best.
        Triple-bind (or_raise best no_route) _ (or_raise-IsQuote best) λ q.
          Triple-Same (IsQuote q) (outside (env.agrees r n q)) (λ t. refl)
            λ agreed.
              Triple-Same (IsQuote q) (guard agreed oracle_mismatch) (guard-queue agreed _) λ _.
                Triple-Same (IsQuote q) (outside env.new_id) (λ t. refl)
                  λ id.
                    Triple-Same (IsQuote q) (outside (env.insert_row id r n q)) (λ t. refl)
                      λ _. enqueue-Queued r id q

    abbrev are_known : Request → Bool
    are_known r = env.knows_chain r.src && env.knows_chain r.dst && env.is_address r.to

    quote-Queued : (r : Request) → Triple Top (Same Unit) (quote env r) (Queued r)
    unfolding quote
    quote-Queued r =
        Triple-Same Unit (guard (same_text r.auth "" || env.is_token r.auth) invalid_token)
          (guard-queue _ _)
          λ _. Triple-Same Unit (guard (are_known r) invalid) (guard-queue _ _) λ _.
            Triple-Same Unit (outside (env.units r)) (λ t. refl)
              λ n.
                Triple-Same Unit (guard (is_within n r.max_spend) exceeds_spend) (guard-queue _ _)
                  λ _.
                    Triple-Same Unit (outside (env.is_dup (env.digest r n))) (λ t. refl)
                      λ dup. Triple-Same Unit (guard (not dup) duplicate) (guard-queue _ _) λ _.
                        Triple-Same Unit (outside (env.set_dup (env.digest r n))) (λ t. refl)
                          λ _. settle-Queued r n

  -- What becomes of a quote without a source chain when it is executed.
  abbrev pub without_chain : Result BridgeError Bool → Result BridgeError (Option String)
  without_chain (err e) = err e
  without_chain (ok false) = ok none
  without_chain (ok true) = err (key_error "src")

  source_chain-without :
      (id : String) (q : Quote) (w : W) (b : Result BridgeError Bool)
      → (env.has_queued id w).0 ≡ b
      → same_text env.mpc_url "" ≡ false
      → lookup "src" q ≡ none
      → (source_chain env id q w).0 ≡ without_chain b
  unfolding source_chain
  source_chain-without id q w (err e) asked configured h = rw (configured, asked) refl
  source_chain-without id q w (ok false) asked configured h = rw (configured, asked) refl
  source_chain-without id q w (ok true) asked configured h = rw (configured, asked, h) refl

  -- When `quote` returns, its result names the source chain, but the quote that it has added to the
  -- queue does not: if the wallet is configured, `_execute` on what was queued raises a KeyError as soon
  -- as the row of the bridge is found as queued, and does nothing if it is not found.
  pub quote-source_chain :
      (r : Request) (q : Quote) (t t' : Tool W) (w : W)
      → quote env r t ≡ (ok q, t')
      → same_text env.mpc_url "" ≡ false
      → (id : String) × (best : Quote) × (lookup "src" q ≡ some (name r.src))
        × (t'.queue ≡ t.queue ++ ((id, best) ∷ []))
        × ((source_chain env id best w).0 ≡ without_chain (env.has_queued id w).0)
  quote-source_chain r q t t' w h configured =
      let found : Post {E = BridgeError} Top (Queued t.queue r) (ok q, t') =
        rw h at ((quote-Queued t.queue r).at t (tt, refl)) in
      let (id, best, plain, queued, is_returned) = found in
      (
        id,
        best,
        ap (lookup "src") is_returned ∙ returned-src id best r plain.has_no_src,
        queued,
        source_chain-without id best w _ refl configured plain.has_no_src,
      )
