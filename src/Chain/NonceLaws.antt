-- ===== src/Chain/NonceLaws.antt =====
-- Proofs about the nonces: over any sequence of operations of a client, no two of its broadcasts have
-- the same one.
use big_x.Base.{
  ℕ, ◌+◌, ◌<◌, ◌≡◌, refl, ◌⊎◌, inl, inr, String, Option, none, some, List, [], ◌∷◌, arith,
}
use big_x.Base.Exec.{Result, Exec}
use big_x.Base.Spec.{Spec, Spec-bind}
use big_x.Resilience.Cache.{lookup, insert}
use big_x.Resilience.CacheLaws.{lookup-insert}
use big_x.Chain.Web3.{Web3}
use big_x.Chain.Client.{
  Client, ClientOf, Config, AttemptError, ClientError, Broadcast, reading, writing, contract_call,
  contract_write, raised, on_node, get_provider_and_contract,
}
use big_x.Chain.Calls.{read_once, call, ends_read, get_event_args, passing, first_event}
use big_x.Chain.Sends.{Sent, send_once, send, ends_send}
use big_x.Chain.Attempts.{Attempted, early, numbered, gave}
use big_x.Chain.AttemptsLaws.{send_once-Spec}
use big_x.Chain.Frame.{
  Stable, Plainly, on_node-Spec, get_provider_and_contract-Spec, read_once-keeps, Plainly-state,
}
use big_x.Chain.LoopLaws.{attempt_loop-keeps}
use package.text.Mathlib.TextEquality.{eq_iff}

-- The nonces fall from the latest broadcast to the oldest, and are below `n`.
abbrev pub Descends : {V : Type 0} → ℕ → List (Broadcast V) → Type 0
Descends n [] = Unit
Descends n (b ∷ bs) = (b.fields.nonce < n) × Descends b.fields.nonce bs

-- The stored next nonce is above all broadcasts; without one there was no broadcast.
abbrev pub Fresh : {V : Type 0} → Option ℕ → List (Broadcast V) → Type 0
Fresh none js = js ≡ []
Fresh (some n) js = Descends n js

abbrev pub IsFresh : {W C V : Type 0} → String → Client W C V → Type 0
IsFresh signer c = Fresh (lookup signer c.nonces) c.journal

lookup_own : (k : String) (v : ℕ) (d : List (String × ℕ)) → lookup k (insert k v d) ≡ some v
lookup_own k v d = ground (arith, lookup-insert k k v d, eq_iff k k)

module _ {V : Type 0} where
  Descends-raise : (m n : ℕ) (js : List (Broadcast V)) → m < n → Descends m js → Descends n js
  Descends-raise m n [] h d = tt
  Descends-raise m n (b ∷ bs) h d = (omega (arith, d.0), d.1)

  Descends-next :
      (o : Option ℕ) (n : ℕ) (js : List (Broadcast V))
      → (o ≡ none) ⊎ (o ≡ some n)
      → Fresh o js
      → Descends n js
  Descends-next none n js next h = rw h tt
  Descends-next (some m) n js (inl e) h = cc
  Descends-next (some m) n js (inr e) h = let same : m ≡ n = cc in rw (← same) h

  Attempted-Fresh :
      (config : Config) (ns ms : List (String × ℕ)) (js ks : List (Broadcast V))
      (function_name : String) (args : List V) (value : ℕ) (r : Result AttemptError Sent)
      → Attempted config ns js function_name args value r ms ks
      → Fresh (lookup config.signer ns) js
      → Fresh (lookup config.signer ms) ks
  Attempted-Fresh config ns ms js ks f args value r (early e x p s) h = rw (s.nonces, s.journal) h
  Attempted-Fresh config ns ms js ks f args value r (numbered n e x p s) h =
      let next : lookup config.signer ms ≡ some (n + 1) =
        rw s.nonces (lookup_own config.signer (n + 1) ns) in
      rw (next, s.journal)
        (Descends-raise n (n + 1) js (omega arith) (Descends-next _ n js s.next h))
  Attempted-Fresh config ns ms js ks f args value r (gave n b t s) h =
      let next : lookup config.signer ms ≡ some (n + 1) =
        rw s.nonces (lookup_own config.signer (n + 1) ns) in
      rw (next, s.journal) (omega (arith, s.nonce), rw s.nonce (Descends-next _ n js s.next h))

-- What a client is asked to do.
pub data Operation (V : Type 0) : Type 0 where
  do_call : String → List V → Operation V
  do_event : String → String → Operation V
  do_send : String → List V → ℕ → Option ℕ → Operation V

module _ {W : Type 0} (node : Web3 W) (config : Config) where
  abbrev perform : Operation node.Value → ClientOf node → ClientOf node
  perform (do_call f args) c = (call node config f args c).1
  perform (do_event name tx_hash) c = (get_event_args node config name tx_hash c).1
  perform (do_send f args value gas_limit) c = (send node config f args value gas_limit c).1

  -- The operations one after the other, whatever each of them returns or raises.
  unfoldable pub run : List (Operation node.Value) → ClientOf node → ClientOf node
  run [] c = c
  run (o ∷ os) c = run os (perform o c)

  abbrev Kept : ClientOf node → Type 0
  Kept = IsFresh config.signer

  Kept-Stable : Stable Kept
  Kept-Stable = record {
    world = λ c w h. h;
    circuit = λ c b h. h;
    metrics = λ c m h. h;
    contracts = λ c d h. h;
  }

  send_once-Kept :
      (f : String) (args : List node.Value) (value : ℕ) (gas_limit : Option ℕ) (c : ClientOf node)
      → Kept c
      → Kept (send_once node config f args value gas_limit c).1
  send_once-Kept f args value gas_limit c h =
      Attempted-Fresh config c.nonces _ c.journal _ f args value _
        ((send_once-Spec node config c.nonces c.journal f args value gas_limit).at c
          (record { nonces = refl; journal = refl }))
        h

  abbrev Always : {A : Type 0} → Result ClientError A → ClientOf node → Type 0
  Always r c = Kept c

  passing-Kept :
      {A : Type 0} (act : Exec AttemptError (ClientOf node) A)
      → Spec Kept act (Plainly Kept)
      → Spec Kept (passing node act) Always
  passing-Kept act h = record { at = λ c k. Plainly-state node Kept Kept-Stable _ _ (h.at c k) }

  get_event_args-Kept :
      (name tx_hash : String) → Spec Kept (get_event_args node config name tx_hash) Always
  unfolding get_event_args
  get_event_args-Kept name tx_hash =
      Spec-bind (passing node (get_provider_and_contract node config)) _
        (passing-Kept _ (get_provider_and_contract-Spec node Kept Kept-Stable config))
        (λ found.
          Spec-bind (passing node (on_node raised (node.get_receipt found.0 tx_hash))) _
            (passing-Kept _ (on_node-Spec node Kept Kept-Stable raised _ (λ x. tt)))
            (λ receipt.
              Spec-bind (passing node (on_node raised (node.process_receipt found.1 name receipt)))
                _ (passing-Kept _ (on_node-Spec node Kept Kept-Stable raised _ (λ x. tt))) first
                (λ e c h. h))
            (λ e c h. h))
        (λ e c h. h)
    where
      first : (events : List node.Value) → Spec Kept (first_event node events) Always
      first [] = record { at = λ c h. h }
      first (x ∷ xs) = record { at = λ c h. h }

  perform-Kept : (o : Operation node.Value) (c : ClientOf node) → Kept c → Kept (perform o c)
  unfolding call send
  perform-Kept (do_call f args) c h =
      attempt_loop-keeps node config (read_once node config f args) ends_read reading contract_call
        Kept Kept-Stable (read_once-keeps node Kept Kept-Stable config f args) config.max_retries
        none c h
  perform-Kept (do_event name tx_hash) c h = (get_event_args-Kept name tx_hash).at c h
  perform-Kept (do_send f args value gas_limit) c h =
      attempt_loop-keeps node config (send_once node config f args value gas_limit) ends_send
        writing contract_write Kept Kept-Stable (send_once-Kept f args value gas_limit)
        config.max_retries none c h

  -- After any sequence of reads, event queries and writes, failed ones and retried ones among them,
  -- the nonces of all broadcasts of the client fall strictly from the latest to the oldest, and the
  -- next nonce is above them: no nonce is used twice. At first, this holds of the client.
  pub run-IsFresh :
      (os : List (Operation node.Value)) (c : ClientOf node)
      → IsFresh config.signer c
      → IsFresh config.signer (run os c)
  unfolding run
  run-IsFresh [] c h = h
  run-IsFresh (o ∷ os) c h = run-IsFresh os (perform o c) (perform-Kept o c h)
