-- ===== src/Chain/Attempts.antt =====
-- What one attempt of `send` did to the nonces and to the broadcasts, by its result.
use big_x.Base.{ℕ, ◌+◌, ◌≡◌, ◌⊎◌, String, none, some, List, ◌∷◌}
use big_x.Base.Exec.{Result, ok, err}
use big_x.Resilience.Cache.{lookup, insert}
use big_x.Chain.Client.{Config, AttemptError, transaction_reverted, Broadcast}
use big_x.Chain.Sends.{Sent}
use big_x.Chain.Frame.{IsPlain}

module _ {V : Type 0} (config : Config) (ns : List (String × ℕ)) (js : List (Broadcast V)) where
  -- Nothing was taken and nothing was broadcast: the nonces are now `ms` and the journal `ks`.
  pub record Same (ms : List (String × ℕ)) (ks : List (Broadcast V)) : Type 0 where
    pub nonces : ms ≡ ns
    pub journal : ks ≡ js

  -- The nonce `n` was taken: the stored one, or a first one.
  pub record Took (n : ℕ) (ms : List (String × ℕ)) (ks : List (Broadcast V)) : Type 0 where
    pub next : (lookup config.signer ns ≡ none) ⊎ (lookup config.signer ns ≡ some n)
    pub nonces : ms ≡ insert config.signer (n + 1) ns
    pub journal : ks ≡ js

  module _ (function_name : String) (args : List V) (value : ℕ) where
    -- The broadcast `b` of the requested call, with the nonce `n`.
    pub record Gave (n : ℕ) (b : Broadcast V) (ms : List (String × ℕ)) (ks : List (Broadcast V))
        : Type 0 where
      pub next : (lookup config.signer ns ≡ none) ⊎ (lookup config.signer ns ≡ some n)
      pub nonces : ms ≡ insert config.signer (n + 1) ns
      pub journal : ks ≡ b ∷ js
      pub called : b.function_name ≡ function_name
      pub given : b.args ≡ args
      pub paid : b.fields.value ≡ value
      pub signer : b.fields.from_address ≡ config.signer
      pub nonce : b.fields.nonce ≡ n

    -- A returned or reported hash is the one that the node answered to the broadcast.
    abbrev pub Reports : Result AttemptError Sent → Broadcast V → Type 0
    Reports (ok sent) b = b.answer ≡ ok sent.tx_hash
    Reports (err (transaction_reverted h)) b = b.answer ≡ ok h
    Reports (err _) b = Unit

    pub data Attempted (r : Result AttemptError Sent) (ms : List (String × ℕ))
        (ks : List (Broadcast V)) : Type 0 where
      early : (e : AttemptError) → r ≡ err e → IsPlain e → Same ms ks → Attempted r ms ks
      numbered :
          (n : ℕ) (e : AttemptError) → r ≡ err e → IsPlain e → Took n ms ks → Attempted r ms ks
      gave : (n : ℕ) (b : Broadcast V) → Reports r b → Gave n b ms ks → Attempted r ms ks
