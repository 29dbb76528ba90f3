-- ===== src/Chain/Numbering.antt =====
-- Proofs about an attempt of `send` until its nonce is taken and its transaction priced.
use big_x.Base.{ℕ, ◌≡◌, refl, sym, ap, ◌⊎◌, inl, inr, String, Option, none, some, List}
use big_x.Base.Exec.{Result, ok, err}
use big_x.Base.Spec.{Spec, Spec-bind}
use big_x.Resilience.Cache.{lookup}
use big_x.Chain.Web3.{Web3}
use big_x.Chain.Client.{ClientOf, Config, AttemptError, nonce_error, raised, Broadcast, on_node}
use big_x.Chain.Nonces.{get_and_increment, next_nonce, take_nonce}
use big_x.Chain.Sends.{estimate, estimate_of, with_headroom}
use big_x.Risk.Gas.{percentile_for, last, first_rewards, priority_fee}
use big_x.Chain.Frame.{IsPlain, Plainly, Stable, on_node-Spec}
use big_x.Chain.Attempts.{Same, Took}

module _ {W : Type 0} (node : Web3 W) (config : Config) (ns : List (String × ℕ))
    (js : List (Broadcast node.Value)) where
  abbrev pub Start : ClientOf node → Type 0
  Start c = Same config ns js c.nonces c.journal

  abbrev pub Numbered : ℕ → ClientOf node → Type 0
  Numbered n c = Took config ns js n c.nonces c.journal

  pub Start-Stable : Stable Start
  Start-Stable = record {
    world = λ c w h. h;
    circuit = λ c b h. h;
    metrics = λ c m h. h;
    contracts = λ c d h. h;
  }

  pub Numbered-Stable : (n : ℕ) → Stable (Numbered n)
  Numbered-Stable n = record {
    world = λ c w h. h;
    circuit = λ c b h. h;
    metrics = λ c m h. h;
    contracts = λ c d h. h;
  }

  -- A nonce is taken, or there is none and nothing changed.
  abbrev pub Taken : Result AttemptError ℕ → ClientOf node → Type 0
  Taken (ok n) c = Numbered n c
  Taken (err e) c = IsPlain e × Start c

  take_nonce-Spec :
      (n : ℕ)
      → ((lookup config.signer ns ≡ none) ⊎ (lookup config.signer ns ≡ some n))
      → Spec Start (take_nonce node config.signer n) Taken
  take_nonce-Spec n next = record {
    at = λ c h. record { next = next; nonces = rw h.nonces refl; journal = h.journal };
  }

  pub get_and_increment-Spec :
      (w3 : node.Provider) → Spec Start (get_and_increment node w3 config.signer) Taken
  unfolding get_and_increment
  get_and_increment-Spec w3 = record {
    at = λ c h.
        (after (lookup config.signer c.nonces) (ap (lookup config.signer) (sym h.nonces))).at c h;
  }
    where
      after :
          (o : Option ℕ)
          → lookup config.signer ns ≡ o
          → Spec Start (next_nonce node w3 config.signer o) Taken
      after (some n) known = take_nonce-Spec n (inr known)
      after none new =
          Spec-bind (on_node nonce_error (node.transaction_count w3 config.signer)) _
            (on_node-Spec node Start Start-Stable nonce_error _ (λ e. tt))
            (λ n. take_nonce-Spec n (inl new)) (λ e c h. h)

  pub estimate-Spec :
      (n : ℕ) (w3 : node.Provider) (bound : node.Bound) (fallback : ℕ) (urgency : String)
      → Spec
          (Numbered n)
          (estimate node w3 bound config.signer fallback urgency)
          (Plainly (Numbered n))
  unfolding estimate
  estimate-Spec n w3 bound fallback urgency = record {
    at = λ c h.
        (Spec-bind (on_node raised (node.fee_history w3 20 (percentile_for urgency))) _
            (on_node-Spec node (Numbered n) (Numbered-Stable n) raised _ (λ e. tt))
            (λ history.
              total (with_headroom (node.estimate_gas bound config.signer c.world).0 fallback)
                (last history.base_fee_per_gas) (priority_fee (first_rewards history.reward)))
            (λ e c h. h)).at
          _ h;
  }
    where
      total :
          (gas : ℕ) (base priority : Option ℕ)
          → Spec (Numbered n) (estimate_of node gas base priority) (Plainly (Numbered n))
      total gas (some base) (some priority) = record { at = λ c h. h }
      total gas (some base) none = record { at = λ c h. (tt, h) }
      total gas none priority = record { at = λ c h. (tt, h) }
