-- ===== src/Chain/Loop.antt =====
-- The loop that `call` and `send` share: up to `max_retries` attempts, with a pause_after after each one
-- that raised, but for the exceptions that end the loop.
use big_x.Base.{ℕ, zero, suc, ◌-◌, Option, none, some}
use big_x.Base.Exec.{ok, err, Exec}
use big_x.Chain.Web3.{Web3}
use big_x.Chain.Client.{
  ClientOf, Config, AttemptError, transaction_reverted, ClientError, passed, contract_reverted,
  Kind, succeeded, reverted, failed, counted, count, succeed, fail, pause_after,
}

module _ {W : Type 0} (node : Web3 W) (config : Config) where
  -- A revert is counted, and an unavailable provider is not.
  abbrev pub count_end : Kind → ClientError → ClientOf node → ClientOf node
  count_end kind (contract_reverted _) c = count (counted kind reverted) c
  count_end kind (passed (transaction_reverted _)) c = count (counted kind reverted) c
  count_end kind _ c = c

  module _ {A : Type 0} (once : Exec AttemptError (ClientOf node) A)
      (ends : AttemptError → Option ClientError) (kind : Kind)
      (exhausted : Option AttemptError → ClientError) where
    -- The state after an attempt that raised: `record_failure` and the sleep.
    abbrev pub paused : ℕ → ClientOf node → ClientOf node
    paused left c = pause_after node config (config.max_retries - left) (fail node c)

    -- The `for` with `left` rounds to go, after an attempt that raised `last`.
    unfoldable pub attempt_loop : ℕ → Option AttemptError → Exec ClientError (ClientOf node) A
    attempt_loop zero last c = (err (exhausted last), count (counted kind failed) c)
    attempt_loop (suc left) last c = elim (once c).0 [
      | ok a ↦ (ok a, count (counted kind succeeded) (succeed (once c).1))
      | err e ↦ elim (ends e) [
        | some error ↦ (err error, count_end kind error (once c).1)
        | none ↦ attempt_loop left (some e) (paused left (once c).1)
      ]
    ]
