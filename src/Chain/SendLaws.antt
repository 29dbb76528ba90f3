-- ===== src/Chain/SendLaws.antt =====
-- Proofs about `send`: what it returns or raises is what it broadcast.
use big_x.Base.{ℕ, suc, refl, String, Option, none, List}
use big_x.Base.Exec.{Result, err, Exec}
use big_x.Chain.Web3.{Web3}
use big_x.Chain.Client.{
  ClientOf, Config, AttemptError, ClientError, contract_write, Broadcast, writing,
}
use big_x.Chain.Sends.{Sent, send_once, send, ends_send}
use big_x.Chain.Attempts.{Attempted}
use big_x.Chain.AttemptsLaws.{send_once-Spec}
use big_x.Chain.Frame.{Stable}
use big_x.Chain.LoopLaws.{count_end-keeps, Inductive, attempt_loop-Inductive, pause_after-keeps}
use big_x.Chain.Recorded.{Recorded, Grown, stepped, nothing, grown, won, ended}

module _ {W : Type 0} (node : Web3 W) (config : Config) (function_name : String)
    (args : List node.Value) (value : ℕ) (gas_limit : Option ℕ) where
  abbrev once : Exec AttemptError (ClientOf node) Sent
  once = send_once node config function_name args value gas_limit

  abbrev RecordedFrom : ℕ → ClientOf node → Result ClientError Sent → ClientOf node → Type 0
  RecordedFrom k c r c' = Recorded config function_name args value k c.journal r c'.journal

  -- A predicate on the journal alone.
  Journal-Stable :
      (P : List (Broadcast node.Value) → Type 0)
      → Stable {W = W} {C = node.Contract} (λ c. P c.journal)
  Journal-Stable P = record {
    world = λ c w h. h;
    circuit = λ c b h. h;
    metrics = λ c m h. h;
    contracts = λ c d h. h;
  }

  attempted :
      (c : ClientOf node)
      → Attempted config c.nonces c.journal function_name args value
          (once c).0
          (once c).1.nonces
          (once c).1.journal
  attempted c =
      (send_once-Spec node config c.nonces c.journal function_name args value gas_limit).at c
        (record { nonces = refl; journal = refl })

  send-Inductive : Inductive node config once ends_send writing contract_write RecordedFrom
  send-Inductive = record {
    spent = λ last c.
        nothing config function_name args value 0 c.journal (err (contract_write last)) tt;
    won = λ left c sent e. won config function_name args value _ _ _ _ _ (attempted c) left sent e;
    ended = λ left c e error x y.
        count_end-keeps node config once ends_send writing contract_write
          (λ d. Recorded config function_name args value (suc left) c.journal (err error) d.journal)
          (Journal-Stable _) error _
          (ended config function_name args value _ _ _ _ _ (attempted c) left e error x y);
    again = λ left c e r c' x y h.
        stepped config function_name args value left c.journal _ r c'.journal
          (pause_after-keeps node config once ends_send writing contract_write
            (λ d. Grown config function_name args value c.journal d.journal) (Journal-Stable _) left
            _ (grown config function_name args value _ _ _ _ _ (attempted c)))
          h;
  }

  -- A `send` hands at most `max_retries` transactions to the node, each of them with the requested
  -- function, arguments and value and from the signer. If it returns, the hash that it returns is the
  -- node's answer to the latest of them, and so is the hash of a revert; besides a revert it raises
  -- nothing but an unavailable provider and a failed write.
  pub send-Recorded :
      (c : ClientOf node)
      → Recorded config function_name args value config.max_retries c.journal
          (send node config function_name args value gas_limit c).0
          (send node config function_name args value gas_limit c).1.journal
  unfolding send
  send-Recorded c =
      attempt_loop-Inductive node config once ends_send writing contract_write RecordedFrom
        send-Inductive config.max_retries none c
