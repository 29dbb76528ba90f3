-- ===== src/Chain/Tests.antt =====
-- Tests of the contract client, and its theorems at concrete inputs.
use big_x.Base.{ℕ, ◌+◌, ◌≡◌, refl, String, none, some, [], ◌∷◌, arith, length}
use big_x.Base.Exec.{Result, ok, err}
use big_x.Resilience.Breaker.{new_breaker, allow, record_failure}
use big_x.Resilience.Cache.{lookup, insert}
use big_x.Risk.Gas.{median, sorted, insert_sorted}
use big_x.Chain.Web3.{Fault, other_error, Receipt, Web3}
use big_x.Chain.Client.{
  Client, Config, contract_write, ask_breaker, pick_provider, get_or_create,
  get_provider_and_contract,
}
use big_x.Chain.Nonces.{get_and_increment}
use big_x.Chain.Loop.{attempt_loop}
use big_x.Chain.Calls.{call, shared_call}
use big_x.Chain.Sends.{estimate, broadcast, send_once, send}
use big_x.Chain.Recorded.{Recorded}
use big_x.Chain.SendLaws.{send-Recorded}
use big_x.Chain.NonceLaws.{do_call, do_event, do_send, run, run-IsFresh, IsFresh}
use big_x.Chain.CallLaws.{NeverReverts, shared_call-call}
use big_x.Base.Int.{pos}
use big_x.Chain.Registry.{
  Request, register_agent, provision_account, invalid, bad_salt, submit_request, checks_of,
}
use big_x.Chain.RegistryLaws.{Submitted, submit_request-Submitted}
use big_x.Chain.Stalled.{Stalls}
use big_x.Chain.Resent.{send-Resends}

-- A world with a clock that the sleeps move; the node gives `answer` for every receipt.
abbrev node_with : Result Fault Receipt → Web3 ℕ
node_with answer = record {
  Provider = Unit;
  Contract = String;
  Bound = String;
  Value = ℕ;
  Transaction = ℕ;
  now = λ w. w;
  sleep = λ d w. w + d;
  get_provider = λ w. (ok tt, w);
  identity = λ p. 1;
  make_contract = λ p address w. (ok address, w);
  bind = λ k f args w. (ok f, w);
  read = λ b w. (ok 12, w + 1);
  transaction_count = λ p address w. (ok 40, w);
  estimate_gas = λ b address w. (ok 100, w);
  fee_history = λ p blocks percentile w.
      (ok (record { base_fee_per_gas = 20 ∷ 30 ∷ []; reward = (2 ∷ []) ∷ (4 ∷ []) ∷ [] }), w);
  build_transaction = λ b fields w. (ok fields.nonce, w);
  sign_transaction = λ tx w. (ok tx, w);
  send_raw_transaction = λ p tx w. (ok "0xabc", w);
  wait_for_receipt = λ p h w. (answer, w + 2);
  get_receipt = λ p h w. (answer, w);
  process_receipt = λ k name receipt w. (ok [], w);
}

abbrev mined : Web3 ℕ
mined = node_with (ok (record { status = 1; gas_used = 21000; block_number = 9 }))

abbrev stalled : Web3 ℕ
stalled = node_with (err (other_error "TimeExhausted"))

abbrev config : Config
config = record {
  signer = "0xop";
  address = "0xreg";
  default_gas_limit = 400000;
  max_retries = 3;
  base_backoff = 1;
}

abbrev fresh_client : Client ℕ String ℕ
fresh_client = record {
  circuit = new_breaker 5 30;
  nonces = [];
  contracts = [];
  metrics = [];
  journal = [];
  world = 0;
}

send-mined :
    (send mined config "activate" (7 ∷ []) 0 none fresh_client).0
    ≡ ok (record { tx_hash = "0xabc"; gas_used = 21000; block_number = 9 })
unfolding send attempt_loop send_once get_provider_and_contract ask_breaker allow pick_provider
    get_or_create get_and_increment lookup insert estimate broadcast median sorted insert_sorted
send-mined = refl

send-stalled : length (send stalled config "activate" (7 ∷ []) 0 none fresh_client).1.journal ≡ 3
unfolding send attempt_loop send_once get_provider_and_contract ask_breaker allow pick_provider
    get_or_create get_and_increment lookup insert estimate broadcast record_failure median sorted
    insert_sorted
send-stalled = refl

send-Recorded_example :
    Recorded config "activate"
      (7 ∷ [])
      0
      3
      []
      (send mined config "activate" (7 ∷ []) 0 none fresh_client).0
      (send mined config "activate" (7 ∷ []) 0 none fresh_client).1.journal
send-Recorded_example = send-Recorded mined config "activate" (7 ∷ []) 0 none fresh_client

run-IsFresh_example : IsFresh "0xop" (
    run stalled config
      (do_send "activate" (7 ∷ []) 0 none
        ∷ do_call "getAgent" (7 ∷ [])
        ∷ do_event "Minted" "0xabc"
        ∷ do_send "suspend" (7 ∷ []) 0 (some 9)
        ∷ [])
      fresh_client)
unfolding lookup
run-IsFresh_example =
    run-IsFresh stalled config
      (do_send "activate" (7 ∷ []) 0 none
        ∷ do_call "getAgent" (7 ∷ [])
        ∷ do_event "Minted" "0xabc"
        ∷ do_send "suspend" (7 ∷ []) 0 (some 9)
        ∷ [])
      fresh_client refl

stalled-NeverReverts : NeverReverts stalled
stalled-NeverReverts = record {
  made = λ p address m w e. cc;
  bound = λ k f args m w e. cc;
  read = λ b m w e. cc;
}

shared_call-call_example :
    shared_call stalled config "getAgent" (7 ∷ []) fresh_client
    ≡ call stalled config "getAgent" (7 ∷ []) fresh_client
shared_call-call_example =
    shared_call-call stalled config stalled-NeverReverts "getAgent" (7 ∷ []) fresh_client

stalled-Stalls : Stalls stalled
unfolding median sorted insert_sorted
stalled-Stalls = record {
  provided = λ w. (tt, refl);
  made = λ p address w. (address, refl);
  bound = λ k f args w. (f, refl);
  counted = λ p address w. (40, refl);
  history = λ p blocks percentile w. (_, 30, 3, refl, refl, refl);
  built = λ b fields w. (fields.nonce, refl);
  signed = λ tx w. (tx, refl);
  sent = λ p raw w. ("0xabc", refl);
  lost = λ p h w. (other_error "TimeExhausted", refl);
}

send-Resends_example :
    ((last : _) × ((send stalled config "activate" (7 ∷ []) 0 none fresh_client).0
        ≡ err (contract_write last)))
    × (length (send stalled config "activate" (7 ∷ []) 0 none fresh_client).1.journal ≡ 3)
send-Resends_example =
    send-Resends stalled config "activate" (7 ∷ []) 0 none stalled-Stalls fresh_client refl
      (omega arith)

-- A text without its blanks is the text itself here, and arguments are not told apart.
abbrev registration : Request
registration =
    register_agent (pos 7) "0x00000000000000000000000000000000000000aa" "agent" "" (pos 3) "v1" ""
      ""

bad_salt_refused :
    (submit_request mined config
      (λ t. t)
      (λ a. 0)
      (provision_account (pos 7) (1 ∷ []))
      fresh_client).0
    ≡ err (invalid (bad_salt 1))
unfolding submit_request checks_of
bad_salt_refused = refl

submit_request-Submitted_example :
    Submitted mined config
      (λ t. t)
      (λ a. 0)
      registration
      fresh_client
      (submit_request mined config (λ t. t) (λ a. 0) registration fresh_client).0
      (submit_request mined config (λ t. t) (λ a. 0) registration fresh_client).1
submit_request-Submitted_example =
    submit_request-Submitted mined config (λ t. t) (λ a. 0) registration fresh_client
