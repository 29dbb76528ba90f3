-- ===== src/Bridging/Tests.antt =====
-- Tests of the monitor, and its theorems at concrete inputs.
use big_x.Base.{◌≤◌, ◌≡◌, refl, true, false, [], ◌∷◌}
use big_x.Base.Text.{elem}
use big_x.Base.Exec.{ok}
use big_x.Bridging.Custody.{
  Env, poll_for_deposits, check_addresses, check_address, check_entries, check_txids, check_txid,
  attest_peg_in,
}
use big_x.Bridging.CustodyLaws.{
  times, accepted_times, new_monitor, accepted_times-poll_for_deposits_le, rejected_stays_rejected,
}

-- One deposit with seven confirmations, which the bridge rejects.
abbrev rejecting : Env
rejecting = record {
  required_confirmations = 6;
  list_received_by_address = λ done a. ok (record { amount_wei = 5; txids = "ab" ∷ [] } ∷ []);
  confirmations = λ done t. ok 7;
  from_hex = λ t. ok tt;
  confirm_peg_in = λ done t r wei. false;
}

abbrev accepting : Env
accepting = record rejecting { confirm_peg_in = λ done t r wei. true }

-- It is accepted in the first round.
accepted :
    accepted_times "ab"
      (poll_for_deposits accepting 3 (("bc1", "0x1") ∷ []) new_monitor).1.attestations
    ≡ 1
unfolding poll_for_deposits check_addresses check_address check_entries check_txids check_txid
    attest_peg_in
accepted = refl

accepted_times-poll_for_deposits_le_example :
    accepted_times "ab"
      (poll_for_deposits accepting 3 (("bc1", "0x1") ∷ []) new_monitor).1.attestations
    ≤ 1
accepted_times-poll_for_deposits_le_example =
    accepted_times-poll_for_deposits_le accepting 3 (("bc1", "0x1") ∷ []) "ab"

rejected_stays_rejected_example :
    let s' = (check_txid rejecting "0x1" 5 "ab" new_monitor).1 in
    (elem "ab" s'.seen_txids ≡ true)
    × (times "ab" (poll_for_deposits rejecting 3 (("bc1", "0x1") ∷ []) s').1.attestations
        ≡ times "ab" s'.attestations)
rejected_stays_rejected_example =
    rejected_stays_rejected rejecting "0x1" 7 5 "ab" new_monitor 3 (("bc1", "0x1") ∷ []) refl refl
      refl refl refl
