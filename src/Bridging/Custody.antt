-- ===== src/Bridging/Custody.antt =====
-- `BtcCustodyMonitor` of btc_custody.py. The Bitcoin node and the bridge's contract are the record Env,
-- whose answers may depend on the attestations made before. A set of texts is a list.
use big_x.Base.{ℕ, zero, suc, String, Bool, List, [], ◌∷◌, ltb, if◌then◌else◌}
use big_x.Base.Text.{elem}
use big_x.Base.Exec.{Result, ok, Exec, pure, lift, ◌>>=◌, ◌>>◌}

-- `confirm_peg_in` for a transaction, with the recipient, the amount in wei and whether it was accepted
pub record Attestation : Type 0 where
  pub txid : String
  pub recipient : String
  pub amount_wei : ℕ
  pub accepted : Bool

pub record Entry : Type 0 where
  pub amount_wei : ℕ
  pub txids : List String

pub record State : Type 0 where
  pub seen_txids : List String
  pub attestations : List Attestation

abbrev pub Action : Type 0 → Type 0
Action A = Exec String State A

pub record Env : Type 0 where
  pub required_confirmations : ℕ
  -- the entries of an address, with `int(amount * 10**18)` computed
  pub list_received_by_address : List Attestation → String → Result String (List Entry)
  pub confirmations : List Attestation → String → Result String ℕ
  -- the error of `bytes.fromhex`, if any
  pub from_hex : String → Result String (Unit {0})
  pub confirm_peg_in : List Attestation → String → String → ℕ → Bool

module _ (env : Env) where
  -- `_attest_peg_in`: an exception of `confirm_peg_in` is logged and swallowed.
  abbrev submit : String → String → ℕ → Action (Unit {0})
  submit txid recipient amount_wei s = (
    ok tt,
    record s {
      attestations =
          record {
            txid = txid;
            recipient = recipient;
            amount_wei = amount_wei;
            accepted = env.confirm_peg_in s.attestations txid recipient amount_wei;
          }
          ∷ s.attestations;
    },
  )

  unfoldable pub attest_peg_in : String → String → ℕ → Action (Unit {0})
  attest_peg_in txid recipient amount_wei = do
    lift (env.from_hex txid)
    submit txid recipient amount_wei

  abbrev mark_seen : String → Action (Unit {0})
  mark_seen txid s = (ok tt, record s { seen_txids = txid ∷ s.seen_txids })

  abbrev confirm : String → String → ℕ → ℕ → Action (Unit {0})
  confirm recipient txid amount_wei n =
      if ltb n env.required_confirmations
      then pure tt
      else (do attest_peg_in txid recipient amount_wei; mark_seen txid)

  -- The body of the inner loop.
  unfoldable pub check_txid : String → ℕ → String → Action (Unit {0})
  check_txid recipient amount_wei txid s =
      if elem txid s.seen_txids
      then (ok tt, s)
      else (do
        n ← lift (env.confirmations s.attestations txid)
        confirm recipient txid amount_wei n)
          s

  unfoldable pub check_txids : String → ℕ → List String → Action (Unit {0})
  check_txids recipient amount_wei [] = pure tt
  check_txids recipient amount_wei (t ∷ ts) =
      check_txid recipient amount_wei t >> check_txids recipient amount_wei ts

  unfoldable pub check_entries : String → List Entry → Action (Unit {0})
  check_entries recipient [] = pure tt
  check_entries recipient (e ∷ es) =
      check_txids recipient e.amount_wei e.txids >> check_entries recipient es

  -- `_check_address`
  unfoldable pub check_address : String → String → Action (Unit {0})
  check_address btc_address recipient s =
      (do
        received ← lift (env.list_received_by_address s.attestations btc_address)
        check_entries recipient received)
        s

  unfoldable pub check_addresses : List (String × String) → Action (Unit {0})
  check_addresses [] = pure tt
  check_addresses ((btc_address, recipient) ∷ rest) =
      check_address btc_address recipient >> check_addresses rest

  -- The first rounds of `poll_for_deposits`, which goes on for ever or until an exception.
  unfoldable pub poll_for_deposits : ℕ → List (String × String) → Action (Unit {0})
  poll_for_deposits zero tracked = pure tt
  poll_for_deposits (suc rounds) tracked =
      check_addresses tracked >> poll_for_deposits rounds tracked
