-- ===== src/Bridging/CustodyLaws.antt =====
-- Proofs about the attestations of deposits.
use package.text.Mathlib.Text.{◌==◌}
use package.text.Mathlib.TextEquality.{eq_iff}
use big_x.Base.{
  ℕ, zero, suc, ◌+◌, ◌≤◌, ◌≡◌, refl, arith, String, Bool, true, false, ◌&&◌, List, [], ◌∷◌, ltb,
  if◌then◌else◌,
}
use big_x.Base.Text.{elem}
use big_x.Base.Exec.{Result, ok, err}
use big_x.Base.Triple.{Post, Keeps, Keeps-pure, Keeps-lift, Triple-bind}
use big_x.Bridging.Custody.{
  Attestation, Entry, State, Env, attest_peg_in, check_txid, check_txids, check_entries,
  check_address, check_addresses, poll_for_deposits,
}

abbrev one_if : Bool → ℕ
one_if b = if b then 1 else 0

one_if_le : (b : Bool) → one_if b ≤ 1
one_if_le b = ground arith

-- How often a transaction was attested.
abbrev pub times : String → List Attestation → ℕ
times t [] = 0
times t (a ∷ done) = one_if (t == a.txid) + times t done

-- What all rounds keep follows from what one transaction's check keeps.
module _ (env : Env) (P : State → Type 0)
    (one : (r : String) (n : ℕ) (t : String) → Keeps P (check_txid env r n t)) where
  Keeps-check_txids : (r : String) (n : ℕ) (ts : List String) → Keeps P (check_txids env r n ts)
  unfolding check_txids
  Keeps-check_txids r n [] = Keeps-pure P tt
  Keeps-check_txids r n (t ∷ ts) = Triple-bind _ _ (one r n t) (λ _. Keeps-check_txids r n ts)

  Keeps-check_entries : (r : String) (es : List Entry) → Keeps P (check_entries env r es)
  unfolding check_entries
  Keeps-check_entries r [] = Keeps-pure P tt
  Keeps-check_entries r (e ∷ es) =
      Triple-bind _ _ (Keeps-check_txids r e.amount_wei e.txids) (λ _. Keeps-check_entries r es)

  Keeps-check_address : (a r : String) → Keeps P (check_address env a r)
  unfolding check_address
  Keeps-check_address a r = record {
    at = λ s h.
        (Triple-bind _ _ (Keeps-lift P (env.list_received_by_address s.attestations a))
            (λ received. Keeps-check_entries r received)).at
          s h;
  }

  Keeps-check_addresses : (tracked : List (String × String)) → Keeps P (check_addresses env tracked)
  unfolding check_addresses
  Keeps-check_addresses [] = Keeps-pure P tt
  Keeps-check_addresses ((a, r) ∷ rest) =
      Triple-bind _ _ (Keeps-check_address a r) (λ _. Keeps-check_addresses rest)

  Keeps-poll :
      (rounds : ℕ) (tracked : List (String × String))
      → Keeps P (poll_for_deposits env rounds tracked)
  unfolding poll_for_deposits
  Keeps-poll zero tracked = Keeps-pure P tt
  Keeps-poll (suc rounds) tracked =
      Triple-bind _ _ (Keeps-check_addresses tracked) (λ _. Keeps-poll rounds tracked)

-- A transaction that was not seen was never attested, and one that was seen at most once.
abbrev AtMostOnce : String → State → Type 0
AtMostOnce t s = times t s.attestations ≤ one_if (elem t s.seen_txids)

check_txid-AtMostOnce :
    (env : Env) (t r : String) (n : ℕ) (u : String) → Keeps (AtMostOnce t) (check_txid env r n u)
unfolding check_txid attest_peg_in
check_txid-AtMostOnce env t r n u = record { at = λ s h. ground (arith, eq_iff t u, eq_iff u t) }

-- A transaction that was seen is left alone.
abbrev Settled : String → ℕ → State → Type 0
Settled t k s = (elem t s.seen_txids ≡ true) × (times t s.attestations ≡ k)

check_txid-Settled :
    (env : Env) (t : String) (k : ℕ) (r : String) (n : ℕ) (u : String)
    → Keeps (Settled t k) (check_txid env r n u)
unfolding check_txid attest_peg_in
check_txid-Settled env t k r n u = record { at = λ s h. ground (arith, eq_iff t u, eq_iff u t) }

-- What holds on both ways out of an action.
both_ways : (P : State → Type 0) (r : Result String (Unit {0}) × State) → Post P (λ _. P) r → P r.1
both_ways P (ok x, s) h = h
both_ways P (err e, s) h = h

abbrev pub new_monitor : State
new_monitor = record { seen_txids = []; attestations = [] }

times-poll_le :
    (env : Env) (rounds : ℕ) (tracked : List (String × String)) (t : String)
    → times t (poll_for_deposits env rounds tracked new_monitor).1.attestations ≤ 1
times-poll_le env rounds tracked t =
    let kept = both_ways (AtMostOnce t) (poll_for_deposits env rounds tracked new_monitor) (
      (Keeps-poll env (AtMostOnce t) (λ r n u. check_txid-AtMostOnce env t r n u) rounds tracked).at
        new_monitor (omega arith)) in
    omega (
      arith,
      kept,
      one_if_le (elem t (poll_for_deposits env rounds tracked new_monitor).1.seen_txids),
    )

-- How often the bridge accepted an attestation of a transaction.
abbrev pub accepted_times : String → List Attestation → ℕ
accepted_times t [] = 0
accepted_times t (a ∷ done) = one_if (t == a.txid && a.accepted) + accepted_times t done

accepted_times_le : (t : String) (done : List Attestation) → accepted_times t done ≤ times t done
accepted_times_le t [] = omega arith
accepted_times_le t (a ∷ done) = ground (arith, accepted_times_le t done)

-- However many rounds a new monitor makes over whatever addresses, and whatever the node and the
-- bridge answer, the bridge accepts at most one attestation of a transaction.
pub accepted_times-poll_for_deposits_le :
    (env : Env) (rounds : ℕ) (tracked : List (String × String)) (t : String)
    → accepted_times t (poll_for_deposits env rounds tracked new_monitor).1.attestations ≤ 1
accepted_times-poll_for_deposits_le env rounds tracked t = omega (
  arith,
  accepted_times_le t (poll_for_deposits env rounds tracked new_monitor).1.attestations,
  times-poll_le env rounds tracked t,
)

check_txid-rejected :
    (env : Env) (r : String) (n wei : ℕ) (t : String) (s : State)
    → elem t s.seen_txids ≡ false
    → env.confirmations s.attestations t ≡ ok n
    → ltb n env.required_confirmations ≡ false
    → env.from_hex t ≡ ok tt
    → env.confirm_peg_in s.attestations t r wei ≡ false
    → (check_txid env r wei t s).1 ≡ record {
      seen_txids = t ∷ s.seen_txids;
      attestations =
          record { txid = t; recipient = r; amount_wei = wei; accepted = false } ∷ s.attestations;
    }
unfolding check_txid attest_peg_in
check_txid-rejected env r n wei t s new asked enough hex rejected = ground arith

-- If the bridge rejects the attestation of a confirmed deposit that is new, the deposit is marked as seen
-- all the same, and however many rounds follow, none attests it again.
pub rejected_stays_rejected :
    (env : Env) (r : String) (n wei : ℕ) (t : String) (s : State) (rounds : ℕ)
    (tracked : List (String × String))
    → elem t s.seen_txids ≡ false
    → env.confirmations s.attestations t ≡ ok n
    → ltb n env.required_confirmations ≡ false
    → env.from_hex t ≡ ok tt
    → env.confirm_peg_in s.attestations t r wei ≡ false
    → let s' = (check_txid env r wei t s).1 in
      (elem t s'.seen_txids ≡ true)
      × (times t (poll_for_deposits env rounds tracked s').1.attestations ≡ times t s'.attestations)
rejected_stays_rejected env r n wei t s rounds tracked new asked enough hex rejected =
    let after = check_txid-rejected env r n wei t s new asked enough hex rejected in
    let s' = (check_txid env r wei t s).1 in
    let seen : elem t s'.seen_txids ≡ true = rw after (ground (arith, eq_iff t t)) in
    (
      seen,
      (both_ways (Settled t (times t s'.attestations)) (poll_for_deposits env rounds tracked s') (
          (Keeps-poll env (Settled t (times t s'.attestations))
              (λ r' n' u. check_txid-Settled env t (times t s'.attestations) r' n' u) rounds
              tracked).at
            s' (seen, refl))).1,
    )
