-- ===== src/Wallet/Tests.antt =====
-- Tests of the spend limits, and their theorem at a concrete input: a store that has a number for
-- each key, as a function.
use package.text.Mathlib.Text.{◌==◌ as same_text}
use package.text.Mathlib.TextEquality.{eq_iff}
use big_x.Base.{
  ℕ, ◌≡◌, ◌≢◌, refl, ap, arith, String, Bool, true, false, ◌&&◌, Option, none, some, ◌==◌,
  if◌then◌else◌, Bool-cases, inl, inr,
}
use big_x.Base.Int.{ℤ, pos, ◌+ℤ◌, ◌-ℤ◌, ◌≤ℤ◌}
use big_x.Wallet.SpendLimits.{
  Redis, Key, SpendLimitConfig, value_or_zero, daily_key, get_spent_today, check, record_spend,
}
use big_x.Wallet.SpendLaws.{record_spend_within}

abbrev is_key : Key → Key → Bool
is_key j k = same_text j.0 k.0 && j.1 == k.1

is_key-same : (k : Key) → is_key k k ≡ true
is_key-same k = ground (arith, eq_iff k.0 k.0)

pair_eq : {a b : String} {m n : ℕ} → a ≡ b → m ≡ n → ◌≡◌ {A = Key} (a, m) (b, n)
pair_eq p q = cc

is_key-other : (j k : Key) → j ≢ k → is_key j k ≡ false
is_key-other j k different = elim (Bool-cases (is_key j k)) [
  | inr other ↦ other
  | inl equal ↦
      let texts : same_text j.0 k.0 ≡ true = ground arith in
      let days : j.1 ≡ k.1 = ground arith in
      absurd (different (pair_eq ((eq_iff j.0 k.0).0 texts) days))
]

abbrev numbers : Redis
numbers = record {
  Store = Key → Option ℤ;
  get = λ k s. s k;
  incrbyfloat = λ j v s k. if is_key j k then some (value_or_zero (s k) +ℤ v) else s k;
  expire = λ j seconds s. s;
  get_incrbyfloat = λ k v s. rw (is_key-same k) refl;
  get_incrbyfloat_other = λ j k v s different. rw (is_key-other j k different) refl;
  get_expire = λ j k seconds s. refl;
}

abbrev ten_a_day : SpendLimitConfig
ten_a_day = record { per_tx_limit_usd = pos 600; daily_limit_usd = pos 1000 }

abbrev spent_four : Key → Option ℤ
spent_four k = if is_key ("7", 1) k then some (pos 400) else none

other_agent : daily_key "7" 86400 ≢ daily_key "8" 86400
other_agent same =
    let texts : "7" ≡ "8" = ap (λ k. k.0) same in
    (let e : true ≡ false = ap (λ t. same_text "7" t) texts in ground arith)

-- After four dollars another five are allowed, and one is left.
record_spend_within_example :
    let s' = record_spend numbers "7" 86400 (pos 500) spent_four in
    (get_spent_today numbers "7" 86400 s' ≤ℤ pos 1000)
    × (pos 500 ≤ℤ pos 600)
    × (pos 1000 -ℤ get_spent_today numbers "7" 86400 s' ≡ pos 100)
    × (get_spent_today numbers "8" 86400 s' ≡ get_spent_today numbers "8" 86400 spent_four)
unfolding check get_spent_today ◌-ℤ◌
record_spend_within_example =
    record_spend_within numbers (λ v. "5.00") ten_a_day "7" "8" 86400 86400 (pos 500) (pos 100)
      spent_four other_agent refl
