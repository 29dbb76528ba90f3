-- ===== src/Tools/DefiLaws.antt =====
-- Proofs about the plans of the lending tool.
use native.Mathlib.Nat.{pow-suc, div-mul-le_self, lt-div-mul-add}
use big_x.Base.{
  ℕ, zero, suc, ◌+◌, ◌*◌, ◌^◌, ◌≤◌, ◌<◌, ◌≡◌, refl, String, true, false, ◌⊎◌, inl, inr, Option,
  none, some, [], ◌∷◌, arith, Bool-cases,
}
use big_x.Base.Exec.{ok, Result-cases}
use big_x.Base.Triple.{Post, Triple, Top, Triple-bind, Triple-after, Triple-or_raise, Triple-lift}
use big_x.Tools.Defi.{
  Decimal, AssetConfig, PoolConfig, Adapter, addr, amount, DefiError, no_pool, unknown_asset,
  unsupported_protocol, Contracts, ToolCall, CallPlan, Params, Defi, deposit_args, withdraw_args,
  check_not_paused, is_over, is_under, to_decimal_amount, raw_amount, adapter_of, Registries,
  call_to, act, build_call_plan,
}
use package.text.Mathlib.Text.{◌==◌ as same_text}

-- The amount lies within the limits of its asset.
pub record IsLimited (a : Decimal) (asset : AssetConfig) : Type 0 where
  pub positive : 0 < a.digits
  pub not_under : is_under a asset.min_amount ≡ false
  pub not_over : is_over a asset.max_amount ≡ false

to_decimal_amount-IsLimited :
    (raw : Option Decimal) (asset : AssetConfig) (a : Decimal)
    → to_decimal_amount raw asset ≡ ok a
    → IsLimited a asset
unfolding to_decimal_amount
to_decimal_amount-IsLimited none asset a h = cc
to_decimal_amount-IsLimited (some b) asset a h = ground arith

-- `n` is the amount in the smallest unit, rounded down.
abbrev pub IsRaw : ℕ → Decimal → ℕ → Type 0
IsRaw n a decimals =
    (n * 10 ^ a.places ≤ a.digits * 10 ^ decimals)
    × (a.digits * 10 ^ decimals < (n + 1) * 10 ^ a.places)

ten_pos : (k : ℕ) → 0 < 10 ^ k
ten_pos zero = omega arith
ten_pos (suc k) = omega (arith, pow-suc 10 k, ten_pos k)

raw_amount-IsRaw : (a : Decimal) (decimals : ℕ) → IsRaw (raw_amount a decimals) a decimals
raw_amount-IsRaw a decimals = (
  div-mul-le_self (a.digits * 10 ^ decimals) (10 ^ a.places),
  omega (arith, lt-div-mul-add {a = a.digits * 10 ^ decimals} (ten_pos a.places)),
)

module _ {W : Type 0} (web3 : Contracts W) where
  -- The calls of a plan: a deposit comes with the approval of just its amount for the pool, and a
  -- withdrawal with none.
  abbrev pub AreCalls :
      String → Adapter → PoolConfig → AssetConfig → ℕ → String → String × Option ToolCall → Type 0
  AreCalls action adapter pool asset n owner calls =
      ((same_text action "deposit" ≡ true)
        × (web3.encode pool.address "supply" (deposit_args adapter asset.address n owner)
            ≡ ok calls.0)
        × ((c : String) × (web3.encode asset.address "approve" (addr pool.address ∷ amount n ∷ [])
              ≡ ok c)
            × (calls.1 ≡ some (call_to asset.address c))))
      ⊎ ((same_text action "withdraw" ≡ true)
          × (web3.encode pool.address "withdraw" (withdraw_args adapter asset.address n owner)
              ≡ ok calls.0)
          × (calls.1 ≡ none))

  act-AreCalls :
      (P : Type 0) (action : String) (adapter : Adapter) (pool : PoolConfig) (asset : AssetConfig)
      (n : ℕ) (owner : String)
      → Triple {S = Defi W} Top
          (λ _. P)
          (act web3 action adapter pool asset n owner)
          (λ calls _. P × AreCalls action adapter pool asset n owner calls)
  act-AreCalls P action adapter pool asset n owner =
      elim (Bool-cases (same_text action "deposit")) [
        | inl put ↦ rw put (record {
          at = λ s p.
              elim (Result-cases
                (web3.encode pool.address "supply" (deposit_args adapter asset.address n owner))) [
                  | inr (x, e) ↦ rw (e, Post) tt
                  | inl (c, e) ↦
                      elim (Result-cases
                        (web3.encode asset.address "approve" (addr pool.address ∷ amount n ∷ []))) [
                          | inr (x, f) ↦ rw (e, f, Post) tt
                          | inl (d, f) ↦ rw (e, f, Post) (p, inl (refl, e, (d, f, refl)))
                        ]
                ];
        })
        | inr other ↦ elim (Bool-cases (same_text action "withdraw")) [
          | inl take ↦
              rw (other, take)
                (record {
                  at = λ s p.
                      elim (Result-cases (
                        web3.encode pool.address "withdraw"
                          (withdraw_args adapter asset.address n owner))) [
                            | inr (x, e) ↦ rw (e, Post) tt
                            | inl (c, e) ↦ rw (e, Post) (p, inr (refl, e, refl))
                          ];
                })
          | inr unknown ↦ rw (other, unknown) (record { at = λ s p. tt })
        ]
      ]

  -- What a plan that was built is: a call of the pool that is registered for the protocol and the chain,
  -- with the amount rounded down to the smallest unit of the asset.
  pub record IsPlan (reg : Registries) (action : String) (params : Params) (plan : CallPlan)
      : Type 0 where
    pub adapter : Adapter
    pub pool : PoolConfig
    pub asset : AssetConfig
    pub known : adapter_of params.protocol ≡ some adapter
    pub registered : reg.pools params.protocol params.chain_id ≡ some pool
    pub listed : reg.assets params.asset ≡ some asset
    pub limited : IsLimited plan.amount asset
    pub raw : ℕ
    pub rounded : IsRaw raw plan.amount asset.decimals
    pub target : plan.action_call.target ≡ pool.address
    pub no_value : plan.action_call.value ≡ 0
    pub calls :
        AreCalls action adapter pool asset raw params.on_behalf_of
          (plan.action_call.calldata, plan.approval_call)

  build_call_plan-Triple :
      (reg : Registries) (action : String) (params : Params)
      → Triple {S = Defi W} Top Top
          (build_call_plan web3 reg action params)
          (λ plan _. IsPlan reg action params plan)
  unfolding build_call_plan
  build_call_plan-Triple reg action params =
      Triple-bind _ _ (Triple-or_raise Unit (adapter_of params.protocol) unsupported_protocol)
        λ adapter.
          Triple-bind _ _ (Triple-or_raise _ (reg.pools params.protocol params.chain_id) no_pool)
            λ pool.
              Triple-bind _ _ (Triple-or_raise _ (reg.assets params.asset) unknown_asset) λ asset.
                Triple-bind _ _ (Triple-lift _ (to_decimal_amount params.raw asset)) λ a.
                  Triple-after _ (check_not_paused web3 adapter pool asset) λ _.
                    Triple-bind _ _
                      (act-AreCalls _ action adapter pool asset (raw_amount a asset.decimals)
                        params.on_behalf_of)
                      λ calls. record {
                        at = λ s (((((_, known), registered), listed), checked), are). record {
                          adapter = adapter;
                          pool = pool;
                          asset = asset;
                          known = known;
                          registered = registered;
                          listed = listed;
                          limited = to_decimal_amount-IsLimited params.raw asset a checked;
                          raw = raw_amount a asset.decimals;
                          rounded = raw_amount-IsRaw a asset.decimals;
                          target = refl;
                          no_value = refl;
                          calls = are;
                        };
                      }

  -- A plan that is built calls the pool of the protocol on the chain, with no value, for the amount in
  -- the smallest unit rounded down, which lies within the asset's limits; a deposit comes with the
  -- approval of exactly that amount for that pool, and a withdrawal with none.
  pub build_call_plan-IsPlan :
      (reg : Registries) (action : String) (params : Params) (s s' : Defi W) (plan : CallPlan)
      → build_call_plan web3 reg action params s ≡ (ok plan, s')
      → IsPlan reg action params plan
  build_call_plan-IsPlan reg action params s s' plan h =
      let planned : Post {E = DefiError} Top (λ p _. IsPlan reg action params p) (ok plan, s') =
        rw h at ((build_call_plan-Triple reg action params).at s tt) in
      planned
