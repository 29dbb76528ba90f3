-- ===== src/Signing/Balancer.antt =====
-- `RPCLoadBalancer` of contracts/wallet_service.py: the healthy providers by turns. Its lock is held
-- over no `await`.
use big_x.Base.{
  ℕ, ◌+◌, String, Bool, false, Option, none, some, List, [], ◌∷◌, leb, get_elem?, length,
  if◌then◌else◌,
}
use big_x.Base.Exec.{Result, ok, err}
use big_x.Signing.Providers.{Rpc, PoolError, no_healthy, is_ok}

pub record Provider (C : Type 0) : Type 0 where
  pub name : String
  pub endpoint : String
  pub w3 : Option C
  pub healthy : Bool

pub record Balancer (C W : Type 0) : Type 0 where
  pub providers : List (Provider C)
  pub index : ℕ
  pub world : W

module _ {C : Type 0} where
  abbrev pub healthy_in : List (Provider C) → List (Provider C)
  healthy_in [] = []
  healthy_in (p ∷ ps) = if p.healthy then p ∷ healthy_in ps else healthy_in ps

module _ {C : Type 0} where
  -- `p["w3"]` of the provider at the index, which is in range
  abbrev pub w3_of : Option (Provider C) → Option C
  w3_of none = none
  w3_of (some p) = p.w3

abbrev pub turn : ℕ → ℕ → ℕ
turn index n = if leb n index then 0 else index

module _ {C W : Type 0} where
  abbrev pub pick : List (Provider C) → Balancer C W → Result PoolError (Option C) × Balancer C W
  pick [] b = (err no_healthy, b)
  pick (p ∷ ps) b =
      let i = turn b.index (length (p ∷ ps)) in
      (ok (w3_of (get_elem? (p ∷ ps) i)), record b { index = i + 1 })

module _ {C W : Type 0} (rpc : Rpc W C) where
  -- `p["w3"].eth.block_number` with the client that is there by now
  abbrev pub asked : Provider C → C → W → Provider C × W
  asked p c w =
      (record p { w3 = some c; healthy = is_ok (rpc.block_number c w).0 }, (rpc.block_number c w).1)

  abbrev pub connected : Provider C → Result (Unit {0}) C → W → Provider C × W
  connected p (ok c) w = asked p c w
  connected p (err e) w = (record p { healthy = false }, w)

  abbrev pub check_provider : Provider C → Option C → W → Provider C × W
  check_provider p none w = connected p (rpc.connect p.endpoint w).0 (rpc.connect p.endpoint w).1
  check_provider p (some c) w = asked p c w

  -- `health_check`
  unfoldable pub check_all : List (Provider C) → W → List (Provider C) × W
  check_all [] w = ([], w)
  check_all (p ∷ ps) w =
      let (p', w') = check_provider p p.w3 w in let rest = check_all ps w' in (p' ∷ rest.0, rest.1)

  unfoldable pub get_w3 : Balancer C W → Result PoolError (Option C) × Balancer C W
  get_w3 b =
      let (ps, w) = check_all b.providers b.world in
      pick (healthy_in ps) (record b { providers = ps; world = w })
