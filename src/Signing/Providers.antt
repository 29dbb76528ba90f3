-- ===== src/Signing/Providers.antt =====
-- The two pools of RPC providers of contracts/wallet_service.py. The clients of web3 and the clock are
-- parameters; the counter of failures and log lines are left out.
use big_x.Base.{ℕ, ◌-◌, String, Bool, true, false, Option, some, List, [], ◌∷◌, leb, if◌then◌else◌}
use big_x.Base.Exec.{Result, ok, err, Exec}

-- `Web3(Web3.HTTPProvider(endpoint))` and `w3.eth.block_number`, which may raise, and a clock that
-- does not go back.
pub record Rpc (W C : Type 0) : Type 0 where
  pub connect : String → Exec (Unit {0}) W C
  pub block_number : C → Exec (Unit {0}) W ℕ
  pub time : W → ℕ

-- `raise Exception("No healthy RPC provider available")`, of both pools
pub data PoolError : Type 0 where
  no_healthy : PoolError

pub record RpcProvider : Type 0 where
  pub name : String
  pub endpoint : String
  pub healthy : Bool
  pub latency : ℕ
  pub last_checked : Option ℕ

abbrev pub is_ok : {E A : Type 0} → Result E A → Bool
is_ok (ok a) = true
is_ok (err e) = false

module _ {W C : Type 0} (rpc : Rpc W C) where
  abbrev pub after_connect : Result (Unit {0}) C → W → Bool × W
  after_connect (err e) w = (false, w)
  after_connect (ok c) w = (is_ok (rpc.block_number c w).0, (rpc.block_number c w).1)

  -- A new client and a read of the block number: whether neither raises.
  abbrev pub probe : String → W → Bool × W
  probe endpoint w = after_connect (rpc.connect endpoint w).0 (rpc.connect endpoint w).1

  abbrev pub checked_at : RpcProvider → ℕ → Bool × W → RpcProvider
  checked_at p start (up, w) = record p {
    healthy = up;
    latency = rpc.time w - start;
    last_checked = some (rpc.time w);
  }

  -- `RPCHealthManager.health_check`
  unfoldable pub health_check : List RpcProvider → W → List RpcProvider × W
  health_check [] w = ([], w)
  health_check (p ∷ ps) w =
      let rest = health_check ps (probe p.endpoint w).1 in
      (checked_at p (rpc.time w) (probe p.endpoint w) ∷ rest.0, rest.1)

abbrev pub healthy_of : List RpcProvider → List RpcProvider
healthy_of [] = []
healthy_of (p ∷ ps) = if p.healthy then p ∷ healthy_of ps else healthy_of ps

-- `healthy.sort(key=lambda p: p.latency)`, which keeps the order of equal ones
abbrev pub insert_sorted : RpcProvider → List RpcProvider → List RpcProvider
insert_sorted p [] = p ∷ []
insert_sorted p (q ∷ qs) = if leb p.latency q.latency then p ∷ q ∷ qs else q ∷ insert_sorted p qs

unfoldable pub sort_by_latency : List RpcProvider → List RpcProvider
sort_by_latency [] = []
sort_by_latency (p ∷ ps) = insert_sorted p (sort_by_latency ps)

abbrev pub first : List RpcProvider → Result PoolError RpcProvider
first [] = err no_healthy
first (p ∷ ps) = ok p

unfoldable pub get_best_provider : List RpcProvider → Result PoolError RpcProvider
get_best_provider ps = first (sort_by_latency (healthy_of ps))

module _ {W C : Type 0} (rpc : Rpc W C) where
  unfoldable pub failover :
      List RpcProvider → W → Result PoolError RpcProvider × List RpcProvider × W
  failover ps w = let (ps', w') = health_check rpc ps w in (get_best_provider ps', ps', w')
