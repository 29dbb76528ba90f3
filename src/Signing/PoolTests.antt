-- ===== src/Signing/PoolTests.antt =====
-- Tests of the two pools of providers, and their theorems at concrete inputs.
use big_x.Base.{
  ℕ, ◌+◌, ◌≡◌, refl, arith, String, true, false, none, some, List, [], ◌∷◌, inl, if◌then◌else◌,
}
use big_x.Base.Exec.{Result, ok, err}
use big_x.Signing.Providers.{
  Rpc, PoolError, no_healthy, RpcProvider, health_check, sort_by_latency, get_best_provider,
  failover,
}
use big_x.Signing.ProvidersLaws.{IsBest, Asked, failover-IsBest}
use big_x.Signing.Balancer.{Provider, Balancer, healthy_in, check_all, get_w3}
use big_x.Signing.BalancerLaws.{IsSteady, calls, all_ok, clients, calls_round}
use package.text.Mathlib.Text.{◌==◌}

-- The world is the time. A connection takes a tick, and a block number ten from the slow provider.
abbrev net : Rpc ℕ String
net = record {
  connect = λ endpoint now. (if endpoint == "gone" then err tt else ok endpoint, now + 1);
  block_number = λ c now. (ok 7, if c == "slow" then now + 10 else now);
  time = λ now. now;
}

abbrev provider : String → RpcProvider
provider e = record { name = e; endpoint = e; healthy = true; latency = 0; last_checked = none }

abbrev pool : List RpcProvider
pool = provider "gone" ∷ provider "slow" ∷ provider "fast" ∷ []

name_of : Result PoolError RpcProvider → String
name_of (ok p) = p.name
name_of (err e) = "none"

fastest : name_of (failover net pool 5).0 ≡ "fast"
unfolding name_of failover health_check get_best_provider sort_by_latency
fastest = refl

none_left : (failover net (provider "gone" ∷ []) 5).0 ≡ err no_healthy
unfolding failover health_check get_best_provider sort_by_latency
none_left = refl

failover-IsBest_example : let r = failover net pool 5 in Asked net pool 5 r.1 r.2 × IsBest r.1 r.0
failover-IsBest_example = failover-IsBest net pool 5

abbrev connected : String → Provider String
connected e = record { name = e; endpoint = e; w3 = some e; healthy = true }

abbrev members : List (Provider String)
members =
    connected "a"
    ∷ record { name = "x"; endpoint = "gone"; w3 = none; healthy = false }
    ∷ connected "b"
    ∷ []

abbrev balancer : Balancer String ℕ
balancer = record { providers = members; index = 0; world = 5 }

members-IsSteady : IsSteady net members
unfolding check_all
members-IsSteady w = refl

three_calls : (calls net 3 balancer).0 ≡ ok (some "a") ∷ ok (some "b") ∷ ok (some "a") ∷ []
unfolding calls get_w3 check_all
three_calls = refl

calls_round_example :
    ((calls net 2 balancer).0 ≡ all_ok (clients (healthy_in members)))
    × ((calls net 2 balancer).1.index ≡ 2)
    × ((calls net 2 balancer).1.providers ≡ members)
calls_round_example =
    calls_round net members members-IsSteady balancer refl (omega arith) (inl refl)
