-- ===== src/Resilience/Tests.antt =====
-- Tests of the breaker, the retry loop and the cache, and their theorems at concrete inputs.
use big_x.Base.{ℕ, suc, ◌+◌, ◌-◌, ◌≡◌, refl, String, none, some, [], ◌∷◌, arith, leb}
use big_x.Base.Exec.{err, Exec}
use big_x.Resilience.Breaker.{new_breaker, allow, record_failure}
use big_x.Resilience.BreakerLaws.{run, failures_at, verdict, failures_open}
use big_x.Resilience.Retry.{Hooks, exhausted, retry_loop, with_retry}
use big_x.Resilience.RetryLaws.{Explained, Sleeps, with_retry-Explained}
use big_x.Resilience.Cache.{Cache}

failures_open_example :
    verdict (allow 40 (record_failure 12 (run (failures_at (10 ∷ 11 ∷ [])) (new_breaker 3 30))))
    ≡ some (leb 30 (40 - 12))
failures_open_example = failures_open (10 ∷ 11 ∷ []) 12 40 (new_breaker 3 30) (omega arith)

-- A state that counts the attempts and the time slept; the clock stands still but for the sleeps.
abbrev Counted : Type 0
Counted = ℕ × ℕ

abbrev counted : Hooks Counted
counted = record {
  now = λ s. s.1;
  sleep = λ d s. (s.0, s.1 + d);
  circuit = λ s. none;
  set_circuit = λ b s. s;
}

abbrev failing : Exec String Counted ℕ
failing s = (err "timeout", (suc s.0, s.1))

counted-Sleeps : Sleeps counted failing (λ s. s.1)
counted-Sleeps = record { slept-sleep = λ d s. refl; slept-set = λ b s. refl; slept-fn = λ s. refl }

with_retry-failing :
    with_retry counted failing 3 2 (0, 0) ≡ (err (exhausted 3 (some "timeout")), (3, 6))
unfolding with_retry retry_loop
with_retry-failing = refl

with_retry-Explained_example :
    Explained counted failing 3 2 (0, 0) (with_retry counted failing 3 2 (0, 0))
with_retry-Explained_example = with_retry-Explained counted failing 3 2 (0, 0) refl

abbrev prices : Cache ℕ
prices = record { ttl = 30; store = ("btc", (40, 7)) ∷ [] }
