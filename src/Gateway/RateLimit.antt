-- ===== src/Gateway/RateLimit.antt =====
-- `InMemoryRateLimiter` of shared/api/rate_limit.py: a queue of times for each client. A time is a
-- reading of `time.time()` in its smallest unit.
use big_x.Base.{
  ℕ, ◌-◌, String, Bool, true, false, Option, none, some, List, [], ◌∷◌, ◌++◌, length, ltb,
  if◌then◌else◌,
}
use big_x.Resilience.Cache.{lookup, insert}

pub record Limiter : Type 0 where
  pub limit : ℕ
  pub window_seconds : ℕ

-- `requests`, and the requests that went on to `call_next`, in their order.
pub record State : Type 0 where
  pub requests : List (String × List ℕ)
  pub called : List (String × ℕ)

abbrev or_empty : Option (List ℕ) → List ℕ
or_empty none = []
or_empty (some b) = b

-- `self.requests[client_key]`, of a default dictionary
abbrev pub bucket : String → State → List ℕ
bucket c s = or_empty (lookup c s.requests)

-- The `while` loop.
unfoldable pub prune : ℕ → ℕ → List ℕ → List ℕ
prune window now [] = []
prune window now (t ∷ ts) =
    let rest = prune window now ts in if ltb window (now - t) then rest else t ∷ ts

abbrev respond : Limiter → String → ℕ → List ℕ → State → Bool × State
respond l c now b s =
    if ltb (length b) l.limit
    then (
      true,
      record {
        requests = insert c (b ++ (now ∷ [])) s.requests;
        called = s.called ++ ((c, now) ∷ []);
      },
    )
    else (false, record s { requests = insert c b s.requests })

-- `dispatch`: whether the request went on, or was answered by "Too many requests".
unfoldable pub dispatch : Limiter → String → ℕ → State → Bool × State
dispatch l c now s = respond l c now (prune l.window_seconds now (bucket c s)) s

-- The requests of all clients, in the order in which they come.
unfoldable pub serve : Limiter → List (String × ℕ) → State → State
serve l [] s = s
serve l ((c, now) ∷ rs) s = serve l rs (dispatch l c now s).1
