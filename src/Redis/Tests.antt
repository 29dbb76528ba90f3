-- ===== src/Redis/Tests.antt =====
-- Tests of the Redis client, and its theorem at a concrete input.
use big_x.Base.{ℕ, ◌+◌, ◌≡◌, refl, true, false, none, some, min, ◌-◌}
use big_x.Base.Exec.{ok, err}
use big_x.Base.Json.{null}
use big_x.Redis.Client.{redis_error, Server, Link, get_client, increment, plain, set}
use big_x.Redis.Limits.{Window, allowed_calls, allowed_calls_lem}

-- A server with one counter and no other keys.
abbrev counter_server : Server ℕ
counter_server = record {
  ping = λ w. (ok true, w);
  aclose = λ w. (ok tt, w);
  get = λ k w. (ok none, w);
  set = λ k v ttl w. (err (redis_error "read only"), w);
  delete = λ k w. (ok tt, w);
  exists = λ k w. (ok 0, w);
  hget = λ k f w. (ok none, w);
  hset = λ k f v w. (ok tt, w);
  expire = λ k seconds w. (ok tt, w);
  incrby = λ k n w. (ok (w + n), w + n);
  acquire = λ k timeout w. (ok true, w);
  release = λ k w. (ok tt, w);
  dumps = λ j. "null";
  loads = λ t. some null;
  lower = λ t. t;
}

abbrev fresh_link : Link ℕ
fresh_link = record { connected = false; world = 0 }

abbrev counting : Link ℕ
counting = record { connected = true; world = 2 }

-- A failed write is reported as false, after the connection was made.
set_fails :
    set counter_server "k" (plain "v") none fresh_link
    ≡ (ok false, record { connected = true; world = 0 })
unfolding set get_client
set_fails = refl

increments : (increment counter_server "k" 5 (some 60) fresh_link).0 ≡ ok 5
unfolding increment get_client
increments = refl

counter_window : Window counter_server "ratelimit:alice"
counter_window = record {
  IsLive = λ w. Unit;
  count = λ w. w;
  incremented = λ w live. (refl, tt, refl);
  expiring = λ seconds w live. (refl, tt, refl);
}

allowed_calls_lem_example : allowed_calls counter_server "alice" 5 60 9 counting ≡ min 9 (5 - 2)
unfolding counter_window
allowed_calls_lem_example =
    allowed_calls_lem counter_server "alice" 5 60 counter_window 9 2 counting refl tt refl
