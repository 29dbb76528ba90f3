-- ===== src/Redis/Limits.antt =====
-- Proofs about the rate limit: what it lets through.
use Prim.Native.String.{◌++◌ as ◌<>◌}
use big_x.Base.{
  ℕ, zero, suc, ◌+◌, ◌-◌, ◌≡◌, refl, ◌∙◌, ap, String, Bool, true, false, leb, min, arith, ◌==◌, inl,
  inr, if◌then◌else◌,
}
use big_x.Base.Exec.{Result, ok, err, Exec, pure, ◌>>◌, Result-cases}
use big_x.Base.Spec.{Spec, Spec-bind}
use big_x.Redis.Client.{RedisFault, Server, Link, Verdict, on_server, get_client, check_rate_limit}

-- A counter of the server while its key does not expire: `count` reads it in a state of the server
-- that is `IsLive`, and the operations on it succeed.
pub record Window {W : Type 0} (server : Server W) (key : String) : Type 1 where
  pub IsLive : W → Type 0
  pub count : W → ℕ
  pub incremented :
      (w : W)
      → IsLive w
      → ((server.incrby key 1 w).0 ≡ ok (count w + 1))
        × IsLive (server.incrby key 1 w).1
        × (count (server.incrby key 1 w).1 ≡ count w + 1)
  pub expiring :
      (seconds : ℕ) (w : W)
      → IsLive w
      → ((server.expire key seconds w).0 ≡ ok tt)
        × IsLive (server.expire key seconds w).1
        × (count (server.expire key seconds w).1 ≡ count w)

module _ {W : Type 0} (server : Server W) (identifier : String) (limit window_seconds : ℕ) where
  abbrev key : String
  key = "ratelimit:" <> identifier

  abbrev check : Exec RedisFault (Link W) Verdict
  check = check_rate_limit server identifier limit window_seconds

  abbrev let_through : Result RedisFault Verdict → ℕ
  let_through (ok v) = if v.allowed then 1 else 0
  let_through (err e) = 0

  -- How many of `k` calls, one after the other, are allowed.
  unfoldable pub allowed_calls : ℕ → Link W → ℕ
  allowed_calls zero c = 0
  allowed_calls (suc k) c = let_through (check c).0 + allowed_calls k (check c).1

  module _ (window : Window server key) where
    open window use {IsLive, count, incremented, expiring}

    -- Connected, within the window, and with the count `n`.
    abbrev At : ℕ → Link W → Type 0
    At n c = (c.connected ≡ true) × IsLive c.world × (count c.world ≡ n)

    abbrev Works : {A : Type 0} → (A → Link W → Type 0) → Result RedisFault A → Link W → Type 0
    Works Q (ok a) c = Q a c
    Works Q (err e) c = ⊥

    get_client-Works : (n : ℕ) → Spec (At n) (get_client server) (Works (λ _. At n))
    unfolding get_client
    get_client-Works n = record { at = λ c h. rw h.0 (refl, h.1, h.2) }

    incrby-Works :
        (n : ℕ)
        → Spec (At n) (on_server (server.incrby key 1)) (Works (λ v c. (v ≡ n + 1) × At (n + 1) c))
    incrby-Works n = record {
      at = λ c h.
          let i = incremented c.world h.1 in
          rw i.0 (ap (λ m. m + 1) h.2, (h.0, i.1, i.2 ∙ ap (λ m. m + 1) h.2));
    }

    expire-Works :
        (n : ℕ) → Spec (At n) (on_server (server.expire key window_seconds)) (Works (λ _. At n))
    expire-Works n = record {
      at = λ c h. let i = expiring window_seconds c.world h.1 in rw i.0 (h.0, i.1, i.2 ∙ h.2);
    }

    -- The verdict on the call that makes the count `n + 1`.
    abbrev Served : ℕ → Verdict → Link W → Type 0
    Served n v c = (v.allowed ≡ leb (n + 1) limit) × At (n + 1) c

    check-Works : (n : ℕ) → Spec (At n) check (Works (Served n))
    unfolding check_rate_limit
    check-Works n =
        Spec-bind (get_client server) _ (get_client-Works n)
          (λ _.
            Spec-bind (on_server (server.incrby key 1)) _ (incrby-Works n)
              (λ current. record { at = λ c h. (judged current h.0).at c h.1 })
              (λ e c bad. absurd bad))
          (λ e c bad. absurd bad)
      where
        either :
            (first : Bool)
            → Spec
                (At (n + 1))
                (if first then on_server (server.expire key window_seconds) else pure tt)
                (Works (λ _. At (n + 1)))
        either true = expire-Works (n + 1)
        either false = record { at = λ c h. h }

        judged :
            (current : ℕ)
            → current ≡ n + 1
            → Spec
                (At (n + 1))
                (do
                  (if current == 1 then on_server (server.expire key window_seconds) else pure tt)
                  pure (record {
                    allowed = leb current limit;
                    current = current;
                    limit = limit;
                    window_seconds = window_seconds;
                  }))
                (Works (Served n))
        judged current e =
            Spec-bind
              (if current == 1 then on_server (server.expire key window_seconds) else pure tt) _
              (either (current == 1)) (λ _. record { at = λ c h. (rw e refl, h) })
              (λ x c bad. absurd bad)

    -- Within one window, of `k` calls by an identifier that was counted `n` times before exactly
    -- `limit - n` are allowed, or all if there are fewer.
    pub allowed_calls_lem :
        (k n : ℕ) (c : Link W)
        → c.connected ≡ true
        → IsLive c.world
        → count c.world ≡ n
        → allowed_calls k c ≡ min k (limit - n)
    unfolding allowed_calls
    allowed_calls_lem zero n c on live counted = ground arith
    allowed_calls_lem (suc k) n c on live counted = elim (Result-cases (check c).0) [
      | inl (v, returned) ↦
          let s : Works (Served n) (ok v) (check c).1 =
            rw returned at ((check-Works n).at c (on, live, counted)) in
          let ih = allowed_calls_lem k (n + 1) (check c).1 s.1.0 s.1.1 s.1.2 in
          rw (allowed_calls, returned, let_through, ih, s.0) (ground arith)
      | inr (e, raised) ↦
          let s : Works (Served n) (err e) (check c).1 =
            rw raised at ((check-Works n).at c (on, live, counted)) in
          absurd s
    ]
