-- ===== src/Signing/ProvidersLaws.antt =====
-- Proofs about the pool that picks the fastest provider.
use big_x.Base.{
  ℕ, ◌≤◌, ◌≡◌, refl, sym, ap, subst, ◌∙◌, true, false, List, [], ◌∷◌, leb, ◌-◌, String, Bool, some,
  arith, ◌⊎◌, inl, inr, All, Bool-cases, if◌then◌else◌,
}
use big_x.Base.Exec.{Result, ok, err}
use big_x.Signing.Providers.{
  Rpc, PoolError, RpcProvider, is_ok, after_connect, probe, health_check, healthy_of, insert_sorted,
  sort_by_latency, first, get_best_provider, failover,
}

abbrev pub IsIn : RpcProvider → List RpcProvider → Type 0
IsIn p [] = ⊥
IsIn p (q ∷ qs) = (p ≡ q) ⊎ IsIn p qs

-- What the choice from a pool must be: a healthy provider of it that no healthy one is faster than; and
-- an exception exactly without a healthy one.
abbrev pub IsBest : List RpcProvider → Result PoolError RpcProvider → Type 0
IsBest ps (ok p) =
    IsIn p ps × (p.healthy ≡ true) × All (λ q. q.healthy ≡ true → p.latency ≤ q.latency) ps
IsBest ps (err e) = All (λ q. q.healthy ≡ false) ps

-- The head of the sorted list is the first of the fastest.
faster : RpcProvider → Result PoolError RpcProvider → RpcProvider
faster p (err e) = p
faster p (ok q) = if leb p.latency q.latency then p else q

first-insert :
    (p : RpcProvider) (qs : List RpcProvider)
    → first (insert_sorted p qs) ≡ ok (faster p (first qs))
unfolding faster
first-insert p [] = refl
first-insert p (q ∷ qs) = ground arith

abbrev NotFaster : ℕ → RpcProvider → Type 0
NotFaster n q = q.healthy ≡ true → n ≤ q.latency

none_faster :
    (n : ℕ) (ps : List RpcProvider) → All (λ q. q.healthy ≡ false) ps → All (NotFaster n) ps
none_faster n [] h = tt
none_faster n (q ∷ ps) h = ((λ up. cc), none_faster n ps h.1)

slower : (m n : ℕ) (ps : List RpcProvider) → m ≤ n → All (NotFaster n) ps → All (NotFaster m) ps
slower m n [] le h = tt
slower m n (q ∷ ps) le h = ((λ up. let bound = h.0 up in omega arith), slower m n ps le h.1)

faster-cases :
    (p q : RpcProvider)
    → ((faster p (ok q) ≡ p) × (p.latency ≤ q.latency))
      ⊎ ((faster p (ok q) ≡ q) × (q.latency ≤ p.latency))
unfolding faster
faster-cases p q = elim (Bool-cases (leb p.latency q.latency)) [
  | inl won ↦ inl (ap (λ b. if b then p else q) won, ground arith)
  | inr lost ↦ inr (ap (λ b. if b then p else q) lost, ground arith)
]

IsBest-cons :
    (p : RpcProvider) (ps : List RpcProvider) (r : Result PoolError RpcProvider)
    → p.healthy ≡ true
    → IsBest ps r
    → IsBest (p ∷ ps) (ok (faster p r))
unfolding faster
IsBest-cons p ps (err e) up h = (inl refl, up, (λ _. omega arith, none_faster p.latency ps h))
IsBest-cons p ps (ok q) up h = elim (faster-cases p q) [
  | inl (won, le) ↦
      subst (λ x. IsBest (p ∷ ps) (ok x)) (sym won)
        (inl refl, up, ((λ _. omega arith), slower p.latency q.latency ps le h.2))
  | inr (lost, le) ↦ subst (λ x. IsBest (p ∷ ps) (ok x)) (sym lost) (inr h.0, h.1, ((λ _. le), h.2))
]

IsBest-skip :
    (p : RpcProvider) (ps : List RpcProvider) (r : Result PoolError RpcProvider)
    → p.healthy ≡ false
    → IsBest ps r
    → IsBest (p ∷ ps) r
IsBest-skip p ps (err e) down h = (down, h)
IsBest-skip p ps (ok q) down h = (inr h.0, h.1, ((λ up. cc), h.2))

best_with :
    (p : RpcProvider) (ps : List RpcProvider)
    → p.healthy ≡ true
    → get_best_provider (p ∷ ps) ≡ ok (faster p (get_best_provider ps))
unfolding get_best_provider sort_by_latency
best_with p ps up =
    ap (λ b. first (sort_by_latency (if b then p ∷ healthy_of ps else healthy_of ps))) up
    ∙ first-insert p (sort_by_latency (healthy_of ps))

best_without :
    (p : RpcProvider) (ps : List RpcProvider)
    → p.healthy ≡ false
    → get_best_provider (p ∷ ps) ≡ get_best_provider ps
unfolding get_best_provider
best_without p ps down =
    ap (λ b. first (sort_by_latency (if b then p ∷ healthy_of ps else healthy_of ps))) down

get_best_provider-IsBest : (ps : List RpcProvider) → IsBest ps (get_best_provider ps)
get_best_provider-IsBest [] = unfold get_best_provider sort_by_latency in tt
get_best_provider-IsBest (p ∷ ps) = elim (Bool-cases p.healthy) [
  | inl up ↦
      subst (IsBest (p ∷ ps)) (sym (best_with p ps up))
        (IsBest-cons p ps _ up (get_best_provider-IsBest ps))
  | inr down ↦
      subst (IsBest (p ∷ ps)) (sym (best_without p ps down))
        (IsBest-skip p ps _ down (get_best_provider-IsBest ps))
]

-- What asking a provider finds out: it is up exactly if both making a client and reading the number of
-- the newest block return.
pub data Probe {W C : Type 0} (rpc : Rpc W C) (endpoint : String) : W → Bool → W → Type 0 where
  no_client :
      {w v : W} (e : Unit {0}) → rpc.connect endpoint w ≡ (err e, v) → Probe rpc endpoint w false v
  no_block :
      {w v u : W} (c : C) (e : Unit {0})
      → rpc.connect endpoint w ≡ (ok c, v)
      → rpc.block_number c v ≡ (err e, u)
      → Probe rpc endpoint w false u
  block :
      {w v u : W} (c : C) (n : ℕ)
      → rpc.connect endpoint w ≡ (ok c, v)
      → rpc.block_number c v ≡ (ok n, u)
      → Probe rpc endpoint w true u

-- Each provider was asked, one after another, and has the answer, the time that it took, and the time
-- at which it came.
pub data Asked {W C : Type 0} (rpc : Rpc W C)
    : List RpcProvider → W → List RpcProvider → W → Type 0 where
  nobody : {w : W} → Asked rpc [] w [] w
  asked :
      {p : RpcProvider} {ps qs : List RpcProvider} {w v u : W} {up : Bool}
      → Probe rpc p.endpoint w up v
      → Asked rpc ps v qs u
      → Asked rpc
          (p ∷ ps)
          w
          (record {
            name = p.name;
            endpoint = p.endpoint;
            healthy = up;
            latency = rpc.time v - rpc.time w;
            last_checked = some (rpc.time v);
          }
            ∷ qs)
          u

module _ {W C : Type 0} (rpc : Rpc W C) where
  probe-Probe :
      (endpoint : String) (w : W)
      → Probe rpc endpoint w (probe rpc endpoint w).0 (probe rpc endpoint w).1
  probe-Probe endpoint w = connected (rpc.connect endpoint w) refl
    where
      read :
          (c : C) (v : W) (y : Result (Unit {0}) ℕ × W)
          → rpc.connect endpoint w ≡ (ok c, v)
          → rpc.block_number c v ≡ y
          → Probe rpc endpoint w (is_ok y.0) y.1
      read c v (ok n, u) e f = block c n e f
      read c v (err x, u) e f = no_block c x e f

      connected :
          (x : Result (Unit {0}) C × W)
          → rpc.connect endpoint w ≡ x
          → Probe rpc endpoint w (after_connect rpc x.0 x.1).0 (after_connect rpc x.0 x.1).1
      connected (err x, v) e = no_client x e
      connected (ok c, v) e = read c v (rpc.block_number c v) e refl

  health_check-Asked :
      (ps : List RpcProvider) (w : W)
      → Asked rpc ps w (health_check rpc ps w).0 (health_check rpc ps w).1
  unfolding health_check
  health_check-Asked [] w = nobody
  health_check-Asked (p ∷ ps) w = asked (probe-Probe p.endpoint w) (health_check-Asked ps _)

  -- A failover asks every provider in turn, and what it returns is a healthy one of them that no healthy
  -- one is faster than, by the latencies just measured; it raises exactly when none is healthy.
  pub failover-IsBest :
      (ps : List RpcProvider) (w : W)
      → let r = failover rpc ps w in Asked rpc ps w r.1 r.2 × IsBest r.1 r.0
  unfolding failover
  failover-IsBest ps w =
      (health_check-Asked ps w, get_best_provider-IsBest (health_check rpc ps w).0)
