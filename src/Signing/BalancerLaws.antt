-- ===== src/Signing/BalancerLaws.antt =====
-- Proofs about the pool that goes round its providers.
use big_x.Base.{
  ℕ, zero, suc, ◌+◌, ◌≤◌, ◌<◌, ◌≡◌, refl, ap, ◌∙◌, Option, some, List, [], ◌∷◌, arith, ◌⊎◌, inl,
  inr, get_elem?, length, drop,
}
use big_x.Base.Exec.{Result, ok}
use big_x.Signing.Providers.{Rpc, PoolError}
use big_x.Signing.Balancer.{Provider, Balancer, healthy_in, check_all, turn, pick, get_w3}

abbrev pub clients : {C : Type 0} → List (Provider C) → List (Option C)
clients [] = []
clients (p ∷ ps) = p.w3 ∷ clients ps

module _ {C W : Type 0} (rpc : Rpc W C) where
  -- `n` calls one after another: what they return, and the balancer after them.
  unfoldable pub calls : ℕ → Balancer C W → List (Result PoolError (Option C)) × Balancer C W
  calls zero b = ([], b)
  calls (suc n) b = let rest = calls n (get_w3 rpc b).1 in ((get_w3 rpc b).0 ∷ rest.0, rest.1)

abbrev pub all_ok : {C : Type 0} → List (Option C) → List (Result PoolError (Option C))
all_ok [] = []
all_ok (c ∷ cs) = ok c ∷ all_ok cs

module _ {C W : Type 0} (rpc : Rpc W C) (ps : List (Provider C)) where
  -- Every check finds the providers as they are.
  abbrev pub IsSteady : Type 0
  IsSteady = (w : W) → (check_all rpc ps w).0 ≡ ps

  module _ (steady : IsSteady) where
    get_w3-steady :
        (b : Balancer C W)
        → b.providers ≡ ps
        → (w : W) × (get_w3 rpc b ≡ pick (healthy_in ps) (record b { providers = ps; world = w }))
    unfolding get_w3
    get_w3-steady b e = (
      (check_all rpc b.providers b.world).1,
      ap
          (λ qs.
            pick (healthy_in qs)
              (record b { providers = qs; world = (check_all rpc b.providers b.world).1 }))
          (ap (λ qs. (check_all rpc qs b.world).0) e ∙ steady b.world),
    )

module _ {A : Type 0} where
  lt_of_drop : (i : ℕ) (xs : List A) {x : A} {rest : List A} → drop i xs ≡ x ∷ rest → i < length xs
  lt_of_drop zero [] h = cc
  lt_of_drop zero (y ∷ xs) h = omega arith
  lt_of_drop (suc i) [] h = cc
  lt_of_drop (suc i) (y ∷ xs) h = omega (arith, lt_of_drop i xs h)

  get_elem?-drop :
      (i : ℕ) (xs : List A) {x : A} {rest : List A} → drop i xs ≡ x ∷ rest → get_elem? xs i ≡ some x
  get_elem?-drop zero [] h = cc
  get_elem?-drop zero (y ∷ xs) h = cc
  get_elem?-drop (suc i) [] h = cc
  get_elem?-drop (suc i) (y ∷ xs) h = get_elem?-drop i xs h

  drop-suc :
      (i : ℕ) (xs : List A) {x : A} {rest : List A} → drop i xs ≡ x ∷ rest → drop (suc i) xs ≡ rest
  drop-suc zero [] h = cc
  drop-suc zero (y ∷ xs) h = cc
  drop-suc (suc i) [] h = cc
  drop-suc (suc i) (y ∷ xs) h = drop-suc i xs h

List-cases : {A : Type 0} (xs : List A) → (xs ≡ []) ⊎ ((x : A) × (rest : List A) × (xs ≡ x ∷ rest))
List-cases [] = inl refl
List-cases (x ∷ xs) = inr (x, xs, refl)

turn_lem : (i n : ℕ) → i < n → turn i n ≡ i
turn_lem i n h = ground arith

turn_zero : (i n : ℕ) → (i ≡ 0) ⊎ (n ≤ i) → turn i n ≡ 0
turn_zero i n (inl h) = ground arith
turn_zero i n (inr h) = ground arith

pick-at :
    {C W : Type 0} (qs : List (Provider C)) (b : Balancer C W) (i : ℕ) {p : Provider C}
    {rest : List (Provider C)}
    → drop i qs ≡ p ∷ rest
    → turn b.index (length qs) ≡ i
    → pick qs b ≡ (ok p.w3, record b { index = i + 1 })
pick-at [] b zero h t = cc
pick-at [] b (suc i) h t = cc
pick-at (q ∷ qs) b i h t = rw (t, get_elem?-drop i (q ∷ qs) h) refl

module _ {C W : Type 0} (rpc : Rpc W C) (ps : List (Provider C)) (steady : IsSteady rpc ps) where
  -- What the calls that are left in a round return, and how they leave the balancer.
  abbrev Goes : ℕ → List (Provider C) → List (Result PoolError (Option C)) × Balancer C W → Type 0
  Goes index qs r = (r.0 ≡ all_ok (clients qs)) × (r.1.index ≡ index) × (r.1.providers ≡ ps)

  one_turn :
      (b : Balancer C W) (i : ℕ) {p : Provider C} {rest : List (Provider C)}
      → b.providers ≡ ps
      → drop i (healthy_in ps) ≡ p ∷ rest
      → turn b.index (length (healthy_in ps)) ≡ i
      → (w : W) × (get_w3 rpc b ≡ (ok p.w3, record { providers = ps; index = i + 1; world = w }))
  one_turn b i e h t =
      let (w, called) = get_w3-steady rpc ps steady b e in
      (w, called ∙ pick-at (healthy_in ps) (record b { providers = ps; world = w }) i h t)

  calls-suc :
      (n : ℕ) (b b' : Balancer C W) (r : Result PoolError (Option C))
      → get_w3 rpc b ≡ (r, b')
      → calls rpc (suc n) b ≡ (r ∷ (calls rpc n b').0, (calls rpc n b').1)
  unfolding calls
  calls-suc n b b' r e = ap (λ x. (x.0 ∷ (calls rpc n x.1).0, (calls rpc n x.1).1)) e

  calls-Goes :
      (b : Balancer C W) (i : ℕ) (p : Provider C) (rest : List (Provider C)) (n : ℕ)
      → n ≡ i + length (p ∷ rest)
      → b.providers ≡ ps
      → drop i (healthy_in ps) ≡ p ∷ rest
      → turn b.index (length (healthy_in ps)) ≡ i
      → Goes n (p ∷ rest) (calls rpc (length (p ∷ rest)) b)
  calls-Goes b i p [] n m e h t =
      let (w, called) = one_turn b i e h t in
      rw (calls-suc 0 b _ (ok p.w3) called) (unfold calls in (refl, omega arith, refl))
  calls-Goes b i p (q ∷ rest) n m e h t =
      let (w, called) = one_turn b i e h t in
      let next : drop (suc i) (healthy_in ps) ≡ q ∷ rest = drop-suc i (healthy_in ps) h in
      let below = lt_of_drop (suc i) (healthy_in ps) next in
      let b' : Balancer C W = record { providers = ps; index = i + 1; world = w } in
      let goes =
        calls-Goes b' (suc i) q rest n (omega arith) refl next
          (ap (λ k. turn k (length (healthy_in ps))) (omega arith) ∙ turn_lem (suc i) _ below) in
      rw (calls-suc (length (q ∷ rest)) b b' (ok p.w3) called)
        (ap (λ rs. ok p.w3 ∷ rs) goes.0, goes.1, goes.2)

  -- While every check finds the providers as they are and some are healthy, a round of as many calls as
  -- there are healthy providers returns the client of each of them once, in their order, and leaves the
  -- balancer ready for the next round. A round starts with the index 0, or behind the healthy ones.
  pub calls_round :
      (b : Balancer C W)
      → b.providers ≡ ps
      → 0 < length (healthy_in ps)
      → (b.index ≡ 0) ⊎ (length (healthy_in ps) ≤ b.index)
      → let n = length (healthy_in ps) in
        ((calls rpc n b).0 ≡ all_ok (clients (healthy_in ps)))
        × ((calls rpc n b).1.index ≡ n)
        × ((calls rpc n b).1.providers ≡ ps)
  calls_round b e some_up ready = elim (List-cases (healthy_in ps)) [
    | inl nothing ↦ absurd (omega (arith, ap (length {0}) nothing))
    | inr (p, rest, found) ↦ rw found (
        calls-Goes b 0 p rest _ (omega arith) e found
          (turn_zero b.index (length (healthy_in ps)) ready))
  ]
