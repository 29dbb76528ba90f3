-- ===== src/Gateway/RateLimitLaws.antt =====
-- Proofs that the rate limiter's queues implement a sliding window over the requests that went on.
use big_x.Base.{
  ℕ, ◌+◌, ◌-◌, ◌≤◌, ◌≡◌, refl, ap, sym, ◌∙◌, String, Bool, false, ◌&&◌, not, List, [], ◌∷◌, ◌++◌,
  length, length-append, ltb, if◌then◌else◌, arith, All, Bool-cases, inl, inr,
}
use big_x.Resilience.Cache.{lookup, insert}
use big_x.Resilience.CacheLaws.{lookup-insert}
use big_x.Gateway.RateLimit.{Limiter, State, bucket, prune, dispatch, serve}
use package.text.Mathlib.Text.{◌==◌}
use package.text.Mathlib.TextEquality.{eq_iff}

-- Whether a logged request is the client's and lies in the window that ends at `now`.
abbrev pub counts : ℕ → String → ℕ → String × ℕ → Bool
counts window c now r = (r.0 == c) && not (ltb window (now - r.1))

abbrev one_if : Bool → ℕ
one_if b = if b then 1 else 0

abbrev pub recent : ℕ → String → ℕ → List (String × ℕ) → ℕ
recent window c now [] = 0
recent window c now (r ∷ log) = one_if (counts window c now r) + recent window c now log

-- The specification: it keeps only the log of the requests that went on, and lets a request pass if
-- fewer than `limit` of the same client are in the window.
abbrev pub pass : Limiter → String → ℕ → List (String × ℕ) → List (String × ℕ)
pass l c now log =
    if ltb (recent l.window_seconds c now log) l.limit then log ++ ((c, now) ∷ []) else log

abbrev pub pass_all : Limiter → List (String × ℕ) → List (String × ℕ) → List (String × ℕ)
pass_all l [] log = log
pass_all l ((c, now) ∷ rs) log = pass_all l rs (pass l c now log)

-- The clock does not step back.
abbrev pub Ordered : ℕ → List (String × ℕ) → Type 0
Ordered last [] = Unit
Ordered last ((c, now) ∷ rs) = (last ≤ now) × Ordered now rs

recent-append :
    (window : ℕ) (c d : String) (now t : ℕ) (log : List (String × ℕ))
    → recent window c now (log ++ ((d, t) ∷ []))
      ≡ recent window c now log + one_if (counts window c now (d, t))
recent-append window c d now t [] = omega arith
recent-append window c d now t (r ∷ log) = omega (arith, recent-append window c d now t log)

module _ (window : ℕ) where
  prune-prune :
      (then_ now : ℕ) (b : List ℕ)
      → then_ ≤ now
      → prune window now (prune window then_ b) ≡ prune window now b
  unfolding prune
  prune-prune then_ now [] h = refl
  prune-prune then_ now (t ∷ b) h = ground (arith, prune-prune then_ now b h)

  prune-append :
      (now t : ℕ) (b : List ℕ)
      → All (λ u. u ≤ t) b
      → prune window now (b ++ (t ∷ [])) ≡ prune window now b ++ prune window now (t ∷ [])
  unfolding prune
  prune-append now t [] h = refl
  prune-append now t (u ∷ b) h = ground (arith, prune-append now t b h.1)

  prune-All :
      (now last : ℕ) (b : List ℕ) → All (λ u. u ≤ last) b → All (λ u. u ≤ last) (prune window now b)
  unfolding prune
  prune-All now last [] h = tt
  prune-All now last (u ∷ b) h = ground (arith, prune-All now last b h.1)

All-later : (last now : ℕ) (b : List ℕ) → last ≤ now → All (λ u. u ≤ last) b → All (λ u. u ≤ now) b
All-later last now [] le h = tt
All-later last now (u ∷ b) le h = (omega arith, All-later last now b le h.1)

All-append :
    (last t : ℕ) (b : List ℕ)
    → t ≤ last
    → All (λ u. u ≤ last) b
    → All (λ u. u ≤ last) (b ++ (t ∷ []))
All-append last t [] le h = (le, tt)
All-append last t (u ∷ b) le h = (h.0, All-append last t b le h.1)

-- Each queue stands for the client's part of the log, at every time from `last` on.
record Matches (window last : ℕ) (s : State) : Type 0 where
  pub early : (c : String) → All (λ u. u ≤ last) (bucket c s)
  pub same :
      (c : String) (now : ℕ)
      → last ≤ now
      → length (prune window now (bucket c s)) ≡ recent window c now s.called

abbrev replaced : String → List ℕ → List (String × ℕ) → State → State
replaced c b log s = record { requests = insert c b s.requests; called = log }

bucket-replaced :
    (c d : String) (b : List ℕ) (log : List (String × ℕ)) (s : State)
    → bucket d (replaced c b log s) ≡ (if c == d then b else bucket d s)
bucket-replaced c d b log s = ground (arith, lookup-insert c d b s.requests)

module _ (window last now : ℕ) (le : last ≤ now) (c : String) (s : State)
    (m : Matches window last s) where
  -- A new queue for one client, which stands for its part of the new log.
  replaced-Matches :
      (b : List ℕ) (log : List (String × ℕ))
      → All (λ u. u ≤ now) b
      → ((later : ℕ) → now ≤ later → length (prune window later b) ≡ recent window c later log)
      → ((d : String) (later : ℕ)
          → c == d ≡ false
          → recent window d later log ≡ recent window d later s.called)
      → Matches window now (replaced c b log s)
  replaced-Matches b log early same others = record {
    early = λ d. elim (Bool-cases (c == d)) [
      | inl equal ↦ rw (bucket-replaced c d b log s, equal) early
      | inr other ↦
          rw (bucket-replaced c d b log s, other) (All-later last now (bucket d s) le (m.early d))
    ];
    same = λ d later h. elim (Bool-cases (c == d)) [
      | inl equal ↦
          rw (bucket-replaced c d b log s, equal)
            (same later h ∙ ap (λ x. recent window x later log) ((eq_iff c d).0 equal))
      | inr other ↦
          rw (bucket-replaced c d b log s, other)
            (m.same d later (omega arith) ∙ sym (others d later other))
    ];
  }

  pruned : List ℕ
  pruned = prune window now (bucket c s)

  early_pruned : All (λ u. u ≤ now) pruned
  unfolding pruned
  early_pruned =
      prune-All window now now (bucket c s) (All-later last now (bucket c s) le (m.early c))

  same_pruned :
      (later : ℕ)
      → now ≤ later
      → length (prune window later pruned) ≡ recent window c later s.called
  unfolding pruned
  same_pruned later h =
      ap length (prune-prune window now later (bucket c s) h) ∙ m.same c later (omega arith)

  one_appended :
      (later : ℕ) → length (prune window later (now ∷ [])) ≡ one_if (counts window c later (c, now))
  unfolding prune
  one_appended later = ground (arith, eq_iff c c)

  others_appended :
      (d : String) (later : ℕ)
      → c == d ≡ false
      → recent window d later (s.called ++ ((c, now) ∷ [])) ≡ recent window d later s.called
  others_appended d later other =
      let g = recent-append window d c later now s.called in
      let f : one_if (counts window d later (c, now)) ≡ 0 = ground arith in omega (arith, f, g)

  same_appended :
      (later : ℕ)
      → now ≤ later
      → length (prune window later (pruned ++ (now ∷ [])))
        ≡ recent window c later (s.called ++ ((c, now) ∷ []))
  same_appended later h =
      ap length (prune-append window later now pruned early_pruned)
      ∙ length-append (prune window later pruned) (prune window later (now ∷ []))
      ∙ (let e = same_pruned later h in
          let f = one_appended later in
          let g = recent-append window c c later now s.called in omega (arith, e, f, g))

-- What one request does to the log, and that the queues still stand for it.
module _ (l : Limiter) (last now : ℕ) (le : last ≤ now) (c : String) (s : State) where
  dispatch-pass :
      Matches l.window_seconds last s
      → ((dispatch l c now s).1.called ≡ pass l c now s.called)
        × Matches l.window_seconds now (dispatch l c now s).1
  unfolding dispatch pruned
  dispatch-pass m =
      let e = ap (λ n. ltb n l.limit) (sym (m.same c now le)) in
      elim (Bool-cases (ltb (length (prune l.window_seconds now (bucket c s))) l.limit)) [
        | inl passes ↦
            rw (passes, dispatch)
              (
                rw (e ∙ passes) refl,
                replaced-Matches l.window_seconds last now le c s m
                    (prune l.window_seconds now (bucket c s) ++ (now ∷ []))
                    (s.called ++ ((c, now) ∷ []))
                    (All-append now now _ (omega arith)
                      (early_pruned l.window_seconds last now le c s m))
                    (same_appended l.window_seconds last now le c s m)
                    (others_appended l.window_seconds last now le c s m),
              )
        | inr refused ↦
            rw (refused, dispatch)
              (
                rw (e ∙ refused) refl,
                replaced-Matches l.window_seconds last now le c s m
                    (prune l.window_seconds now (bucket c s)) s.called
                    (early_pruned l.window_seconds last now le c s m)
                    (same_pruned l.window_seconds last now le c s m) (λ d later other. refl),
              )
      ]

serve-pass_all_from :
    (l : Limiter) (last : ℕ) (rs : List (String × ℕ)) (s : State)
    → Matches l.window_seconds last s
    → Ordered last rs
    → (serve l rs s).called ≡ pass_all l rs s.called
unfolding serve
serve-pass_all_from l last [] s m h = refl
serve-pass_all_from l last ((c, now) ∷ rs) s m h =
    let step = dispatch-pass l last now h.0 c s m in
    serve-pass_all_from l now rs (dispatch l c now s).1 step.1 h.1 ∙ ap (pass_all l rs) step.0

abbrev pub fresh_state : State
fresh_state = record { requests = []; called = [] }

fresh_state-Matches : (window : ℕ) → Matches window 0 fresh_state
unfolding lookup prune
fresh_state-Matches window = record { early = λ c. tt; same = λ c now h. refl }

-- From the start and while the clock does not step back, the queues of all clients let exactly those
-- requests on which the specification does: a request passes if and only if fewer than `limit`
-- requests of its client passed within the last `window_seconds`, refused ones not counted.
pub serve-pass_all :
    (l : Limiter) (rs : List (String × ℕ))
    → Ordered 0 rs
    → (serve l rs fresh_state).called ≡ pass_all l rs []
serve-pass_all l rs h =
    serve-pass_all_from l 0 rs fresh_state (fresh_state-Matches l.window_seconds) h
