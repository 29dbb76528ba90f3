-- ===== src/Base/Spec.antt =====
-- Specifications of actions that also say which exception comes with which state.
use mathlib.Core.Logic.{inl, inr}
use big_x.Base.Exec.{Result, ok, err, Exec, pure, raise, ◌>>=◌, Result-cases}

module _ {E S A : Type 0} where
  pub record Spec (P : S → Type 0) (act : Exec E S A) (Q : Result E A → S → Type 0) : Type 0 where
    pub at : (s : S) → P s → Q (act s).0 (act s).1

  pub Spec-pure :
      (P : S → Type 0) (Q : Result E A → S → Type 0) (a : A)
      → ((s : S) → P s → Q (ok a) s)
      → Spec P (pure a) Q
  Spec-pure P Q a h = record { at = h }

  pub Spec-raise :
      (P : S → Type 0) (Q : Result E A → S → Type 0) (e : E)
      → ((s : S) → P s → Q (err e) s)
      → Spec P (raise e) Q
  Spec-raise P Q e h = record { at = h }

  -- From more, and to less.
  pub Spec-weaken :
      {P P' : S → Type 0} {Q Q' : Result E A → S → Type 0} {act : Exec E S A}
      → ((s : S) → P' s → P s)
      → Spec P act Q
      → ((r : Result E A) (s : S) → Q r s → Q' r s)
      → Spec P' act Q'
  Spec-weaken before h after = record { at = λ s p. after _ _ (h.at s (before s p)) }

module _ {E S A B : Type 0} where
  pub Spec-bind :
      {P : S → Type 0} {Q : Result E A → S → Type 0} {R : Result E B → S → Type 0} (m : Exec E S A)
      (f : A → Exec E S B)
      → Spec P m Q
      → ((a : A) → Spec (Q (ok a)) (f a) R)
      → ((e : E) (s : S) → Q (err e) s → R (err e) s)
      → Spec P (m >>= f) R
  Spec-bind {P} {Q} {R} m f h k x = record {
    at = λ s p. elim (Result-cases (m s).0) [
      | inl (a, returned) ↦
          let q : Q (ok a) (m s).1 = rw returned at (h.at s p) in rw returned ((k a).at (m s).1 q)
      | inr (e, raised) ↦
          let q : Q (err e) (m s).1 = rw raised at (h.at s p) in rw raised (x e (m s).1 q)
    ];
  }

-- `try: m except Exception as e: handler(e)`
module _ {E S A : Type 0} where
  abbrev pub except : Exec E S A → (E → Exec E S A) → Exec E S A
  except m handler s = elim (m s).0 [ ok a ↦ (ok a, (m s).1) | err e ↦ handler e (m s).1 ]

  pub Spec-except :
      {P : S → Type 0} {Q R : Result E A → S → Type 0} (m : Exec E S A) (handler : E → Exec E S A)
      → Spec P m Q
      → ((a : A) (s : S) → Q (ok a) s → R (ok a) s)
      → ((e : E) → Spec (Q (err e)) (handler e) R)
      → Spec P (except m handler) R
  Spec-except {P} {Q} {R} m handler h returns raises = record {
    at = λ s p. elim (Result-cases (m s).0) [
      | inl (a, returned) ↦
          let q : Q (ok a) (m s).1 = rw returned at (h.at s p) in
          rw (returned, except) (returns a (m s).1 q)
      | inr (e, raised) ↦
          let q : Q (err e) (m s).1 = rw raised at (h.at s p) in
          rw (raised, except) ((raises e).at (m s).1 q)
    ];
  }
