-- ===== src/Base/Triple.antt =====
-- Partial specifications of actions: from `P`, a return leaves `Q` and a raise leaves `X`.
use mathlib.Core.Path.{◌≡◌, refl}
use mathlib.Core.Logic.{inl, inr}
use big_x.Base.Exec.{Result, ok, err, Exec, pure, raise, lift, or_raise, ◌>>=◌, Result-cases}
use mathlib.Core.Option.{Option, none, some}

module _ {E S A : Type 0} where
  abbrev pub Post : (S → Type 0) → (A → S → Type 0) → Result E A × S → Type 0
  Post X Q (ok a, s) = Q a s
  Post X Q (err e, s) = X s

  pub record Triple (X P : S → Type 0) (act : Exec E S A) (Q : A → S → Type 0) : Type 0 where
    pub at : (s : S) → P s → Post X Q (act s)

  -- An action that keeps `P` on every way out.
  abbrev pub Keeps : (S → Type 0) → Exec E S A → Type 0
  Keeps P act = Triple P P act (λ _. P)

  pub Triple-pure : (X : S → Type 0) (Q : A → S → Type 0) (a : A) → Triple X (Q a) (pure a) Q
  Triple-pure X Q a = record { at = λ s h. h }

  pub Keeps-pure : (P : S → Type 0) (a : A) → Keeps P (pure a)
  Keeps-pure P a = record { at = λ s h. h }

  pub Keeps-raise : (P : S → Type 0) (e : E) → Keeps P (raise e)
  Keeps-raise P e = record { at = λ s h. h }

  pub Keeps-lift : (P : S → Type 0) (r : Result E A) → Keeps P (lift r)
  Keeps-lift P (ok a) = record { at = λ s h. h }
  Keeps-lift P (err e) = record { at = λ s h. h }

  pub Keeps-or_raise : (P : S → Type 0) (o : Option A) (e : E) → Keeps P (or_raise o e)
  Keeps-or_raise P none e = record { at = λ s h. h }
  Keeps-or_raise P (some a) e = record { at = λ s h. h }

module _ {E S A B : Type 0} where
  pub Triple-bind :
      {X P : S → Type 0} {Q : A → S → Type 0} {R : B → S → Type 0} (m : Exec E S A)
      (f : A → Exec E S B)
      → Triple X P m Q
      → ((a : A) → Triple X (Q a) (f a) R)
      → Triple X P (m >>= f) R
  Triple-bind {X} {P} {Q} {R} m f h k = record {
    at = λ s p. elim (Result-cases (m s).0) [
      | inl (a, returned) ↦
          let q : Post {E = E} X Q (ok a, (m s).1) = rw returned at (h.at s p) in
          rw returned ((k a).at (m s).1 q)
      | inr (e, raised) ↦
          let x : Post {E = E} X Q (err e, (m s).1) = rw raised at (h.at s p) in rw raised x
    ];
  }

abbrev pub Top : {S : Type 0} → S → Type 0
Top s = Unit

module _ {E S A : Type 0} (P : Type 0) where
  -- What holds whatever the state is holds after an action too.
  pub Triple-const : (act : Exec E S A) → Triple Top (λ _. P) act (λ _ _. P)
  Triple-const act = record {
    at = λ s p. elim (Result-cases (act s).0) [
      | inl (a, e) ↦ rw (e, Post) p
      | inr (x, e) ↦ rw (e, Post) tt
    ];
  }

  -- The value that a lookup found, or that a result is, is known after it.
  pub Triple-or_raise :
      (o : Option A) (e : E) → Triple {S = S} Top (λ _. P) (or_raise o e) (λ a _. P × (o ≡ some a))
  Triple-or_raise none e = record { at = λ s p. tt }
  Triple-or_raise (some a) e = record { at = λ s p. (p, refl) }

  pub Triple-lift : (r : Result E A) → Triple {S = S} Top (λ _. P) (lift r) (λ a _. P × (r ≡ ok a))
  Triple-lift (ok a) = record { at = λ s p. (p, refl) }
  Triple-lift (err e) = record { at = λ s p. tt }

module _ {E S A B : Type 0} (P : Type 0) where
  pub Triple-after :
      {R : B → S → Type 0} (act : Exec E S A) {f : A → Exec E S B}
      → ((a : A) → Triple Top (λ _. P) (f a) R)
      → Triple Top (λ _. P) (act >>= f) R
  Triple-after act {f} h = Triple-bind act f (Triple-const P act) h
