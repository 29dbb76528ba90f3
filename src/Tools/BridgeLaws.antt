-- ===== src/Tools/BridgeLaws.antt =====
-- Proofs about the bridge tool's search: it takes the cheapest quote.
use big_x.Base.{
  ℕ, ◌≤◌, ◌≡◌, refl, sym, ap, subst, ◌∙◌, String, Bool, true, false, Option, none, some, List, [],
  ◌∷◌, ltb, arith, ◌⊎◌, inl, inr, All, Bool-cases, if◌then◌else◌,
}
use big_x.Base.Exec.{Result, ok, err}
use big_x.Resilience.Cache.{lookup}
use big_x.Tools.Bridge.{
  Circuits, Field, number, Quote, Response, refused, offered, BridgeError, Request, BridgeEnv, Tool,
  quote_of, or_number, fee_of, is_cheaper, better, answered, ask_if, quote_provider, find_best,
}

-- A quote as a provider's answer makes it: it has a fee, and names no source chain.
pub record IsQuote (q : Quote) : Type 0 where
  pub fee : ℕ
  pub has_fee : lookup "fee" q ≡ some (number fee)
  pub has_no_src : lookup "src" q ≡ none

abbrev pub IsQuotes : Option Quote → Type 0
IsQuotes none = Unit
IsQuotes (some q) = IsQuote q

quote_of-IsQuote :
    (p : String) (amount : ℕ) (fee dst_amount : Option ℕ) (tx : Option String)
    → IsQuote (quote_of p amount fee dst_amount tx)
unfolding lookup
quote_of-IsQuote p amount fee dst_amount tx = record {
  fee = or_number fee 0;
  has_fee = refl;
  has_no_src = refl;
}

module _ {W : Type 0} (env : BridgeEnv W) where
  answered-IsQuotes :
      (p : String) (amount : ℕ) (r : Result BridgeError Response × W) (t : Tool W)
      → IsQuotes (answered env p amount r t).0
  answered-IsQuotes p amount (ok (offered fee dst_amount tx), w) t =
      quote_of-IsQuote p amount fee dst_amount tx
  answered-IsQuotes p amount (ok refused, w) t = tt
  answered-IsQuotes p amount (err e, w) t = tt

  ask_if-IsQuotes :
      (a : Bool × Circuits) (p : String) (r : Request) (amount : ℕ) (t : Tool W)
      → IsQuotes (ask_if env a p r amount t).0
  ask_if-IsQuotes (false, circ) p r amount t = tt
  ask_if-IsQuotes (true, circ) p r amount t = elim (Bool-cases (env.has_api p)) [
    | inl known ↦ rw known (answered-IsQuotes p amount (env.fetch p r amount t.world) _)
    | inr unknown ↦ rw unknown tt
  ]

  quote_provider-IsQuotes :
      (p : String) (r : Request) (amount : ℕ) (t : Tool W)
      → IsQuotes (quote_provider env p r amount t).0
  unfolding quote_provider
  quote_provider-IsQuotes p r amount t = ask_if-IsQuotes _ p r amount t

  -- The answers of the providers, one after another.
  unfoldable pub answers : List String → Request → ℕ → Tool W → List (Option Quote)
  answers [] r amount t = []
  answers (p ∷ ps) r amount t =
      let (q, t') = quote_provider env p r amount t in q ∷ answers ps r amount t'

-- The quote is not dearer than an answer.
abbrev pub NotDearer : Quote → Option Quote → Type 0
NotDearer q none = Unit
NotDearer q (some a) =
    (m n : ℕ) → lookup "fee" q ≡ some (number m) → lookup "fee" a ≡ some (number n) → m ≤ n

abbrev pub IsAnswer : Quote → List (Option Quote) → Type 0
IsAnswer q [] = ⊥
IsAnswer q (a ∷ as_) = (a ≡ some q) ⊎ IsAnswer q as_

-- The result of the search: one of the answers that is not dearer than any, and none exactly when no
-- provider answered.
abbrev pub IsCheapest : List (Option Quote) → Option Quote → Type 0
IsCheapest answers none = All (λ a. a ≡ none) answers
IsCheapest answers (some q) = IsAnswer q answers × All (NotDearer q) answers

number_inj : {m n : ℕ} → ◌≡◌ {A = Option Field} (some (number m)) (some (number n)) → m ≡ n
number_inj h = cc

-- Who is not dearer than a quote is not dearer than a dearer one.
NotDearer-trans :
    (q a b : Quote)
    → IsQuote a
    → IsQuote b
    → ((m n : ℕ) → lookup "fee" a ≡ some (number m) → lookup "fee" b ≡ some (number n) → m ≤ n)
    → NotDearer q (some a)
    → NotDearer q (some b)
NotDearer-trans q a b qa qb le h m n fee_q fee_b =
    omega (arith, h m qa.fee fee_q qa.has_fee, le qa.fee n qa.has_fee fee_b)

cheaper-le :
    (a b : Quote)
    → IsQuote a
    → IsQuote b
    → (is_cheaper (fee_of (lookup "fee" a)) (fee_of (lookup "fee" b)) ≡ true → NotDearer a (some b))
      × (is_cheaper (fee_of (lookup "fee" a)) (fee_of (lookup "fee" b)) ≡ false
          → NotDearer b (some a))
cheaper-le a b qa qb = (
  (λ h m n fee_a fee_b. let test : ltb m n ≡ true = rw (fee_a, fee_b) at h in ground arith),
  (λ h n m fee_b fee_a. let test : ltb m n ≡ false = rw (fee_a, fee_b) at h in ground arith),
)

IsCheapest-skip :
    (best : Option Quote) (as_ : List (Option Quote)) (r : Option Quote)
    → IsCheapest (best ∷ as_) r
    → IsCheapest (best ∷ none ∷ as_) r
IsCheapest-skip best as_ none h = (h.0, (refl, h.1))
IsCheapest-skip best as_ (some q) (inl e, h) = (inl e, (h.0, (tt, h.1)))
IsCheapest-skip best as_ (some q) (inr m, h) = (inr (inr m), (h.0, (tt, h.1)))

IsCheapest-first :
    (as_ : List (Option Quote)) (r : Option Quote) → IsCheapest as_ r → IsCheapest (none ∷ as_) r
IsCheapest-first as_ none h = (refl, h)
IsCheapest-first as_ (some q) h = (inr h.0, (tt, h.1))

-- Of two quotes side by side the dearer one may be put back, on either side.
IsCheapest-won :
    (a b : Quote) (as_ : List (Option Quote)) (r : Option Quote)
    → IsQuote a
    → IsQuote b
    → NotDearer a (some b)
    → IsCheapest (some a ∷ as_) r
    → IsCheapest (some b ∷ some a ∷ as_) r
IsCheapest-won a b as_ none qa qb le h = cc h.0
IsCheapest-won a b as_ (some q) qa qb le h =
    (inr h.0, (NotDearer-trans q a b qa qb le h.1.0, (h.1.0, h.1.1)))

IsCheapest-lost :
    (a b : Quote) (as_ : List (Option Quote)) (r : Option Quote)
    → IsQuote a
    → IsQuote b
    → NotDearer b (some a)
    → IsCheapest (some b ∷ as_) r
    → IsCheapest (some b ∷ some a ∷ as_) r
IsCheapest-lost a b as_ none qa qb le h = cc h.0
IsCheapest-lost a b as_ (some q) qa qb le (inl e, h) =
    (inl e, (h.0, (NotDearer-trans q b a qb qa le h.0, h.1)))
IsCheapest-lost a b as_ (some q) qa qb le (inr m, h) =
    (inr (inr m), (h.0, (NotDearer-trans q b a qb qa le h.0, h.1)))

IsCheapest-better :
    (best a : Option Quote) (as_ : List (Option Quote)) (r : Option Quote)
    → IsQuotes best
    → IsQuotes a
    → IsCheapest (better best a ∷ as_) r
    → IsCheapest (best ∷ a ∷ as_) r
IsCheapest-better none none as_ r qb qa h = IsCheapest-skip none as_ r h
IsCheapest-better (some b) none as_ r qb qa h = IsCheapest-skip (some b) as_ r h
IsCheapest-better none (some a) as_ r qb qa h = IsCheapest-first (some a ∷ as_) r h
IsCheapest-better (some b) (some a) as_ r qb qa h =
    let test = is_cheaper (fee_of (lookup "fee" a)) (fee_of (lookup "fee" b)) in
    let (cheaper, dearer) = cheaper-le a b qa qb in
    elim (Bool-cases test) [
      | inl won ↦
          let e : better (some b) (some a) ≡ some a =
            ap (λ (x : Bool). if x then some a else some b) won in
          IsCheapest-won a b as_ r qa qb (cheaper won) (subst (λ x. IsCheapest (x ∷ as_) r) e h)
      | inr lost ↦
          let e : better (some b) (some a) ≡ some b =
            ap (λ (x : Bool). if x then some a else some b) lost in
          IsCheapest-lost a b as_ r qa qb (dearer lost) (subst (λ x. IsCheapest (x ∷ as_) r) e h)
    ]

IsQuotes-better : (best a : Option Quote) → IsQuotes best → IsQuotes a → IsQuotes (better best a)
IsQuotes-better none none qb qa = tt
IsQuotes-better (some b) none qb qa = qb
IsQuotes-better none (some a) qb qa = qa
IsQuotes-better (some b) (some a) qb qa =
    elim (Bool-cases (is_cheaper (fee_of (lookup "fee" a)) (fee_of (lookup "fee" b)))) [
      | inl won ↦ rw won qa
      | inr lost ↦ rw lost qb
    ]

module _ {W : Type 0} (env : BridgeEnv W) where
  pub find_best-IsCheapest :
      (ps : List String) (r : Request) (amount : ℕ) (best : Option Quote) (t : Tool W)
      → IsQuotes best
      → IsCheapest (best ∷ answers env ps r amount t) (find_best env ps r amount best t).0
        × IsQuotes (find_best env ps r amount best t).0
  unfolding find_best answers
  find_best-IsCheapest [] r amount none t qb = ((refl, tt), tt)
  find_best-IsCheapest [] r amount (some b) t qb =
      ((inl refl, ((λ m n e f. omega (arith, number_inj (sym e ∙ f))), tt)), qb)
  find_best-IsCheapest (p ∷ ps) r amount best t qb =
      let a = (quote_provider env p r amount t).0 in
      let t' = (quote_provider env p r amount t).1 in
      let qa = quote_provider-IsQuotes env p r amount t in
      let (rest, quotes) =
        find_best-IsCheapest ps r amount (better best a) t' (IsQuotes-better best a qb qa) in
      (IsCheapest-better best a _ _ qb qa rest, quotes)

  only_answers :
      (as_ : List (Option Quote)) (r : Option Quote) → IsCheapest (none ∷ as_) r → IsCheapest as_ r
  only_answers as_ none h = h.1
  only_answers as_ (some q) (inl e, h) = cc
  only_answers as_ (some q) (inr m, h) = (m, h.1)

  -- The search over all providers gives one of their answers, whose fee is not above that of any, and
  -- gives none exactly when none answered.
  pub find_best-Cheapest :
      (r : Request) (amount : ℕ) (t : Tool W)
      → IsCheapest
          (answers env env.providers r amount t)
          (find_best env env.providers r amount none t).0
  find_best-Cheapest r amount t =
      only_answers _ _ (find_best-IsCheapest env.providers r amount none t tt).0
