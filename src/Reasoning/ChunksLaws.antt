-- ===== src/Reasoning/ChunksLaws.antt =====
-- Proofs about the chunks of a text.
use big_x.Base.{
  ℕ, zero, suc, ◌+◌, ◌-◌, ◌≤◌, ◌<◌, ◌≡◌, refl, ap, sym, map, ◌∙◌, arith, false, Option, none, some,
  List, [], ◌∷◌, ◌++◌, length, take, drop, ltb, leb, min, inl, inr, Bool-cases,
}
use big_x.Reasoning.Chunks.{
  slice, cons_chunk, chars_from, tokens_from, Settings, Tokenizer, chunk_text, chunk_size,
  max_tokens,
}

-- With an overlap the loop over characters goes on for ever: after its last chunk it starts again
-- before the end.
chars_from-overlap :
    {A : Type 0} (rounds max_chars overlap : ℕ) (text : List A) (start : ℕ)
    → 1 ≤ overlap
    → start < length text
    → chars_from rounds max_chars overlap text start ≡ none
unfolding chars_from
chars_from-overlap zero max_chars overlap text start o h = refl
chars_from-overlap (suc rounds) max_chars overlap text start o h =
    let next : min (start + max_chars) (length text) - overlap < length text = omega arith in
    ground (
      arith,
      chars_from-overlap rounds max_chars overlap text
          (min (start + max_chars) (length text) - overlap) o next,
    )

-- Without a tokenizer and with an overlap, the splitter of a text that is longer than a chunk never
-- returns, whatever number of rounds its loop is given.
pub chunk_text-overlap :
    {C : Type 0} (T : Type 0) (rounds : ℕ) (settings : Settings) (text : List C)
    → 1 ≤ settings.chunk_overlap
    → settings.max_chars_per_chunk < length text
    → chunk_text {C = C} {T = T} rounds settings none text ≡ none
unfolding chunk_text
chunk_text-overlap T rounds settings text o h =
    let stuck =
      chars_from-overlap rounds settings.max_chars_per_chunk settings.chunk_overlap text 0 o
        (omega (arith, h)) in
    ground (arith, stuck)

abbrev pub concat : {A : Type 0} → List (List A) → List A
concat [] = []
concat (c ∷ cs) = c ++ concat cs

take-drop : {A : Type 0} (n : ℕ) (xs : List A) → take n xs ++ drop n xs ≡ xs
take-drop zero xs = refl
take-drop (suc n) [] = refl
take-drop (suc n) (x ∷ xs) = ap (λ ys. x ∷ ys) (take-drop n xs)

drop_nil : {A : Type 0} (n : ℕ) → ◌≡◌ {A = List A} [] (drop n [])
drop_nil zero = refl
drop_nil (suc n) = refl

drop-drop : {A : Type 0} (m n : ℕ) (xs : List A) → drop n (drop m xs) ≡ drop (m + n) xs
drop-drop zero n xs = ap (λ k. drop k xs) (let e : n ≡ 0 + n = omega arith in e)
drop-drop (suc m) zero [] = drop_nil (suc m + 0)
drop-drop (suc m) (suc n) [] = drop_nil (suc m + suc n)
drop-drop (suc m) n (x ∷ xs) =
    drop-drop m n xs
    ∙ ap (λ k. drop k (x ∷ xs)) (let e : suc (m + n) ≡ suc m + n = omega arith in e)

append_nil : {A : Type 0} (xs : List A) → xs ++ [] ≡ xs
append_nil [] = refl
append_nil (x ∷ xs) = ap (λ ys. x ∷ ys) (append_nil xs)

drop_all : {A : Type 0} (n : ℕ) (xs : List A) → length xs ≤ n → drop n xs ≡ []
drop_all zero [] h = refl
drop_all zero (x ∷ xs) h = absurd (omega arith)
drop_all (suc n) [] h = refl
drop_all (suc n) (x ∷ xs) h = drop_all n xs (omega arith)

take_all : {A : Type 0} (n : ℕ) (xs : List A) → length xs ≤ n → take n xs ≡ xs
take_all zero [] h = refl
take_all zero (x ∷ xs) h = absurd (omega arith)
take_all (suc n) [] h = refl
take_all (suc n) (x ∷ xs) h = ap (λ ys. x ∷ ys) (take_all n xs (omega arith))

length-drop : {A : Type 0} (n : ℕ) (xs : List A) → length (drop n xs) ≡ length xs - n
length-drop zero xs = omega arith
length-drop (suc n) [] = omega arith
length-drop (suc n) (x ∷ xs) = omega (arith, length-drop n xs)

-- A chunk, and what is left after it.
slice_step :
    {A : Type 0} (start size : ℕ) (xs : List A)
    → slice start (min (start + size) (length xs)) xs ++ drop (start + size) xs ≡ drop start xs
slice_step start size xs = elim (Bool-cases (leb (start + size) (length xs))) [
  | inl inside ↦
      let k : min (start + size) (length xs) - start ≡ size = ground arith in
      rw (k, sym (drop-drop start size xs)) (take-drop size (drop start xs))
  | inr beyond ↦
      let past : length xs ≤ start + size = ground arith in
      let all : length (drop start xs) ≤ min (start + size) (length xs) - start =
        ground (arith, length-drop start xs) in
      rw
        (
          drop_all (start + size) xs past,
          take_all (min (start + size) (length xs) - start) (drop start xs) all,
        )
        (append_nil (drop start xs))
]

abbrev Joined : {A : Type 0} → List A → Option (List (List A)) → Type 0
Joined xs none = ⊥
Joined xs (some cs) = concat cs ≡ xs

cons_chunk-Joined :
    {A : Type 0} (c xs ys : List A) (o : Option (List (List A)))
    → Joined ys o
    → c ++ ys ≡ xs
    → Joined xs (cons_chunk c o)
cons_chunk-Joined c xs ys (some cs) h e = ap (λ zs. c ++ zs) h ∙ e
cons_chunk-Joined c xs ys none h e = absurd h

tokens_from-Joined :
    {A : Type 0} (rounds size : ℕ) (tokens : List A) (start : ℕ)
    → 1 ≤ size
    → length tokens - start < rounds
    → Joined (drop start tokens) (tokens_from rounds size tokens start)
unfolding tokens_from
tokens_from-Joined zero size tokens start s h = absurd (omega arith)
tokens_from-Joined (suc rounds) size tokens start s h =
    elim (Bool-cases (ltb start (length tokens))) [
      | inr done ↦ rw (done, tokens_from) (sym (drop_all start tokens (ground arith)))
      | inl more ↦
          rw (more, tokens_from)
            (cons_chunk-Joined (slice start (min (start + size) (length tokens)) tokens)
              (drop start tokens) (drop (start + size) tokens) _
              (tokens_from-Joined rounds size tokens (start + size) s (ground arith))
              (slice_step start size tokens))
    ]

Joined-some :
    {A : Type 0} (xs : List A) (o : Option (List (List A)))
    → Joined xs o
    → (cs : List (List A)) × (o ≡ some cs) × (concat cs ≡ xs)
Joined-some xs none h = absurd h
Joined-some xs (some cs) h = (cs, refl, h)

-- With a tokenizer, the splitter of a text with more than 8191 tokens returns after at most as many
-- rounds as there are tokens, and one more: the chunks are the decoded parts of the text's tokens,
-- and the parts joined in their order are all its tokens, none twice.
pub chunk_text-concat :
    {C T : Type 0} (rounds : ℕ) (settings : Settings) (tokenizer : Tokenizer C T) (text : List C)
    → max_tokens < length (tokenizer.encode text)
    → length (tokenizer.encode text) < rounds
    → (cs : List (List T)) × (chunk_text rounds settings (some tokenizer) text
        ≡ some (map tokenizer.decode cs))
      × (concat cs ≡ tokenizer.encode text)
unfolding chunk_text
chunk_text-concat rounds settings tokenizer text long enough =
    let tokens = tokenizer.encode text in
    let size = chunk_size settings.chunk_overlap in
    let (cs, cut, joined) =
      Joined-some tokens (tokens_from rounds size tokens 0)
        (tokens_from-Joined rounds size tokens 0 (ground arith) (omega arith)) in
    let e : leb (length tokens) max_tokens ≡ false = ground arith in (cs, rw (e, cut) refl, joined)
