-- ===== src/Reasoning/Chunks.antt =====
-- `_chunk_text` of embedding.py. A text is a list of characters, and the tokenizer an argument.
use big_x.Base.{
  ℕ, zero, suc, ◌+◌, ◌-◌, Option, none, some, List, [], ◌∷◌, map, length, take, drop, ltb, leb, min,
  if◌then◌else◌,
}

module _ {A : Type 0} where
  -- `xs[start:end]`
  abbrev pub slice : ℕ → ℕ → List A → List A
  slice start end xs = take (end - start) (drop start xs)

  abbrev pub cons_chunk : List A → Option (List (List A)) → Option (List (List A))
  cons_chunk c none = none
  cons_chunk c (some cs) = some (c ∷ cs)

  -- The loop over characters with the rounds that it is given; `none` if they do not suffice. The
  -- next start is `end - chunk_overlap`, or 0 if that is negative.
  unfoldable pub chars_from : ℕ → ℕ → ℕ → List A → ℕ → Option (List (List A))
  chars_from zero max_chars overlap text start = none
  chars_from (suc rounds) max_chars overlap text start =
      let end = min (start + max_chars) (length text) in
      let rest = chars_from rounds max_chars overlap text (end - overlap) in
      if ltb start (length text) then cons_chunk (slice start end text) rest else some []

  -- The loop over tokens.
  unfoldable pub tokens_from : ℕ → ℕ → List A → ℕ → Option (List (List A))
  tokens_from zero size tokens start = none
  tokens_from (suc rounds) size tokens start =
      let end = min (start + size) (length tokens) in
      let rest = tokens_from rounds size tokens (start + size) in
      if ltb start (length tokens) then cons_chunk (slice start end tokens) rest else some []

pub record Settings : Type 0 where
  pub max_chars_per_chunk : ℕ
  pub chunk_overlap : ℕ

-- A tokenizer over characters `C` and tokens `T`.
pub record Tokenizer (C T : Type 0) : Type 0 where
  pub encode : List C → List T
  pub decode : List T → List C

abbrev pub max_tokens : ℕ
max_tokens = 8191

-- `chunk_size`
abbrev pub chunk_size : ℕ → ℕ
chunk_size overlap = if leb (max_tokens - overlap) 0 then max_tokens else max_tokens - overlap

abbrev decoded :
    {C T : Type 0} → (List T → List C) → Option (List (List T)) → Option (List (List C))
decoded decode none = none
decoded decode (some cs) = some (map decode cs)

-- `_chunk_text`, after the text was found to be no blank, with the rounds that its loop is given.
unfoldable pub chunk_text :
    {C T : Type 0} → ℕ → Settings → Option (Tokenizer C T) → List C → Option (List (List C))
chunk_text rounds settings none text =
    let chunks = chars_from rounds settings.max_chars_per_chunk settings.chunk_overlap text 0 in
    if leb (length text) settings.max_chars_per_chunk then some (text ∷ []) else chunks
chunk_text rounds settings (some tokenizer) text =
    let tokens = tokenizer.encode text in
    let chunks = tokens_from rounds (chunk_size settings.chunk_overlap) tokens 0 in
    if leb (length tokens) max_tokens then some (text ∷ []) else decoded tokenizer.decode chunks
