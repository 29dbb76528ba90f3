-- ===== src/Reasoning/Tests.antt =====
-- Tests of the splitter, and its theorems at concrete inputs.
use big_x.Base.{ℕ, zero, suc, ◌≡◌, refl, arith, some, List, [], ◌∷◌, length, map}
use big_x.Reasoning.Chunks.{Settings, Tokenizer, chunk_text}
use big_x.Reasoning.ChunksLaws.{concat, chunk_text-concat}

abbrev overlapping : Settings
overlapping = record { max_chars_per_chunk = 2; chunk_overlap = 1 }

-- A tokenizer that makes the same number of tokens of every text.
unfoldable copies : ℕ → List ℕ
copies zero = []
copies (suc n) = 7 ∷ copies n

length-copies : (n : ℕ) → length (copies n) ≡ n
unfolding copies
length-copies zero = refl
length-copies (suc n) = omega (arith, length-copies n)

abbrev verbose : Tokenizer ℕ ℕ
verbose = record { encode = λ text. copies 9000; decode = λ tokens. tokens }

chunk_text-concat_example :
    (cs : List (List ℕ)) × (chunk_text 9001 overlapping (some verbose) (1 ∷ [])
      ≡ some (map verbose.decode cs))
    × (concat cs ≡ copies 9000)
chunk_text-concat_example =
    chunk_text-concat 9001 overlapping verbose (1 ∷ []) (omega (arith, length-copies 9000))
      (omega (arith, length-copies 9000))
