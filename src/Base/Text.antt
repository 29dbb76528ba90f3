-- ===== src/Base/Text.antt =====
-- Tests on native texts.
use Prim.Native.String.{String, [], ◌∷◌}
use mathlib.Core.Bool.{Bool, ◌||◌}
use mathlib.Core.List.{List}
use package.text.Mathlib.Text.{◌==◌, starts_with}
use big_x.Base.Lists.{any}

-- `p in s`, for texts
abbrev pub contains : String → String → Bool
contains p [] = starts_with [] p
contains p (c ∷ s) = starts_with (c ∷ s) p || contains p s

-- `s in xs`, for a list or set of texts
abbrev pub elem : String → List String → Bool
elem s xs = any (λ x. x == s) xs
