-- ===== src/Resilience/Cache.antt =====
-- `TTLCache` of contracts/resilience.py: a dictionary of values with the time at which each ends.
use big_x.Base.{ℕ, ◌+◌, String, Option, none, some, List, [], ◌∷◌, ltb, if◌then◌else◌}
use package.text.Mathlib.Text.{◌==◌}

module _ {ℓ} {V : Type ℓ} where
  -- `d.get(k)`, `d[k] = v` and `del d[k]`
  unfoldable pub lookup : String → List (String × V) → Option V
  lookup k [] = none
  lookup k ((j, v) ∷ d) = if j == k then some v else lookup k d

  unfoldable pub insert : String → V → List (String × V) → List (String × V)
  insert k v [] = (k, v) ∷ []
  insert k v ((j, w) ∷ d) = if j == k then (k, v) ∷ d else (j, w) ∷ insert k v d

  unfoldable pub remove : String → List (String × V) → List (String × V)
  remove k [] = []
  remove k ((j, w) ∷ d) = let rest = remove k d in if j == k then rest else (j, w) ∷ rest

pub record Cache (V : Type 0) : Type 0 where
  pub ttl : ℕ
  pub store : List (String × (ℕ × V))

module _ {V : Type 0} where
  abbrev fresh : ℕ → String → Option (ℕ × V) → Cache V → Option V × Cache V
  fresh now key none c = (none, c)
  fresh now key (some (expires_at, value)) c =
      if ltb expires_at now
      then (none, record c { store = remove key c.store })
      else (some value, c)

  unfoldable pub cache_get : ℕ → String → Cache V → Option V × Cache V
  cache_get now key c = fresh now key (lookup key c.store) c

  unfoldable pub cache_set : ℕ → String → V → Cache V → Cache V
  cache_set now key value c = record c { store = insert key (now + c.ttl, value) c.store }
