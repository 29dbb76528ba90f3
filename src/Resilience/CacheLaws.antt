-- ===== src/Resilience/CacheLaws.antt =====
-- Proofs about the cache: a value is served until its time to live is over, and then dropped.
use big_x.Base.{
  ℕ, ◌+◌, ◌≤◌, ◌≡◌, refl, String, Option, none, some, List, [], ◌∷◌, arith, ltb, if◌then◌else◌,
}
use big_x.Resilience.Cache.{Cache, lookup, insert, remove, cache_get, cache_set}
use package.text.Mathlib.Text.{◌==◌}
use package.text.Mathlib.TextEquality.{eq_iff}

module _ {ℓ} {V : Type ℓ} where
  pub lookup-insert :
      (k j : String) (v : V) (d : List (String × V))
      → lookup j (insert k v d) ≡ (if k == j then some v else lookup j d)
  unfolding lookup insert
  lookup-insert k j v [] = refl
  lookup-insert k j v ((i, w) ∷ d) =
      ground (arith, eq_iff k j, eq_iff i k, eq_iff i j, lookup-insert k j v d)

  pub lookup-remove :
      (k j : String) (d : List (String × V))
      → lookup j (remove k d) ≡ (if k == j then none else lookup j d)
  unfolding lookup remove
  lookup-remove k j [] = ground arith
  lookup-remove k j ((i, w) ∷ d) =
      ground (arith, eq_iff k j, eq_iff i k, eq_iff i j, lookup-remove k j d)

module _ {V : Type 0} where
  -- What a reader gets for a key at a time.
  abbrev pub reading : ℕ → String → Cache V → Option V
  reading now key c = (cache_get now key c).0

  -- After a value was stored at `then_`, a read of any key at `now` gives that value for its own key
  -- exactly while `now ≤ then_ + ttl`, and for another key what it gave before.
  pub reading-cache_set :
      (then_ now : ℕ) (key other : String) (value : V) (c : Cache V)
      → reading now other (cache_set then_ key value c) ≡ (
          if key == other
          then (if ltb (then_ + c.ttl) now then none else some value)
          else reading now other c)
  unfolding cache_get cache_set
  reading-cache_set then_ now key other value c =
      ground (arith, lookup-insert key other (then_ + c.ttl, value) c.store)

  -- Reading a key changes no later reading at a time that is not earlier, of that key or another.
  pub reading-cache_get :
      (now later : ℕ) (key other : String) (c : Cache V)
      → now ≤ later
      → reading later other (cache_get now key c).1 ≡ reading later other c
  unfolding cache_get
  reading-cache_get now later key other c h =
      ground (arith, lookup-remove key other c.store, eq_iff key other)
