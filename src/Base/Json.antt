-- ===== src/Base/Json.antt =====
-- The values that `json.loads` returns. A number is an opaque code: the program only passes the
-- numbers of a plan on, and does not compute with them.
use Prim.Native.Nat.{ℕ}
use Prim.Native.String.{String}
use mathlib.Core.Bool.{Bool, false}
use mathlib.Core.Option.{Option, none, some}
use package.text.Mathlib.Text.{◌==◌}
use big_x.Base.Tests.{if◌then◌else◌}

mutual
  pub data Json : Type 0 where
    null : Json
    bool : Bool → Json
    num : ℕ → Json
    text : String → Json
    arr : Items → Json
    obj : Fields → Json

  pub data Items : Type 0 where
    nil : Items
    cons : Json → Items → Items

  pub data Fields : Type 0 where
    end : Fields
    field : String → Json → Fields → Fields

-- `d.get(k)`
abbrev pub get : Fields → String → Option Json
get end k = none
get (field j v fs) k = if j == k then some v else get fs k

-- `v == s`, for a text `s`
abbrev pub is_text : Json → String → Bool
is_text (text t) s = t == s
is_text _ s = false
