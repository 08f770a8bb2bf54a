-- ===== src/Base/Json.antt =====
-- A value that `JSON.parse` returns. A number counts grains of 10^-10.
use mathlib.Core.Bool.{Bool}
use mathlib.Core.Option.{Option, none, some}
use mathlib.Core.List.{List, [], ◌∷◌}
use hc_pool.Base.Compare.{if◌then◌else◌}
use hc_pool.Base.Text.{Text, text_eq}
use hc_pool.Base.Hex.{ℤ}

mutual
  pub data Json : Type 0 where
    null : Json
    bool : Bool → Json
    num : ℤ → Json
    str : Text → Json
    arr : Items → Json
    obj : Fields → Json

  pub data Items : Type 0 where
    nil : Items
    cons : Json → Items → Items

  pub data Fields : Type 0 where
    end : Fields
    field : Text → Json → Fields → Fields

abbrev pub items : Items → List Json
items nil = []
items (cons v vs) = v ∷ items vs

-- The value of a key; the last of two equal keys counts.
unfoldable pub lookup_field : Text → Fields → Option Json
lookup_field key end = none
lookup_field key (field k v fs) = elim (lookup_field key fs) [
  | some w ↦ some w
  | none ↦ if text_eq k key then some v else none
]

-- `value.key`, for a value that is neither null nor undefined.
unfoldable pub member : Text → Json → Option Json
member key (obj fs) = lookup_field key fs
member key _ = none

-- `typeof value === 'string' ? value : undefined`
unfoldable pub as_text : Option Json → Option Text
as_text (some (str s)) = some s
as_text _ = none

-- `value ?? null`
abbrev pub or_null : Option Json → Json
or_null none = null
or_null (some v) = v
