-- ===== src/Base/Table.antt =====
-- A map with text keys, as the source's plain objects and `Map`s are used: a function.
use mathlib.Core.Bool.{Bool}
use mathlib.Core.Option.{Option, none, some}
use hc_pool.Base.Compare.{if◌then◌else◌}
use hc_pool.Base.Text.{Text, text_eq}

abbrev pub Table {ℓ} : Type ℓ → Type ℓ
Table V = Text → Option V

module _ {ℓ} {V : Type ℓ} where
  abbrev pub empty : Table V
  empty k = none

  -- `table[k] = v`
  abbrev pub insert : Text → V → Table V → Table V
  insert k v m j = if text_eq k j then some v else m j

  -- `for (const k in table) if (bad(k)) delete table[k]`
  abbrev pub remove_if : (Text → V → Bool) → Table V → Table V
  remove_if bad m j = elim (m j) [ none ↦ none | some v ↦ if bad j v then none else some v ]
