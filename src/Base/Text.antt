-- ===== src/Base/Text.antt =====
-- Text as a list of UTF-16 code units, as the source's strings are; all literals are ASCII.
use Prim.Native.Char.{code}
use Prim.Native.String.{String}
use Prim.Native.Nat.{ℕ, suc, ◌+◌, ◌-◌, ◌*◌, ◌/◌, ◌%◌}
use mathlib.Core.Path.{◌≡◌, refl}
use mathlib.Core.Logic.{◌↔◌}
use mathlib.Core.Bool.{Bool, true, false, ◌&&◌, ◌||◌}
use mathlib.Core.Option.{Option, none, some}
use mathlib.Core.List.{List, [], ◌∷◌, ◌++◌}
use native.Mathlib.Omega.{arith}
use hc_pool.Base.Compare.{◌==◌, ltb, leb, if◌then◌else◌, or_else}

abbrev pub Text : Type 0
Text = List ℕ

abbrev pub codes : String → Text
codes String.[] = []
codes (String.◌∷◌ c s) = code c ∷ codes s

-- `===` on strings
unfoldable pub text_eq : Text → Text → Bool
text_eq [] [] = true
text_eq (a ∷ s) (b ∷ t) = (a == b) && text_eq s t
text_eq _ _ = false

pub text_eq_iff : (s t : Text) → (text_eq s t ≡ true) ↔ (s ≡ t)
unfolding text_eq
text_eq_iff [] [] = ((λ _. refl), (λ _. refl))
text_eq_iff [] (b ∷ t) = ground arith
text_eq_iff (a ∷ s) [] = ground arith
text_eq_iff (a ∷ s) (b ∷ t) = ground (arith, text_eq_iff s t)

pub text_eq_refl : (s : Text) → text_eq s s ≡ true
text_eq_refl s = (text_eq_iff s s).1 refl

-- `toLowerCase` on the ASCII letters
unfoldable pub lower : Text → Text
lower [] = []
lower (c ∷ s) = (if leb b'A' c && leb c b'Z' then c + 32 else c) ∷ lower s

-- `${value ?? fallback}`.toLowerCase() === 'true'
unfoldable pub is_true : Option Text → Text → Bool
is_true value fallback = text_eq (lower (or_else value fallback)) (codes "true")

-- `value || fallback` on a text that may be missing.
unfoldable pub or_default : Option Text → Text → Text
or_default none fallback = fallback
or_default (some []) fallback = fallback
or_default (some (c ∷ s)) fallback = c ∷ s

-- `text.split(separator)[0]` and the rest behind the first separator.
unfoldable pub before : ℕ → Text → Text
before separator [] = []
before separator (c ∷ s) = if c == separator then [] else c ∷ before separator s

unfoldable pub after : ℕ → Text → Option Text
after separator [] = none
after separator (c ∷ s) = if c == separator then some s else after separator s

is_surrogate : ℕ → ℕ → Bool
is_surrogate low c = leb low c && ltb c (low + 1024)

utf8_unit : ℕ → List ℕ
utf8_unit c =
    if ltb c 128
    then c ∷ []
    else if ltb c 2048
    then (192 + c / 64) ∷ (128 + c % 64) ∷ []
    else (224 + c / 4096) ∷ (128 + c / 64 % 64) ∷ (128 + c % 64) ∷ []

utf8_pair : ℕ → ℕ → List ℕ
utf8_pair high low =
    let point = 65536 + (high - 55296) * 1024 + (low - 56320) in
    (240 + point / 262144)
    ∷ (128 + point / 4096 % 64)
    ∷ (128 + point / 64 % 64)
    ∷ (128 + point % 64)
    ∷ []

-- A code unit on its own; a lone surrogate becomes U+FFFD.
utf8_single : ℕ → List ℕ
unfolding utf8_unit is_surrogate
utf8_single c =
    if is_surrogate 55296 c || is_surrogate 56320 c then utf8_unit 65533 else utf8_unit c

-- `Buffer.from(text)`; `waiting` is a high surrogate that the next unit may complete.
utf8_from : Option ℕ → Text → List ℕ
utf8_from none [] = []
utf8_from (some h) [] = utf8_single h
utf8_from none (c ∷ s) =
    if is_surrogate 55296 c then utf8_from (some c) s else utf8_single c ++ utf8_from none s
utf8_from (some h) (c ∷ s) =
    let paired = utf8_pair h c ++ utf8_from none s in
    let high = utf8_single h ++ utf8_from (some c) s in
    let apart = utf8_single h ++ (utf8_single c ++ utf8_from none s) in
    if is_surrogate 56320 c then paired else if is_surrogate 55296 c then high else apart

unfoldable pub utf8 : Text → List ℕ
unfolding utf8_from utf8_single utf8_pair utf8_unit is_surrogate
utf8 s = utf8_from none s

-- `haystack.indexOf(needle)`, where there is one.
unfoldable pub starts_with : Text → Text → Bool
starts_with [] s = true
starts_with (c ∷ needle) [] = false
starts_with (c ∷ needle) (d ∷ s) = (c == d) && starts_with needle s

unfoldable pub index_of : Text → Text → Option ℕ
index_of needle [] = if starts_with needle [] then some 0 else none
index_of needle (c ∷ s) =
    if starts_with needle (c ∷ s)
    then some 0
    else elim (index_of needle s) [ none ↦ none | some i ↦ some (suc i) ]
