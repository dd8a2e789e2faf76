-- ===== src/Base/Text.antt =====
-- Python's text operations: `lower` and `upper` on ASCII letters, `in`, and the truth value of a text.
use Prim.Native.Char.{Char}
use Prim.Native.String.{String, char_at, ◌++◌}
use mathlib.Core.Path.{◌≡◌}
use native.Mathlib.Omega.{arith}
use mathlib.Core.Logic.{◌≢◌}
use text.Mathlib.TextEquality.{eq_iff}
use mathlib.Core.Bool.{Bool, true, false}
use mathlib.Core.Option.{Option, none, some}
use text.Mathlib.Text.{find?, ◌==◌}
use vinc_api.Base.Tests.{is_some}

abbrev capitals : String
capitals = "ABCDEFGHIJKLMNOPQRSTUVWXYZ"

abbrev smalls : String
smalls = "abcdefghijklmnopqrstuvwxyz"

-- A letter of the first alphabet becomes the one at its place in the second.
abbrev exchange : String → String → Char → Char
exchange from to c = elim (find? from (String.◌∷◌ c String.[])) [ none ↦ c | some i ↦ char_at to i ]

-- `s.lower()`
unfoldable pub lower : String → String
lower String.[] = String.[]
lower (String.◌∷◌ c s) = String.◌∷◌ (exchange capitals smalls c) (lower s)

-- `s.upper()`
unfoldable pub upper : String → String
upper String.[] = String.[]
upper (String.◌∷◌ c s) = String.◌∷◌ (exchange smalls capitals c) (upper s)

-- `part in s`
unfoldable pub has_part : String → String → Bool
has_part s part = is_some (find? s part)

infixr 65 ◌<>◌
abbrev pub ◌<>◌ : String → String → String
s <> t = s ++ t

-- A text that may be missing, under `if s:` or `s or …`: the empty text counts as missing.
unfoldable pub given : Option String → Option String
given none = none
given (some s) = elim (s == "") [ true ↦ none | false ↦ some s ]

-- What is given is the text itself.
pub given_sound : (o : Option String) (s : String) → given o ≡ some s → o ≡ some s
unfolding given
given_sound none s h = h
given_sound (some t) s h = ground arith

-- A text that is not empty is given.
pub given-some : (i : String) → i ≢ "" → given (some i) ≡ some i
unfolding given
given-some i n = ground (arith, eq_iff i "")

-- `s or t`
unfoldable pub or_text : Option String → Option String → Option String
unfolding given
or_text s t = elim (given s) [ none ↦ t | some x ↦ some x ]

-- `s.strip()`, of the blanks that a header may have.
is_blank : Char → Bool
is_blank c = is_some (find? " \t" (String.◌∷◌ c String.[]))

strip_left : String → String
strip_left String.[] = String.[]
strip_left (String.◌∷◌ c s) =
    let rest = strip_left s in elim (is_blank c) [ true ↦ rest | false ↦ String.◌∷◌ c s ]

strip_right : String → String
strip_right String.[] = String.[]
strip_right (String.◌∷◌ c s) =
    let rest = strip_right s in
    elim (rest == "") [
      | false ↦ String.◌∷◌ c rest
      | true ↦ elim (is_blank c) [ true ↦ String.[] | false ↦ String.◌∷◌ c String.[] ]
    ]

unfoldable pub strip : String → String
unfolding is_blank strip_left strip_right
strip s = strip_right (strip_left s)
