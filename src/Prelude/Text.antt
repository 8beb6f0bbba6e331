-- ===== src/Prelude/Text.antt =====
-- Text as the code uses it: `trim`, template strings and numbers written in decimal.
use Prim.Native.Nat.{ℕ, zero, suc, ◌/◌, ◌%◌}
use Prim.Native.Char.{code}
use Prim.Native.String.{String, ◌++◌ as concat}
use mathlib.Core.Bool.{Bool, true, false, ◌&&◌, ◌||◌}
use mathlib.Core.List.{List, [], ◌∷◌}
use text.Mathlib.Text.{◌==◌ as str_eq}
use exchanger.Prelude.Tests.{leb, ◌==◌, if◌then◌else◌}

-- ECMAScript WhiteSpace and LineTerminator.
unfoldable pub is_space : ℕ → Bool
is_space c =
    leb 9 c && leb c 13
    || c == 32
    || c == 160
    || c == 5760
    || leb 8192 c && leb c 8202
    || c == 8232
    || c == 8233
    || c == 8239
    || c == 8287
    || c == 12288
    || c == 65279

-- `value.trim() === ''`
unfoldable pub is_blank : String → Bool
unfolding is_space
is_blank String.[] = true
is_blank (String.◌∷◌ c s) = is_space (code c) && is_blank s

unfoldable pub digit_text : ℕ → String
digit_text d =
    if d == 0
    then "0"
    else if d == 1
    then "1"
    else if d == 2
    then "2"
    else if d == 3
    then "3"
    else if d == 4
    then "4"
    else if d == 5
    then "5"
    else if d == 6
    then "6"
    else if d == 7
    then "7"
    else if d == 8
    then "8"
    else "9"

-- A number has at most as many digits as its value, so the fuel is enough.
unfoldable pub show_from : ℕ → ℕ → String → String
unfolding digit_text
show_from zero n acc = acc
show_from (suc f) n acc =
    let text = concat (digit_text (n % 10)) acc in
    let rest = show_from f (n / 10) text in if n / 10 == 0 then text else rest

-- `${n}`
unfoldable pub show : ℕ → String
unfolding show_from
show n = show_from (suc n) n ""

-- `xs.includes(x)` of texts
unfoldable pub includes : String → List String → Bool
includes x [] = false
includes x (y ∷ ys) = str_eq y x || includes x ys

-- `value.trimStart()` and `value.trim()`
unfoldable pub skip_spaces : String → String
skip_spaces String.[] = ""
skip_spaces (String.◌∷◌ c s) =
    let rest = skip_spaces s in if is_space (code c) then rest else String.◌∷◌ c s

unfoldable pub skip_last_spaces : String → String
unfolding is_space
skip_last_spaces String.[] = ""
skip_last_spaces (String.◌∷◌ c s) = elim (skip_last_spaces s) [
  | String.[] ↦ if is_space (code c) then "" else String.◌∷◌ c ""
  | String.◌∷◌ d t ↦ String.◌∷◌ c (String.◌∷◌ d t)
]

unfoldable pub trim : String → String
unfolding skip_spaces skip_last_spaces
trim value = skip_last_spaces (skip_spaces value)
