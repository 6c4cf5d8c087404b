-- ===== src/Strings.antt =====
-- `String.prototype.toLowerCase`, `toUpperCase` and `trim` on code units, as far as ASCII results go.
use antd_platform.Prelude.{
  ℕ, ◌+◌, ◌-◌, ◌++◌, codes, Bool, ◌&&◌, ◌||◌, Option, none, some, [], ◌∷◌, Text, leb, ◌==◌,
  if◌then◌else◌,
}
use mathlib.Core.List.{reverse}

-- The one code unit outside A-Z whose lower case is an ASCII letter alone is the Kelvin sign.
unfoldable pub lower_unit : ℕ → ℕ
lower_unit c = if leb 65 c && leb c 90 then c + 32 else if c == 0x212a then 107 else c

unfoldable pub to_lower_case : Text → Text
unfolding lower_unit
to_lower_case [] = []
to_lower_case (c ∷ cs) = lower_unit c ∷ to_lower_case cs

-- `toUpperCase`, as far as ASCII results go: beside a-z, the dotless i, the long and the sharp s and
-- the Latin ligatures.
unfoldable pub upper_unit : ℕ → Text
upper_unit c =
    if leb 97 c && leb c 122
    then (c - 32) ∷ []
    else if c == 0xdf
    then codes "SS"
    else if c == 0x131
    then codes "I"
    else if c == 0x17f
    then codes "S"
    else if c == 0xfb00
    then codes "FF"
    else if c == 0xfb01
    then codes "FI"
    else if c == 0xfb02
    then codes "FL"
    else if c == 0xfb03
    then codes "FFI"
    else if c == 0xfb04
    then codes "FFL"
    else if c == 0xfb05
    then codes "ST"
    else if c == 0xfb06
    then codes "ST"
    else c ∷ []

unfoldable pub to_upper_case : Text → Text
unfolding upper_unit
to_upper_case [] = []
to_upper_case (c ∷ cs) = upper_unit c ++ to_upper_case cs

unfoldable pub is_white : ℕ → Bool
is_white c =
    (leb 9 c && leb c 13)
    || c == 32
    || c == 0xa0
    || c == 0x1680
    || (leb 0x2000 c && leb c 0x200a)
    || c == 0x2028
    || c == 0x2029
    || c == 0x202f
    || c == 0x205f
    || c == 0x3000
    || c == 0xfeff

unfoldable pub trim_start : Text → Text
unfolding is_white
trim_start [] = []
trim_start (c ∷ cs) = if is_white c then trim_start cs else c ∷ cs

unfoldable pub trim : Text → Text
unfolding trim_start
trim t = reverse (trim_start (reverse (trim_start t)))

-- `text?.trim() || null`.
unfoldable pub trimmed : Option Text → Option Text
unfolding trim
trimmed none = none
trimmed (some t) = elim (trim t) [ [] ↦ none | c ∷ cs ↦ some (c ∷ cs) ]
