-- ===== src/Base/Trim.antt =====
-- `str::trim` on UTF-8 bytes: the white space of Unicode is taken off both ends.
use Prim.Native.Nat.{ℕ, zero, suc}
use mathlib.Core.Bool.{◌&&◌, ◌||◌}
use mathlib.Core.List.{[], ◌∷◌}
use sunbolt.Base.Tests.{leb, nat_eq, if◌then◌else◌}
use sunbolt.Base.Lists.{length, drop}
use sunbolt.Base.Keys.{Text}

-- How many bytes the white space at the front of a UTF-8 text takes, 0 if there is none.
abbrev pub white_length : Text → ℕ
white_length [] = 0
white_length (a ∷ []) = if (leb 9 a && leb a 13) || nat_eq a 32 then 1 else 0
white_length (a ∷ b ∷ []) =
    if (leb 9 a && leb a 13) || nat_eq a 32
    then 1
    else if nat_eq a 194 && (nat_eq b 133 || nat_eq b 160)
    then 2
    else 0
white_length (a ∷ b ∷ c ∷ _) =
    if (leb 9 a && leb a 13) || nat_eq a 32
    then 1
    else if nat_eq a 194 && (nat_eq b 133 || nat_eq b 160)
    then 2
    else if nat_eq a 225 && nat_eq b 154 && nat_eq c 128
    then 3
    else if nat_eq a 226
        && nat_eq b 128
        && ((leb 128 c && leb c 138) || nat_eq c 168 || nat_eq c 169 || nat_eq c 175)
    then 3
    else if nat_eq a 226 && nat_eq b 129 && nat_eq c 159
    then 3
    else if nat_eq a 227 && nat_eq b 128 && nat_eq c 128
    then 3
    else 0

-- `str::trim_start`; each round takes a byte, so the length of the text is fuel enough.
unfoldable pub trim_start : ℕ → Text → Text
trim_start zero t = t
trim_start (suc fuel) t = elim (white_length t) [
  | zero ↦ t
  | suc n ↦ trim_start fuel (drop (suc n) t)
]

-- `str::trim_end`
unfoldable pub trim_end : Text → Text
trim_end [] = []
trim_end (a ∷ t) =
    let rest = trim_end t in
    if nat_eq (length (trim_start (length (a ∷ t)) (a ∷ t))) 0 then [] else a ∷ rest

unfoldable pub trim : Text → Text
trim t = trim_end (trim_start (length t) t)
