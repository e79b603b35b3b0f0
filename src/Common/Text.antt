-- ===== src/Common/Text.antt =====
-- White space and letters of byte strings: `strings.TrimSpace` and `strings.EqualFold`.
use Prim.Native.Nat.{ℕ, zero, suc, ◌+◌}
use mathlib.Core.Bool.{Bool, true, false, ◌&&◌, ◌||◌}
use mathlib.Core.List.{[], ◌∷◌, reverse}
use secure_access_relay.Common.Tests.{leb, ◌==◌, if◌then◌else◌}
use secure_access_relay.Common.Octets.{Bytes}

-- U+0009 to U+000D, and U+0020.
abbrev pub is_space : ℕ → Bool
is_space c = (leb 9 c && leb c 13) || c == 32

-- U+0085 and U+00A0 in UTF-8.
abbrev is_space2 : ℕ → ℕ → Bool
is_space2 a b = a == 0xC2 && (b == 0x85 || b == 0xA0)

-- U+1680, U+2000 to U+200A, U+2028, U+2029, U+202F, U+205F and U+3000 in UTF-8.
abbrev is_space3 : ℕ → ℕ → ℕ → Bool
is_space3 a b c =
    (a == 0xE1 && (b == 0x9A && c == 0x80))
    || ((a == 0xE2
          && ((b == 0x80 && ((leb 0x80 c && leb c 0x8A) || (c == 0xA8 || (c == 0xA9 || c == 0xAF))))
              || (b == 0x81 && c == 0x9F)))
        || (a == 0xE3 && (b == 0x80 && c == 0x80)))

-- The bytes of the white space that a text starts with, and that a reversed text starts with.
abbrev space_width : Bytes → ℕ
space_width [] = 0
space_width (a ∷ []) = if is_space a then 1 else 0
space_width (a ∷ b ∷ []) = if is_space a then 1 else if is_space2 a b then 2 else 0
space_width (a ∷ b ∷ c ∷ rest) =
    if is_space a then 1 else if is_space2 a b then 2 else if is_space3 a b c then 3 else 0

abbrev last_space_width : Bytes → ℕ
last_space_width [] = 0
last_space_width (a ∷ []) = if is_space a then 1 else 0
last_space_width (b ∷ a ∷ []) = if is_space b then 1 else if is_space2 a b then 2 else 0
last_space_width (c ∷ b ∷ a ∷ rest) =
    if is_space c then 1 else if is_space2 b c then 2 else if is_space3 a b c then 3 else 0

-- The text without the white space before it, of which the first bytes have been read.
trim_from : (Bytes → ℕ) → ℕ → Bytes → Bytes
trim_from width n [] = []
trim_from width (suc n) (c ∷ b) = trim_from width n b
trim_from width zero (c ∷ b) = elim (width (c ∷ b)) [ zero ↦ c ∷ b | suc n ↦ trim_from width n b ]

unfoldable pub trim_space : Bytes → Bytes
unfolding trim_from
trim_space b = reverse (trim_from last_space_width 0 (reverse (trim_from space_width 0 b)))

-- The letters A to Z in lower case.
abbrev lower : ℕ → ℕ
lower c = if leb 65 c && leb c 90 then c + 32 else c

-- Whether a text is, in either case, an ASCII text without the letters K and S, which alone have
-- other forms outside ASCII.
unfoldable pub equal_fold : Bytes → Bytes → Bool
equal_fold [] [] = true
equal_fold [] (y ∷ ys) = false
equal_fold (x ∷ xs) [] = false
equal_fold (x ∷ xs) (y ∷ ys) = lower x == lower y && equal_fold xs ys
