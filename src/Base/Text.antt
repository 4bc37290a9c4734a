-- ===== src/Base/Text.antt =====
-- Python's `str` as a list of code points, with the methods that the modelled modules call.
use Prim.Native.Nat.{ℕ, ◌+◌}
use Prim.Native.Char.{code}
use Prim.Native.String.{String}
use mathlib.Core.Path.{◌≡◌, refl}
use mathlib.Core.Bool.{Bool, true, false, ◌&&◌, ◌||◌}
use mathlib.Core.List.{List, [], ◌∷◌, map, reverse}
use native.Mathlib.Omega.{arith}
use footjob.Base.Tests.{leb, ◌==◌, if◌then◌else◌}

abbrev pub Str : Type 0
Str = List ℕ

abbrev pub codes : String → Str
codes String.[] = []
codes (String.◌∷◌ c s) = code c ∷ codes s

unfoldable pub str_eq : Str → Str → Bool
str_eq [] [] = true
str_eq [] (b ∷ t) = false
str_eq (a ∷ s) [] = false
str_eq (a ∷ s) (b ∷ t) = a == b && str_eq s t

pub str_eq→eq : (s t : Str) → str_eq s t ≡ true → s ≡ t
unfolding str_eq
str_eq→eq [] [] h = refl
str_eq→eq [] (b ∷ t) h = ground arith
str_eq→eq (a ∷ s) [] h = ground arith
str_eq→eq (a ∷ s) (b ∷ t) h = ground (arith, str_eq→eq s t)

pub str_eq_self : (s : Str) → str_eq s s ≡ true
unfolding str_eq
str_eq_self [] = refl
str_eq_self (a ∷ s) = ground (arith, str_eq_self s)

pub str_eq_flip : (s t : Str) → str_eq s t ≡ str_eq t s
unfolding str_eq
str_eq_flip [] [] = refl
str_eq_flip [] (b ∷ t) = refl
str_eq_flip (a ∷ s) [] = refl
str_eq_flip (a ∷ s) (b ∷ t) = ground (arith, str_eq_flip s t)

-- The white space of `str.strip`.
unfoldable pub is_space : ℕ → Bool
is_space c =
    (leb 9 c && leb c 13)
    || (leb 28 c && leb c 32)
    || c == 0x85
    || c == 0xa0
    || c == 0x1680
    || (leb 0x2000 c && leb c 0x200a)
    || c == 0x2028
    || c == 0x2029
    || c == 0x202f
    || c == 0x205f
    || c == 0x3000

unfoldable pub lstrip : Str → Str
lstrip [] = []
lstrip (c ∷ s) = let rest = lstrip s in if is_space c then rest else c ∷ s

unfoldable pub strip : Str → Str
strip s = reverse (lstrip (reverse (lstrip s)))

-- `str.lower` on ASCII and on the one other code point that it maps into ASCII, the Kelvin sign.
-- Every other code point stays outside ASCII under `lower`, and is left as it is.
unfoldable pub lower_char : ℕ → ℕ
lower_char c = if leb 65 c && leb c 90 then c + 32 else if c == 0x212a then 107 else c

unfoldable pub lower : Str → Str
lower = map lower_char

unfoldable pub is_ascii_alpha : ℕ → Bool
is_ascii_alpha c = (leb 65 c && leb c 90) || (leb 97 c && leb c 122)

unfoldable pub is_ascii_digit : ℕ → Bool
is_ascii_digit c = leb 48 c && leb c 57

-- The characters `_`, `.` and `-`.
unfoldable pub is_joiner : ℕ → Bool
is_joiner c = c == 95 || c == 46 || c == 45

unfoldable pub is_identifier_char : ℕ → Bool
unfolding is_ascii_alpha is_ascii_digit is_joiner
is_identifier_char c = is_ascii_alpha c || is_ascii_digit c || is_joiner c

unfoldable pub all_chars : (ℕ → Bool) → Str → Bool
all_chars test [] = true
all_chars test (c ∷ s) = test c && all_chars test s
