-- ===== src/Text.antt =====
-- Rust's `&str` and `String` as the list of their bytes, with the operations of the standard
-- library that the program calls on them. A byte list is a text where `is_utf8` holds.
pub mod Laws
use Prim.Native.Char.{code}
use Prim.Native.String.{String}
use ferrum.Prelude.{
  ℕ, zero, suc, ◌-◌, Bool, true, false, ◌&&◌, ◌||◌, Option, none, some, List, [], ◌∷◌, ltb, leb,
  ◌==◌, if◌then◌else◌, any,
}
use mathlib.Core.List.{reverse}

abbrev pub Str : Type 0
Str = List ℕ

-- The bytes of an ASCII literal.
abbrev pub str : String → Str
str String.[] = []
str (String.◌∷◌ c s) = code c ∷ str s

unfoldable pub str_eq : Str → Str → Bool
str_eq [] [] = true
str_eq [] (b ∷ y) = false
str_eq (a ∷ x) [] = false
str_eq (a ∷ x) (b ∷ y) = a == b && str_eq x y

unfoldable pub starts_with : Str → Str → Bool
starts_with s [] = true
starts_with [] (p ∷ ps) = false
starts_with (c ∷ s) (p ∷ ps) = c == p && starts_with s ps

unfoldable pub ends_with : Str → Str → Bool
unfolding starts_with
ends_with s p = starts_with (reverse s) (reverse p)

unfoldable pub contains_str : Str → Str → Bool
unfolding starts_with
contains_str [] p = starts_with [] p
contains_str (c ∷ s) p = starts_with (c ∷ s) p || contains_str s p

unfoldable pub contains : List Str → Str → Bool
unfolding str_eq
contains xs s = any (λ x. str_eq x s) xs

-- `BTreeMap<String, _>` orders its keys byte by byte.
unfoldable pub str_lt : Str → Str → Bool
str_lt [] [] = false
str_lt [] (b ∷ y) = true
str_lt (a ∷ x) [] = false
str_lt (a ∷ x) (b ∷ y) = ltb a b || (a == b && str_lt x y)

-- The white space of Unicode in UTF-8: one byte, two or three.
abbrev is_space1 : ℕ → Bool
is_space1 a = (leb 9 a && leb a 13) || a == 32

abbrev is_space2 : ℕ → ℕ → Bool
is_space2 a b = a == 0xc2 && (b == 0x85 || b == 0xa0)

abbrev is_space3 : ℕ → ℕ → ℕ → Bool
is_space3 a b c =
    (a == 0xe1 && b == 0x9a && c == 0x80)
    || (a == 0xe2 && b == 0x80 && (leb 0x80 c && leb c 0x8a || c == 0xa8 || c == 0xa9 || c == 0xaf))
    || (a == 0xe2 && b == 0x81 && c == 0x9f)
    || (a == 0xe3 && b == 0x80 && c == 0x80)

-- How many bytes the white-space character at the head has; 0 if there is none.
unfoldable pub space_front : Str → ℕ
space_front [] = 0
space_front (a ∷ []) = if is_space1 a then 1 else 0
space_front (a ∷ b ∷ []) = if is_space1 a then 1 else if is_space2 a b then 2 else 0
space_front (a ∷ b ∷ c ∷ s) =
    if is_space1 a then 1 else if is_space2 a b then 2 else if is_space3 a b c then 3 else 0

-- The same of a text that is read from its end.
unfoldable pub space_back : Str → ℕ
space_back [] = 0
space_back (a ∷ []) = if is_space1 a then 1 else 0
space_back (b ∷ a ∷ []) = if is_space1 b then 1 else if is_space2 a b then 2 else 0
space_back (c ∷ b ∷ a ∷ s) =
    if is_space1 c then 1 else if is_space2 b c then 2 else if is_space3 a b c then 3 else 0

-- Drops the characters that `width` measures, one after the other; `pending` bytes of the present
-- one are still to be dropped.
unfoldable pub skip : (Str → ℕ) → ℕ → Str → Str
skip width pending [] = []
skip width zero (c ∷ s) = elim (width (c ∷ s)) [ zero ↦ c ∷ s | suc n ↦ skip width n s ]
skip width (suc n) (c ∷ s) = skip width n s

unfoldable pub trim : Str → Str
unfolding skip space_front space_back
trim s = reverse (skip space_back 0 (reverse (skip space_front 0 s)))

-- What may follow a first byte: how many continuation bytes, and the range of the next one.
abbrev pub lead_byte : ℕ → Option (ℕ × ℕ × ℕ)
lead_byte b =
    if leb b 0x7f
    then some (0, 0, 0)
    else if leb b 0xc1
    then none
    else if leb b 0xdf
    then some (1, 0x80, 0xbf)
    else if b == 0xe0
    then some (2, 0xa0, 0xbf)
    else if b == 0xed
    then some (2, 0x80, 0x9f)
    else if leb b 0xef
    then some (2, 0x80, 0xbf)
    else if b == 0xf0
    then some (3, 0x90, 0xbf)
    else if leb b 0xf3
    then some (3, 0x80, 0xbf)
    else if b == 0xf4
    then some (3, 0x80, 0x8f)
    else none

unfoldable pub utf8_from : ℕ → ℕ → ℕ → Str → Bool
utf8_from zero lo hi [] = true
utf8_from (suc n) lo hi [] = false
utf8_from zero lo hi (b ∷ s) = elim (lead_byte b) [
  | none ↦ false
  | some (n, lo', hi') ↦ utf8_from n lo' hi' s
]
utf8_from (suc n) lo hi (b ∷ s) = (leb lo b && leb b hi) && utf8_from n 0x80 0xbf s

unfoldable pub is_utf8 : Str → Bool
unfolding utf8_from
is_utf8 s = utf8_from 0 0 0 s
