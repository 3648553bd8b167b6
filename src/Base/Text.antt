-- ===== src/Base/Text.antt =====
-- Rust strings as their UTF-8 bytes, and the `str` methods that the sources call. An index is a
-- byte index, as in Rust.
use Prim.Native.Char.{code}
use Prim.Native.String.{String}
use solon.Base.Tests.{◌==◌, if◌then◌else◌, within}
use solon.Base.Lists.{length, drop, any}
use Prim.Native.Nat.{ℕ, zero, suc, ◌+◌}
use mathlib.Core.Bool.{Bool, true, false, ◌&&◌, ◌||◌}
use mathlib.Core.List.{List, [], ◌∷◌, ◌++◌, reverse}
use mathlib.Core.Option.{Option, none, some}
use mathlib.Core.Option

abbrev pub Bytes : Type 0
Bytes = List ℕ

-- An ASCII literal.
abbrev pub codes : String → Bytes
codes String.[] = []
codes (String.◌∷◌ c s) = code c ∷ codes s

-- u8::is_ascii_digit, is_ascii_alphabetic, is_ascii_alphanumeric, is_ascii_whitespace
unfoldable pub is_ascii_digit : ℕ → Bool
is_ascii_digit c = within b'0' b'9' c

unfoldable pub is_ascii_alphabetic : ℕ → Bool
is_ascii_alphabetic c = within b'a' b'z' c || within b'A' b'Z' c

unfoldable pub is_ascii_alphanumeric : ℕ → Bool
unfolding is_ascii_digit is_ascii_alphabetic
is_ascii_alphanumeric c = is_ascii_alphabetic c || is_ascii_digit c

-- space, tab, line feed, form feed, carriage return
unfoldable pub is_ascii_whitespace : ℕ → Bool
is_ascii_whitespace c = c == 32 || c == 9 || c == 10 || c == 12 || c == 13

unfoldable pub lower_byte : ℕ → ℕ
lower_byte c = if within b'A' b'Z' c then c + 32 else c

unfoldable pub to_ascii_lowercase : Bytes → Bytes
unfolding lower_byte
to_ascii_lowercase [] = []
to_ascii_lowercase (c ∷ s) = lower_byte c ∷ to_ascii_lowercase s

unfoldable pub str_eq : Bytes → Bytes → Bool
str_eq [] [] = true
str_eq (a ∷ s) (b ∷ t) = a == b && str_eq s t
str_eq _ _ = false

-- `s.starts_with(p)` is `starts_with p s`
unfoldable pub starts_with : Bytes → Bytes → Bool
starts_with [] s = true
starts_with (a ∷ p) [] = false
starts_with (a ∷ p) (b ∷ s) = a == b && starts_with p s

unfoldable pub ends_with : Bytes → Bytes → Bool
unfolding starts_with
ends_with p s = starts_with (reverse p) (reverse s)

-- `s.contains(p)` is `contains_str p s`
unfoldable pub contains_str : Bytes → Bytes → Bool
unfolding starts_with
contains_str p [] = starts_with p []
contains_str p (c ∷ s) = starts_with p (c ∷ s) || contains_str p s

unfoldable pub contains_byte : ℕ → Bytes → Bool
contains_byte c [] = false
contains_byte c (a ∷ s) = a == c || contains_byte c s

-- `list.contains(&s)`
unfoldable pub mem_str : Bytes → List Bytes → Bool
unfolding any str_eq
mem_str s l = any (str_eq s) l

-- The first index where `p` holds of the byte.
unfoldable pub position : (ℕ → Bool) → Bytes → Option ℕ
position p [] = none
position p (c ∷ s) = let rest = position p s in if p c then some 0 else Option.map (λ i. i + 1) rest

-- `s.find(p)` for a string `p`
unfoldable pub find_str : Bytes → Bytes → Option ℕ
unfolding starts_with
find_str p [] = if starts_with p [] then some 0 else none
find_str p (c ∷ s) =
    let rest = find_str p s in
    if starts_with p (c ∷ s) then some 0 else Option.map (λ i. i + 1) rest

-- `s.rfind(c)` for a byte `c`: the last index where it stands
unfoldable pub rposition : ℕ → Bytes → Option ℕ
rposition c [] = none
rposition c (a ∷ s) = elim (rposition c s) [
  | some i ↦ some (i + 1)
  | none ↦ if a == c then some 0 else none
]

-- `s.split_once(c)`
unfoldable pub split_once : ℕ → Bytes → Option (Bytes × Bytes)
split_once c [] = none
split_once c (a ∷ s) =
    let rest = split_once c s in
    if a == c then some ([], s) else Option.map (λ r. (a ∷ r.0, r.1)) rest

-- `s.rsplit_once(c)`
unfoldable pub rsplit_once : ℕ → Bytes → Option (Bytes × Bytes)
rsplit_once c [] = none
rsplit_once c (a ∷ s) = elim (rsplit_once c s) [
  | some r ↦ some (a ∷ r.0, r.1)
  | none ↦ if a == c then some ([], s) else none
]

-- `s.split(c)`: always at least one part
abbrev pub cons_head : ℕ → List Bytes → List Bytes
cons_head a [] = (a ∷ []) ∷ []
cons_head a (p ∷ ps) = (a ∷ p) ∷ ps

unfoldable pub split : ℕ → Bytes → List Bytes
split c [] = [] ∷ []
split c (a ∷ s) = let rest = split c s in if a == c then [] ∷ rest else cons_head a rest

-- The parts with `c` between them, as `parts.join` puts them and a loop with
-- `if i > 0 { out.push(c) }`.
unfoldable pub join : ℕ → List Bytes → Bytes
join c [] = []
join c (p ∷ []) = p
join c (p ∷ q ∷ ps) = p ++ (c ∷ join c (q ∷ ps))

-- The number of bytes of a whitespace character that `s` begins with, 0 if it begins with none:
-- the ASCII ones, U+0085, U+00A0, U+1680, U+2000 to U+200A, U+2028, U+2029, U+202F, U+205F, U+3000.
unfoldable pub leading_space : Bytes → ℕ
leading_space [] = 0
leading_space (a ∷ []) = if within 9 13 a || a == 32 then 1 else 0
leading_space (a ∷ b ∷ []) =
    if within 9 13 a || a == 32 then 1 else if a == 0xC2 && (b == 0x85 || b == 0xA0) then 2 else 0
leading_space (a ∷ b ∷ c ∷ _) =
    if within 9 13 a || a == 32
    then 1
    else if a == 0xC2 && (b == 0x85 || b == 0xA0)
    then 2
    else if a == 0xE1 && b == 0x9A && c == 0x80
        || a == 0xE2 && b == 0x80 && (within 0x80 0x8A c || c == 0xA8 || c == 0xA9 || c == 0xAF)
        || a == 0xE2 && b == 0x81 && c == 0x9F
        || a == 0xE3 && b == 0x80 && c == 0x80
    then 3
    else 0

-- The same at the end, on the reversed bytes.
unfoldable pub trailing_space : Bytes → ℕ
unfolding leading_space
trailing_space [] = 0
trailing_space (c ∷ []) = leading_space (c ∷ [])
trailing_space (c ∷ b ∷ []) =
    if leading_space (c ∷ []) == 1 then 1 else if leading_space (b ∷ c ∷ []) == 2 then 2 else 0
trailing_space (c ∷ b ∷ a ∷ _) =
    if leading_space (c ∷ []) == 1
    then 1
    else if leading_space (b ∷ c ∷ []) == 2
    then 2
    else if leading_space (a ∷ b ∷ c ∷ []) == 3
    then 3
    else 0

-- Drops characters while `width` finds one at the head; the fuel is the number of bytes.
unfoldable pub drop_spaces : (Bytes → ℕ) → ℕ → Bytes → Bytes
drop_spaces width zero s = s
drop_spaces width (suc f) s =
    let rest = drop_spaces width f (drop (width s) s) in if width s == 0 then s else rest

unfoldable pub trim_start : Bytes → Bytes
unfolding drop_spaces leading_space
trim_start s = drop_spaces leading_space (length s) s

unfoldable pub trim_end : Bytes → Bytes
unfolding drop_spaces trailing_space
trim_end s = reverse (drop_spaces trailing_space (length s) (reverse s))

-- `s.trim()`
unfoldable pub trim : Bytes → Bytes
unfolding trim_start trim_end
trim s = trim_end (trim_start s)

-- `s.trim_start_matches(c)`
unfoldable pub trim_start_byte : ℕ → Bytes → Bytes
trim_start_byte c [] = []
trim_start_byte c (a ∷ s) = let rest = trim_start_byte c s in if a == c then rest else a ∷ s

-- `s.trim_end_matches(c)`
unfoldable pub trim_end_byte : ℕ → Bytes → Bytes
unfolding trim_start_byte
trim_end_byte c s = reverse (trim_start_byte c (reverse s))
