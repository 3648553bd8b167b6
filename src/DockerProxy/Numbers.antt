-- ===== src/DockerProxy/Numbers.antt =====
-- Numbers in texts: `parse::<usize>`, `usize::from_str_radix` and the decimal form. The proxy runs on
-- 64-bit Windows.
use solon.Base.{
  ℕ, zero, suc, ◌+◌, ◌-◌, ◌*◌, ◌/◌, ◌%◌, ◌^◌, Option, none, some, [], ◌∷◌, ltb, ◌==◌, if◌then◌else◌,
  within,
}
use solon.Base.Text.{Bytes}

-- `char::to_digit`
unfoldable pub to_digit : ℕ → ℕ → Option ℕ
to_digit radix c =
    let value =
      if within b'0' b'9' c
      then c - b'0'
      else if within b'a' b'z' c
      then c - b'a' + 10
      else if within b'A' b'Z' c
      then c - b'A' + 10
      else radix in
    if ltb value radix then some value else none

unfoldable pub parse_digits : ℕ → ℕ → Bytes → Option ℕ
unfolding to_digit
parse_digits radix n [] = some n
parse_digits radix n (c ∷ s) = elim (to_digit radix c) [
  | none ↦ none
  | some d ↦ if ltb (n * radix + d) (2 ^ 64) then parse_digits radix (n * radix + d) s else none
]

-- An empty text and a lone sign are no numbers; one `+` may stand in front.
unfoldable pub from_str_radix : ℕ → Bytes → Option ℕ
unfolding parse_digits
from_str_radix radix [] = none
from_str_radix radix (c ∷ []) = parse_digits radix 0 (c ∷ [])
from_str_radix radix (c ∷ d ∷ s) =
    if c == b'+' then parse_digits radix 0 (d ∷ s) else parse_digits radix 0 (c ∷ d ∷ s)

-- `format!("{n}")`, where a number of 64 bits has at most 20 digits
unfoldable pub decimal : ℕ → ℕ → Bytes → Bytes
decimal zero n tail = tail
decimal (suc f) n tail =
    let digit = n % 10 + b'0' in
    let more = decimal f (n / 10) (digit ∷ tail) in if ltb n 10 then digit ∷ tail else more

unfoldable pub to_string : ℕ → Bytes
unfolding decimal
to_string n = decimal 20 n []
