-- ===== src/Mask/Json.antt =====
-- `json_values`: the scan that hides the values of suspicious keys in a JSON text.
use solon.Base.{
  ℕ, zero, suc, ◌+◌, ◌-◌, [], ◌∷◌, ◌++◌, Bool, not, ◌||◌, Option, none, some, ltb, leb, ◌==◌,
  if◌then◌else◌, length, drop, replicate,
}
use solon.Base.Text.{Bytes, is_ascii_whitespace}
use solon.Mask.Names.{redacted, is_secret_param}
use solon.Mask.FreeText.{byte_at, slice, run_length, or_empty}

-- The loop of `json_string_end`, over the bytes from `i` on.
unfoldable pub string_end : Bytes → ℕ → Option ℕ
string_end [] i = none
string_end (c ∷ []) i = if c == b'"' then some i else none
string_end (c ∷ d ∷ s) i =
    let escaped = string_end s (i + 2) in
    let further = string_end (d ∷ s) (i + 1) in
    if c == b'\\' then escaped else if c == b'"' then some i else further

unfoldable pub json_string_end : Bytes → ℕ → Option ℕ
unfolding string_end
json_string_end b open_at = string_end (drop (open_at + 1) b) (open_at + 1)

-- How a round of the outer loop ends: at the next position, or by `break`.
pub data Round : Type 0 where
  next : ℕ → Bytes → Round
  stop : Bytes → Round

abbrev pub ends_scalar : ℕ → Bool
ends_scalar c = c == b',' || c == b'}' || c == b']' || is_ascii_whitespace c

abbrev pub or_last : Option ℕ → Bytes → ℕ
or_last none b = length b - 1
or_last (some i) b = i

-- `match b[i]`, at the value of a suspicious key
unfoldable pub json_value : Bytes → ℕ → Bytes → Round
unfolding json_string_end run_length is_ascii_whitespace
json_value s i out =
    if byte_at s i == b'"'
    then next (or_last (json_string_end s i) s + 1) (out ++ (b'"' ∷ (redacted ++ (b'"' ∷ []))))
    else if byte_at s i == b'{' || byte_at s i == b'['
    then next i out
    else next (i + run_length (λ c. not (ends_scalar c)) (drop i s)) (out ++ redacted)

-- behind a suspicious key and its colon
unfoldable pub json_after_colon : Bytes → ℕ → Bytes → Round
unfolding json_value run_length is_ascii_whitespace
json_after_colon s i out =
    let spaces = run_length is_ascii_whitespace (drop i s) in
    let out' = out ++ replicate spaces b' ' in
    if leb (length s) (i + spaces) then stop out' else json_value s (i + spaces) out'

-- behind a string from `i` to `close`
unfoldable pub json_string : Bytes → ℕ → ℕ → Bytes → Round
unfolding json_after_colon is_secret_param run_length is_ascii_whitespace
json_string s i close out =
    let key = slice (i + 1) close s in
    let out' = out ++ slice i (close + 1) s in
    let j = close + 1 + run_length is_ascii_whitespace (drop (close + 1) s) in
    if leb (length s) j || not (byte_at s j == b':') || not (is_secret_param key)
    then next (close + 1) out'
    else json_after_colon s (j + 1) (out' ++ slice (close + 1) (j + 1) s)

json_opening : Bytes → ℕ → Option ℕ → Bytes → Round
json_opening s i none out = stop (out ++ drop i s)
json_opening s i (some close) out = json_string s i close out

unfoldable pub json_round : Bytes → ℕ → Bytes → Round
unfolding json_opening json_string json_string_end run_length
json_round s i out =
    if not (byte_at s i == b'"')
    then (let end = i + run_length (λ c. not (c == b'"')) (drop i s) in
        next end (out ++ slice i end s))
    else json_opening s i (json_string_end s i) out

-- `while i < b.len()`; `none` when the fuel is short.
unfoldable pub json_loop : ℕ → Bytes → ℕ → Bytes → Option Bytes
unfolding json_round
json_loop zero s i out = none
json_loop (suc f) s i out =
    if ltb i (length s)
    then (elim (json_round s i out) [
      | stop out' ↦ some out'
      | next i' out' ↦ json_loop f s i' out'
    ])
    else some out

unfoldable pub json_values : Bytes → Bytes
unfolding json_loop
json_values s = or_empty (json_loop (length s + 1) s 0 [])
