-- ===== src/Mask/FreeText.antt =====
-- `text`: e-mail addresses and telephone numbers in free text.
use Prim.Native.Nat.{bit_and}
use solon.Base.{
  ℕ, zero, suc, ◌+◌, ◌-◌, [], ◌∷◌, ◌++◌, Bool, true, false, not, ◌&&◌, ◌||◌, Option, none, some,
  ltb, leb, ◌==◌, if◌then◌else◌, within, length, take, drop, get_or, all,
}
use solon.Base.Text.{Bytes, is_ascii_digit, is_ascii_alphabetic, is_ascii_alphanumeric, rsplit_once}
use solon.Mask.Names.{redacted}

-- b[i]; every read of the code is in bounds
abbrev pub byte_at : Bytes → ℕ → ℕ
byte_at b i = get_or b i 0

-- s[a..z]
abbrev pub slice : ℕ → ℕ → Bytes → Bytes
slice a z s = take (z - a) (drop a s)

-- The rounds of `while i < len && p(b[i]) { i += 1 }` over the bytes from `i` on.
unfoldable pub run_length : (ℕ → Bool) → Bytes → ℕ
run_length p [] = 0
run_length p (c ∷ s) = let rest = run_length p s in if p c then suc rest else 0

unfoldable pub is_local_byte : ℕ → Bool
unfolding is_ascii_alphanumeric
is_local_byte c =
    is_ascii_alphanumeric c || c == b'.' || c == b'_' || c == b'%' || c == b'+' || c == b'-'

unfoldable pub is_domain_byte : ℕ → Bool
unfolding is_ascii_alphanumeric
is_domain_byte c = is_ascii_alphanumeric c || c == b'.' || c == b'-'

abbrev is_nonempty : Bytes → Bool
is_nonempty [] = false
is_nonempty (_ ∷ _) = true

plausible_parts : Option (Bytes × Bytes) → Bool
plausible_parts none = false
plausible_parts (some (before, tld)) =
    is_nonempty before && leb 2 (length tld) && all is_ascii_alphabetic tld

unfoldable pub looks_like_domain : Bytes → Bool
unfolding plausible_parts rsplit_once all is_ascii_alphabetic
looks_like_domain s = plausible_parts (rsplit_once b'.' s)

-- `while start > copied && is_local_byte(b[start - 1]) { start -= 1 }`
unfoldable pub email_start : Bytes → ℕ → ℕ → ℕ
email_start b copied zero = zero
email_start b copied (suc n) =
    let further = email_start b copied n in
    if ltb copied (suc n) && is_local_byte (byte_at b n) then further else suc n

unfoldable pub email_end : Bytes → ℕ → ℕ
unfolding run_length is_domain_byte
email_end b at = at + 1 + run_length is_domain_byte (drop (at + 1) b)

pub record EmailScan : Type 0 where
  pub out : Bytes
  pub copied : ℕ

-- one round of `for at in 0..b.len()`
unfoldable pub email_step : Bytes → ℕ → EmailScan → EmailScan
email_step b at scan =
    if not (byte_at b at == b'@') || ltb at scan.copied
    then scan
    else (let start = email_start b scan.copied at in
        let end = email_end b at in
        if start == at || not (looks_like_domain (slice (at + 1) end b))
        then scan
        else record { out = scan.out ++ (slice scan.copied start b ++ redacted); copied = end })

unfoldable pub email_loop : Bytes → ℕ → ℕ → EmailScan → EmailScan
email_loop b zero at scan = scan
email_loop b (suc rounds) at scan = email_loop b rounds (at + 1) (email_step b at scan)

unfoldable pub mask_emails : Bytes → Bytes
unfolding email_loop email_step is_local_byte looks_like_domain email_start email_end
mask_emails s =
    let scan = email_loop s (length s) 0 (record { out = []; copied = 0 }) in
    scan.out ++ drop scan.copied s

abbrev pub head_is_digit : Bytes → Bool
head_is_digit [] = false
head_is_digit (c ∷ _) = is_ascii_digit c

abbrev pub is_separator : ℕ → Bool
is_separator c = c == b' ' || c == b'.' || c == b'-'

-- The `while end < b.len()` loop of `phone_end`, over the bytes from `end` on.
unfoldable pub phone_digits : Bytes → ℕ → ℕ → ℕ × ℕ
unfolding is_ascii_digit
phone_digits [] digits end = (digits, end)
phone_digits (c ∷ s) digits end =
    let more = phone_digits s (if is_ascii_digit c then digits + 1 else digits) (end + 1) in
    if is_ascii_digit c || is_separator c && head_is_digit s then more else (digits, end)

unfoldable pub phone_end : Bytes → ℕ → Option ℕ
unfolding phone_digits
phone_end b i =
    if ltb 0 i && is_ascii_digit (byte_at b (i - 1))
    then none
    else (let international = byte_at b i == b'+' in
        if not international && not (byte_at b i == b'0')
        then none
        else (let (digits, end) =
              phone_digits (drop (i + 1) b) (if international then 0 else 1) (i + 1) in
            if ltb end (length b) && is_ascii_digit (byte_at b end)
            then none
            else if (if international then within 8 15 digits else digits == 10)
            then some end
            else none))

-- `(b & 0xC0) == 0x80`
abbrev pub is_continuation : ℕ → Bool
is_continuation c = bit_and c 0xC0 == 0x80

unfoldable pub char_end : Bytes → ℕ → ℕ
unfolding run_length
char_end b i = i + 1 + run_length is_continuation (drop (i + 1) b)

-- The loop of `mask_phones`; `none` when the fuel is short.
unfoldable pub phones_loop : ℕ → Bytes → ℕ → Bytes → Option Bytes
unfolding phone_end char_end
phones_loop zero b i out = none
phones_loop (suc f) b i out =
    if ltb i (length b)
    then (elim (phone_end b i) [
      | some end ↦ phones_loop f b end (out ++ redacted)
      | none ↦ phones_loop f b (char_end b i) (out ++ slice i (char_end b i) b)
    ])
    else some out

abbrev pub or_empty : Option Bytes → Bytes
or_empty none = []
or_empty (some s) = s

unfoldable pub mask_phones : Bytes → Bytes
unfolding phones_loop
mask_phones s = or_empty (phones_loop (length s + 1) s 0 [])

unfoldable pub text : Bytes → Bytes
unfolding mask_emails mask_phones
text s = mask_emails (mask_phones s)
