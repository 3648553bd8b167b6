-- ===== src/Mask/Phones.antt =====
-- Telephone numbers in free text: `phone_end` and `mask_phones` of crates/solon-core/src/mask.rs.
use solon.Mask.Names.{redacted}
use solon.Base.{
  drop-drop, ltb→lt, append_assoc, take-append-drop, Option-cases, ap, append-nil, ltb, ◌∙◌, sym,
  none, ◌++◌, ℕ, zero, suc, ◌+◌, ◌-◌, ◌≤◌, ◌<◌, [], ◌∷◌, true, false, ◌||◌, ◌&&◌, some, ◌≡◌, ◌⊎◌,
  inl, inr, refl, ◌==◌, if◌then◌else◌, arith, length, take, drop, All, Bool-cases, length-drop,
}
use solon.Base.Text.{Bytes, is_ascii_digit}
use solon.Mask.FreeText.{
  char_end, phones_loop, mask_phones, byte_at, slice, head_is_digit, is_separator, phone_digits,
  phone_end,
}

abbrev pub count_digits : Bytes → ℕ
count_digits [] = 0
count_digits (c ∷ s) = (if is_ascii_digit c then 1 else 0) + count_digits s

-- `phone_digits` has read `width` bytes of `s`, digits and separators, and stops where no digit
-- follows.
pub record Reads (s : Bytes) (digits end : ℕ) (r : ℕ × ℕ) : Type 0 where
  pub width : ℕ
  pub inside : width ≤ length s
  pub ends : r.1 ≡ end + width
  pub counted : r.0 ≡ digits + count_digits (take width s)
  pub accepted : All (λ c. (is_ascii_digit c || is_separator c) ≡ true) (take width s)
  pub maximal : head_is_digit (drop width s) ≡ false

Reads-stop :
    (s : Bytes) (digits end : ℕ) → head_is_digit s ≡ false → Reads s digits end (digits, end)
Reads-stop s digits end h = record {
  width = 0;
  inside = omega arith;
  ends = omega arith;
  counted = omega arith;
  accepted = tt;
  maximal = h;
}

digit_step : ℕ → ℕ → ℕ
digit_step c digits = if is_ascii_digit c then digits + 1 else digits

Reads-cons :
    (c : ℕ) (s : Bytes) (digits end : ℕ) {r : ℕ × ℕ}
    → (is_ascii_digit c || is_separator c && head_is_digit s) ≡ true
    → Reads s (if is_ascii_digit c then digits + 1 else digits) (end + 1) r
    → Reads (c ∷ s) digits end r
Reads-cons c s digits end go k = record {
  width = suc k.width;
  inside = omega (arith, k.inside);
  ends = omega (arith, k.ends);
  counted = ground (arith, k.counted);
  accepted = (ground arith, k.accepted);
  maximal = k.maximal;
}

pub phone_digits-Reads :
    (s : Bytes) (digits end : ℕ) → Reads s digits end (phone_digits s digits end)
unfolding phone_digits
phone_digits-Reads [] digits end = Reads-stop [] digits end refl
phone_digits-Reads (c ∷ s) digits end =
    elim (Bool-cases (is_ascii_digit c || is_separator c && head_is_digit s)) [
      | inl go ↦ rw go (Reads-cons c s digits end go (phone_digits-Reads s _ (end + 1)))
      | inr halt ↦ rw halt (Reads-stop (c ∷ s) digits end (ground arith))
    ]

-- A telephone number stands from `i` to `end`: it does not follow a digit, begins with `+` or `0`,
-- goes on with digits and separators, has the number of digits that its form asks for, and no
-- digit follows.
pub record IsTelephone (b : Bytes) (i end : ℕ) : Type 0 where
  pub starts : (i ≡ 0) ⊎ (is_ascii_digit (byte_at b (i - 1)) ≡ false)
  pub later : i < end
  pub inside : i < length b → end ≤ length b
  pub accepted : All (λ c. (is_ascii_digit c || is_separator c) ≡ true) (slice (i + 1) end b)
  pub form :
      ((byte_at b i ≡ b'+')
        × (8 ≤ count_digits (slice (i + 1) end b))
        × (count_digits (slice (i + 1) end b) ≤ 15))
      ⊎ ((byte_at b i ≡ b'0') × (count_digits (slice (i + 1) end b) ≡ 9))
  pub stops : head_is_digit (drop end b) ≡ false

module _ (b : Bytes) (i : ℕ) {end : ℕ} (found : phone_end b i ≡ some end) where
  digits_read : ℕ × ℕ
  digits_read = phone_digits (drop (i + 1) b) (if byte_at b i == b'+' then 0 else 1) (i + 1)

  end-digits_read : digits_read.1 ≡ end
  unfolding phone_end digits_read
  end-digits_read = ground arith

  phone_starts : (i ≡ 0) ⊎ (is_ascii_digit (byte_at b (i - 1)) ≡ false)
  unfolding phone_end
  phone_starts = ground arith

  phone_form :
      ((byte_at b i ≡ b'+') × (8 ≤ digits_read.0) × (digits_read.0 ≤ 15))
      ⊎ ((byte_at b i ≡ b'0') × (digits_read.0 ≡ 10))
  unfolding phone_end digits_read
  phone_form = ground arith

  read : Reads (drop (i + 1) b) (if byte_at b i == b'+' then 0 else 1) (i + 1) digits_read
  unfolding digits_read
  read = phone_digits-Reads (drop (i + 1) b) _ (i + 1)

  -- All that `phone_end` accepts is a telephone number in this sense.
  pub phone_end-IsTelephone : IsTelephone b i end
  phone_end-IsTelephone =
      let k = read in
      let e : end ≡ i + 1 + k.width = omega (arith, end-digits_read, k.ends) in
      let w : end - (i + 1) ≡ k.width = omega arith in
      record {
        starts = phone_starts;
        later = omega arith;
        inside = λ lt. omega (arith, k.inside, length-drop (i + 1) b);
        accepted = rw w k.accepted;
        form = rw w (ground (arith, phone_form, k.counted));
        stops = rw (e, ← drop-drop (i + 1) k.width b) k.maximal;
      }

-- `r` is what becomes of `b` from `i` on: telephone numbers are replaced, and every other
-- character is copied.
pub data Masked (b : Bytes) : ℕ → Bytes → Type 0 where
  done : {i : ℕ} → length b ≤ i → Masked b i []
  phone :
      {i : ℕ} {r : Bytes} (end : ℕ) (rest : Bytes)
      → IsTelephone b i end
      → phone_end b i ≡ some end
      → Masked b end rest
      → r ≡ redacted ++ rest
      → Masked b i r
  copy :
      {i : ℕ} {r : Bytes} (rest : Bytes)
      → i < length b
      → phone_end b i ≡ none
      → Masked b (char_end b i) rest
      → r ≡ slice i (char_end b i) b ++ rest
      → Masked b i r

lt-char_end : (b : Bytes) (i : ℕ) → i < char_end b i
unfolding char_end
lt-char_end b i = omega arith

phones_loop-Masked :
    (f : ℕ) (b : Bytes) (i : ℕ) (out : Bytes)
    → 0 < f
    → length b < f + i
    → (r : Bytes) × (phones_loop f b i out ≡ some (out ++ r)) × Masked b i r
unfolding phones_loop
phones_loop-Masked zero b i out z h = absurd (omega arith)
phones_loop-Masked (suc f) b i out z h = elim (Bool-cases (ltb i (length b))) [
  | inr over ↦ ([], rw (over, append-nil), done (ground arith))
  | inl more ↦ elim (Option-cases (phone_end b i)) [
    | inr (end, found) ↦
        let p = phone_end-IsTelephone b i found in
        let (r, e, m) =
          phones_loop-Masked f b end (out ++ redacted) (omega (arith, ltb→lt _ _ more))
            (omega (arith, p.later)) in
        (redacted ++ r, rw (more, found) (rw append_assoc at e), phone end r p found m refl)
    | inl no_phone ↦
        let (r, e, m) =
          phones_loop-Masked f b (char_end b i) (out ++ slice i (char_end b i) b)
            (omega (arith, ltb→lt _ _ more)) (omega (arith, lt-char_end b i)) in
        (
          slice i (char_end b i) b ++ r,
          rw (more, no_phone) (rw append_assoc at e),
          copy r (ltb→lt _ _ more) no_phone m refl,
        )
  ]
]

-- The loop ends, and `mask_phones` replaces telephone numbers only: whatever it replaces is one,
-- and it copies all else.
pub mask_phones-Masked : (s : Bytes) → Masked s 0 (mask_phones s)
unfolding mask_phones
mask_phones-Masked s =
    let (r, e, m) = phones_loop-Masked (length s + 1) s 0 [] (omega arith) (omega arith) in rw e m

slice-drop : (i e : ℕ) (s : Bytes) → i ≤ e → slice i e s ++ drop e s ≡ drop i s
slice-drop i e s h =
    let j : i + (e - i) ≡ e = omega arith in
    let d : drop (e - i) (drop i s) ≡ drop e s = drop-drop (i) (e - i) s ∙ ap (λ n. drop n s) j in
    rw (← d) (take-append-drop (e - i) (drop i s))

drop-length : (i : ℕ) (s : Bytes) → length s ≤ i → drop i s ≡ []
drop-length zero [] h = refl
drop-length zero (x ∷ s) h = absurd (omega arith)
drop-length (suc i) [] h = refl
drop-length (suc i) (x ∷ s) h = drop-length i s (omega arith)

Masked-plain :
    {s : Bytes} {i : ℕ} {r : Bytes} → ((j : ℕ) → phone_end s j ≡ none) → Masked s i r → r ≡ drop i s
Masked-plain {s} {i} none_at (done h) = sym (drop-length i s h)
Masked-plain none_at (phone {i = i} end rest p found m e) = cc (none_at i)
Masked-plain {s} none_at (copy {i = i} rest lt no_phone m e) =
    e
    ∙ (ap (λ t. slice i (char_end s i) s ++ t) (Masked-plain none_at m)
        ∙ slice-drop i (char_end s i) s (omega (arith, lt-char_end s i)))

-- A text with no place where a number is recognised is copied as it stands.
pub mask_phones-eq_self : (s : Bytes) → ((j : ℕ) → phone_end s j ≡ none) → mask_phones s ≡ s
mask_phones-eq_self s h = Masked-plain h (mask_phones-Masked s)
