-- ===== src/Mask/Emails.antt =====
-- Addresses in free text: `mask_emails` of crates/solon-core/src/mask.rs.
mod Shift
use solon.Mask.Names.{redacted}
use Shift.{byte_at-append, drop-append_add, email_start-stop, shift, email_loop-append}
use native.Mathlib.Nat.{zero-add, suc-add, add-suc, add-zero}
use solon.Base.{
  ℕ, zero, suc, ◌+◌, ◌-◌, ◌*◌, ◌/◌, ◌%◌, ◌^◌, ◌≤◌, ◌<◌, min, max, ◌≡◌, refl, sym, ap, ◌∙◌, ◌≡⟨◌⟩◌,
  ◌∎, ◌≢◌, ◌↔◌, ◌⊎◌, inl, inr, Bool, true, false, not, ◌&&◌, ◌||◌, Option, none, some, List, [],
  ◌∷◌, ◌++◌, append_assoc, append-nil, map, reverse, arith, ltb, leb, ◌==◌, if◌then◌else◌, within,
  ltb→lt, lt→ltb, leb→le, ==_iff, ==_refl, tests, Bool-cases, Option-cases, length, get_elem?, take,
  drop, get_or, any, all, retain, All, replicate, length-append, take-append-drop, length-take,
  length-drop, take-append, drop-append, length-retain, All-append,
}
use solon.Base.Text.{contains_byte, Bytes}
use solon.Base.Split.{Free-tail, Free-head, Free}
use solon.Mask.FreeText.{
  slice, mask_emails, email_start, email_end, looks_like_domain, is_domain_byte, is_local_byte,
  byte_at, run_length, email_loop, email_step, EmailScan,
}

email_loop-add :
    (m n : ℕ) (b : Bytes) (at : ℕ) (s : EmailScan)
    → email_loop b (m + n) at s ≡ email_loop b n (at + m) (email_loop b m at s)
unfolding email_loop
email_loop-add zero n b at s = rw (zero-add, add-zero)
email_loop-add (suc m) n b at s =
    let e : at + 1 + m ≡ at + suc m = omega arith in
    rw suc-add (rw e at (email_loop-add m n b (at + 1) (email_step b at s)))

pub email_loop-skip :
    (rounds at : ℕ) (b : Bytes) (s : EmailScan)
    → ((j : ℕ) → at ≤ j → j < at + rounds → email_step b j s ≡ s)
    → email_loop b rounds at s ≡ s
unfolding email_loop
email_loop-skip zero at b s h = refl
email_loop-skip (suc rounds) at b s h =
    rw (h at (omega arith) (omega arith))
      (email_loop-skip rounds (at + 1) b s (λ j p q. h j (omega arith) (omega arith)))

byte_at-inside : (p q : Bytes) (j : ℕ) → j < length p → byte_at (p ++ q) j ≡ byte_at p j
byte_at-inside [] q j h = elim h [ ]
byte_at-inside (x ∷ p) q zero h = refl
byte_at-inside (x ∷ p) q (suc j) h = byte_at-inside p q j (omega arith)

byte_at-Free : (c : ℕ) (p : Bytes) (j : ℕ) → Free c p → j < length p → (byte_at p j == c) ≡ false
unfolding contains_byte
byte_at-Free c [] j f h = elim h [ ]
byte_at-Free c (x ∷ p) zero f h = Free-head c x p f
byte_at-Free c (x ∷ p) (suc j) f h = byte_at-Free c p j (Free-tail c x p f) (omega arith)

byte_at-All :
    (test : ℕ → Bool) (p : Bytes) (j : ℕ)
    → All (λ c. test c ≡ true) p
    → j < length p
    → test (byte_at p j) ≡ true
byte_at-All test [] j f h = elim h [ ]
byte_at-All test (x ∷ p) zero f h = f.0
byte_at-All test (x ∷ p) (suc j) f h = byte_at-All test p j f.1 (omega arith)

Free-local : (p : Bytes) → All (λ c. is_local_byte c ≡ true) p → Free b'@' p
unfolding contains_byte is_local_byte
Free-local [] h = refl
Free-local (x ∷ p) h = ground (arith, Free-local p h.1)

run_length-All :
    (test : ℕ → Bool) (p : Bytes) → All (λ c. test c ≡ true) p → run_length test p ≡ length p
unfolding run_length
run_length-All test [] h = refl
run_length-All test (x ∷ p) h = rw (h.0, run_length-All test p h.1)

-- The text after an address does not go on with the domain.
abbrev pub IsOutside : (ℕ → Bool) → Bytes → Type 0
IsOutside test [] = Unit
IsOutside test (c ∷ _) = test c ≡ false

run_length-append :
    (test : ℕ → Bool) (p q : Bytes)
    → All (λ c. test c ≡ true) p
    → IsOutside test q
    → run_length test (p ++ q) ≡ length p
unfolding run_length
run_length-append test [] [] h o = refl
run_length-append test [] (c ∷ q) h o = rw o
run_length-append test (x ∷ p) q h o = rw (h.0, run_length-append test p q h.1 o)

abbrev pub address : Bytes → Bytes → Bytes
address user domain = user ++ (b'@' ∷ domain)

-- An e-mail address as the scan sees it, between two texts that are no part of it.
pub record IsAddress (before user domain after : Bytes) : Type 0 where
  pub no_at : Free b'@' before
  pub apart : (before ≡ []) ⊎ (is_local_byte (byte_at before (length before - 1)) ≡ false)
  pub user_local : All (λ c. is_local_byte c ≡ true) user
  pub user_some : 0 < length user
  pub domain_bytes : All (λ c. is_domain_byte c ≡ true) domain
  pub domain_form : looks_like_domain domain ≡ true
  pub ends : IsOutside is_domain_byte after

Free-append : (c : ℕ) (p q : Bytes) → Free c p → Free c q → Free c (p ++ q)
unfolding contains_byte
Free-append c [] q h k = k
Free-append c (x ∷ p) q h k = ground (arith, Free-append c p q (Free-tail c x p h) k)

copied-step : (b : Bytes) (at : ℕ) (s : EmailScan) → at < s.copied → email_step b at s ≡ s
unfolding email_step
copied-step b at s h = ground arith

email_start-apart :
    (p q : Bytes)
    → (p ≡ []) ⊎ (is_local_byte (byte_at p (length p - 1)) ≡ false)
    → email_start (p ++ q) 0 (length p) ≡ length p
unfolding email_start
email_start-apart [] q h = refl
email_start-apart (x ∷ p) q (inl e) = cc
email_start-apart (x ∷ p) q (inr h) =
    let e : suc (length p) - 1 ≡ length p = omega arith in
    let h' : is_local_byte (byte_at (x ∷ p) (length p)) ≡ false = rw e at h in
    rw (byte_at-inside (x ∷ p) q (length p) (omega arith), h') (ground arith)

module _ (before user domain after : Bytes) (a : IsAddress before user domain after) where
  whole : Bytes
  whole = (before ++ address user domain) ++ after

  whole-user : whole ≡ (before ++ user) ++ (b'@' ∷ (domain ++ after))
  unfolding whole
  whole-user = simp append_assoc

  byte_at-at : byte_at whole (length before + length user) ≡ b'@'
  byte_at-at = rw whole-user (
      rw (← length-append before user)
        (rw add-zero at (byte_at-append (before ++ user) (b'@' ∷ (domain ++ after)) 0)))

  whole-before : whole ≡ before ++ (user ++ (b'@' ∷ (domain ++ after)))
  unfolding whole
  whole-before = simp append_assoc

  byte_at-user :
      (k : ℕ) → k < length user → is_local_byte (byte_at whole (length before + k)) ≡ true
  byte_at-user k h = rw whole-before (
      rw byte_at-append (
        rw (byte_at-inside user (b'@' ∷ (domain ++ after)) k h)
          (byte_at-All is_local_byte user k a.user_local h)))

  start-user : (k : ℕ) → k ≤ length user → email_start whole 0 (length before + k) ≡ length before
  unfolding email_start
  start-user zero h =
      rw (add-zero, whole-before)
        (email_start-apart before (user ++ (b'@' ∷ (domain ++ after))) a.apart)
  start-user (suc k) h = rw add-suc (ground (arith, byte_at-user k h, start-user k (omega arith)))

  whole-domain : drop (length before + length user + 1) whole ≡ domain ++ after
  whole-domain =
      rw (whole-user, ← length-append before user)
        (drop-append_add (before ++ user) (b'@' ∷ (domain ++ after)) 1)

  length-address :
      length (before ++ address user domain) ≡ length before + length user + 1 + length domain
  length-address =
      omega (arith, length-append before (address user domain), length-append user (b'@' ∷ domain))

  whole_end : email_end whole (length before + length user) ≡ length (before ++ address user domain)
  unfolding email_end
  whole_end =
      rw (whole-domain, run_length-append is_domain_byte domain after a.domain_bytes a.ends)
        (sym length-address)

  slice-domain :
      slice (length before + length user + 1) (length (before ++ address user domain)) whole
      ≡ domain
  slice-domain =
      let w : length (before ++ address user domain) - (length before + length user + 1)
          ≡ length domain =
        omega (arith, length-address) in
      rw (w, whole-domain, take-append domain after)

  slice-before : slice 0 (length before) whole ≡ before
  slice-before =
      let w : length before - 0 ≡ length before = omega arith in
      rw (w, whole-before, take-append before (user ++ (b'@' ∷ (domain ++ after))))

  found : EmailScan
  found = record { out = before ++ redacted; copied = length (before ++ address user domain) }

  start : EmailScan
  start = record { out = []; copied = 0 }

  step-found : email_step whole (length before + length user) start ≡ found
  unfolding email_step found start
  step-found =
      rw
        (
          byte_at-at,
          start-user (length user) (omega arith),
          whole_end,
          slice-domain,
          a.domain_form,
          slice-before,
        )
        (ground (arith, a.user_some))

  not_at : (j : ℕ) → j < length before + length user → (byte_at whole j == b'@') ≡ false
  not_at j h =
      let lt : j < length (before ++ user) = omega (arith, length-append before user) in
      rw (whole-user, byte_at-inside (before ++ user) (b'@' ∷ (domain ++ after)) j lt)
        (byte_at-Free b'@' (before ++ user) j
          (Free-append b'@' before user a.no_at (Free-local user a.user_local)) lt)

  skip-before : email_loop whole (length before + length user) 0 start ≡ start
  unfolding email_step
  skip-before =
      email_loop-skip (length before + length user) 0 whole start
        (λ j p q. rw (not_at j (omega arith)))

  skip-domain : email_loop whole (1 + length domain) (length before + length user) start ≡ found
  unfolding email_loop
  skip-domain =
      rw (email_loop-add 1 (length domain) whole (length before + length user) start, step-found)
        (email_loop-skip (length domain) (length before + length user + 1) whole found inside)
    where
      inside :
          (j : ℕ)
          → length before + length user + 1 ≤ j
          → j < length before + length user + 1 + length domain
          → email_step whole j found ≡ found
      inside j p q = copied-step whole j found (unfold found in omega (arith, length-address))

  reach-after :
      email_loop whole (length whole) 0 start
      ≡ email_loop whole (length after) (length (before ++ address user domain) + 0) found
  reach-after =
      let rounds : length whole ≡ length before + length user + (1 + length domain + length after) =
        unfold whole in
        omega (arith, length-append (before ++ address user domain) after, length-address) in
      let place : length before + length user + (1 + length domain)
          ≡ length (before ++ address user domain) + 0 =
        omega (arith, length-address) in
      rw (
        rounds,
        email_loop-add (length before + length user) (1 + length domain + length after) whole 0
            start,
        skip-before,
        zero-add,
        email_loop-add (1 + length domain) (length after) whole (length before + length user) start,
        skip-domain,
        place,
      )

  found-shift : found ≡ shift (before ++ address user domain) (before ++ redacted) start
  unfolding found start
  found-shift = rw (append-nil, add-zero)

  -- The first address of a text, which no `@` precedes, no letter of a user name touches in front and
  -- no letter of a domain behind, is replaced as a whole, whatever it is; the text in front of it
  -- stays, and the text after it is masked as if it stood alone.
  pub mask_emails_hides :
      mask_emails ((before ++ address user domain) ++ after)
      ≡ before ++ (redacted ++ mask_emails after)
  unfolding mask_emails whole start
  mask_emails_hides =
      let p = before ++ address user domain in
      let rest = email_loop after (length after) 0 start in
      rw
        (
          reach-after,
          found-shift,
          email_loop-append (length after) p after (before ++ redacted) 0 start,
          drop-append_add p after rest.copied,
        )
        (simp append_assoc)
