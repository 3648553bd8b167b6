-- ===== src/Mask/Plain.antt =====
-- What the masking of free text leaves alone.
use solon.Mask.Emails.{email_loop-skip}
use solon.Mask.Phones.{mask_phones-eq_self}
use solon.Mask.FreeText.{byte_at, email_step, phone_end, mask_emails, text}
use solon.Base.{ℕ, zero, suc, ◌≡◌, refl, false, none, [], ◌∷◌, arith, ◌==◌, length}
use solon.Base.Text.{contains_byte, Bytes}
use solon.Base.Split.{Free-tail, Free-head, Free}

byte_at-ne : (c : ℕ) (s : Bytes) (j : ℕ) → Free c s → (0 == c) ≡ false → (byte_at s j == c) ≡ false
unfolding contains_byte
byte_at-ne c [] j h z = z
byte_at-ne c (x ∷ s) zero h z = Free-head c x s h
byte_at-ne c (x ∷ s) (suc j) h z = byte_at-ne c s j (Free-tail c x s h) z

no_phone : (s : Bytes) → Free b'+' s → Free b'0' s → (j : ℕ) → phone_end s j ≡ none
unfolding phone_end
no_phone s p z j = ground (arith, byte_at-ne b'+' s j p refl, byte_at-ne b'0' s j z refl)

mask_emails-eq_self : (s : Bytes) → Free b'@' s → mask_emails s ≡ s
unfolding mask_emails
mask_emails-eq_self s h =
    rw (email_loop-skip (length s) 0 s (record { out = []; copied = 0 }) (λ j p q. still j))
  where
    still :
        (j : ℕ) → email_step s j (record { out = []; copied = 0 }) ≡ record { out = []; copied = 0 }
    still j = rw (byte_at-ne b'@' s j h refl)

-- A text that holds no `@`, no `+` and no `0` is kept as it is, whatever digits it holds besides.
pub text-eq_self : (s : Bytes) → Free b'@' s → Free b'+' s → Free b'0' s → text s ≡ s
unfolding text
text-eq_self s a p z = rw (mask_phones-eq_self s (no_phone s p z)) (mask_emails-eq_self s a)
