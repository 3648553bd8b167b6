-- ===== src/DockerProxy/PathLaws.antt =====
-- What the translation of paths does to the forms of a Windows path.
use solon.Base.{
  ℕ, suc, ◌+◌, ◌-◌, ◌≡◌, refl, sym, ap, ◌∙◌, ◌≢◌, inl, inr, true, false, Option, none, some, [],
  ◌∷◌, ◌++◌, arith, leb, ◌==◌, within, Option-cases, length, length-append, take-append,
  drop-append,
}
use solon.Base.Text.{trim_start_byte, Bytes, is_ascii_alphabetic, lower_byte}
use solon.Base.Split.{Avoids, position-append}
use solon.DockerProxy.Path.{
  translate_host_path, rewrite_bind, drive_and_rest, guest_path, to_slashes, split_bind,
}

letter-ne-slash : (c : ℕ) → is_ascii_alphabetic c ≡ true → (c == b'/') ≡ false
unfolding is_ascii_alphabetic
letter-ne-slash c h = ground arith

to_slashes-twice : (s : Bytes) → to_slashes (to_slashes s) ≡ to_slashes s
unfolding to_slashes
to_slashes-twice [] = refl
to_slashes-twice (a ∷ s) = rw (to_slashes-twice s) (ap (λ c. c ∷ to_slashes s) (ground arith))

backslash :
    (drive : ℕ) (rest : Bytes)
    → guest_path drive (b'\\' ∷ rest) ≡ guest_path drive (b'/' ∷ to_slashes rest)
unfolding guest_path to_slashes
backslash drive rest = rw (to_slashes-twice rest)

none-ne-some : {r : Bytes × Bytes} → none ≢ some r
none-ne-some e = ground arith

one_slash : (n : ℕ) → within 1 2 (suc n - n) ≡ true
one_slash n = ground arith

two_slashes : (n : ℕ) → within 1 2 (suc (suc n) - n) ≡ true
two_slashes n = ground arith

translate-drive_and_rest :
    (src : Bytes) (drive : ℕ) (rest : Bytes)
    → drive_and_rest src ≡ some (drive, rest)
    → translate_host_path src ≡ some (drive ∷ [], guest_path drive rest)
unfolding translate_host_path
translate-drive_and_rest src drive rest h = rw h

letter_colon :
    (c : ℕ) (rest : Bytes)
    → is_ascii_alphabetic c ≡ true
    → drive_and_rest (c ∷ b':' ∷ rest) ≡ some (lower_byte c, rest)
unfolding drive_and_rest
letter_colon c rest h = rw h

msys_one :
    (c : ℕ) (rest : Bytes)
    → is_ascii_alphabetic c ≡ true
    → drive_and_rest (b'/' ∷ c ∷ b'/' ∷ rest) ≡ some (lower_byte c, b'/' ∷ rest)
unfolding drive_and_rest trim_start_byte
msys_one c rest h = rw (letter-ne-slash c h, one_slash) (rw h)

msys_two :
    (c : ℕ) (rest : Bytes)
    → is_ascii_alphabetic c ≡ true
    → drive_and_rest (b'/' ∷ b'/' ∷ c ∷ b'/' ∷ rest) ≡ some (lower_byte c, b'/' ∷ rest)
unfolding drive_and_rest trim_start_byte
msys_two c rest h = rw (letter-ne-slash c h, two_slashes) (rw h)

guest_path-once : (drive : ℕ) (rest : Bytes) → translate_host_path (guest_path drive rest) ≡ none
unfolding translate_host_path drive_and_rest guest_path trim_start_byte
guest_path-once drive rest = rw one_slash

abbrev guest_of : Option (Bytes × Bytes) → Bytes
guest_of none = []
guest_of (some r) = r.1

-- A translated path is not translated again.
pub translate_once :
    (src drive guest : Bytes)
    → translate_host_path src ≡ some (drive, guest)
    → translate_host_path guest ≡ none
translate_once src drive guest h = elim (Option-cases (drive_and_rest src)) [
  | inl k ↦ absurd (none-ne-some {r = (drive, guest)} (unfold translate_host_path in rw k at h))
  | inr (r, k) ↦
      let e = ap guest_of (sym (translate-drive_and_rest src r.0 r.1 k) ∙ h) in
      ap translate_host_path (sym e) ∙ guest_path-once r.0 r.1
]

-- The four ways to write a path on a drive lead to the same path in the machine: with backslashes,
-- with slashes, and in the two forms of MSYS.
pub translate_forms :
    (c : ℕ) (rest : Bytes)
    → is_ascii_alphabetic c ≡ true
    → (translate_host_path (c ∷ b':' ∷ b'\\' ∷ rest)
        ≡ translate_host_path (c ∷ b':' ∷ b'/' ∷ to_slashes rest))
      × (translate_host_path (b'/' ∷ c ∷ b'/' ∷ rest)
          ≡ translate_host_path (c ∷ b':' ∷ b'/' ∷ rest))
      × (translate_host_path (b'/' ∷ b'/' ∷ c ∷ b'/' ∷ rest)
          ≡ translate_host_path (c ∷ b':' ∷ b'/' ∷ rest))
translate_forms c rest h =
    let plain =
      translate-drive_and_rest (c ∷ b':' ∷ b'/' ∷ rest) _ _ (letter_colon c (b'/' ∷ rest) h) in
    (
      translate-drive_and_rest (c ∷ b':' ∷ b'\\' ∷ rest) _ _ (letter_colon c (b'\\' ∷ rest) h)
          ∙ ap (λ g. some (lower_byte c ∷ [], g)) (backslash (lower_byte c) rest)
          ∙ sym (
              translate-drive_and_rest (c ∷ b':' ∷ b'/' ∷ to_slashes rest) _ _
                (letter_colon c (b'/' ∷ to_slashes rest) h)),
      translate-drive_and_rest (b'/' ∷ c ∷ b'/' ∷ rest) _ _ (msys_one c rest h) ∙ sym plain,
      translate-drive_and_rest (b'/' ∷ b'/' ∷ c ∷ b'/' ∷ rest) _ _ (msys_two c rest h) ∙ sym plain,
    )

cut-length :
    (c : ℕ) (rest tail : Bytes)
    → is_ascii_alphabetic c ≡ true
    → Avoids (λ a. a == b':') rest
    → split_bind ((c ∷ b':' ∷ rest) ++ (b':' ∷ tail)) ≡ some (c ∷ b':' ∷ rest, b':' ∷ tail)
unfolding split_bind
cut-length c rest tail h a =
    rw (h, position-append (λ a. a == b':') rest b':' tail a refl, three, two_more)
      (rw (take-append, drop-append))
  where
    three : leb 3 (suc (suc (length (rest ++ (b':' ∷ tail))))) ≡ true
    three = ground (arith, length-append rest (b':' ∷ tail))

    two_more : length rest + 2 ≡ suc (suc (length rest))
    two_more = omega arith

-- A bind whose source is a path on a drive has this source translated and keeps all that follows
-- the source, the colon included.
pub rewrite_bind_lem :
    (c : ℕ) (rest tail : Bytes)
    → is_ascii_alphabetic c ≡ true
    → Avoids (λ a. a == b':') rest
    → rewrite_bind ((c ∷ b':' ∷ rest) ++ (b':' ∷ tail))
      ≡ some (lower_byte c ∷ [], guest_path (lower_byte c) rest ++ (b':' ∷ tail))
unfolding rewrite_bind
rewrite_bind_lem c rest tail h a = rw (
  cut-length c rest tail h a,
  translate-drive_and_rest (c ∷ b':' ∷ rest) _ _ (letter_colon c rest h),
)
