-- ===== src/Base/Trim.antt =====
-- Laws of the `trim_…_matches` of a byte.
use solon.Base.Tests.{◌==◌, if◌then◌else◌, Bool-cases}
use solon.Base.Lists.{All, All-append}
use solon.Base.Text.{Bytes, starts_with, trim_start_byte, trim_end_byte}
use Prim.Native.Nat.{ℕ}
use mathlib.Core.Path.{◌≡◌, refl, sym, ap, ◌∙◌, subst}
use mathlib.Core.Logic.{inl, inr}
use mathlib.Core.Bool.{false}
use mathlib.Core.List.{[], ◌∷◌, ◌++◌, reverse, reverse-cons, reverse-append, reverse-reverse}
use native.Mathlib.Omega.{arith}

All-reverse {κ} : (P : ℕ → Type κ) (s : Bytes) → All P s → All P (reverse s)
All-reverse P [] h = tt
All-reverse P (a ∷ s) (p, h) =
    subst (All P) (sym (reverse-cons a s))
      (All-append P (reverse s) (a ∷ []) (All-reverse P s h) (p, tt))

All-trim_start_byte {κ} :
    (P : ℕ → Type κ) (c : ℕ) (s : Bytes) → All P s → All P (trim_start_byte c s)
unfolding trim_start_byte
All-trim_start_byte P c [] h = tt
All-trim_start_byte P c (a ∷ s) h = elim (Bool-cases (a == c)) [
  | inl e ↦ rw e (All-trim_start_byte P c s h.1)
  | inr e ↦ rw e h
]

-- Nothing is added.
pub All-trim_byte {κ} :
    (P : ℕ → Type κ) (c : ℕ) (s : Bytes) → All P s → All P (trim_end_byte c (trim_start_byte c s))
unfolding trim_end_byte
All-trim_byte P c s h =
    All-reverse P _ (All-trim_start_byte P c _ (All-reverse P _ (All-trim_start_byte P c s h)))

starts_with-trim_start_byte :
    (c : ℕ) (s : Bytes) → starts_with (c ∷ []) (trim_start_byte c s) ≡ false
unfolding trim_start_byte starts_with
starts_with-trim_start_byte c [] = refl
starts_with-trim_start_byte c (a ∷ s) = ground (arith, starts_with-trim_start_byte c s)

-- What was taken off in front.
taken : ℕ → Bytes → Bytes
taken c [] = []
taken c (a ∷ s) = let rest = taken c s in if a == c then a ∷ rest else []

taken-append : (c : ℕ) (s : Bytes) → taken c s ++ trim_start_byte c s ≡ s
unfolding taken trim_start_byte
taken-append c [] = refl
taken-append c (a ∷ s) = elim (Bool-cases (a == c)) [
  | inl e ↦ rw e (ap (λ z. a ∷ z) (taken-append c s))
  | inr e ↦ rw e
]

starts_with-append_right :
    (c : ℕ) (s t : Bytes) → starts_with (c ∷ []) (s ++ t) ≡ false → starts_with (c ∷ []) s ≡ false
unfolding starts_with
starts_with-append_right c [] t h = refl
starts_with-append_right c (a ∷ s) t h = h

trim_end_byte-append : (c : ℕ) (s : Bytes) → trim_end_byte c s ++ reverse (taken c (reverse s)) ≡ s
unfolding trim_end_byte
trim_end_byte-append c s =
    sym (reverse-append (taken c (reverse s)) (trim_start_byte c (reverse s)))
    ∙ ap reverse (taken-append c (reverse s))
    ∙ reverse-reverse s

-- The byte is at neither end.
pub trim_byte-head :
    (c : ℕ) (s : Bytes) → starts_with (c ∷ []) (trim_end_byte c (trim_start_byte c s)) ≡ false
trim_byte-head c s =
    let y = trim_start_byte c s in
    starts_with-append_right c (trim_end_byte c y) (reverse (taken c (reverse y)))
      (rw (trim_end_byte-append c y) (starts_with-trim_start_byte c s))

pub trim_byte-last :
    (c : ℕ) (s : Bytes)
    → starts_with (c ∷ []) (reverse (trim_end_byte c (trim_start_byte c s))) ≡ false
unfolding trim_end_byte
trim_byte-last c s =
    rw (reverse-reverse (trim_start_byte c (reverse (trim_start_byte c s))))
      (starts_with-trim_start_byte c (reverse (trim_start_byte c s)))
