-- ===== src/Base/Split.antt =====
-- Laws of `split`, `split_once`, `position` and `join` on texts that hold no separator.
use solon.Base.Tests.{◌==◌}
use solon.Base.Lists.{length, All}
use solon.Base.Text.{
  Bytes, contains_byte, split, split_once, position, rposition, join, starts_with, find_str,
}
use Prim.Native.Nat.{ℕ}
use mathlib.Core.Path.{◌≡◌, refl, ap, ◌∙◌}
use mathlib.Core.Bool.{Bool, true, false}
use mathlib.Core.List.{List, [], ◌∷◌, ◌++◌}
use mathlib.Core.Option.{none, some}
use native.Mathlib.Omega.{arith}

-- `s` does not hold the byte `c`.
abbrev pub Free : ℕ → Bytes → Type 0
Free c s = contains_byte c s ≡ false

pub Free-head : (c a : ℕ) (s : Bytes) → Free c (a ∷ s) → (a == c) ≡ false
unfolding contains_byte
Free-head c a s h = ground arith

pub Free-tail : (c a : ℕ) (s : Bytes) → Free c (a ∷ s) → Free c s
unfolding contains_byte
Free-tail c a s h = ground arith

pub split-Free : (c : ℕ) (p : Bytes) → Free c p → split c p ≡ p ∷ []
unfolding split
split-Free c [] h = refl
split-Free c (a ∷ p) h = rw (Free-head c a p h, split-Free c p (Free-tail c a p h))

pub split-append :
    (c : ℕ) (p rest : Bytes) → Free c p → split c (p ++ (c ∷ rest)) ≡ p ∷ split c rest
unfolding split
split-append c [] rest h = ground arith
split-append c (a ∷ p) rest h = rw (Free-head c a p h, split-append c p rest (Free-tail c a p h))

pub split-join :
    (c : ℕ) (p : Bytes) (ps : List Bytes)
    → All (Free c) (p ∷ ps)
    → split c (join c (p ∷ ps)) ≡ p ∷ ps
unfolding join
split-join c p [] h = split-Free c p h.0
split-join c p (q ∷ ps) h =
    split-append c p (join c (q ∷ ps)) h.0 ∙ ap (◌∷◌ p) (split-join c q ps h.1)

pub split_once-append :
    (c : ℕ) (p rest : Bytes) → Free c p → split_once c (p ++ (c ∷ rest)) ≡ some (p, rest)
unfolding split_once
split_once-append c [] rest h = ground arith
split_once-append c (a ∷ p) rest h =
    rw (Free-head c a p h, split_once-append c p rest (Free-tail c a p h))

pub split_once-Free : (c : ℕ) (p : Bytes) → Free c p → split_once c p ≡ none
unfolding split_once
split_once-Free c [] h = refl
split_once-Free c (a ∷ p) h = rw (Free-head c a p h, split_once-Free c p (Free-tail c a p h))

-- No byte of `s` passes the test.
abbrev pub Avoids : (ℕ → Bool) → Bytes → Type 0
Avoids test s = All (λ c. test c ≡ false) s

pub position-append :
    (test : ℕ → Bool) (p : Bytes) (c : ℕ) (rest : Bytes)
    → Avoids test p
    → test c ≡ true
    → position test (p ++ (c ∷ rest)) ≡ some (length p)
unfolding position
position-append test [] c rest h t = rw t
position-append test (a ∷ p) c rest h t =
    rw (h.0, position-append test p c rest h.1 t) (ap some (omega arith))

pub position-Avoids : (test : ℕ → Bool) (p : Bytes) → Avoids test p → position test p ≡ none
unfolding position
position-Avoids test [] h = refl
position-Avoids test (a ∷ p) h = rw (h.0, position-Avoids test p h.1)

pub rposition-Free : (c : ℕ) (s : Bytes) → Free c s → rposition c s ≡ none
unfolding rposition
rposition-Free c [] h = refl
rposition-Free c (a ∷ s) h = rw (rposition-Free c s (Free-tail c a s h), Free-head c a s h)

pub rposition-append :
    (c : ℕ) (p rest : Bytes) → Free c rest → rposition c (p ++ (c ∷ rest)) ≡ some (length p)
unfolding rposition
rposition-append c [] rest h = rw (rposition-Free c rest h) (ground arith)
rposition-append c (a ∷ p) rest h = rw (rposition-append c p rest h) (ap some (omega arith))

pub ne-head : (c a : ℕ) (p : Bytes) → Free c (a ∷ p) → (c == a) ≡ false
unfolding contains_byte
ne-head c a p h = ground arith

pub find_str-append :
    (c : ℕ) (needle p rest : Bytes)
    → Free c p
    → starts_with (c ∷ needle) (c ∷ rest) ≡ true
    → find_str (c ∷ needle) (p ++ (c ∷ rest)) ≡ some (length p)
unfolding find_str
find_str-append c needle [] rest h s = rw s
find_str-append c needle (a ∷ p) rest h s =
    let ne : (c == a) ≡ false = ne-head c a p h in
    rw (ne, find_str-append c needle p rest (Free-tail c a p h) s) (ap some (omega arith))
