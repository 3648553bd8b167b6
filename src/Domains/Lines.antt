-- ===== src/Domains/Lines.antt =====
-- `read_line`, crates/solon-service/src/domains.rs.
use solon.Base.{
  ℕ, zero, suc, ◌+◌, ◌<◌, ◌≡◌, refl, sym, ap, ◌∙◌, inl, inr, true, Option, some, none, [], ◌∷◌,
  ◌++◌, append_assoc, arith, ltb, ◌==◌, Bool-cases, Option-cases, length, take, drop,
}
use solon.Base.Text.{Bytes, find_str, starts_with}
use solon.DockerProxy.Head.{crlf}
use solon.DockerProxy.Copy.{read, arriving}
use solon.DockerProxy.Conserve.{read-arriving}
use solon.DockerProxy.Reading.{fewer}
use solon.Domains.Bodies.{Pipe, Line, line, closed, too_long, fill, read_line, unsent}

starts_with-drop : (p s : Bytes) → starts_with p s ≡ true → s ≡ p ++ drop (length p) s
unfolding starts_with
starts_with-drop [] s h = refl
starts_with-drop (a ∷ p) [] h = ground arith
starts_with-drop (a ∷ p) (b ∷ s) h =
    let e : b ≡ a = ground arith in let ih = starts_with-drop p s (ground arith) in λ i. e i ∷ ih i

found-first :
    (p s : Bytes) (i : ℕ)
    → starts_with p s ≡ true
    → i ≡ 0
    → s ≡ take i s ++ (p ++ drop (i + length p) s)
found-first p s i t e =
    let m : length p ≡ 0 + length p = omega arith in
    rw e (starts_with-drop p s t ∙ ap (λ n. p ++ drop n s) m)

-- A text is what stands in front of a place where `p` is found, `p`, and the rest.
find_str-split :
    (p s : Bytes) (i : ℕ) → find_str p s ≡ some i → s ≡ take i s ++ (p ++ drop (i + length p) s)
unfolding find_str starts_with
find_str-split p [] i h = elim (Bool-cases (starts_with p [])) [
  | inl t ↦ let e : some 0 ≡ some i = rw t at h in found-first p [] i t (ground (arith, e))
  | inr f ↦ let e : none ≡ some i = rw f at h in ground (arith, e)
]
find_str-split p (c ∷ s) i h = elim (Bool-cases (starts_with p (c ∷ s))) [
  | inl t ↦ let e : some 0 ≡ some i = rw t at h in found-first p (c ∷ s) i t (ground (arith, e))
  | inr f ↦ elim (Option-cases (find_str p s)) [
    | inl n ↦ let e : none ≡ some i = rw (f, n) at h in ground (arith, e)
    | inr (j, k) ↦
        let e : some (j + 1) ≡ some i = rw (f, k) at h in
        let q : i ≡ suc j = ground (arith, e) in
        let m : suc (j + length p) ≡ suc j + length p = omega arith in
        rw q (
          ap (λ z. c ∷ z) (find_str-split p s j k)
          ∙ ap (λ n. c ∷ (take j s ++ (p ++ drop n (c ∷ s)))) m)
  ]
]

-- Some bytes were taken away in front, and nothing was passed on.
pub record Drains (taken : Bytes) (p p' : Pipe) : Type 0 where
  pub left : unsent p ≡ taken ++ unsent p'
  pub silent : p'.out ≡ p.out
  pub unseen : p'.tee ≡ p.tee

-- What the reading of a line gives.
pub data IsLine (p : Pipe) : Option (Pipe × Line) → Type 0 where
  is_line : (p' : Pipe) (l : Bytes) → Drains (l ++ crlf) p p' → IsLine p (some (p', line l))
  is_closed : (p' : Pipe) → Drains [] p p' → IsLine p (some (p', closed))
  is_long : (p' : Pipe) → Drains [] p p' → IsLine p (some (p', too_long))

pub unsent-fill : (size : ℕ) (p : Pipe) → unsent (fill (read size p.source) p) ≡ unsent p
unsent-fill size p =
    append_assoc p.buf (read size p.source).0 (arriving (read size p.source).1)
    ∙ ap (λ z. p.buf ++ z) (read-arriving size p.source)

Drains-fill :
    {x : Bytes} {p p' : Pipe} (size : ℕ) → Drains x (fill (read size p.source) p) p' → Drains x p p'
Drains-fill {x} {p} {p'} size d = record {
  left = sym (unsent-fill size p) ∙ d.left;
  silent = d.silent;
  unseen = d.unseen;
}

IsLine-fill :
    (size : ℕ) (p : Pipe) {o : Option (Pipe × Line)}
    → IsLine (fill (read size p.source) p) o
    → IsLine p o
IsLine-fill size p (is_line p' l d) = is_line p' l (Drains-fill size d)
IsLine-fill size p (is_closed p' d) = is_closed p' (Drains-fill size d)
IsLine-fill size p (is_long p' d) = is_long p' (Drains-fill size d)

Drains-refl : (p : Pipe) → Drains [] p p
Drains-refl p = record { left = refl; silent = refl; unseen = refl }

found-IsLine :
    (p : Pipe) (i : ℕ)
    → find_str crlf p.buf ≡ some i
    → IsLine p (some (record p { buf = drop (i + 2) p.buf }, line (take i p.buf)))
found-IsLine p i k =
    is_line (record p { buf = drop (i + 2) p.buf }) (take i p.buf)
      (record {
        left = ap (λ z. z ++ arriving p.source) (find_str-split crlf p.buf i k) ∙ simp append_assoc;
        silent = refl;
        unseen = refl;
      })

-- The reading of a line ends within its fuel.
pub read_line-IsLine :
    (f : ℕ) (p : Pipe) → length (arriving p.source) < f → IsLine p (read_line f p)
unfolding read_line
read_line-IsLine zero p h = absurd (omega arith)
read_line-IsLine (suc f) p h = elim (Option-cases (find_str crlf p.buf)) [
  | inr (i, k) ↦ rw (read_line, k) (found-IsLine p i k)
  | inl k ↦ elim (Bool-cases (ltb 65536 (length p.buf))) [
    | inl l ↦ rw (read_line, k, l) (is_long p (Drains-refl p))
    | inr l ↦ elim (Bool-cases (length (read 8192 p.source).0 == 0)) [
      | inl z ↦ rw (read_line, k, l, z) (is_closed p (Drains-refl p))
      | inr z ↦
          rw (read_line, k, l, z)
            (IsLine-fill 8192 p
              (read_line-IsLine f (fill (read 8192 p.source) p) (fewer 8192 f p.source z h)))
    ]
  ]
]
