-- ===== src/Domains/LinesCome.antt =====
-- A line that comes is read by `read_line`, crates/solon-service/src/domains.rs.
use solon.Base.{
  ℕ, zero, suc, ◌+◌, ◌≤◌, ◌<◌, ◌≡◌, refl, sym, ap, ◌∙◌, inl, inr, false, Option, some, none, [],
  ◌∷◌, ◌++◌, append_assoc, arith, ltb, ◌==◌, Bool-cases, length, take, drop, take-append,
  take-append-drop, length-append, length-take,
}
use solon.Base.Text.{Bytes, find_str, starts_with}
use solon.Base.Split.{Free, Free-tail, ne-head, find_str-append}
use solon.DockerProxy.Head.{crlf}
use solon.DockerProxy.Copy.{read, arriving}
use solon.DockerProxy.Conserve.{HasBytes, read-HasBytes, read-some}
use solon.DockerProxy.Reading.{fewer}
use solon.Domains.Bodies.{Pipe, Line, line, fill, read_line, unsent}
use solon.Domains.Lines.{unsent-fill}

-- Two texts with beginnings of one length.
pub append-same_length :
    (a b c d : Bytes) → length a ≡ length b → a ++ c ≡ b ++ d → (a ≡ b) × (c ≡ d)
append-same_length [] [] c d h e = (refl, e)
append-same_length [] (y ∷ b) c d h e = absurd (omega (arith, h))
append-same_length (x ∷ a) [] c d h e = absurd (omega (arith, h))
append-same_length (x ∷ a) (y ∷ b) c d h e =
    let ih = append-same_length a b c d (omega (arith, h)) (ap (drop 1) e) in
    ((λ i. ap head e i ∷ ih.0 i), ih.1)
  where
    head : Bytes → ℕ
    head [] = 0
    head (x ∷ _) = x

-- No line end shows before the line feed of the first one is there.
find_str-before :
    (l rest : Bytes) (k : ℕ)
    → Free 13 l
    → k ≤ length l + 1
    → find_str crlf (take k (l ++ (13 ∷ 10 ∷ rest))) ≡ none
unfolding find_str starts_with
find_str-before [] rest zero f h = refl
find_str-before [] rest (suc zero) f h = refl
find_str-before [] rest (suc (suc k)) f h = absurd (omega arith)
find_str-before (a ∷ l) rest zero f h = refl
find_str-before (a ∷ l) rest (suc k) f h =
    rw (ne-head 13 a l f, find_str-before l rest k (Free-tail 13 a l f) (omega arith)) refl

-- A line that was read, and what is behind it.
pub record Reads (l : Bytes) (p : Pipe) (rest : Bytes) (result : Option (Pipe × Line))
    : Type 0 where
  pub after : Pipe
  pub returned : result ≡ some (after, line l)
  pub left : unsent after ≡ rest
  pub silent : after.out ≡ p.out
  pub unseen : after.tee ≡ p.tee
  pub bytes : HasBytes after.source

-- The buffer holds the line and its end.
whole-line :
    (p : Pipe) (l rest : Bytes)
    → length l + 2 ≤ length p.buf
    → unsent p ≡ l ++ (13 ∷ 10 ∷ rest)
    → (p.buf ≡ l ++ (13 ∷ 10 ∷ drop (length l + 2) p.buf))
      × (drop (length l + 2) p.buf ++ arriving p.source ≡ rest)
whole-line p l rest h e =
    let k = length l + 2 in
    let cut : take k p.buf ++ (drop k p.buf ++ arriving p.source) ≡ (l ++ crlf) ++ rest =
      sym (append_assoc (take k p.buf) (drop k p.buf) (arriving p.source))
      ∙ ap (λ z. z ++ arriving p.source) (take-append-drop k p.buf)
      ∙ e
      ∙ sym (append_assoc l crlf rest) in
    let same =
      append-same_length (take k p.buf) (l ++ crlf) _ rest
        (omega (arith, length-take k p.buf, length-append l crlf)) cut in
    (
      sym (take-append-drop k p.buf)
          ∙ ap (λ z. z ++ drop k p.buf) same.0
          ∙ append_assoc l crlf (drop k p.buf),
      same.1,
    )

found-Reads :
    (f : ℕ) (p : Pipe) (l rest : Bytes)
    → Free 13 l
    → HasBytes p.source
    → length l + 2 ≤ length p.buf
    → unsent p ≡ l ++ (13 ∷ 10 ∷ rest)
    → Reads l p rest (read_line (suc f) p)
unfolding read_line starts_with
found-Reads f p l rest free b h e =
    let w = whole-line p l rest h e in
    let found : find_str crlf p.buf ≡ some (length l) =
      ap (find_str crlf) w.0
      ∙ find_str-append 13 (10 ∷ []) l (10 ∷ drop (length l + 2) p.buf) free refl in
    let front : take (length l) p.buf ≡ l = ap (take (length l)) w.0 ∙ take-append l _ in
    record {
      after = record p { buf = drop (length l + 2) p.buf };
      returned =
          rw (read_line, found)
            (ap (λ z. some (record p { buf = drop (length l + 2) p.buf }, line z)) front);
      left = w.1;
      silent = refl;
      unseen = refl;
      bytes = b;
    }

-- A line with its end, not longer than the buffer may grow, is read, however it comes in pieces that
-- are not empty.
pub read_line-Reads :
    (f : ℕ) (p : Pipe) (l rest : Bytes)
    → Free 13 l
    → length l < 65536
    → HasBytes p.source
    → unsent p ≡ l ++ (13 ∷ 10 ∷ rest)
    → length (arriving p.source) < f
    → Reads l p rest (read_line f p)
unfolding read_line
read_line-Reads zero p l rest free short b e m = absurd (omega arith)
read_line-Reads (suc f) p l rest free short b e m =
    elim (Bool-cases (ltb (length p.buf) (length l + 2))) [
      | inr w ↦ found-Reads f p l rest free b (ground arith) e
      | inl w ↦
          let part : length p.buf ≤ length l + 1 = ground arith in
          let absent : find_str crlf p.buf ≡ none =
            ap (find_str crlf)
              (sym (take-append p.buf (arriving p.source)) ∙ ap (take (length p.buf)) e)
            ∙ find_str-before l rest (length p.buf) free part in
          let fits : ltb 65536 (length p.buf) ≡ false = ground arith in
          let total : length p.buf + length (arriving p.source) ≡ length (l ++ (13 ∷ 10 ∷ rest)) =
            sym (length-append p.buf (arriving p.source)) ∙ ap (λ z. length z) e in
          let more : 0 < length (arriving p.source) =
            omega (arith, length-append l (13 ∷ 10 ∷ rest)) in
          let some_come = read-some 8192 p.source b (omega arith) more in
          let not_over : (length (read 8192 p.source).0 == 0) ≡ false = ground arith in
          let ih =
            read_line-Reads f (fill (read 8192 p.source) p) l rest free short
              (read-HasBytes 8192 p.source b) (unsent-fill 8192 p ∙ e)
              (fewer 8192 f p.source not_over m) in
          record {
            after = ih.after;
            returned = rw (read_line, absent, fits, not_over) ih.returned;
            left = ih.left;
            silent = ih.silent;
            unseen = ih.unseen;
            bytes = ih.bytes;
          }
    ]
