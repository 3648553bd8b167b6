-- ===== src/Domains/Relayed.antt =====
-- What a relayed body leaves of its two sides, crates/solon-service/src/domains.rs.
use solon.Base.{
  ℕ, ◌+◌, ◌≤◌, ◌≡◌, sym, ap, ◌∙◌, true, false, Option, none, some, [], ◌++◌, append_assoc,
  append-nil, arith, length, length-append,
}
use solon.Base.Text.{Bytes}
use solon.DockerProxy.Head.{crlf}
use solon.Domains.Bodies.{
  feed_if, Pipe, Chunks, total_of, bad_line, eof, write_line, size_of, unsent,
}
use solon.Domains.BodiesLaws.{AreBounded, feed_if-feed_if, feed_if-nil, feed_if-AreBounded}
use solon.Domains.ForwardLaws.{Moves}
use solon.Domains.Lines.{Drains}

-- What was not sent yet is what was passed on, a line that was lost, and what is not sent yet; the
-- capture saw `captured`.
pub record Went (lost : Bytes) (p p' : Pipe) : Type 0 where
  pub moved : Bytes
  pub captured : Bytes
  pub sent : p'.out ≡ p.out ++ moved
  pub left : unsent p ≡ moved ++ (lost ++ unsent p')
  pub seen : p'.tee ≡ feed_if p.tee captured

unfoldable pub Went-trans :
    {lost : Bytes} {p q s : Pipe} → AreBounded p.tee → Went [] p q → Went lost q s → Went lost p s
Went-trans {lost} {p} {q} {s} h x y = record {
  moved = x.moved ++ y.moved;
  captured = x.captured ++ y.captured;
  sent = y.sent ∙ ap (λ z. z ++ y.moved) x.sent ∙ append_assoc p.out x.moved y.moved;
  left =
      x.left
      ∙ ap (λ z. x.moved ++ z) y.left
      ∙ sym (append_assoc x.moved y.moved (lost ++ unsent s));
  seen =
      y.seen
      ∙ ap (λ z. feed_if z y.captured) x.seen
      ∙ feed_if-feed_if p.tee x.captured y.captured h;
}

pub Went-AreBounded :
    {lost : Bytes} {p q : Pipe} → Went lost p q → AreBounded p.tee → AreBounded q.tee
Went-AreBounded {lost} {p} w h = rw w.seen (feed_if-AreBounded p.tee w.captured h)

pub Drains-Went : {lost : Bytes} {p q : Pipe} → AreBounded p.tee → Drains lost p q → Went lost p q
Drains-Went {lost} {p} h d = record {
  moved = [];
  captured = [];
  sent = d.silent ∙ sym (append-nil p.out);
  left = d.left;
  seen = d.unseen ∙ sym (feed_if-nil p.tee h);
}

unfoldable pub line-Went :
    (l : Bytes) {p q : Pipe}
    → AreBounded p.tee
    → Drains (l ++ crlf) p q
    → Went [] p (write_line l q)
line-Went l {p} h d = record {
  moved = l ++ crlf;
  captured = [];
  sent = ap (λ z. z ++ (l ++ crlf)) d.silent;
  left = d.left;
  seen = d.unseen ∙ sym (feed_if-nil p.tee h);
}

unfoldable pub content-Went : {p q : Pipe} → Moves true p q → Went [] p q
content-Went m = record {
  moved = m.moved;
  captured = m.moved;
  sent = m.sent;
  left = m.left;
  seen = m.seen;
}

unfoldable pub end-Went : {p q : Pipe} → AreBounded p.tee → Moves false p q → Went [] p q
end-Went {p} h m = record {
  moved = m.moved;
  captured = [];
  sent = m.sent;
  left = m.left;
  seen = m.seen ∙ sym (feed_if-nil p.tee h);
}

-- What a relay may lose: nothing, or one line that is no size of a chunk, with its end.
pub data IsLost : Bytes → Type 0 where
  nothing_lost : IsLost []
  line_lost : (l : Bytes) → size_of l ≡ none → IsLost (l ++ crlf)

-- The end of a body: the total counts what the capture saw, and only a line that is no size is lost.
pub data IsEnd (total : ℕ) (p : Pipe) : Option (Pipe × Chunks) → Type 0 where
  is_total :
      (p' : Pipe) (n : ℕ)
      → (w : Went [] p p') → n ≡ total + length w.captured
      → IsEnd total p (some (p', total_of n))
  is_eof : (p' : Pipe) → Went [] p p' → IsEnd total p (some (p', eof))
  is_bad :
      (p' : Pipe) (lost : Bytes)
      → IsLost lost
      → Went lost p p'
      → IsEnd total p (some (p', bad_line))

pub IsEnd-after :
    {total total' : ℕ} {p q : Pipe} {o : Option (Pipe × Chunks)}
    → AreBounded p.tee
    → (w : Went [] p q) → total' ≡ total + length w.captured
    → IsEnd total' q o
    → IsEnd total p o
unfolding Went-trans
IsEnd-after h w e (is_total p' n v k) =
    is_total p' n (Went-trans h w v) (omega (arith, e, k, length-append w.captured v.captured))
IsEnd-after h w e (is_eof p' v) = is_eof p' (Went-trans h w v)
IsEnd-after h w e (is_bad p' lost x v) = is_bad p' lost x (Went-trans h w v)

pub Went-length :
    {p q : Pipe} → (w : Went [] p q) → length (unsent p) ≡ length w.moved + length (unsent q)
Went-length {p} {q} w = ap (λ z. length z) w.left ∙ length-append w.moved (unsent q)

pub line-shorter :
    (l : Bytes) {p q : Pipe} → Drains (l ++ crlf) p q → length (unsent q) + 2 ≤ length (unsent p)
line-shorter l {p} {q} d =
    let e : length (unsent p) ≡ length ((l ++ crlf) ++ unsent q) = ap (λ z. length z) d.left in
    omega (arith, e, length-append (l ++ crlf) (unsent q), length-append l crlf)

pub line_counts :
    (l : Bytes) {p q : Pipe}
    → (h : AreBounded p.tee) → (d : Drains (l ++ crlf) p q) → (total : ℕ)
    → total ≡ total + length (line-Went l h d).captured
unfolding line-Went
line_counts l h d total = omega arith
