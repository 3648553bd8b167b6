-- ===== src/Domains/PumpLaws.antt =====
-- The task `pump`, crates/solon-service/src/domains.rs.
use solon.Base.{
  ℕ, zero, suc, ◌≤◌, ◌<◌, ◌≡◌, refl, sym, ap, ◌∙◌, inl, inr, Bool, true, false, Option, none, some,
  [], ◌++◌, append_assoc, append-nil, arith, ltb, ◌==◌, Bool-cases, Option-cases, length,
  length-append,
}
use mathlib.Core.Option
use solon.Base.Text.{Bytes}
use solon.DockerProxy.Head.{find_head_end}
use solon.DockerProxy.Copy.{read, arriving}
use solon.DockerProxy.Reading.{fewer}
use solon.DockerProxy.Rounds.{find_head_end-inside}
use solon.DockerProxy.Requests.{find_head_end-pos}
use solon.Domains.Head.{RespBody, no_body, resp_length, resp_chunked, resp_upgrade, until_close}
use solon.Domains.Bodies.{Pipe, fill, read_head, Chunks, unsent}
use solon.Domains.BodiesLaws.{AreBounded}
use solon.Domains.ForwardLaws.{Moves, forward_exact-Forwards}
use solon.Domains.Lines.{unsent-fill}
use solon.Domains.Relayed.{Went, IsLost, nothing_lost, IsEnd, is_total, is_eof, is_bad}
use solon.Domains.ChunkLaws.{forward_chunked-IsEnd}
use solon.Domains.Pump.{ok_length, ok_total, copy_all, relay_response}

-- What arrived is what was passed on, a line that was lost, and what is not sent yet.
pub record Passed (lost : Bytes) (p p' : Pipe) : Type 0 where
  pub moved : Bytes
  pub sent : p'.out ≡ p.out ++ moved
  pub left : unsent p ≡ moved ++ (lost ++ unsent p')

pub Passed-refl : (p : Pipe) → Passed [] p p
Passed-refl p = record { moved = []; sent = sym (append-nil p.out); left = refl }

pub Passed-trans : {lost : Bytes} {p q s : Pipe} → Passed [] p q → Passed lost q s → Passed lost p s
Passed-trans {lost} {p} {q} {s} x y = record {
  moved = x.moved ++ y.moved;
  sent = y.sent ∙ ap (λ z. z ++ y.moved) x.sent ∙ append_assoc p.out x.moved y.moved;
  left =
      x.left
      ∙ ap (λ z. x.moved ++ z) y.left
      ∙ sym (append_assoc x.moved y.moved (lost ++ unsent s));
}

pub Passed-length :
    {lost : Bytes} {p q : Pipe} → (w : Passed lost p q) → length (unsent q) ≤ length (unsent p)
Passed-length {lost} {p} {q} w =
    let e : length (unsent p) ≡ length (w.moved ++ (lost ++ unsent q)) =
      ap (λ z. length z) w.left in
    omega (arith, e, length-append w.moved (lost ++ unsent q), length-append lost (unsent q))

pub Went-Passed : {lost : Bytes} {p q : Pipe} → Went lost p q → Passed lost p q
Went-Passed w = record { moved = w.moved; sent = w.sent; left = w.left }

pub Moves-Passed : {b : Bool} {p q : Pipe} → Moves b p q → Passed [] p q
Moves-Passed w = record { moved = w.moved; sent = w.sent; left = w.left }

-- The relay of a body ends, and loses nothing when it succeeds.
pub data IsRelayed (p : Pipe) : Option (Pipe × Option ℕ) → Type 0 where
  relayed : (p' : Pipe) (n : ℕ) → Passed [] p p' → IsRelayed p (some (p', some n))
  failed :
      (p' : Pipe) (lost : Bytes) → IsLost lost → Passed lost p p' → IsRelayed p (some (p', none))

length-IsRelayed :
    (n : ℕ) (p : Pipe) (x : Pipe × Bool) → Passed [] p x.0 → IsRelayed p (some (ok_length n x))
length-IsRelayed n p (q, true) w = relayed q n w
length-IsRelayed n p (q, false) w = failed q [] nothing_lost w

total-IsRelayed :
    (p : Pipe) {o : Option (Pipe × Chunks)} → IsEnd 0 p o → IsRelayed p (Option.map ok_total o)
total-IsRelayed p (is_total q n w e) = relayed q n (Went-Passed w)
total-IsRelayed p (is_eof q w) = failed q [] nothing_lost (Went-Passed w)
total-IsRelayed p (is_bad q lost x w) = failed q lost x (Went-Passed w)

pub copy_all-Passed : (p : Pipe) → Passed [] p (copy_all p).0
unfolding copy_all
copy_all-Passed p = record { moved = unsent p; sent = refl; left = sym (append-nil (unsent p)) }

copy_all-IsRelayed : (p : Pipe) → IsRelayed p (some (copy_all p))
unfolding copy_all
copy_all-IsRelayed p = relayed (copy_all p).0 (length (arriving p.source)) (copy_all-Passed p)

pub relay_response-IsRelayed :
    (b : RespBody) (p : Pipe) → AreBounded p.tee → IsRelayed p (relay_response b p)
unfolding relay_response
relay_response-IsRelayed no_body p h = relayed p 0 (Passed-refl p)
relay_response-IsRelayed (resp_length n) p h =
    let f = forward_exact-Forwards true n p h in
    rw f.returned (length-IsRelayed n p f.out (Moves-Passed f.moves))
relay_response-IsRelayed resp_chunked p h = total-IsRelayed p (forward_chunked-IsEnd p h)
relay_response-IsRelayed resp_upgrade p h = copy_all-IsRelayed p
relay_response-IsRelayed until_close p h = copy_all-IsRelayed p

-- The reading of a head ends and passes nothing on; a length lies in the buffer.
pub data IsHead (p : Pipe) : Option (Pipe × Option ℕ) → Type 0 where
  is_head :
      (p' : Pipe) (n : ℕ)
      → unsent p' ≡ unsent p
      → p'.out ≡ p.out
      → n ≤ length p'.buf
      → 0 < n
      → IsHead p (some (p', some n))
  is_over : (p' : Pipe) → unsent p' ≡ unsent p → p'.out ≡ p.out → IsHead p (some (p', none))

IsHead-fill :
    (size : ℕ) (p : Pipe) {o : Option (Pipe × Option ℕ)}
    → IsHead (fill (read size p.source) p) o
    → IsHead p o
IsHead-fill size p (is_head q n e k l m) = is_head q n (e ∙ unsent-fill size p) k l m
IsHead-fill size p (is_over q e k) = is_over q (e ∙ unsent-fill size p) k

pub read_head-IsHead :
    (f : ℕ) (p : Pipe) → length (arriving p.source) < f → IsHead p (read_head f p)
unfolding read_head
read_head-IsHead zero p h = absurd (omega arith)
read_head-IsHead (suc f) p h = elim (Option-cases (find_head_end p.buf)) [
  | inr (n, k) ↦
      rw (read_head, k)
        (is_head p n refl refl (find_head_end-inside p.buf n k) (find_head_end-pos p.buf n k))
  | inl k ↦ elim (Bool-cases (ltb 65536 (length p.buf))) [
    | inl l ↦ rw (read_head, k, l) (is_over p refl refl)
    | inr l ↦ elim (Bool-cases (length (read 8192 p.source).0 == 0)) [
      | inl z ↦ rw (read_head, k, l, z) (is_over p refl refl)
      | inr z ↦
          rw (read_head, k, l, z)
            (IsHead-fill 8192 p
              (read_head-IsHead f (fill (read 8192 p.source) p) (fewer 8192 f p.source z h)))
    ]
  ]
]
