-- ===== src/Domains/ForwardLaws.antt =====
-- `forward_exact`, crates/solon-service/src/domains.rs.
use solon.Base.{
  ℕ, zero, suc, ◌-◌, ◌≤◌, ◌<◌, min, ◌≡◌, refl, sym, ap, ◌∙◌, inl, inr, Bool, true, false, Option,
  some, [], ◌∷◌, ◌++◌, append_assoc, append-nil, arith, ◌==◌, if◌then◌else◌, Bool-cases, length,
  take, drop, length-append, take-append-drop, length-take, length-drop,
}
use solon.Base.Text.{Bytes}
use solon.DockerProxy.Copy.{read, arriving}
use solon.DockerProxy.Conserve.{
  HasBytes, read-HasBytes, read-arriving, read-some, length-read, length-read-arriving,
}
use solon.Domains.Bodies.{Tee, feed_if, Pipe, emit, emit_read, forward_rest, forward_exact, unsent}
use solon.Domains.BodiesLaws.{AreBounded, feed_if-feed_if, feed_if-nil, feed_if-AreBounded}

abbrev pub seen_by : Bool → Option Tee → Bytes → Option Tee
seen_by b t moved = if b then feed_if t moved else t

-- From one state to another, some of what is not sent yet was passed on in order, and the capture has
-- seen it.
pub record Moves (b : Bool) (p p' : Pipe) : Type 0 where
  pub moved : Bytes
  pub sent : p'.out ≡ p.out ++ moved
  pub left : unsent p ≡ moved ++ unsent p'
  pub seen : p'.tee ≡ seen_by b p.tee moved
  pub bytes : HasBytes p.source → HasBytes p'.source

seen_by-nil : (b : Bool) (t : Option Tee) → AreBounded t → t ≡ seen_by b t []
seen_by-nil true t h = sym (feed_if-nil t h)
seen_by-nil false t h = refl

seen_by-seen_by :
    (b : Bool) (t : Option Tee) (x y : Bytes)
    → AreBounded t
    → seen_by b (seen_by b t x) y ≡ seen_by b t (x ++ y)
seen_by-seen_by true t x y h = feed_if-feed_if t x y h
seen_by-seen_by false t x y h = refl

seen_by-AreBounded :
    (b : Bool) (t : Option Tee) (x : Bytes) → AreBounded t → AreBounded (seen_by b t x)
seen_by-AreBounded true t x h = feed_if-AreBounded t x h
seen_by-AreBounded false t x h = h

Moves-refl : (b : Bool) (p : Pipe) → AreBounded p.tee → Moves b p p
Moves-refl b p h = record {
  moved = [];
  sent = sym (append-nil p.out);
  left = refl;
  seen = seen_by-nil b p.tee h;
  bytes = λ x. x;
}

Moves-trans : {b : Bool} {p q s : Pipe} → AreBounded p.tee → Moves b p q → Moves b q s → Moves b p s
Moves-trans {b} {p} {q} {s} h x y = record {
  moved = x.moved ++ y.moved;
  sent = y.sent ∙ ap (λ z. z ++ y.moved) x.sent ∙ append_assoc p.out x.moved y.moved;
  left = x.left ∙ ap (λ z. x.moved ++ z) y.left ∙ sym (append_assoc x.moved y.moved (unsent s));
  seen = y.seen ∙ ap (λ z. seen_by b z y.moved) x.seen ∙ seen_by-seen_by b p.tee x.moved y.moved h;
  bytes = λ k. y.bytes (x.bytes k);
}

emit_read-Moves :
    (b : Bool) (size : ℕ) (p : Pipe) → p.buf ≡ [] → Moves b p (emit_read b (read size p.source) p)
emit_read-Moves b size p e = record {
  moved = (read size p.source).0;
  sent = refl;
  left = rw e (sym (read-arriving size p.source));
  seen = refl;
  bytes = read-HasBytes size p.source;
}

pub emit_buf-Moves :
    (b : Bool) (k : ℕ) (p : Pipe)
    → Moves b p (emit b (take k p.buf) (record p { buf = drop k p.buf }))
emit_buf-Moves b k p = record {
  moved = take k p.buf;
  sent = refl;
  left =
      ap (λ z. z ++ arriving p.source) (sym (take-append-drop k p.buf))
      ∙ append_assoc (take k p.buf) (drop k p.buf) (arriving p.source);
  seen = refl;
  bytes = λ x. x;
}

-- What a body of a given length makes: the loop ends, what it passes on is the start of what is not sent yet,
-- it is the whole body when it reports success, and it does when the body comes.
pub record Forwards (b : Bool) (n : ℕ) (p : Pipe) (result : Option (Pipe × Bool)) : Type 0 where
  pub out : Pipe × Bool
  pub returned : result ≡ some out
  pub moves : Moves b p out.0
  pub exact : out.1 ≡ true → length moves.moved ≡ n
  pub complete : HasBytes p.source → n ≤ length (unsent p) → out.1 ≡ true

length-unsent : (p : Pipe) → p.buf ≡ [] → length (unsent p) ≡ length (arriving p.source)
length-unsent p e = rw e refl

unsent-came :
    (size n : ℕ) (p : Pipe)
    → p.buf ≡ []
    → HasBytes p.source
    → n ≤ length (unsent p)
    → 0 < size × 0 < n
    → (length (read size p.source).0 == 0) ≡ true
    → ⊥
unsent-came size n p e x y (q, r) z =
    let some_come : 0 < length (arriving p.source) = omega (arith, length-unsent p e) in
    let k = read-some size p.source x q some_come in ground arith

unsent-emit_read :
    (b : Bool) (size n : ℕ) (p : Pipe)
    → p.buf ≡ []
    → n ≤ length (unsent p)
    → n - length (read size p.source).0 ≤ length (unsent (emit_read b (read size p.source) p))
unsent-emit_read b size n p e y =
    let left : length (unsent (emit_read b (read size p.source) p))
        ≡ length (arriving (read size p.source).1) =
      rw e refl in
    omega (arith, length-read-arriving size p.source, length-unsent p e)

forward_rest-Forwards :
    (b : Bool) (f n : ℕ) (p : Pipe)
    → AreBounded p.tee
    → n ≤ f
    → (0 < n → p.buf ≡ [])
    → Forwards b n p (forward_rest b f n p)
unfolding forward_rest Moves-refl Moves-trans emit_read-Moves
forward_rest-Forwards b f zero p h l e = record {
  out = (p, true);
  returned = refl;
  moves = Moves-refl b p h;
  exact = λ x. refl;
  complete = λ x y. refl;
}
forward_rest-Forwards b zero (suc n) p h l e = absurd (omega arith)
forward_rest-Forwards b (suc f) (suc n) p h l empty =
    let e = empty (omega arith) in
    let size = min 16384 (suc n) in
    let got = read size p.source in
    let p' = emit_read b got p in
    let step = emit_read-Moves b size p e in
    elim (Bool-cases (length got.0 == 0)) [
      | inl z ↦ record {
        out = (p, false);
        returned = rw z;
        moves = Moves-refl b p h;
        exact = λ x. ground arith;
        complete = λ x y. absurd (unsent-came size (suc n) p e x y (omega arith, omega arith) z);
      }
      | inr z ↦
          let ih =
            forward_rest-Forwards b f (suc n - length got.0) p' (seen_by-AreBounded b p.tee got.0 h)
              (ground arith) (λ x. e) in
          record {
            out = ih.out;
            returned = rw z ih.returned;
            moves = Moves-trans h step ih.moves;
            exact = λ x.
                omega (
                  arith,
                  length-append got.0 ih.moves.moved,
                  ih.exact x,
                  length-read size p.source,
                );
            complete = λ x y. ih.complete (step.bytes x) (unsent-emit_read b size (suc n) p e y);
          }
    ]

drop_all : (n : ℕ) (a : Bytes) → length a ≤ n → drop n a ≡ []
drop_all zero [] h = refl
drop_all zero (x ∷ a) h = absurd (omega arith)
drop_all (suc n) [] h = refl
drop_all (suc n) (x ∷ a) h = drop_all n a (omega arith)

-- A body of the length that its head gives is passed on without end of the fuel, for any pieces in
-- which it comes: what goes on is the start of what is not sent yet, in order, and the capture sees just
-- that. On success exactly `n` bytes went on, and success is sure when `n` bytes are to come and no
-- piece is empty.
pub forward_exact-Forwards :
    (b : Bool) (n : ℕ) (p : Pipe) → AreBounded p.tee → Forwards b n p (forward_exact b n p)
unfolding forward_exact Moves-trans emit_buf-Moves
forward_exact-Forwards b n p h =
    let k = min (length p.buf) n in
    let p' = emit b (take k p.buf) (record p { buf = drop k p.buf }) in
    let step = emit_buf-Moves b k p in
    let ih =
      forward_rest-Forwards b (n - k) (n - k) p' (seen_by-AreBounded b p.tee (take k p.buf) h)
        (omega arith) (λ q. drop_all k p.buf (omega arith)) in
    record {
      out = ih.out;
      returned = ih.returned;
      moves = Moves-trans h step ih.moves;
      exact = λ x.
          omega
            (arith, length-append (take k p.buf) ih.moves.moved, length-take k p.buf, ih.exact x);
      complete = λ x y. ih.complete x (
          omega (
            arith,
            length-append p.buf (arriving p.source),
            length-append (drop k p.buf) (arriving p.source),
            length-drop k p.buf,
          ));
    }
