-- ===== src/Domains/RoundLaws.antt =====
-- A round of the loop of the requests in `handle`, crates/solon-service/src/domains.rs.
use solon.Base.{
  ℕ, ◌≤◌, ◌<◌, ◌≡◌, refl, sym, ap, ◌∙◌, Bool, true, false, Option, none, some, List, [], ◌∷◌, ◌++◌,
  append_assoc, append-nil, arith, if◌then◌else◌, length, take, drop, take-append-drop,
}
use mathlib.Core.Option
use solon.Base.Text.{Bytes}
use solon.Protocol.{TraceBody}
use solon.DockerProxy.Copy.{arriving}
use solon.Domains.Head.{
  Body, length_of, chunked, upgrade, rewrite_head, parse_request_head, capturable,
}
use solon.Domains.Bodies.{Tee, Pipe, Chunks, feed_if, unsent}
use solon.Domains.BodiesLaws.{AreBounded, feed_if-nil}
use solon.Domains.ForwardLaws.{Moves, forward_exact-Forwards}
use solon.Domains.Relayed.{
  Went, content-Went, IsLost, nothing_lost, IsEnd, is_total, is_eof, is_bad,
}
use solon.Domains.ChunkLaws.{forward_chunked-IsEnd}
use solon.Domains.Pump.{tee_for, copy_all}
use solon.Domains.PumpLaws.{Passed-length, Went-Passed}
use solon.Domains.Pairing.{head-shorter, tee_for-AreBounded}
use solon.Domains.Requests.{
  Sending, ok_chunks, relay_request, fill_slot, RequestRound, goes_on, finished, end_request,
  relay_round,
}
use solon.Domains.Exchanges.{Exchange, watched, request_of, body_at, Fits}

-- The relay of the body of a request ends.
data IsSent (b : Body) (p : Pipe) : Option (Pipe × Bool) → Type 0 where
  is_whole :
      (q : Pipe) → (w : Went [] p q) → Fits b w.moved w.captured → IsSent b p (some (q, true))
  is_cut : (q : Pipe) (lost : Bytes) → IsLost lost → Went lost p q → IsSent b p (some (q, false))

chunks-IsSent :
    (p : Pipe) {o : Option (Pipe × Chunks)}
    → IsEnd 0 p o
    → IsSent chunked p (Option.map ok_chunks o)
chunks-IsSent p (is_total q n w e) = is_whole q w tt
chunks-IsSent p (is_eof q w) = is_cut q [] nothing_lost w
chunks-IsSent p (is_bad q lost x w) = is_cut q lost x w

length-IsSent :
    (n : ℕ) (p : Pipe) (x : Pipe × Bool)
    → (m : Moves true p x.0) → (x.1 ≡ true → length m.moved ≡ n)
    → IsSent (length_of n) p (some x)
unfolding content-Went
length-IsSent n p (q, true) m e = is_whole q (content-Went m) (refl, e refl)
length-IsSent n p (q, false) m e = is_cut q [] nothing_lost (content-Went m)

copy_all-Went : (p : Pipe) → AreBounded p.tee → Went [] p (copy_all p).0
unfolding copy_all
copy_all-Went p h = record {
  moved = unsent p;
  captured = [];
  sent = refl;
  left = sym (append-nil (unsent p));
  seen = sym (feed_if-nil p.tee h);
}

relay_request-IsSent : (b : Body) (p : Pipe) → AreBounded p.tee → IsSent b p (relay_request b p)
unfolding relay_request
relay_request-IsSent upgrade p h = is_whole (copy_all p).0 (copy_all-Went p h) tt
relay_request-IsSent (length_of n) p h =
    let f = forward_exact-Forwards true n p h in
    rw f.returned (length-IsSent n p f.out f.moves f.exact)
relay_request-IsSent chunked p h = chunks-IsSent p (forward_chunked-IsEnd p h)

-- What one request adds.
pub record Adds (scheme : Bytes) (now : ℕ → ℕ) (x : Exchange) (lost : Bytes) (s s' : Sending)
    : Type 0 where
  pub queued : s'.queued ≡ s.queued ++ (request_of scheme now (length s.queued) x ∷ [])
  pub sent : s'.pipe.out ≡ s.pipe.out ++ ((rewrite_head x.head scheme).0 ++ x.moved)
  pub left : unsent s.pipe ≡ (x.head ++ x.moved) ++ (lost ++ unsent s'.pipe)

-- A round adds one request, and the body of no other.
pub data IsRequested (capture : Bool) (scheme : Bytes) (now : ℕ → ℕ) (s : Sending)
    : Option RequestRound → Type 0 where
  goes :
      (s' : Sending) (x : Exchange)
      → Adds scheme now x [] s s'
      → s'.filled ≡ s.filled ++ body_at (length s.queued) (watched capture x) x.captured
      → Fits (rewrite_head x.head scheme).1 x.moved x.captured
      → length (unsent s'.pipe) < length (unsent s.pipe)
      → IsRequested capture scheme now s (some (goes_on s'))
  ends :
      (s' : Sending) (ok : Bool) (x : Exchange) (lost : Bytes)
      → IsLost lost
      → Adds scheme now x lost s s'
      → s'.filled ≡ s.filled
      → IsRequested capture scheme now s (some (finished s' ok))

-- A slot is filled with what its own capture saw.
fill_slot-body_at :
    (k : ℕ) (ct : Option Bytes) (captured : Bytes) (t : Option Tee)
    (l : List (ℕ × Option TraceBody))
    → t ≡ feed_if (tee_for ct) captured
    → fill_slot k t ct l ≡ l ++ body_at k ct captured
unfolding fill_slot
fill_slot-body_at k none captured t l e = rw e (sym (append-nil l))
fill_slot-body_at k (some ct) captured t l e = rw e refl

-- The state in which the body of a request is relayed.
abbrev with_head : Bytes → (ℕ → ℕ) → Bool → ℕ → Sending → Sending
with_head scheme now capture n s =
    let x : Exchange = record { head = take n s.pipe.buf; moved = []; captured = [] } in
    record {
      pipe = record s.pipe {
        buf = drop n s.pipe.buf;
        out = s.pipe.out ++ (rewrite_head x.head scheme).0;
        tee = tee_for (watched capture x);
      };
      queued = s.queued ++ (request_of scheme now (length s.queued) x ∷ []);
      filled = s.filled;
    }

head-Adds :
    (scheme : Bytes) (now : ℕ → ℕ) (capture : Bool) (n : ℕ) (s : Sending) {lost : Bytes} {q : Pipe}
    → (w : Went lost (with_head scheme now capture n s).pipe q)
    → (filled : List (ℕ × Option TraceBody))
    → Adds scheme now
        (record { head = take n s.pipe.buf; moved = w.moved; captured = w.captured })
        lost
        s
        (record (with_head scheme now capture n s) { pipe = q; filled = filled })
head-Adds scheme now capture n s {lost} {q} w filled = record {
  queued = refl;
  sent = w.sent ∙ append_assoc s.pipe.out (rewrite_head (take n s.pipe.buf) scheme).0 w.moved;
  left =
      ap (λ z. z ++ arriving s.pipe.source) (sym (take-append-drop n s.pipe.buf))
      ∙ append_assoc (take n s.pipe.buf) (drop n s.pipe.buf) (arriving s.pipe.source)
      ∙ ap (λ z. take n s.pipe.buf ++ z) w.left
      ∙ sym (append_assoc (take n s.pipe.buf) w.moved (lost ++ unsent q));
}

end_request-IsRequested :
    (scheme : Bytes) (now : ℕ → ℕ) (capture : Bool) (n : ℕ) (body : Body) (s : Sending)
    (o : Option (Pipe × Bool))
    → n ≤ length s.pipe.buf
    → 0 < n
    → (rewrite_head (take n s.pipe.buf) scheme).1 ≡ body
    → IsSent body (with_head scheme now capture n s).pipe o
    → IsRequested capture scheme now s (
        Option.map
          (end_request
            (length s.queued)
            body
            (if capture then capturable (parse_request_head (take n s.pipe.buf)).2 else none)
            (with_head scheme now capture n s))
          o)
unfolding end_request
end_request-IsRequested scheme now capture n body s o l m e (is_cut q lost i w) =
    ends _ false _ lost i (head-Adds scheme now capture n s w s.filled) refl
end_request-IsRequested scheme now capture n upgrade s o l m e (is_whole q w f) =
    ends _ true _ [] nothing_lost (head-Adds scheme now capture n s w s.filled) refl
end_request-IsRequested scheme now capture n chunked s o l m e (is_whole q w f) =
    goes _ _ (head-Adds scheme now capture n s w _)
      (fill_slot-body_at (length s.queued) _ w.captured q.tee s.filled w.seen) (rw e tt)
      (omega (arith, head-shorter n s.pipe l m, Passed-length (Went-Passed w)))
end_request-IsRequested scheme now capture n (length_of k) s o l m e (is_whole q w f) =
    goes _ _ (head-Adds scheme now capture n s w _)
      (fill_slot-body_at (length s.queued) _ w.captured q.tee s.filled w.seen) (rw e f)
      (omega (arith, head-shorter n s.pipe l m, Passed-length (Went-Passed w)))

pub relay_round-IsRequested :
    (capture : Bool) (scheme : Bytes) (now : ℕ → ℕ) (n : ℕ) (s : Sending)
    → n ≤ length s.pipe.buf
    → 0 < n
    → IsRequested capture scheme now s (relay_round capture scheme now n s)
unfolding relay_round
relay_round-IsRequested capture scheme now n s l m =
    let body = (rewrite_head (take n s.pipe.buf) scheme).1 in
    end_request-IsRequested scheme now capture n body s _ l m refl
      (relay_request-IsSent body (with_head scheme now capture n s).pipe (tee_for-AreBounded _))
