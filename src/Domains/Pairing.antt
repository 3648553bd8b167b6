-- ===== src/Domains/Pairing.antt =====
-- How the task `pump` pairs answers with requests, crates/solon-service/src/domains.rs.
use solon.Base.{
  ℕ, zero, suc, ◌+◌, ◌≤◌, ◌<◌, ◌≡◌, refl, sym, ap, ◌∙◌, Bool, true, false, Option, none, some, List,
  [], ◌++◌, append-nil, arith, if◌then◌else◌, length, take, drop, length-append, length-drop,
}
use mathlib.Core.Option
use solon.Base.Text.{Bytes}
use solon.DockerProxy.Copy.{arriving}
use solon.Protocol.{TraceHeader}
use solon.Domains.Head.{RespBody, parse_response_head, capturable}
use solon.Domains.Bodies.{Tee, Pipe, emit, read_head, line_reads, unsent}
use solon.Domains.BodiesLaws.{AreBounded}
use solon.Domains.ForwardLaws.{emit_buf-Moves}
use solon.Domains.Pump.{
  Connection, Pump, receive, current_request, method_of, is_interim, relay_response, end_round,
  tee_for, captured_body, trace_of, answer_round, pump,
}
use solon.Domains.Relayed.{IsLost, nothing_lost}
use solon.Domains.PumpLaws.{
  Passed, Passed-trans, Passed-length, Moves-Passed, IsRelayed, relayed, failed,
  relay_response-IsRelayed, IsHead, is_head, is_over, read_head-IsHead,
}
use solon.Domains.Waiting.{
  requests, requests_of, requests_of-receive, waiting-current_request, requests-answer,
}

-- A round passes on what came, in order, and forgets no request.
data IsAnswered (p : Pump) : Option (Pump × Bool) → Type 0 where
  goes :
      (q : Pump)
      → Passed [] p.pipe q.pipe
      → length (unsent q.pipe) < length (unsent p.pipe)
      → requests_of q ≡ requests_of p
      → IsAnswered p (some (q, true))
  ends :
      (q : Pump) (lost : Bytes)
      → IsLost lost
      → Passed lost p.pipe q.pipe
      → requests_of q ≡ requests_of p
      → IsAnswered p (some (q, false))

head-Passed :
    (n : ℕ) (p : Pipe) (t : Option Tee)
    → Passed [] p (record (emit false (take n p.buf) (record p { buf = drop n p.buf })) { tee = t })
head-Passed n p t =
    let w = Moves-Passed (emit_buf-Moves false n p) in
    record { moved = w.moved; sent = w.sent; left = w.left }

pub head-shorter :
    (n : ℕ) (p : Pipe)
    → n ≤ length p.buf
    → 0 < n
    → length (drop n p.buf ++ arriving p.source) < length (unsent p)
head-shorter n p l m = omega (
  arith,
  length-append p.buf (arriving p.source),
  length-append (drop n p.buf) (arriving p.source),
  length-drop n p.buf,
)

pub tee_for-AreBounded : (o : Option Bytes) → AreBounded (tee_for o)
tee_for-AreBounded none = tt
tee_for-AreBounded (some ct) = omega arith

going :
    (p q : Pump) (b : Bool)
    → Passed [] p.pipe q.pipe
    → length (unsent q.pipe) < length (unsent p.pipe)
    → requests_of q ≡ requests_of p
    → IsAnswered p (some (q, b))
going p q true w s e = goes q w s e
going p q false w s e = ends q [] nothing_lost w e

-- What an ended round keeps of the requests.
requests_of-end_round :
    (c : Connection) (i : ℕ) (answer : ℕ × List TraceHeader × RespBody) (ct : Option Bytes)
    (p : Pump) (x : Pipe × Option ℕ)
    → requests_of (end_round c i answer ct (current_request p.current p.queue) p x).0
      ≡ requests_of p
unfolding end_round trace_of
requests_of-end_round c i (status, headers, body) ct p (pipe, n) =
    let asked = current_request p.current p.queue in
    requests-answer (is_interim status) asked.0 asked.1 p.coming p.pushed
      (trace_of c (c.now i) status headers n (captured_body pipe.tee ct)) (λ q. refl)
    ∙ ap (λ z. requests p.pushed z p.coming) (waiting-current_request p.current p.queue)

end_round-IsAnswered :
    (c : Connection) (i : ℕ) (answer : ℕ × List TraceHeader × RespBody) (ct : Option Bytes)
    (p : Pump) (r : Pipe) (o : Option (Pipe × Option ℕ))
    → Passed [] p.pipe r
    → length (unsent r) < length (unsent p.pipe)
    → IsRelayed r o
    → IsAnswered p (Option.map (end_round c i answer ct (current_request p.current p.queue) p) o)
unfolding end_round
end_round-IsAnswered c i answer ct p r o w s (relayed q n v) =
    let x = end_round c i answer ct (current_request p.current p.queue) p (q, some n) in
    going p x.0 x.1 (Passed-trans w v) (omega (arith, s, Passed-length v))
      (requests_of-end_round c i answer ct p (q, some n))
end_round-IsAnswered c i answer ct p r o w s (failed q lost y v) =
    let x = end_round c i answer ct (current_request p.current p.queue) p (q, none) in
    ends x.0 lost y (Passed-trans w v) (requests_of-end_round c i answer ct p (q, none))

answer_round-IsAnswered :
    (c : Connection) (i n : ℕ) (p : Pump)
    → n ≤ length p.pipe.buf
    → 0 < n
    → IsAnswered p (answer_round c i n p)
unfolding answer_round
answer_round-IsAnswered c i n p l m =
    let asked = current_request p.current p.queue in
    let answer = parse_response_head (take n p.pipe.buf) (method_of asked.0) in
    let ct = if c.capture then capturable answer.1 else none in
    let r = record (emit false (take n p.pipe.buf) (record p.pipe { buf = drop n p.pipe.buf })) {
      tee = tee_for ct;
    } in
    end_round-IsAnswered c i answer ct p r (relay_response answer.2 r)
      (head-Passed n p.pipe (tee_for ct)) (head-shorter n p.pipe l m)
      (relay_response-IsRelayed answer.2 r (tee_for-AreBounded ct))

-- What the task makes of its connection.
pub record IsPumped (p : Pump) (result : Option Pump) : Type 0 where
  pub out : Pump
  pub returned : result ≡ some out
  pub lost : Bytes
  pub is_lost : IsLost lost
  pub passed : Passed lost p.pipe out.pipe
  pub kept : requests_of out ≡ requests_of p

head_read-Passed : (p q : Pipe) → unsent q ≡ unsent p → q.out ≡ p.out → Passed [] p q
head_read-Passed p q e k = record { moved = []; sent = k ∙ sym (append-nil p.out); left = sym e }

IsPumped-after :
    (p q : Pump) {o : Option Pump}
    → Passed [] p.pipe q.pipe
    → requests_of q ≡ requests_of p
    → IsPumped q o
    → IsPumped p o
IsPumped-after p q w e k = record {
  out = k.out;
  returned = k.returned;
  lost = k.lost;
  is_lost = k.is_lost;
  passed = Passed-trans w k.passed;
  kept = k.kept ∙ e;
}

-- With fuel for more than the bytes that are pending the task ends, whatever comes. The client gets
-- the start of what came, unchanged and in order, but for at most one line that is no size of a
-- chunk, where the relay stops; and the requests of the traces, then those that wait, then those to come are the requests
-- from the start, in their order: none is traced twice, out of order or passed over.
pub pump-IsPumped :
    (c : Connection) (f i : ℕ) (p : Pump) → length (unsent p.pipe) < f → IsPumped p (pump c f i p)
unfolding pump
pump-IsPumped c zero i p h = absurd (omega arith)
pump-IsPumped c (suc f) i p h =
    go (read_head (line_reads p.pipe) p.pipe)
      (read_head-IsHead (line_reads p.pipe) p.pipe (omega arith)) refl
      (λ j q. pump-IsPumped c f j q)
  where
    Again : Type 0
    Again = (j : ℕ) (q : Pump) → length (unsent q.pipe) < f → IsPumped q (pump c f j q)

    answered :
        (q : Pipe) (n : ℕ)
        → read_head (line_reads p.pipe) p.pipe ≡ some (q, some n)
        → Passed [] p.pipe q
        → (o : Option (Pump × Bool)) → answer_round c i n (receive (record p { pipe = q })) ≡ o
        → IsAnswered (receive (record p { pipe = q })) o
        → Again
        → IsPumped p (pump c (suc f) i p)
    answered q n e w o k (goes s v l m) again =
        rw (pump, e, k)
          (IsPumped-after p s (Passed-trans w v) (m ∙ requests_of-receive (record p { pipe = q }))
            (again (i + 1) s (omega (arith, l, Passed-length w))))
    answered q n e w o k (ends s lost y v m) again =
        rw (pump, e, k)
          (record {
            out = s;
            returned = refl;
            lost = lost;
            is_lost = y;
            passed = Passed-trans w v;
            kept = m ∙ requests_of-receive (record p { pipe = q });
          })

    go :
        (o : Option (Pipe × Option ℕ))
        → IsHead p.pipe o
        → read_head (line_reads p.pipe) p.pipe ≡ o
        → Again
        → IsPumped p (pump c (suc f) i p)
    go o (is_over q u k) e again =
        rw (pump, e)
          (record {
            out = record p { pipe = q };
            returned = refl;
            lost = [];
            is_lost = nothing_lost;
            passed = head_read-Passed p.pipe q u k;
            kept = refl;
          })
    go o (is_head q n u k l m) e again =
        let r = receive (record p { pipe = q }) in
        answered q n e (head_read-Passed p.pipe q u k) (answer_round c i n r) refl
          (answer_round-IsAnswered c i n r l m) again
