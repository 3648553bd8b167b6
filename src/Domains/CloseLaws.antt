-- ===== src/Domains/CloseLaws.antt =====
-- The trace of a body that lasts until the close, in the task `pump` of
-- crates/solon-service/src/domains.rs.
use solon.Base.{
  ℕ, ◌+◌, ◌≡◌, refl, ap, ◌∙◌, Bool, false, Option, some, List, [], ◌∷◌, ◌++◌, append_assoc, arith,
  length, take, drop, length-append,
}
use mathlib.Core.Option
use solon.Base.Text.{Bytes}
use solon.DockerProxy.Copy.{arriving}
use solon.Protocol.{TraceHeader, TraceHttp}
use solon.Domains.Head.{RespBody, until_close, parse_response_head}
use solon.Domains.Bodies.{Tee, emit}
use solon.Domains.Pump.{
  Pending, Connection, Pump, current_request, method_of, is_interim, copy_all, relay_response,
  trace_of, end_round, answer_round,
}

-- What a round with the head of a response in the first `n` bytes of the buffer leaves.
pub record IsUndercounted (n : ℕ) (asked : Pending) (p : Pump) (result : Option (Pump × Bool))
    : Type 0 where
  pub out : Pump
  pub trace : TraceHttp
  pub body : Bytes
  pub returned : result ≡ some (out, false)
  pub whole : body ≡ drop n p.pipe.buf ++ arriving p.pipe.source
  pub sent : out.pipe.out ≡ p.pipe.out ++ (take n p.pipe.buf ++ body)
  pub pushed : out.pushed ≡ p.pushed ++ (trace ∷ [])
  pub of_request : trace.path ≡ asked.path
  pub counted : trace.response_bytes + length (drop n p.pipe.buf) ≡ length body

closed :
    (c : Connection) (i n : ℕ) (p : Pump) (asked : Pending) (queue : List Pending) (status : ℕ)
    (headers : List TraceHeader) (first : Option Pending × List Pending)
    (answer : ℕ × List TraceHeader × RespBody) (ct : Option Bytes) (t : Option Tee)
    → first ≡ (some asked, queue)
    → answer ≡ (status, headers, until_close)
    → is_interim status ≡ false
    → IsUndercounted n asked p (
        Option.map (end_round c i answer ct first p) (
          relay_response answer.2
            (record (emit false (take n p.pipe.buf) (record p.pipe { buf = drop n p.pipe.buf })) {
              tee = t;
            })))
unfolding end_round relay_response copy_all trace_of
closed c i n p asked queue status headers first answer ct t e k m =
    rw (e, k, m)
      (record {
        out = _;
        trace = _;
        body = drop n p.pipe.buf ++ arriving p.pipe.source;
        returned = refl;
        whole = refl;
        sent = append_assoc p.pipe.out (take n p.pipe.buf) _;
        pushed = refl;
        of_request = refl;
        counted = omega (arith, length-append (drop n p.pipe.buf) (arriving p.pipe.source));
      })

-- When the answer to a request is no interim one and its body lasts until the close, the round is the
-- last: the client gets the head and the whole body, and one trace is kept, of that request, but the
-- length of the answer in it is short of the body by what was read together with the head.
pub answer_round-until_close :
    (c : Connection) (i n : ℕ) (p : Pump) (asked : Pending) (queue : List Pending) (status : ℕ)
    (headers : List TraceHeader)
    → current_request p.current p.queue ≡ (some asked, queue)
    → parse_response_head (take n p.pipe.buf) asked.method ≡ (status, headers, until_close)
    → is_interim status ≡ false
    → IsUndercounted n asked p (answer_round c i n p)
unfolding answer_round
answer_round-until_close c i n p asked queue status headers e k m =
    closed c i n p asked queue status headers (current_request p.current p.queue)
      (parse_response_head (take n p.pipe.buf) (method_of (current_request p.current p.queue).0)) _
      _ e (ap (λ w. parse_response_head (take n p.pipe.buf) (method_of w.0)) e ∙ k) m
