-- ===== src/Domains/Pump.antt =====
-- The responses of a connection, the task `pump` in `handle` of crates/solon-service/src/domains.rs.
-- What comes into the queue of the requests before each round is an argument, and so are the moments
-- at which the rounds look at the clock and what the slots of the requests hold when they are emptied.
use solon.Base.{
  ℕ, zero, suc, ◌+◌, ◌-◌, Bool, true, false, not, ◌&&◌, Option, none, some, List, [], ◌∷◌, ◌++◌,
  ◌==◌, if◌then◌else◌, within, length, take, drop,
}
use mathlib.Core.Option
use solon.Base.Text.{Bytes, codes}
use solon.DockerProxy.Copy.{arriving}
use solon.Protocol.{TraceHeader, TraceBody, TracePeer, TraceHttp}
use solon.Domains.Head.{
  RespBody, no_body, resp_length, resp_chunked, resp_upgrade, until_close, parse_response_head,
  capturable,
}
use solon.Domains.Bodies.{
  Tee, empty_tee, into_body, Pipe, emit, read_head, line_reads, forward_exact, forward_chunked,
  Chunks, total_of, bad_line, eof, unsent,
}

-- A request; `slot` stands for the `Arc` that its body comes into, which is no other request's.
pub record Pending : Type 0 where
  pub ts_ms : ℕ
  pub started : ℕ
  pub method : Bytes
  pub path : Bytes
  pub headers : List TraceHeader
  pub request_bytes : ℕ
  pub slot : ℕ

-- What `handle` knows of its connection.
pub record Connection : Type 0 where
  pub scheme : Bytes
  pub host : Bytes
  pub dst : TracePeer
  pub capture : Bool
  pub now : ℕ → ℕ
  pub body_slot : ℕ → Option TraceBody

pub record Pump : Type 0 where
  pub pipe : Pipe
  pub current : Option Pending
  pub queue : List Pending
  pub coming : List (List Pending)
  pub pushed : List TraceHttp

-- The requests that came into the queue since the last round.
abbrev pub arrived : List (List Pending) → List Pending
arrived [] = []
arrived (requests ∷ later) = requests

abbrev pub after_arrived : List (List Pending) → List (List Pending)
after_arrived [] = []
after_arrived (requests ∷ later) = later

abbrev pub receive : Pump → Pump
receive p = record p { queue = p.queue ++ arrived p.coming; coming = after_arrived p.coming }

-- `current = pending_rx.try_recv().ok()` when there is none
unfoldable pub current_request : Option Pending → List Pending → Option Pending × List Pending
current_request (some p) queue = (some p, queue)
current_request none [] = (none, [])
current_request none (p ∷ queue) = (some p, queue)

abbrev pub method_of : Option Pending → Bytes
method_of none = codes "GET"
method_of (some p) = p.method

-- An answer that stands before the true one: all of 1xx but 101.
abbrev pub is_interim : ℕ → Bool
is_interim status = within 100 199 status && not (status == 101)

abbrev pub ok_length : ℕ → Pipe × Bool → Pipe × Option ℕ
ok_length n (p, true) = (p, some n)
ok_length n (p, false) = (p, none)

abbrev pub ok_total : Pipe × Chunks → Pipe × Option ℕ
ok_total (p, total_of n) = (p, some n)
ok_total (p, bad_line) = (p, none)
ok_total (p, eof) = (p, none)

-- What is read goes on, then all that still arrives; only the latter is counted.
unfoldable pub copy_all : Pipe → Pipe × Option ℕ
copy_all p =
    (record p { buf = []; source = []; out = p.out ++ unsent p }, some (length (arriving p.source)))

unfoldable pub relay_response : RespBody → Pipe → Option (Pipe × Option ℕ)
unfolding forward_exact forward_chunked copy_all
relay_response no_body p = some (p, some 0)
relay_response (resp_length n) p = Option.map (ok_length n) (forward_exact true n p)
relay_response resp_chunked p = Option.map ok_total (forward_chunked p)
relay_response resp_upgrade p = some (copy_all p)
relay_response until_close p = some (copy_all p)

abbrev pub is_last : RespBody → Bool
is_last resp_upgrade = true
is_last until_close = true
is_last _ = false

abbrev pub tee_for : Option Bytes → Option Tee
tee_for none = none
tee_for (some ct) = some empty_tee

unfoldable pub captured_body : Option Tee → Option Bytes → Option TraceBody
unfolding into_body
captured_body (some t) (some ct) = into_body t ct
captured_body _ _ = none

abbrev pub relayed_bytes : Option ℕ → ℕ
relayed_bytes none = 0
relayed_bytes (some n) = n

abbrev pub is_ok : Option ℕ → Bool
is_ok none = false
is_ok (some n) = true

unfoldable pub trace_of :
    Connection → ℕ → ℕ → List TraceHeader → Option ℕ → Option TraceBody → Pending → TraceHttp
trace_of c now status headers relayed body p = record {
  ts_ms = p.ts_ms;
  scheme = c.scheme;
  host = c.host;
  method = p.method;
  path = p.path;
  status = status;
  duration_ms = now - p.started;
  dst = c.dst;
  request_headers = p.headers;
  response_headers = headers;
  request_bytes = p.request_bytes;
  response_bytes = relayed_bytes relayed;
  request_body = c.body_slot p.slot;
  response_body = body;
}

abbrev pub push_trace : Option TraceHttp → List TraceHttp → List TraceHttp
push_trace none l = l
push_trace (some t) l = l ++ (t ∷ [])

-- The end of a round: the traces, the request that still waits, and whether the loop goes on.
unfoldable pub end_round :
    Connection
    → ℕ
    → ℕ × List TraceHeader × RespBody
    → Option Bytes
    → Option Pending × List Pending
    → Pump
    → Pipe × Option ℕ
    → Pump × Bool
unfolding captured_body trace_of
end_round c i (status, headers, body) content_type (current, queue) p (pipe, relayed) =
    let pending = if is_interim status then none else current in
    let traced =
      Option.map (trace_of c (c.now i) status headers relayed (captured_body pipe.tee content_type))
        pending in
    (
      record p {
        pipe = pipe;
        current = if is_interim status then current else none;
        queue = queue;
        pushed = push_trace traced p.pushed;
      },
      is_ok relayed && not (is_last body),
    )

-- A round with the head of a response in the first `n` bytes of the buffer.
unfoldable pub answer_round : Connection → ℕ → ℕ → Pump → Option (Pump × Bool)
unfolding current_request parse_response_head capturable relay_response end_round
answer_round c i n p =
    let asked = current_request p.current p.queue in
    let head = take n p.pipe.buf in
    let answer = parse_response_head head (method_of asked.0) in
    let content_type = if c.capture then capturable answer.1 else none in
    let pipe = record (emit false head (record p.pipe { buf = drop n p.pipe.buf })) {
      tee = tee_for content_type;
    } in
    Option.map (end_round c i answer content_type asked p) (relay_response answer.2 pipe)

unfoldable pub pump : Connection → ℕ → ℕ → Pump → Option Pump
unfolding read_head answer_round
pump c zero i p = none
pump c (suc f) i p = elim (read_head (line_reads p.pipe) p.pipe) [
  | none ↦ none
  | some (pipe, none) ↦ some (record p { pipe = pipe })
  | some (pipe, some n) ↦ elim (answer_round c i n (receive (record p { pipe = pipe }))) [
    | none ↦ none
    | some (p', true) ↦ pump c f (i + 1) p'
    | some (p', false) ↦ some p'
  ]
]
