-- ===== src/Domains/Requests.antt =====
-- The requests of a connection, the loop in `handle` of crates/solon-service/src/domains.rs. What the
-- clock shows at a request is an argument.
use solon.Base.{
  ℕ, zero, suc, Bool, true, false, Option, none, some, List, [], ◌∷◌, ◌++◌, if◌then◌else◌, length,
  take, drop,
}
use mathlib.Core.Option
use solon.Base.Text.{Bytes}
use solon.Protocol.{TraceHeader, TraceBody}
use solon.Domains.Head.{
  Body, length_of, chunked, upgrade, rewrite_head, parse_request_head, capturable,
}
use solon.Domains.Bodies.{
  Tee, Pipe, read_head, line_reads, forward_exact, forward_chunked, Chunks, total_of, bad_line, eof,
}
use solon.Domains.Pump.{Pending, tee_for, captured_body, copy_all}

-- What of the requests was relayed, the requests that went into the queue, and the slots that were
-- filled.
pub record Sending : Type 0 where
  pub pipe : Pipe
  pub queued : List Pending
  pub filled : List (ℕ × Option TraceBody)

abbrev pub announced : Body → ℕ
announced (length_of n) = n
announced chunked = 0
announced upgrade = 0

abbrev pub ok_chunks : Pipe × Chunks → Pipe × Bool
ok_chunks (p, total_of n) = (p, true)
ok_chunks (p, bad_line) = (p, false)
ok_chunks (p, eof) = (p, false)

-- False where an error ends the connection.
unfoldable pub relay_request : Body → Pipe → Option (Pipe × Bool)
unfolding forward_exact forward_chunked copy_all
relay_request upgrade p = some ((copy_all p).0, true)
relay_request (length_of n) p = forward_exact true n p
relay_request chunked p = Option.map ok_chunks (forward_chunked p)

abbrev pub is_upgrade : Body → Bool
is_upgrade upgrade = true
is_upgrade _ = false

-- `*body_slot.lock().unwrap() = t.into_body(&ct)`, when the body is watched
unfoldable pub fill_slot :
    ℕ → Option Tee → Option Bytes → List (ℕ × Option TraceBody) → List (ℕ × Option TraceBody)
unfolding captured_body
fill_slot slot none ct l = l
fill_slot slot (some t) none l = l
fill_slot slot (some t) (some ct) l = l ++ ((slot, captured_body (some t) (some ct)) ∷ [])

pub data RequestRound : Type 0 where
  goes_on : Sending → RequestRound
  finished : Sending → Bool → RequestRound

unfoldable pub end_request : ℕ → Body → Option Bytes → Sending → Pipe × Bool → RequestRound
unfolding fill_slot
end_request slot body ct s (p, false) = finished (record s { pipe = p }) false
end_request slot body ct s (p, true) =
    if is_upgrade body
    then finished (record s { pipe = p }) true
    else goes_on (record s { pipe = p; filled = fill_slot slot p.tee ct s.filled })

abbrev pub pending_of : ℕ → Bytes → Bytes → List TraceHeader → Body → ℕ → Pending
pending_of now method path headers body slot = record {
  ts_ms = now;
  started = now;
  method = method;
  path = path;
  headers = headers;
  request_bytes = announced body;
  slot = slot;
}

-- A request whose head is in the first `n` bytes of the buffer.
unfoldable pub relay_round : Bool → Bytes → (ℕ → ℕ) → ℕ → Sending → Option RequestRound
unfolding parse_request_head rewrite_head capturable relay_request end_request
relay_round capture scheme now n s =
    let head = take n s.pipe.buf in
    let (method, path, headers) = parse_request_head head in
    let (new_head, body) = rewrite_head head scheme in
    let ct = if capture then capturable headers else none in
    let slot = length s.queued in
    let pipe = record s.pipe {
      buf = drop n s.pipe.buf;
      out = s.pipe.out ++ new_head;
      tee = tee_for ct;
    } in
    Option.map
      (end_request slot body ct (record s {
        queued = s.queued ++ (pending_of (now slot) method path headers body slot ∷ []);
      }))
      (relay_request body pipe)

-- The loop, with the head of a request in the first `n` bytes of the buffer.
unfoldable pub requests_loop : Bool → Bytes → (ℕ → ℕ) → ℕ → ℕ → Sending → Option (Sending × Bool)
unfolding relay_round read_head
requests_loop capture scheme now zero n s = none
requests_loop capture scheme now (suc f) n s = elim (relay_round capture scheme now n s) [
  | none ↦ none
  | some (finished s' ok) ↦ some (s', ok)
  | some (goes_on s') ↦ elim (read_head (line_reads s'.pipe) s'.pipe) [
    | none ↦ none
    | some (p, none) ↦ some (record s' { pipe = p }, true)
    | some (p, some m) ↦ requests_loop capture scheme now f m (record s' { pipe = p })
  ]
]
