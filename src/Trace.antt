-- ===== src/Trace.antt =====
-- crates/solon-service/src/trace.rs: the hub that keeps what the probes and the proxy observed.
-- The broadcast channel is the list of what was sent on it.
pub mod History
mod Tests
use solon.Base.{
  ℕ, Bool, true, false, not, Option, none, some, List, [], ◌∷◌, ◌++◌, ◌==◌, if◌then◌else◌, length,
  retain,
}
use solon.Base.Text.{Bytes, codes, str_eq, mem_str}
use solon.Protocol.{TraceEvent, status, connection, http, project}

abbrev pub history : ℕ
history = 20000

pub record TraceHub : Type 0 where
  pub sent : List TraceEvent
  pub recent : List TraceEvent
  pub last_status : TraceEvent
  pub body_projects : List Bytes

unfoldable pub unavailable : Bytes → TraceEvent
unavailable detail = status false detail

-- "moteur arrêté"
abbrev stopped_engine : Bytes
stopped_engine = codes "moteur arr" ++ (0xC3 ∷ 0xAA ∷ codes "t" ++ (0xC3 ∷ 0xA9 ∷ []))

unfoldable pub new : TraceHub
unfolding unavailable
new = record {
  sent = [];
  recent = [];
  last_status = unavailable stopped_engine;
  body_projects = [];
}

abbrev pub pop_front : List TraceEvent → List TraceEvent
pop_front [] = []
pop_front (_ ∷ l) = l

-- `recent.push_back` behind the test on the length
unfoldable pub keep : List TraceEvent → TraceEvent → List TraceEvent
keep recent e = (if length recent == history then pop_front recent else recent) ++ (e ∷ [])

unfoldable pub push : TraceHub → TraceEvent → TraceHub
unfolding keep
push h (status active detail) = record h {
  last_status = status active detail;
  sent = h.sent ++ (status active detail ∷ []);
}
push h (connection c) = record h {
  recent = keep h.recent (connection c);
  sent = h.sent ++ (connection c ∷ []);
}
push h (http x) = record h { recent = keep h.recent (http x); sent = h.sent ++ (http x ∷ []) }

unfoldable pub backlog : TraceHub → List TraceEvent
backlog h = h.last_status ∷ h.recent

-- `e.project() == Some(p)`
abbrev pub is_of : Bytes → Option Bytes → Bool
is_of p none = false
is_of p (some q) = str_eq q p

unfoldable pub clear : TraceHub → Option Bytes → TraceHub
unfolding retain project str_eq
clear h none = record h { recent = [] }
clear h (some p) = record h { recent = retain (λ e. not (is_of p (project e))) h.recent }

unfoldable pub set_body_projects : TraceHub → List Bytes → TraceHub
set_body_projects h projects = record h { body_projects = projects }

unfoldable pub captures_bodies : TraceHub → Option Bytes → Bool
unfolding mem_str
captures_bodies h none = false
captures_bodies h (some p) = mem_str p h.body_projects

unfoldable pub set_unavailable : TraceHub → Bytes → TraceHub
unfolding push unavailable
set_unavailable h reason = push h (unavailable reason)

-- What `stream.next()` gives the collector: a fact, the end of the stream, or an error.
pub data Received : Type 0 where
  fact : TraceEvent → Received
  closed : Received
  failed : Bytes → Received

-- "flux fermé par l'agent"
abbrev closed_stream : Bytes
closed_stream = codes "flux ferm" ++ (0xC3 ∷ 0xA9 ∷ codes " par l'agent")

-- The loop of `spawn_collector`, over what the stream gives until it ends.
unfoldable pub collect : TraceHub → List Received → TraceHub
unfolding push set_unavailable
collect h [] = h
collect h (fact e ∷ rest) = collect (push h e) rest
collect h (closed ∷ _) = set_unavailable h closed_stream
collect h (failed why ∷ _) = set_unavailable h why
