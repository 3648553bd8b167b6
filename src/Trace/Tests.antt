-- ===== src/Trace/Tests.antt =====
-- The unit tests of trace.rs that show each function, and examples.
use solon.Base.{◌≡◌, refl, ◌≢◌, true, Option, none, some, [], ◌∷◌, arith, retain}
use solon.Base.Text.{Bytes, codes}
use solon.Protocol.{established, connection, TracePeer, TraceEvent}
use solon.Trace.{
  push, TraceHub, history, unavailable, backlog, clear, captures_bodies, set_body_projects, new,
}
use solon.Trace.History.{is_fact, last, last_state, push_all, backlog-push_all}

a-ne-b : codes "a" ≢ codes "b"
a-ne-b e = ground arith

abbrev peer : Option Bytes → TracePeer
peer p = record {
  ip = codes "10.0.0.2";
  container_id = none;
  name = none;
  project = p;
  service = none;
}

abbrev request : Bytes → TraceEvent
request p = connection (record {
  ts_ms = 1;
  outcome = established;
  src = peer (some p);
  dst = peer none;
  sport = 1;
  dport = 2;
  comm = [];
  pid = 1;
  duration_ms = none;
})

abbrev hub : TraceHub
hub = push_all new (request (codes "a") ∷ request (codes "b") ∷ request (codes "a") ∷ [])

cleared : (clear hub (some (codes "a"))).recent ≡ request (codes "b") ∷ []
unfolding clear push_all push new
cleared = refl

asked : captures_bodies (set_body_projects new (codes "a" ∷ [])) (some (codes "a")) ≡ true
unfolding captures_bodies set_body_projects
asked = refl

backlog-push_all_example :
    backlog (push_all new (unavailable (codes "x") ∷ []))
    ≡ last_state new.last_status (unavailable (codes "x") ∷ [])
      ∷ last history (retain is_fact (unavailable (codes "x") ∷ []))
backlog-push_all_example = backlog-push_all (unavailable (codes "x") ∷ [])
