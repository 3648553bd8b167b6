-- ===== src/Sleep/Tests.antt =====
-- The unit test of sleep.rs, and examples.
use solon.Base.{ℕ, ◌≤◌, ◌≡◌, refl, true, false, none, some, List, [], ◌∷◌, arith, retain}
use solon.Base.Text.{str_eq, trim, mem_str, Bytes, codes}
use solon.Protocol.{ContainerEndpoint}
use solon.Base.Map.{lookup, insert, remove, insert_set, retain_keys}
use solon.Sleep.{
  fall_asleep, add_endpoint, add_endpoints, pause, is_running, has_conns, is_eligible, inspect,
  idle_entry, State, Sleeper, SleepSettings, Docker, new, set_agent, update_endpoints,
  on_connection, release, candidates, admit, event_state, try_sleep, update_state,
}
use solon.Sleep.Guards.{
  System, Reach, connect, endpoints, guard, drop_guard, here, next, counted, connections,
  counted-le-connections, start,
}
use solon.Sleep.Late.{try_sleep-asleep, late_connection, restart_forgets}

abbrev endpoint : Bytes → Bytes → List ℕ → ContainerEndpoint
endpoint id ip ports = record {
  id = id;
  name = id;
  ip = ip;
  compose_project = none;
  compose_service = none;
  published_tcp = [];
  exposed_tcp = ports;
}

abbrev settings : SleepSettings
settings = record { enabled = true; idle = 10; never = codes "db" ∷ [] }

abbrev web : List ContainerEndpoint
web =
    endpoint (codes "web") (codes "1") (80 ∷ [])
    ∷ endpoint (codes "db") (codes "2") (5432 ∷ [])
    ∷ []

abbrev sleeper : Sleeper
sleeper = update_endpoints (set_agent (new settings) true) web

-- A connection to `web` at 5 that ended at 7.
abbrev idle : State
idle = release (on_connection sleeper.state 5 (codes "web")) 7 (codes "web")

abbrev docker : Docker
docker = record { status = some (codes "running"); paused = true }

after_ten :
    (candidates (record sleeper { state = idle }) 17 ≡ codes "web" ∷ [])
    × (candidates (record sleeper { state = idle }) 16 ≡ [])
unfolding candidates release on_connection update_endpoints set_agent new lookup mem_str retain
    add_endpoints add_endpoint is_eligible insert_set insert remove retain_keys
after_ten = (refl, refl)

abbrev idle_sleeper : Sleeper
idle_sleeper = record sleeper { state = idle }

-- A connection whose guard was dropped, and whose end is not counted yet.
abbrev ending : System
ending = record {
  state = (admit (update_state start.state web) 5 (codes "web")).0;
  waiting = [];
  guards = [];
  dropped = codes "web" ∷ [];
}

ending-Reach : Reach start ending
unfolding str_eq
ending-Reach =
    next
      (next (next (next here (endpoints start web)) (connect _ 5 (codes "web")))
        (guard _ (codes "web") (omega arith)))
      (drop_guard _ (codes "web") (omega arith))

counted-le-connections_example :
    counted ending.state (codes "web") ≤ connections ending (codes "web")
counted-le-connections_example = counted-le-connections ending-Reach (codes "web")

late_connection_example :
    ((admit idle 18 (codes "web")).1 ≡ false)
    × (mem_str
          (codes "web")
          (try_sleep settings 17
            (codes "web")
            docker
            (λ s. s)
            (λ s. (admit s 18 (codes "web")).0)
            idle).0.sleeping
        ≡ true)
    × (has_conns (
          lookup
            (codes "web")
            (try_sleep settings 17
              (codes "web")
              docker
              (λ s. s)
              (λ s. (admit s 18 (codes "web")).0)
              idle).0.activity)
        ≡ true)
unfolding trim str_eq release on_connection update_endpoints set_agent new lookup mem_str retain
    add_endpoints add_endpoint is_eligible insert_set insert remove retain_keys
late_connection_example =
    late_connection settings 17 18 (codes "web") docker idle refl refl refl refl refl

restart_forgets_example :
    idle_entry settings 30 (
      lookup
        (codes "web")
        (release
          (admit
            (event_state (admit idle 18 (codes "web")).0 (codes "die") (codes "web"))
            19
            (codes "web")).0
          20
          (codes "web")).activity)
    ≡ true
unfolding release on_connection update_endpoints set_agent new lookup mem_str retain add_endpoints
    add_endpoint is_eligible insert_set insert remove retain_keys
restart_forgets_example = restart_forgets settings 18 19 20 30 (codes "web") idle refl (omega arith)

abbrev with_connection : State → State
with_connection s = (admit s 18 (codes "web")).0

try_sleep-asleep_example :
    (idle_entry settings 17 (lookup (codes "web") idle.activity) ≡ true)
    × (is_running docker.status ≡ true)
    × (docker.paused ≡ true)
    × (has_conns (lookup (codes "web") idle.activity) ≡ false)
    × ((try_sleep settings 17 (codes "web") docker (λ s. s) (λ s. s) idle).1
        ≡ inspect (codes "web") ∷ pause (codes "web") ∷ [])
unfolding try_sleep trim str_eq release on_connection update_endpoints set_agent new lookup mem_str
    retain add_endpoints add_endpoint is_eligible insert_set insert remove retain_keys fall_asleep
try_sleep-asleep_example =
    try_sleep-asleep settings 17 (codes "web") docker (λ s. s) (λ s. s) idle refl refl refl refl
