-- ===== src/Sleep.antt =====
-- crates/solon-service/src/sleep.rs: wake on demand. Each function that holds the lock on the state
-- from its start to its end is one function here; where the code gives the lock back, the model has
-- a function for each part. An instant is a number of milliseconds, and what Docker answers is an
-- argument.
pub mod Laws
pub mod Guards
pub mod Late
pub mod Candidates
mod Tests
use solon.Base.{
  ℕ, ◌+◌, ◌-◌, Bool, true, false, not, ◌&&◌, ◌||◌, Option, none, some, List, [], ◌∷◌, ◌++◌, map,
  ltb, leb, ◌==◌, if◌then◌else◌, length, any, retain,
}
use solon.Base.Text.{Bytes, codes, str_eq, mem_str, trim}
use solon.Base.Map.{Map, lookup, insert, remove, retain_keys, Set, insert_set, remove_set}
use solon.Protocol.{ContainerEndpoint}

pub record SleepSettings : Type 0 where
  pub enabled : Bool
  pub idle : ℕ
  pub never : Set

abbrev pub default_settings : SleepSettings
default_settings = record { enabled = true; idle = 600000; never = [] }

pub record Activity : Type 0 where
  pub last : ℕ
  pub conns : ℕ

pub record State : Type 0 where
  pub by_ip : Map Bytes
  pub by_name : Map Bytes
  pub names : Map Bytes
  pub eligible : Set
  pub activity : Map Activity
  pub sleeping : Set

abbrev pub empty_state : State
empty_state = record {
  by_ip = [];
  by_name = [];
  names = [];
  eligible = [];
  activity = [];
  sleeping = [];
}

-- `changed` is the permit of the notification.
pub record Sleeper : Type 0 where
  pub state : State
  pub agent : Bool
  pub settings : SleepSettings
  pub changed : Bool

unfoldable pub new : SleepSettings → Sleeper
new settings = record { state = empty_state; agent = false; settings = settings; changed = false }

unfoldable pub set_settings : Sleeper → SleepSettings → Sleeper
set_settings s settings = record s { settings = settings; changed = true }

unfoldable pub set_agent : Sleeper → Bool → Sleeper
set_agent s true = record s { agent = true }
set_agent s false = record s { agent = false; state = empty_state; changed = true }

unfoldable pub http_ports : List ℕ
http_ports =
    80 ∷ 8080 ∷ 3000 ∷ 8000 ∷ 8069 ∷ 5000 ∷ 4200 ∷ 5173 ∷ 8888 ∷ 9000 ∷ 443 ∷ 8443 ∷ 4000 ∷ 5001
    ∷ 8081 ∷ 8082 ∷ []

abbrev is_empty : List ℕ → Bool
is_empty [] = true
is_empty (_ ∷ _) = false

unfoldable pub is_eligible : ContainerEndpoint → Bool
unfolding http_ports any
is_eligible e =
    not (is_empty e.published_tcp) || any (λ p. any (λ q. p == q) http_ports) e.exposed_tcp

-- one round of the loop of `update_endpoints`
unfoldable pub add_endpoint : State → ContainerEndpoint → State
add_endpoint st e = record st {
  by_ip = insert e.ip e.id st.by_ip;
  by_name = insert e.name e.id st.by_name;
  names = insert e.id e.name st.names;
  eligible = if is_eligible e then insert_set e.id st.eligible else st.eligible;
}

unfoldable pub add_endpoints : State → List ContainerEndpoint → State
add_endpoints st [] = st
add_endpoints st (e ∷ es) = add_endpoints (add_endpoint st e) es

abbrev pub ids : List ContainerEndpoint → Set
ids [] = []
ids (e ∷ es) = e.id ∷ ids es

unfoldable pub update_state : State → List ContainerEndpoint → State
update_state st es =
    let st' =
      add_endpoints (record st { by_ip = []; by_name = []; names = []; eligible = [] }) es in
    record st' {
      activity = retain_keys (λ id. mem_str id (ids es)) st'.activity;
      sleeping = retain (λ id. mem_str id (ids es)) st'.sleeping;
    }

unfoldable pub update_endpoints : Sleeper → List ContainerEndpoint → Sleeper
unfolding update_state
update_endpoints s es =
    let st = update_state s.state es in
    record s {
      state = st;
      changed = s.changed || not (length st.sleeping == length s.state.sleeping);
    }

abbrev pub is_end : Bytes → Bool
is_end action =
    str_eq action (codes "stop")
    || str_eq action (codes "die")
    || str_eq action (codes "kill")
    || str_eq action (codes "destroy")
    || str_eq action (codes "start")

abbrev pub is_unpause : Bytes → Bool
is_unpause action = str_eq action (codes "unpause")

unfoldable pub event_state : State → Bytes → Bytes → State
event_state st action id =
    if is_unpause action || is_end action
    then record st {
      sleeping = remove_set id st.sleeping;
      activity = if is_unpause action then st.activity else remove id st.activity;
    }
    else st

unfoldable pub on_container_event : Sleeper → Bytes → Bytes → Sleeper
unfolding event_state
on_container_event s action id = record s {
  state = event_state s.state action id;
  changed = s.changed || (is_unpause action || is_end action) && mem_str id s.state.sleeping;
}

abbrev pub entry : Option Activity → ℕ → Activity
entry none now = record { last = now; conns = 0 }
entry (some a) now = a

-- The first part of `on_connection`: counts the connection, and says if the container is asleep.
unfoldable pub admit : State → ℕ → Bytes → State × Bool
admit st now id =
    let a = entry (lookup id st.activity) now in
    let st' =
      if mem_str id st.eligible
      then record st {
        activity = insert id (record { last = now; conns = a.conns + 1 }) st.activity;
      }
      else st in
    (st', mem_str id st.sleeping)

-- The second part, under the lock of the container: whether `docker unpause` succeeds or not, the
-- container is not asleep any more.
unfoldable pub wake : State → Bytes → State
wake st id =
    if mem_str id st.sleeping then record st { sleeping = remove_set id st.sleeping } else st

-- `on_connection` when nothing comes between its parts
unfoldable pub on_connection : State → ℕ → Bytes → State
unfolding admit wake
on_connection st now id = let (st', asleep) = admit st now id in if asleep then wake st' id else st'

abbrev connect_known : State → ℕ → Option Bytes → Option State
connect_known st now none = none
connect_known st now (some id) = some (on_connection st now id)

unfoldable pub on_connection_ip : State → ℕ → Bytes → Option State
unfolding on_connection
on_connection_ip st now ip = connect_known st now (lookup ip st.by_ip)

unfoldable pub on_connection_name : State → ℕ → Bytes → Option State
unfolding on_connection
on_connection_name st now name = connect_known st now (lookup name st.by_name)

-- the end of a relayed connection (`Drop for ConnGuard`)
abbrev pub count_down : Option Activity → ℕ → Bytes → Map Activity → Map Activity
count_down none now id m = m
count_down (some a) now id m = insert id (record { last = now; conns = a.conns - 1 }) m

unfoldable pub release : State → ℕ → Bytes → State
release st now id = record st { activity = count_down (lookup id st.activity) now id st.activity }

-- No connection is open, and the last one ended long enough ago.
abbrev pub is_idle : SleepSettings → ℕ → Activity → Bool
is_idle settings now a = a.conns == 0 && leb settings.idle (now - a.last)

abbrev or_empty : Option Bytes → Bytes
or_empty none = []
or_empty (some s) = s

abbrev name_or_empty : State → Bytes → Bytes
name_or_empty st id = or_empty (lookup id st.names)

unfoldable pub is_candidate : SleepSettings → ℕ → State → Bytes → Activity → Bool
is_candidate settings now st id a =
    is_idle settings now a
    && not (mem_str id st.sleeping)
    && not (mem_str (name_or_empty st id) settings.never)

unfoldable pub candidates_in : SleepSettings → ℕ → State → Map Activity → Set
candidates_in settings now st [] = []
candidates_in settings now st ((id, a) ∷ m) =
    let rest = candidates_in settings now st m in
    if is_candidate settings now st id a then id ∷ rest else rest

-- The containers that a round of `run` looks at; none without an engine, or when disabled.
unfoldable pub candidates : Sleeper → ℕ → Set
unfolding candidates_in is_candidate
candidates s now =
    if not s.settings.enabled || not s.agent
    then []
    else candidates_in s.settings now s.state s.state.activity

abbrev pub idle_entry : SleepSettings → ℕ → Option Activity → Bool
idle_entry settings now none = false
idle_entry settings now (some a) = is_idle settings now a

abbrev pub has_conns : Option Activity → Bool
has_conns none = false
has_conns (some a) = ltb 0 a.conns

pub data DockerCommand : Type 0 where
  inspect pause unpause : Bytes → DockerCommand

-- What Docker answers to `inspect` (no text when it fails) and whether `pause` succeeds.
pub record Docker : Type 0 where
  pub status : Option Bytes
  pub paused : Bool

abbrev pub is_running : Option Bytes → Bool
is_running none = false
is_running (some s) = str_eq (trim s) (codes "running")

-- The write at the end of that body.
unfoldable pub fall_asleep : State → Bytes → State
fall_asleep st id = record st { sleeping = insert_set id st.sleeping }

-- The body of the loop of `run` for one candidate, under the lock of the container. `pausing` is what
-- others do to the state from the first check until Docker has answered, and `closing` what they do
-- between the second check and the write: the code gives the lock back there.
unfoldable pub try_sleep :
    SleepSettings
    → ℕ
    → Bytes
    → Docker
    → (State → State)
    → (State → State)
    → State
    → State × List DockerCommand
try_sleep settings now id docker pausing closing st =
    if not (idle_entry settings now (lookup id st.activity))
    then (st, [])
    else if not (is_running docker.status)
    then (pausing st, inspect id ∷ [])
    else if not docker.paused
    then (pausing st, inspect id ∷ pause id ∷ [])
    else if has_conns (lookup id (pausing st).activity)
    then (pausing st, inspect id ∷ pause id ∷ unpause id ∷ [])
    else (fall_asleep (closing (pausing st)) id, inspect id ∷ pause id ∷ [])
