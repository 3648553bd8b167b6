-- ===== src/Sleep/Guards.antt =====
-- The count of open connections against the connections that there are, over any sequence of events.
use solon.Sleep.Laws.{add_endpoints-activity}
use solon.Base.{
  ℕ, ◌+◌, ◌-◌, ◌≤◌, ◌<◌, ◌≡◌, ap, inl, inr, Option, none, some, List, [], ◌∷◌, arith, if◌then◌else◌,
  Option-cases,
}
use solon.Base.Text.{Bytes, str_eq, mem_str}
use solon.Base.TextEq.{str_eq_iff}
use solon.Base.Map.{lookup-remove, lookup-retain_keys, lookup-insert, lookup}
use solon.Protocol.{ContainerEndpoint}
use solon.Sleep.{
  add_endpoints, ids, fall_asleep, entry, State, Activity, empty_state, update_state, event_state,
  admit, wake, release,
}

-- The state, and the containers of the connections that were counted and have no guard yet, of the
-- guards that are alive, and of the guards that were dropped and whose end is not counted yet.
pub record System : Type 0 where
  pub state : State
  pub waiting : List Bytes
  pub guards : List Bytes
  pub dropped : List Bytes

abbrev pub count : Bytes → List Bytes → ℕ
count id [] = 0
count id (j ∷ l) = (if str_eq j id then 1 else 0) + count id l

-- One of `id` less.
abbrev pub drop_one : Bytes → List Bytes → List Bytes
drop_one id [] = []
drop_one id (j ∷ l) = if str_eq j id then l else j ∷ drop_one id l

-- What can happen next. `on_connection` gives the lock back between its parts: the count, the wake and
-- the guard are steps of their own, and a connection that is cut off before its guard stays among
-- those that wait. The drop of a guard starts a task, which counts the end in a later step. Of the
-- sleeping loop only the last part writes to the state.
pub data Step : System → System → Type 0 where
  endpoints :
      (s : System) (es : List ContainerEndpoint)
      → Step s (record s { state = update_state s.state es })
  event :
      (s : System) (action id : Bytes) → Step s (record s { state = event_state s.state action id })
  connect :
      (s : System) (now : ℕ) (id : Bytes)
      → Step s (record s { state = (admit s.state now id).0; waiting = id ∷ s.waiting })
  wake_up : (s : System) (id : Bytes) → Step s (record s { state = wake s.state id })
  guard :
      (s : System) (id : Bytes)
      → 0 < count id s.waiting
      → Step s (record s { waiting = drop_one id s.waiting; guards = id ∷ s.guards })
  drop_guard :
      (s : System) (id : Bytes)
      → 0 < count id s.guards
      → Step s (record s { guards = drop_one id s.guards; dropped = id ∷ s.dropped })
  count_end :
      (s : System) (now : ℕ) (id : Bytes)
      → 0 < count id s.dropped
      → Step s (record s { state = release s.state now id; dropped = drop_one id s.dropped })
  mark_asleep : (s : System) (id : Bytes) → Step s (record s { state = fall_asleep s.state id })
  engine_stop : (s : System) → Step s (record s { state = empty_state })

pub data Reach (s : System) : System → Type 0 where
  here : Reach s s
  next : {t u : System} → Reach s t → Step t u → Reach s u

-- The number of connections counted for a container, 0 when nothing is counted.
abbrev pub conns_of : Option Activity → ℕ
conns_of none = 0
conns_of (some a) = a.conns

abbrev pub counted : State → Bytes → ℕ
counted st id = conns_of (lookup id st.activity)

-- The connections of a container whose end is not counted yet.
abbrev pub connections : System → Bytes → ℕ
connections s id = count id s.waiting + count id s.guards + count id s.dropped

pub record IsCounted (s : System) : Type 0 where
  pub bound : (id : Bytes) → counted s.state id ≤ connections s id

count-drop_one :
    (id j : Bytes) (l : List Bytes)
    → 0 < count id l
    → count j (drop_one id l) + (if str_eq id j then 1 else 0) ≡ count j l
count-drop_one id j [] h = absurd (omega arith)
count-drop_one id j (k ∷ l) h =
    ground (arith, count-drop_one id j l, str_eq_iff k id, str_eq_iff k j, str_eq_iff id j)

admit-counted :
    (st : State) (now : ℕ) (id j : Bytes)
    → counted (admit st now id).0 j ≤ (if str_eq id j then 1 else 0) + counted st j
unfolding admit
admit-counted st now id j = ground (
  arith,
  lookup-insert id j (record { last = now; conns = (entry (lookup id st.activity) now).conns + 1 })
      st.activity,
  str_eq_iff id j,
  λ (e : id ≡ j). ap (λ k. lookup k st.activity) e,
)

release-counted :
    (st : State) (now : ℕ) (id j : Bytes)
    → counted (release st now id) j ≡ counted st j - (if str_eq id j then 1 else 0)
unfolding release
release-counted st now id j = elim (Option-cases (lookup id st.activity)) [
  | inl unknown ↦ rw unknown (
      ground (
        arith,
        str_eq_iff id j,
        λ (e : id ≡ j). ap (λ k. conns_of (lookup k st.activity)) e,
        ap conns_of unknown,
      ))
  | inr (a, known) ↦
      rw (known, lookup-insert)
        (ground (
          arith,
          str_eq_iff id j,
          λ (e : id ≡ j). ap (λ k. conns_of (lookup k st.activity)) e,
          ap conns_of known,
        ))
]

event-counted :
    (st : State) (action id j : Bytes) → counted (event_state st action id) j ≤ counted st j
unfolding event_state
event-counted st action id j = ground (arith, lookup-remove id j st.activity)

update-counted :
    (st : State) (es : List ContainerEndpoint) (j : Bytes)
    → counted (update_state st es) j ≤ counted st j
unfolding update_state
update-counted st es j =
    let st' = record st { by_ip = []; by_name = []; names = []; eligible = [] } in
    rw
      (
        lookup-retain_keys (λ k. mem_str k (ids es)) j (add_endpoints st' es).activity,
        add_endpoints-activity es st',
      )
      (ground arith)

wake-counted : (st : State) (id j : Bytes) → counted (wake st id) j ≡ counted st j
unfolding wake
wake-counted st id j = ground arith

Step-IsCounted : {s t : System} → Step s t → IsCounted s → IsCounted t
Step-IsCounted (endpoints s es) c = record {
  bound = λ j. omega (arith, update-counted s.state es j, c.bound j);
}
Step-IsCounted (event s action id) c = record {
  bound = λ j. omega (arith, event-counted s.state action id j, c.bound j);
}
Step-IsCounted (connect s now id) c = record {
  bound = λ j. omega (arith, admit-counted s.state now id j, c.bound j);
}
Step-IsCounted (wake_up s id) c = record { bound = λ j. rw wake-counted (c.bound j) }
Step-IsCounted (guard s id h) c = record {
  bound = λ j. omega (arith, count-drop_one id j s.waiting h, c.bound j);
}
Step-IsCounted (drop_guard s id h) c = record {
  bound = λ j. omega (arith, count-drop_one id j s.guards h, c.bound j);
}
Step-IsCounted (count_end s now id h) c = record {
  bound = λ j.
      omega (arith, release-counted s.state now id j, count-drop_one id j s.dropped h, c.bound j);
}
Step-IsCounted (mark_asleep s id) c = unfold fall_asleep in record { bound = c.bound }
Step-IsCounted (engine_stop s) c = record { bound = λ j. unfold lookup in omega arith }

Reach-IsCounted : {s t : System} → IsCounted s → Reach s t → IsCounted t
Reach-IsCounted h here = h
Reach-IsCounted h (next r st) = Step-IsCounted st (Reach-IsCounted h r)

abbrev pub start : System
start = record { state = empty_state; waiting = []; guards = []; dropped = [] }

-- Whatever the order of tables, events, the parts of connections and of their ends, and rounds of
-- sleep, a container never counts more connections than there are: those counted that wait for their
-- guard, the guards that are alive, and the guards dropped whose end is not counted yet.
pub counted-le-connections :
    {s : System} → Reach start s → (id : Bytes) → counted s.state id ≤ connections s id
counted-le-connections r id =
    (Reach-IsCounted {s = start} (record { bound = λ j. unfold lookup in omega arith }) r).bound id
