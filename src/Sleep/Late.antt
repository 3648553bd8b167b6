-- ===== src/Sleep/Late.antt =====
-- The sleeping loop against the connections: what it may put to sleep, and the orders in which a
-- connection can arrive.
use solon.Base.{
  ℕ, ◌+◌, ◌≤◌, ◌≡◌, refl, ap, ◌∙◌, ◌⊎◌, true, false, Option, none, some, [], ◌∷◌, arith,
}
use solon.Base.Text.{Bytes, codes, str_eq, mem_str}
use solon.Base.TextEq.{str_eq_refl}
use solon.Base.Map.{lookup-remove, mem_str-insert_set, lookup-insert, lookup}
use solon.Sleep.{
  State, Activity, Docker, SleepSettings, inspect, pause, unpause, idle_entry, has_conns,
  is_running, admit, release, try_sleep, fall_asleep, event_state,
}

-- When a connection is counted at the second check, nothing is marked asleep, the state is what the
-- others have made of it, and Docker has been asked nothing, or not to pause, or to pause without
-- success, or to resume right after the pause.
pub try_sleep-awake :
    (settings : SleepSettings) (now : ℕ) (id : Bytes) (docker : Docker)
    (pausing closing : State → State) (st : State)
    → has_conns (lookup id (pausing st).activity) ≡ true
    → let (last, cmds) = try_sleep settings now id docker pausing closing st in
      ((last ≡ st) × (cmds ≡ []))
      ⊎ ((last ≡ pausing st)
          × ((cmds ≡ inspect id ∷ [])
              ⊎ ((cmds ≡ inspect id ∷ pause id ∷ []) × (docker.paused ≡ false))
              ⊎ (cmds ≡ inspect id ∷ pause id ∷ unpause id ∷ [])))
unfolding try_sleep
try_sleep-awake settings now id docker pausing closing st h = ground arith

-- A container is marked asleep only if Docker runs it and has paused it, if it was idle for long
-- enough at the first check, and if no connection was counted at the second.
pub try_sleep-asleep :
    (settings : SleepSettings) (now : ℕ) (id : Bytes) (docker : Docker)
    (pausing closing : State → State) (st : State)
    → mem_str id (closing (pausing st)).sleeping ≡ false
    → mem_str id (pausing st).sleeping ≡ false
    → mem_str id st.sleeping ≡ false
    → mem_str id (try_sleep settings now id docker pausing closing st).0.sleeping ≡ true
    → (idle_entry settings now (lookup id st.activity) ≡ true)
      × (is_running docker.status ≡ true)
      × (docker.paused ≡ true)
      × (has_conns (lookup id (pausing st).activity) ≡ false)
      × ((try_sleep settings now id docker pausing closing st).1 ≡ inspect id ∷ pause id ∷ [])
unfolding try_sleep
try_sleep-asleep settings now id docker pausing closing st a b c h = ground arith

-- A connection counted before the second check is seen by it.
pub admit-has_conns :
    (st : State) (now : ℕ) (id : Bytes)
    → mem_str id st.eligible ≡ true
    → has_conns (lookup id (admit st now id).0.activity) ≡ true
unfolding admit
admit-has_conns st now id h = rw (h, lookup-insert, str_eq_refl) (ground arith)

-- A connection that comes when the container is marked asleep is told so.
pub admit-fall_asleep :
    (st : State) (now : ℕ) (id : Bytes) → (admit (fall_asleep st id) now id).1 ≡ true
unfolding admit fall_asleep
admit-fall_asleep st now id = rw (mem_str-insert_set, str_eq_refl)

idle-no_conns :
    (settings : SleepSettings) (now : ℕ) (o : Option Activity)
    → idle_entry settings now o ≡ true
    → has_conns o ≡ false
idle-no_conns settings now none h = refl
idle-no_conns settings now (some a) h = ground arith

-- Between the second check and the write, the lock is given back. A connection that comes there is
-- counted and not told to wake the container, which is then marked asleep although Docker has
-- paused it and the connection is open.
pub late_connection :
    (settings : SleepSettings) (now later : ℕ) (id : Bytes) (docker : Docker) (st : State)
    → mem_str id st.eligible ≡ true
    → mem_str id st.sleeping ≡ false
    → idle_entry settings now (lookup id st.activity) ≡ true
    → is_running docker.status ≡ true
    → docker.paused ≡ true
    → let last = (try_sleep settings now id docker (λ s. s) (λ s. (admit s later id).0) st).0 in
      ((admit st later id).1 ≡ false)
      × (mem_str id last.sleeping ≡ true)
      × (has_conns (lookup id last.activity) ≡ true)
unfolding try_sleep fall_asleep
late_connection settings now later id docker st e s i r p =
    rw (i, r, p, idle-no_conns settings now (lookup id st.activity) i)
      (unfold admit in s, rw (mem_str-insert_set, str_eq_refl), admit-has_conns st later id e)

event_state-die :
    (st : State) (id : Bytes) → lookup id (event_state st (codes "die") id).activity ≡ none
unfolding event_state str_eq
event_state-die st id = rw (lookup-remove, str_eq_refl)

event_state-eligible :
    (st : State) (action id : Bytes) → (event_state st action id).eligible ≡ st.eligible
unfolding event_state
event_state-eligible st action id = ground arith

admit-eligible : (st : State) (now : ℕ) (id : Bytes) → (admit st now id).0.eligible ≡ st.eligible
unfolding admit
admit-eligible st now id = ground arith

admit-first :
    (st : State) (now : ℕ) (id : Bytes)
    → mem_str id st.eligible ≡ true
    → lookup id st.activity ≡ none
    → lookup id (admit st now id).0.activity ≡ some (record { last = now; conns = 1 })
unfolding admit
admit-first st now id e h = rw (e, lookup-insert, str_eq_refl, h)

release-last :
    (st : State) (before now : ℕ) (id : Bytes)
    → lookup id st.activity ≡ some (record { last = before; conns = 1 })
    → lookup id (release st now id).activity ≡ some (record { last = now; conns = 0 })
unfolding release
release-last st before now id h = rw (h, lookup-insert, str_eq_refl)

idle_entry-closed :
    (settings : SleepSettings) (t now : ℕ)
    → settings.idle + t ≤ now
    → idle_entry settings now (some (record { last = t; conns = 0 })) ≡ true
idle_entry-closed settings t now h = ground arith

-- A restart of the container forgets the connections counted so far, and the end of one of them is
-- then taken from those counted since: with a connection still open the container is idle.
pub restart_forgets :
    (settings : SleepSettings) (t1 t2 t3 now : ℕ) (id : Bytes) (st : State)
    → mem_str id st.eligible ≡ true
    → settings.idle + t3 ≤ now
    → let first = (admit st t1 id).0 in
      let second = (admit (event_state first (codes "die") id) t2 id).0 in
      idle_entry settings now (lookup id (release second t3 id).activity) ≡ true
restart_forgets settings t1 t2 t3 now id st e h =
    let first = (admit st t1 id).0 in
    let stopped = event_state first (codes "die") id in
    let kept =
      ap (mem_str id) (event_state-eligible first (codes "die") id ∙ admit-eligible st t1 id) ∙ e in
    ap (idle_entry settings now)
      (release-last _ t2 t3 id (admit-first stopped t2 id kept (event_state-die first id)))
    ∙ idle_entry-closed settings t3 now h
