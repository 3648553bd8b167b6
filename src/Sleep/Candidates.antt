-- ===== src/Sleep/Candidates.antt =====
-- The containers that a round of the loop chooses, in terms of what the state says of each.
use solon.Sleep.Laws.{add_endpoints-activity}
use solon.Base.{
  ℕ, ◌+◌, ◌≡◌, refl, sym, inl, inr, Bool, true, false, ◌&&◌, Option, none, some, List, [], ◌∷◌,
  arith, Bool-cases, any,
}
use solon.Base.Text.{Bytes, str_eq, mem_str}
use solon.Base.TextEq.{str_eq_refl, str_eq_iff}
use solon.Base.Map.{lookup-retain_keys, retain_keys, remove, lookup-remove, Map, lookup, insert}
use solon.Sleep.{
  entry, count_down, ContainerEndpoint, update_state, event_state, release, admit, State, Sleeper,
  Activity, SleepSettings, candidates, candidates_in, is_candidate,
}

abbrev pub is_none {ℓ} : {A : Type ℓ} → Option A → Bool
is_none none = true
is_none (some _) = false

-- No key stands twice, as in a `HashMap`.
unfoldable pub distinct : Map Activity → Bool
unfolding lookup
distinct [] = true
distinct ((k, _) ∷ m) = is_none (lookup k m) && distinct m

abbrev pub chosen : SleepSettings → ℕ → State → Bytes → Option Activity → Bool
chosen settings now st id none = false
chosen settings now st id (some a) = is_candidate settings now st id a

and-right : (a b : Bool) → (a && b) ≡ true → b ≡ true
and-right a b h = ground arith

str_eq-false : (a b : Bytes) → str_eq a b ≡ false → str_eq b a ≡ false
str_eq-false a b h = ground (arith, str_eq_iff a b, str_eq_iff b a, λ (e : b ≡ a). sym e)

candidates_in-lookup :
    (settings : SleepSettings) (now : ℕ) (st : State) (m : Map Activity) (id : Bytes)
    → distinct m ≡ true
    → mem_str id (candidates_in settings now st m) ≡ chosen settings now st id (lookup id m)
unfolding candidates_in distinct mem_str any lookup
candidates_in-lookup settings now st [] id h = refl
candidates_in-lookup settings now st ((k, a) ∷ m) id h = elim (Bool-cases (str_eq k id)) [
  | inl e ↦
      let p = (str_eq_iff k id).0 e in
      rw (e, sym p) (ground (arith, candidates_in-lookup settings now st m k, str_eq_refl k))
  | inr e ↦
      let e' : str_eq id k ≡ false = str_eq-false k id e in
      elim (Bool-cases (is_candidate settings now st k a)) [
        | inl c ↦ rw (
          c,
          e,
          e',
          candidates_in-lookup settings now st m id (and-right (is_none (lookup k m)) _ h),
        )
        | inr c ↦
            rw (
              c,
              e,
              candidates_in-lookup settings now st m id (and-right (is_none (lookup k m)) _ h),
            )
      ]
]

-- With the service enabled and an engine running, a round of the loop looks at exactly the
-- containers with an activity entry that have no open connection, whose last one ended at least the
-- configured time ago, that are not asleep, and whose name the settings do not exempt; otherwise it
-- looks at none.
pub candidates_lem :
    (s : Sleeper) (now : ℕ) (id : Bytes)
    → distinct s.state.activity ≡ true
    → mem_str id (candidates s now) ≡ (
        s.settings.enabled
        && s.agent
        && chosen s.settings now s.state id (lookup id s.state.activity))
unfolding candidates mem_str any
candidates_lem s now id h =
    ground (arith, candidates_in-lookup s.settings now s.state s.state.activity id h)

remove-distinct : (k : Bytes) (m : Map Activity) → distinct m ≡ true → distinct (remove k m) ≡ true
unfolding distinct remove
remove-distinct k [] h = refl
remove-distinct k ((j, a) ∷ m) h = ground (arith, remove-distinct k m, lookup-remove k j m)

insert-distinct :
    (k : Bytes) (a : Activity) (m : Map Activity)
    → distinct m ≡ true
    → distinct (insert k a m) ≡ true
unfolding distinct insert
insert-distinct k a m h = rw (lookup-remove, str_eq_refl) (remove-distinct k m h)

retain_keys-distinct :
    (p : Bytes → Bool) (m : Map Activity) → distinct m ≡ true → distinct (retain_keys p m) ≡ true
unfolding distinct retain_keys
retain_keys-distinct p [] h = refl
retain_keys-distinct p ((j, a) ∷ m) h =
    ground (arith, retain_keys-distinct p m, lookup-retain_keys p j m)

count_down-distinct :
    (o : Option Activity) (now : ℕ) (id : Bytes) (m : Map Activity)
    → distinct m ≡ true
    → distinct (count_down o now id m) ≡ true
count_down-distinct none now id m h = h
count_down-distinct (some a) now id m h = insert-distinct id _ m h

release-distinct :
    (st : State) (now : ℕ) (id : Bytes)
    → distinct st.activity ≡ true
    → distinct (release st now id).activity ≡ true
unfolding release
release-distinct st now id h = count_down-distinct (lookup id st.activity) now id st.activity h

-- A connection, its end, an event of a container and a new table of containers each keep the
-- activity without a double key.
pub operations-distinct :
    (st : State) (now : ℕ) (id action : Bytes) (es : List ContainerEndpoint)
    → distinct st.activity ≡ true
    → (distinct (admit st now id).0.activity ≡ true)
      × (distinct (release st now id).activity ≡ true)
      × (distinct (event_state st action id).activity ≡ true)
      × (distinct (update_state st es).activity ≡ true)
unfolding admit event_state update_state
operations-distinct st now id action es h = (
  ground (
    arith,
    insert-distinct id
        (record { last = now; conns = (entry (lookup id st.activity) now).conns + 1 }) st.activity,
  ),
  release-distinct st now id h,
  ground (arith, remove-distinct id st.activity),
  rw (add_endpoints-activity es (record st { by_ip = []; by_name = []; names = []; eligible = [] }))
      (retain_keys-distinct _ st.activity h),
)
