-- ===== src/Sleep/Laws.antt =====
-- What the table of running containers, the events and the connections do to the state.
use solon.Base.TextEq.{str_eq_iff}
use solon.Base.{
  ℕ, ◌≡◌, refl, ap, ◌∙◌, Bool, false, not, ◌&&◌, ◌||◌, Option, none, some, List, [], ◌∷◌, arith,
  if◌then◌else◌, any,
}
use solon.Base.Text.{Bytes, str_eq, mem_str}
use solon.Base.Map.{
  mem_str-retain, lookup-retain_keys, mem_str-remove_set, mem_str-insert_set, lookup-insert, lookup,
}
use solon.Protocol.{ContainerEndpoint}
use solon.Sleep.{
  wake, admit, on_connection, is_eligible, State, Sleeper, ids, add_endpoints, add_endpoint,
  update_endpoints,
}

pub add_endpoints-activity :
    (es : List ContainerEndpoint) (st : State) → (add_endpoints st es).activity ≡ st.activity
unfolding add_endpoints add_endpoint
add_endpoints-activity [] st = refl
add_endpoints-activity (e ∷ es) st = add_endpoints-activity es (add_endpoint st e)

add_endpoints-sleeping :
    (es : List ContainerEndpoint) (st : State) → (add_endpoints st es).sleeping ≡ st.sleeping
unfolding add_endpoints add_endpoint
add_endpoints-sleeping [] st = refl
add_endpoints-sleeping (e ∷ es) st = add_endpoints-sleeping es (add_endpoint st e)

-- The identifier of the last endpoint with this address, or `old`.
abbrev pub id_at : Option Bytes → Bytes → List ContainerEndpoint → Option Bytes
id_at old ip [] = old
id_at old ip (e ∷ es) = id_at (if str_eq e.ip ip then some e.id else old) ip es

add_endpoints-by_ip :
    (es : List ContainerEndpoint) (st : State) (ip : Bytes)
    → lookup ip (add_endpoints st es).by_ip ≡ id_at (lookup ip st.by_ip) ip es
unfolding add_endpoints add_endpoint
add_endpoints-by_ip [] st ip = refl
add_endpoints-by_ip (e ∷ es) st ip =
    add_endpoints-by_ip es (add_endpoint st e) ip
    ∙ ap (λ o. id_at o ip es) (lookup-insert e.ip ip e.id st.by_ip)

add_endpoints-eligible :
    (es : List ContainerEndpoint) (st : State) (id : Bytes)
    → mem_str id (add_endpoints st es).eligible
      ≡ (any (λ e. str_eq e.id id && is_eligible e) es || mem_str id st.eligible)
unfolding add_endpoints add_endpoint any
add_endpoints-eligible [] st id = refl
add_endpoints-eligible (e ∷ es) st id =
    rw (add_endpoints-eligible es (add_endpoint st e) id)
      (ground (arith, mem_str-insert_set e.id id st.eligible))

lookup-nil : (k : Bytes) → lookup {V = Bytes} k [] ≡ none
unfolding lookup
lookup-nil k = refl

or-false : (b : Bool) → (b || false) ≡ b
or-false b = ground arith

-- After a new table of running containers, an address leads to the last container listed with it
-- and no other address is known, a container is eligible exactly when it is listed with a published
-- port or an HTTP port, and what was known of activity and sleep stays for the listed containers
-- and is forgotten for all others.
pub update_endpoints_lem :
    (s : Sleeper) (es : List ContainerEndpoint) (ip id : Bytes)
    → (lookup ip (update_endpoints s es).state.by_ip ≡ id_at none ip es)
      × (mem_str id (update_endpoints s es).state.eligible
          ≡ any (λ e. str_eq e.id id && is_eligible e) es)
      × (lookup id (update_endpoints s es).state.activity
          ≡ (if mem_str id (ids es) then lookup id s.state.activity else none))
      × (mem_str id (update_endpoints s es).state.sleeping
          ≡ (mem_str id (ids es) && mem_str id s.state.sleeping))
unfolding update_endpoints mem_str any
update_endpoints_lem s es ip id =
    let st = record s.state { by_ip = []; by_name = []; names = []; eligible = [] } in
    (
      add_endpoints-by_ip es st ip ∙ ap (λ o. id_at o ip es) (lookup-nil ip),
      add_endpoints-eligible es st id ∙ or-false _,
      lookup-retain_keys (λ j. mem_str j (ids es)) id (add_endpoints st es).activity
          ∙ ap (λ m. if mem_str id (ids es) then lookup id m else none)
              (add_endpoints-activity es st),
      mem_str-retain (λ j. mem_str j (ids es)) id (add_endpoints st es).sleeping
          ∙ ap (λ m. mem_str id (ids es) && mem_str id m) (add_endpoints-sleeping es st),
    )

-- Whatever Docker answers, a connection leaves its container awake and no other container's sleep
-- changes.
pub on_connection-sleeping :
    (st : State) (now : ℕ) (id j : Bytes)
    → mem_str j (on_connection st now id).sleeping ≡ (not (str_eq id j) && mem_str j st.sleeping)
unfolding on_connection admit wake
on_connection-sleeping st now id j = ground (
  arith,
  mem_str-remove_set id j st.sleeping,
  str_eq_iff id j,
  λ (e : id ≡ j). ap (λ k. mem_str k st.sleeping) e,
)
