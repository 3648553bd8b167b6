-- ===== src/Domains.antt =====
-- crates/solon-service/src/domains.rs: the local domains of the containers and the HTTP proxy in
-- front of them. A text is its bytes; an id of a container is ASCII.
pub mod Table
pub mod Hosts
pub mod HostsLaws
pub mod Head
pub mod HeadLaws
pub mod Bodies
pub mod BodiesLaws
pub mod ForwardLaws
pub mod Lines
pub mod LinesCome
pub mod Relayed
pub mod ChunkLaws
pub mod ChunkComes
pub mod ChunksCome
pub mod Pump
pub mod PumpLaws
pub mod Waiting
pub mod Pairing
pub mod Page
pub mod PageLaws
pub mod Requests
pub mod Exchanges
pub mod RoundLaws
pub mod RequestsLaws
pub mod CloseLaws
mod Tests
use solon.Base.{
  ℕ, zero, suc, ◌+◌, ◌-◌, ◌*◌, ◌/◌, ◌%◌, ◌^◌, ◌≤◌, ◌<◌, min, max, ◌≡◌, refl, sym, ap, ◌∙◌, ◌≡⟨◌⟩◌,
  ◌∎, ◌≢◌, ◌↔◌, ◌⊎◌, inl, inr, Bool, true, false, not, ◌&&◌, ◌||◌, Option, none, some, List, [],
  ◌∷◌, ◌++◌, append_assoc, append-nil, map, reverse, arith, ltb, leb, ◌==◌, if◌then◌else◌, within,
  ltb→lt, lt→ltb, leb→le, ==_iff, ==_refl, tests, Bool-cases, Option-cases, length, get_elem?, take,
  drop, get_or, any, all, retain, All, replicate, length-append, take-append-drop, length-take,
  length-drop, take-append, drop-append, length-retain, All-append, drop-drop, drop-append_le,
}
use solon.Base.Text.{
  Bytes, codes, str_eq, is_ascii_alphanumeric, lower_byte, trim_start_byte, trim_end_byte, split,
  is_ascii_digit,
}
use solon.Base.Map.{Map, lookup, insert}
use solon.Protocol.{ContainerEndpoint, TracePeer}

abbrev pub suffix : Bytes
suffix = codes "solon.local"

-- `parse::<Ipv4Addr>`: four numbers up to 255 with dots between them, without zeros in front. The text
-- is also the text of the address.
octet_value : ℕ → Bytes → ℕ
octet_value n [] = n
octet_value n (c ∷ s) = octet_value (n * 10 + (c - b'0')) s

is_octet : Bytes → Bool
unfolding octet_value all is_ascii_digit
is_octet [] = false
is_octet (c ∷ s) =
    all is_ascii_digit (c ∷ s)
    && leb (length (c ∷ s)) 3
    && (not (c == b'0') || length s == 0)
    && leb (octet_value 0 (c ∷ s)) 255

unfoldable pub is_ipv4 : Bytes → Bool
unfolding is_octet all split
is_ipv4 s = let parts = split b'.' s in length parts == 4 && all is_octet parts

abbrev pub preferred_ports : List ℕ
preferred_ports = 80 ∷ 8080 ∷ 3000 ∷ 8000 ∷ 8069 ∷ 5000 ∷ 4200 ∷ 5173 ∷ 8888 ∷ 9000 ∷ 443 ∷ []

pub record Target : Type 0 where
  pub ip : Bytes
  pub port : ℕ
  pub peer : TracePeer

-- Letters, digits and dashes in lower case; underscores and dots are dashes.
unfoldable pub sanitize_bytes : Bytes → Bytes
unfolding is_ascii_alphanumeric lower_byte
sanitize_bytes [] = []
sanitize_bytes (a ∷ s) =
    let c = lower_byte a in
    let rest = sanitize_bytes s in
    if is_ascii_alphanumeric c
    then c ∷ rest
    else if c == b'_' || c == b'-' || c == b'.'
    then b'-' ∷ rest
    else rest

unfoldable pub sanitize : Bytes → Bytes
unfolding sanitize_bytes trim_start_byte trim_end_byte
sanitize label =
    trim_end_byte b'-' (trim_start_byte b'-' (sanitize_bytes (trim_start_byte b'/' label)))

first_of : List ℕ → ℕ → ℕ
first_of [] d = d
first_of (p ∷ _) d = p

unfoldable pub preferred : List ℕ → List ℕ → Option ℕ
unfolding any
preferred [] exposed = none
preferred (p ∷ ps) exposed =
    let rest = preferred ps exposed in if any (λ q. q == p) exposed then some p else rest

unfoldable pub pick_port : ContainerEndpoint → ℕ
unfolding preferred first_of
pick_port e = elim (preferred preferred_ports e.exposed_tcp) [
  | some p ↦ p
  | none ↦ first_of e.exposed_tcp (first_of e.published_tcp 80)
]

unfoldable pub target_of : ContainerEndpoint → Target
unfolding pick_port
target_of e = record {
  ip = e.ip;
  port = pick_port e;
  peer = record {
    ip = e.ip;
    container_id = some (take 12 e.id);
    name = some e.name;
    project = e.compose_project;
    service = e.compose_service;
  };
}

abbrev pub DomainMap : Type 0
DomainMap = Map Target

-- `map.entry(k).or_insert_with(…)`
unfoldable pub or_insert : Bytes → Target → DomainMap → DomainMap
unfolding lookup insert
or_insert k t m = elim (lookup k m) [ some _ ↦ m | none ↦ insert k t m ]

-- `nom.solon.local`
unfoldable pub own_names : ContainerEndpoint → List Bytes
unfolding sanitize
own_names e =
    let name = sanitize e.name in if length name == 0 then [] else (name ++ (b'.' ∷ suffix)) ∷ []

service_names : Option Bytes → Option Bytes → List Bytes
unfolding sanitize
service_names (some project) (some service) =
    let p = sanitize project in
    let s = sanitize service in
    if length p == 0 || length s == 0 then [] else (s ++ (b'.' ∷ p ++ (b'.' ∷ suffix))) ∷ []
service_names _ _ = []

-- The names of a container, in the order in which they are entered.
unfoldable pub names_of : ContainerEndpoint → List Bytes
unfolding own_names service_names
names_of e = own_names e ++ service_names e.compose_project e.compose_service

unfoldable pub add_names : List Bytes → Target → DomainMap → DomainMap
unfolding or_insert
add_names [] t m = m
add_names (n ∷ ns) t m = add_names ns t (or_insert n t m)

unfoldable pub add_all_endpoints : List ContainerEndpoint → DomainMap → DomainMap
unfolding add_names names_of target_of is_ipv4
add_all_endpoints [] m = m
add_all_endpoints (e ∷ es) m =
    add_all_endpoints es (if is_ipv4 e.ip then add_names (names_of e) (target_of e) m else m)

unfoldable pub domains_for : List ContainerEndpoint → DomainMap
unfolding add_all_endpoints
domains_for es = add_all_endpoints es []
