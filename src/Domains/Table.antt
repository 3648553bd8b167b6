-- ===== src/Domains/Table.antt =====
-- The table of domains, crates/solon-service/src/domains.rs.
use solon.Base.{
  ℕ, ◌≡◌, inl, inr, Bool, true, false, ◌&&◌, ◌||◌, Option, none, some, List, [], ◌∷◌, reverse,
  arith, ◌==◌, if◌then◌else◌, within, Option-cases, any, All,
}
use solon.Base.Text.{
  Bytes, str_eq, mem_str, starts_with, is_ascii_alphanumeric, is_ascii_digit, is_ascii_alphabetic,
  lower_byte, trim_start_byte,
}
use solon.Base.TextEq.{str_eq_iff}
use solon.Base.Map.{lookup, lookup-insert}
use solon.Base.Trim.{All-trim_byte, trim_byte-head, trim_byte-last}
use solon.Protocol.{ContainerEndpoint}
use solon.Domains.{
  Target, DomainMap, is_ipv4, sanitize_bytes, sanitize, target_of, or_insert, names_of, add_names,
  add_all_endpoints, domains_for,
}

-- The first container with an address that has the name.
unfoldable pub first_target : Bytes → List ContainerEndpoint → Option Target
unfolding mem_str any
first_target name [] = none
first_target name (e ∷ es) =
    let rest = first_target name es in
    if is_ipv4 e.ip && mem_str name (names_of e) then some (target_of e) else rest

abbrev or_first : Option Target → Option Target → Option Target
or_first none o = o
or_first (some t) o = some t

lookup-or_insert :
    (k j : Bytes) (t : Target) (m : DomainMap)
    → lookup j (or_insert k t m) ≡ or_first (lookup j m) (if str_eq j k then some t else none)
unfolding or_insert
lookup-or_insert k j t m = elim (Option-cases (lookup k m)) [
  | inl e ↦
      rw (or_insert, e) (ground (arith, e, lookup-insert k j t m, str_eq_iff j k, str_eq_iff k j))
  | inr (u, e) ↦ rw (or_insert, e) (ground (arith, e, str_eq_iff j k))
]

lookup-add_names :
    (ns : List Bytes) (j : Bytes) (t : Target) (m : DomainMap)
    → lookup j (add_names ns t m) ≡ or_first (lookup j m) (if mem_str j ns then some t else none)
unfolding add_names mem_str any
lookup-add_names [] j t m = ground arith
lookup-add_names (n ∷ ns) j t m =
    ground (arith, lookup-add_names ns j t (or_insert n t m), lookup-or_insert n j t m)

lookup-add_all_endpoints :
    (es : List ContainerEndpoint) (j : Bytes) (m : DomainMap)
    → lookup j (add_all_endpoints es m) ≡ or_first (lookup j m) (first_target j es)
unfolding add_all_endpoints first_target
lookup-add_all_endpoints [] j m = ground arith
lookup-add_all_endpoints (e ∷ es) j m = ground (
  arith,
  lookup-add_all_endpoints es j
      (if is_ipv4 e.ip then add_names (names_of e) (target_of e) m else m),
  lookup-add_names (names_of e) j (target_of e) m,
)

-- A domain leads to the first container of the list that has an IPv4 address and this name, among its
-- own and that of its service, and to nothing when there is none.
pub lookup-domains_for :
    (es : List ContainerEndpoint) (name : Bytes)
    → lookup name (domains_for es) ≡ first_target name es
unfolding domains_for lookup
lookup-domains_for es name = lookup-add_all_endpoints es name []

abbrev pub is_label_byte : ℕ → Bool
is_label_byte c = within b'a' b'z' c || within b'0' b'9' c || c == b'-'

-- What a part of a domain may be: small letters, digits and dashes, no dash at either end.
pub record IsLabel (s : Bytes) : Type 0 where
  pub bytes : All (λ c. is_label_byte c ≡ true) s
  pub head : starts_with (b'-' ∷ []) s ≡ false
  pub last : starts_with (b'-' ∷ []) (reverse s) ≡ false

sanitize_bytes-All : (s : Bytes) → All (λ c. is_label_byte c ≡ true) (sanitize_bytes s)
unfolding sanitize_bytes is_ascii_alphanumeric is_ascii_digit is_ascii_alphabetic lower_byte
sanitize_bytes-All [] = tt
sanitize_bytes-All (a ∷ s) = ground (arith, sanitize_bytes-All s)

-- What `sanitize` leaves of a name is made of small letters, digits and dashes, without a dash at
-- either end.
pub sanitize-IsLabel : (label : Bytes) → IsLabel (sanitize label)
unfolding sanitize
sanitize-IsLabel label =
    let kept = sanitize_bytes (trim_start_byte b'/' label) in
    record {
      bytes = All-trim_byte _ b'-' kept (sanitize_bytes-All (trim_start_byte b'/' label));
      head = trim_byte-head b'-' kept;
      last = trim_byte-last b'-' kept;
    }
