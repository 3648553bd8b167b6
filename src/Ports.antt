-- ===== src/Ports.antt =====
-- crates/solon-service/src/ports.rs: the relays of published ports. A task is a number, the tasks
-- that were aborted are a list, and `next` is the number of the next task. A hash map is a list of
-- pairs, walked in the order of the list.
pub mod Keys
pub mod Opening
pub mod Laws
mod Tests
use solon.Base.{
  ℕ, zero, suc, ◌+◌, ◌-◌, ◌*◌, ◌/◌, ◌%◌, ◌^◌, ◌≤◌, ◌<◌, min, max, ◌≡◌, refl, sym, ap, ◌∙◌, ◌≡⟨◌⟩◌,
  ◌∎, ◌≢◌, ◌↔◌, ◌⊎◌, inl, inr, Bool, true, false, not, ◌&&◌, ◌||◌, Option, none, some, List, [],
  ◌∷◌, ◌++◌, append_assoc, append-nil, map, reverse, arith, ltb, leb, ◌==◌, if◌then◌else◌, within,
  ltb→lt, lt→ltb, leb→le, ==_iff, ==_refl, tests, Bool-cases, Option-cases, length, get_elem?, take,
  drop, get_or, any, all, retain, All, replicate, length-append, take-append-drop, length-take,
  length-drop, take-append, drop-append, length-retain, All-append, drop-drop, drop-append_le,
}
use solon.Base.Text.{Bytes, codes, str_eq}
use solon.Protocol.{PortBinding}

pub record Key : Type 0 where
  pub host_ip : Bytes
  pub host_port : ℕ
  pub protocol : Bytes

-- The derived `==` of `Key`.
unfoldable pub key_eq : Key → Key → Bool
key_eq j k =
    str_eq j.host_ip k.host_ip && j.host_port == k.host_port && str_eq j.protocol k.protocol

module _ {ℓ} {V : Type ℓ} where
  -- m.get(k)
  unfoldable pub find : Key → List (Key × V) → Option V
  find k [] = none
  find k ((j, v) ∷ m) = let rest = find k m in if key_eq j k then some v else rest

  -- m.remove(k)
  unfoldable pub without : Key → List (Key × V) → List (Key × V)
  without k [] = []
  without k ((j, v) ∷ m) = let rest = without k m in if key_eq j k then rest else (j, v) ∷ rest

pub record PortRelay : Type 0 where
  pub binding : PortBinding
  pub task : ℕ

pub record PortRelays : Type 0 where
  pub active : List (Key × PortRelay)
  pub aborted : List ℕ
  pub next : ℕ

abbrev pub key_of : PortBinding → Key
key_of b = record { host_ip = b.host_ip; host_port = b.host_port; protocol = b.protocol }

-- The collection of `wanted`: a later binding replaces an earlier one with the same key.
unfoldable pub wanted_from : List PortBinding → List (Key × PortBinding) → List (Key × PortBinding)
wanted_from [] m = m
wanted_from (b ∷ bs) m =
    wanted_from bs
      (if str_eq b.protocol (codes "tcp") then (key_of b, b) ∷ without (key_of b) m else m)

unfoldable pub same_target : PortBinding → PortBinding → Bool
same_target b w = str_eq w.container_ip b.container_ip && w.container_port == b.container_port

-- `wanted.get(k).is_none_or(…)`
unfoldable pub is_stale : Option PortBinding → PortRelay → Bool
is_stale none r = true
is_stale (some w) r = not (same_target r.binding w)

unfoldable pub stale : List (Key × PortBinding) → List (Key × PortRelay) → List Key
stale w [] = []
stale w ((k, r) ∷ m) = let rest = stale w m in if is_stale (find k w) r then k ∷ rest else rest

unfoldable pub close_key : Key → PortRelays → PortRelays
close_key k s = elim (find k s.active) [
  | none ↦ s
  | some r ↦ record { active = without k s.active; aborted = r.task ∷ s.aborted; next = s.next }
]

unfoldable pub close_all : List Key → PortRelays → PortRelays
close_all [] s = s
close_all (k ∷ ks) s = close_all ks (close_key k s)

abbrev pub started : PortBinding → ℕ → PortRelay
started b t = record { binding = b; task = t }

unfoldable pub open_key : Key → PortBinding → PortRelays → PortRelays
open_key k b s = elim (find k s.active) [
  | some r ↦ s
  | none ↦ record {
    active = (k, started b s.next) ∷ s.active;
    aborted = s.aborted;
    next = s.next + 1;
  }
]

unfoldable pub open_all : List (Key × PortBinding) → PortRelays → PortRelays
open_all [] s = s
open_all ((k, b) ∷ w) s = open_all w (open_key k b s)

unfoldable pub apply : List PortBinding → PortRelays → PortRelays
apply bs s = let w = wanted_from bs [] in open_all w (close_all (stale w s.active) s)

-- `clear`: every task is aborted.
unfoldable pub clear_relays : PortRelays → PortRelays
clear_relays s = record {
  active = [];
  aborted = map (λ e. e.1.task) s.active ++ s.aborted;
  next = s.next;
}
