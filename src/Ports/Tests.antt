-- ===== src/Ports/Tests.antt =====
-- Port relays on a concrete list of bindings.
use solon.Base.{ℕ, ◌≡◌, refl, none, [], ◌∷◌}
use solon.Base.Text.{codes, str_eq}
use solon.Protocol.{PortBinding}
use solon.Ports.{
  apply, clear_relays, open_all, wanted_from, close_all, stale, is_stale, find, close_key, open_key,
  key_eq, without, same_target, key_of, started, PortRelays,
}
use solon.Ports.Laws.{Distinct, IsApplied, last_binding, apply-IsApplied}

abbrev web : ℕ → PortBinding
web port = record {
  container_id = codes "c1";
  protocol = codes "tcp";
  host_ip = codes "0.0.0.0";
  host_port = 8080;
  container_ip = codes "172.17.0.2";
  container_port = port;
  container_name = codes "web";
  compose_project = none;
  compose_service = none;
}

abbrev before : PortRelays
before = record { active = (key_of (web 80), started (web 80) 0) ∷ []; aborted = []; next = 1 }

retargeted :
    apply (web 81 ∷ []) before
    ≡ record { active = (key_of (web 81), started (web 81) 1) ∷ []; aborted = 0 ∷ []; next = 2 }
unfolding apply open_all wanted_from close_all stale is_stale find close_key open_key key_eq str_eq
    without same_target
retargeted = refl

gone : apply [] before ≡ clear_relays before
unfolding apply clear_relays open_all wanted_from close_all stale is_stale find close_key open_key
    key_eq str_eq without same_target
gone = refl

kept : apply (web 80 ∷ []) before ≡ before
unfolding apply open_all wanted_from close_all stale is_stale find close_key open_key key_eq str_eq
    without same_target
kept = refl

before-Distinct : Distinct before.active
unfolding find
before-Distinct = (refl, tt)

apply-IsApplied_example :
    IsApplied 1
      (find (key_of (web 81)) before.active)
      (last_binding (key_of (web 81)) (web 81 ∷ []))
      (find (key_of (web 81)) (apply (web 81 ∷ []) before).active)
apply-IsApplied_example = apply-IsApplied (web 81 ∷ []) before (key_of (web 81)) before-Distinct
