-- ===== src/Engine/Shares.antt =====
-- The drives that are shared with the running machine: `boot_shares` and `ensure_share` of
-- crates/solon-service/src/engine.rs. What Windows, the hypervisor and the agent answer in a call is
-- an argument of it.
use solon.Base.{
  ℕ, zero, suc, ◌+◌, Bool, true, false, not, Option, none, some, List, [], ◌∷◌, ◌++◌, ◌==◌,
  if◌then◌else◌, length, any, map,
}
use solon.Base.Text.{Bytes, codes, str_eq, mem_str}
use solon.Base.Map.{Map, lookup, insert}
use solon.Engine.{guest_path_for, host_root_of, HostShare, ShareInfo}

-- What belongs to the running machine: the shares that the service knows, those of the hypervisor,
-- and the mounts that the agent made, with the port and the target of each.
pub record Machine : Type 0 where
  pub shares : Map HostShare
  pub hcs : List HostShare
  pub mounts : List (Bytes × ℕ × Bytes)

-- The running machine, and the drives that are remembered for the next start.
pub record Shares : Type 0 where
  pub running : Option Machine
  pub remembered : List Bytes

-- The answers of one call: false where it fails.
pub record Answers : Type 0 where
  pub present : Bytes → Bool
  pub legacy : Bool
  pub add_share : Bool
  pub mount_share : Bool
  pub remove_share : Bool
  pub save_state : Bool

pub data ShareResult : Type 0 where
  shared : ShareInfo → ShareResult
  not_shareable no_drive not_started add_failed mount_failed : ShareResult

abbrev pub share_of : Bytes → ℕ → HostShare
share_of drive port = record {
  name = drive;
  host_path = host_root_of drive;
  port = port;
  read_only = false;
}

-- The drives that are there, with ports in a row.
unfoldable pub boot_from : (Bytes → Bool) → ℕ → List Bytes → List HostShare
boot_from present port [] = []
boot_from present port (d ∷ ds) =
    let with_it = share_of d port ∷ boot_from present (port + 1) ds in
    let without = boot_from present port ds in if present (host_root_of d) then with_it else without

unfoldable pub boot_shares : (Bytes → Bool) → List Bytes → List HostShare
unfolding boot_from
boot_shares present drives = boot_from present 9100 drives

-- `shares.into_iter().map(|sh| (sh.name.clone(), sh)).collect()`
unfoldable pub shares_by_name : List HostShare → Map HostShare → Map HostShare
unfolding insert
shares_by_name [] m = m
shares_by_name (s ∷ l) m = shares_by_name l (insert s.name s m)

abbrev pub ports_of : Map HostShare → List ℕ
ports_of m = map (λ e. e.1.port) m

abbrev pub is_used : ℕ → List ℕ → Bool
is_used p used = any (λ q. q == p) used

-- `(9100u32..).find(|p| !used.contains(p))`
unfoldable pub find_free : ℕ → ℕ → List ℕ → Option ℕ
unfolding any
find_free zero p used = none
find_free (suc f) p used =
    let more = find_free f (p + 1) used in if is_used p used then more else some p

abbrev pub or_first_port : Option ℕ → ℕ
or_first_port none = 9100
or_first_port (some p) = p

unfoldable pub free_port : Map HostShare → ℕ
unfolding find_free
free_port m = or_first_port (find_free (length (ports_of m) + 1) 9100 (ports_of m))

unfoldable pub take_away : HostShare → List HostShare → List HostShare
unfolding str_eq
take_away s [] = []
take_away s (t ∷ l) = let rest = take_away s l in if str_eq t.name s.name then rest else t ∷ rest

abbrev pub remember_drive : Bytes → List Bytes → List Bytes
remember_drive d l = if mem_str d l then l else l ++ (d ∷ [])

abbrev pub info : Bytes → Bytes → Bool → ShareResult
info drive guest_path now = shared (record {
  drive = drive;
  host_root = host_root_of drive;
  guest_root = codes "/mnt/host/" ++ drive;
  guest_path = guest_path;
  mounted_now = now;
})

abbrev pub nine_p_target : Bool → Bytes → Bytes
nine_p_target legacy drive =
    if legacy then codes "/mnt/host/" ++ drive else codes "/mnt/host9p/" ++ drive

-- A drive that the machine does not have yet.
unfoldable pub add_drive : Answers → Bytes → Bytes → Machine → List Bytes → Shares × ShareResult
unfolding free_port take_away mem_str
add_drive a drive guest_path m remembered =
    let share = share_of drive (free_port m.shares) in
    let added = record m { hcs = share ∷ m.hcs } in
    if not a.add_share
    then (record { running = some m; remembered = remembered }, add_failed)
    else if not a.mount_share
    then (
      record {
        running =
            some
              (if a.remove_share then record added { hcs = take_away share added.hcs } else added);
        remembered = remembered;
      },
      mount_failed,
    )
    else (
      record {
        running = some (record added {
          shares = insert drive share m.shares;
          mounts = (drive, share.port, nine_p_target a.legacy drive) ∷ m.mounts;
        });
        remembered = if a.save_state then remember_drive drive remembered else remembered;
      },
      info drive guest_path true,
    )

unfoldable pub share_drive : Answers → Bytes → Bytes → Shares → Shares × ShareResult
unfolding add_drive lookup
share_drive a drive guest_path s = elim s.running [
  | none ↦ (s, not_started)
  | some m ↦ elim (lookup drive m.shares) [
    | some share ↦ (s, info drive guest_path false)
    | none ↦ add_drive a drive guest_path m s.remembered
  ]
]

unfoldable pub ensure_share : Answers → Bytes → Shares → Shares × ShareResult
unfolding guest_path_for share_drive
ensure_share a host_path s = elim (guest_path_for host_path) [
  | none ↦ (s, not_shareable)
  | some (drive, guest_path) ↦
      if a.present (host_root_of drive) then share_drive a drive guest_path s else (s, no_drive)
]
