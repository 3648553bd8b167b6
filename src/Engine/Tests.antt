-- ===== src/Engine/Tests.antt =====
-- The shares of a machine with two drives.
use solon.Base.{map, ℕ, List, Option, ◌≡◌, refl, Bool, true, false, none, some, [], ◌∷◌}
use solon.Base.Text.{str_eq, Bytes, codes}
use solon.Base.Map.{lookup, remove}
use solon.Engine.{guest_path_for}
use solon.Engine.Shares.{Machine, Shares, Answers, boot_shares, shares_by_name, ensure_share}
use solon.Engine.PortLaws.{IsWellShared, boot_shares-IsWellShared}
use solon.Engine.FailureLaws.{IsSound, ensure_share-IsSound}

a_path : guest_path_for (codes "C:\\Users\\me") ≡ some (codes "c", codes "/mnt/host/c/Users/me")
unfolding guest_path_for
a_path = refl

no_path : guest_path_for (codes "/tmp") ≡ none
unfolding guest_path_for
no_path = refl

abbrev all_there : Bytes → Bool
all_there root = true

boot_shares-IsWellShared_example :
    IsWellShared
      (shares_by_name (boot_shares all_there (codes "c" ∷ codes "d" ∷ codes "c" ∷ [])) [])
boot_shares-IsWellShared_example =
    boot_shares-IsWellShared all_there (codes "c" ∷ codes "d" ∷ codes "c" ∷ [])

abbrev two_drives : Shares
two_drives = record {
  running = some (record {
    shares = shares_by_name (boot_shares all_there (codes "c" ∷ codes "d" ∷ [])) [];
    hcs = boot_shares all_there (codes "c" ∷ codes "d" ∷ []);
    mounts = [];
  });
  remembered = codes "c" ∷ codes "d" ∷ [];
}

two_drives-IsSound : IsSound two_drives
unfolding boot_shares lookup shares_by_name str_eq remove
two_drives-IsSound = record {
  shares = boot_shares-IsWellShared all_there (codes "c" ∷ codes "d" ∷ []);
  in_hcs = (refl, (refl, tt));
}

abbrev all_well : Answers
all_well = record {
  present = all_there;
  legacy = false;
  add_share = true;
  mount_share = true;
  remove_share = true;
  save_state = true;
}

ensure_share-IsSound_example : IsSound (ensure_share all_well (codes "E:\\data") two_drives).0
ensure_share-IsSound_example =
    ensure_share-IsSound all_well (codes "E:\\data") two_drives refl two_drives-IsSound

abbrev ports_in : Option Machine → List ℕ
ports_in none = []
ports_in (some m) = map (λ t. t.port) m.hcs

-- Where the hypervisor keeps a share whose mount failed, the next drive has the same port there.
one_port_twice :
    ports_in
      (ensure_share all_well
        (codes "F:\\")
        (ensure_share
          (record all_well { mount_share = false; remove_share = false })
          (codes "E:\\")
          two_drives).0).0.running
    ≡ 9102 ∷ 9102 ∷ 9100 ∷ 9101 ∷ []
unfolding ensure_share shares_by_name boot_shares remove
one_port_twice = refl
