-- ===== src/Engine.antt =====
-- crates/solon-service/src/engine.rs: the drives that are shared with the machine, and the translation
-- of a path on them, `guest_path_for` of crates/solon-core/src/ipc.rs.
pub mod Shares
pub mod PortLaws
pub mod FailureLaws
mod Tests
use solon.Base.{
  ℕ, zero, suc, ◌+◌, ◌-◌, ◌≤◌, ◌≡◌, Bool, true, false, not, ◌&&◌, ◌||◌, Option, none, some, List,
  [], ◌∷◌, ◌++◌, arith, ◌==◌, if◌then◌else◌, within, length, drop, any, map, retain,
}
use mathlib.Core.Option
use solon.Base.Text.{
  Bytes, codes, trim, starts_with, lower_byte, is_ascii_alphabetic, trim_start_byte, str_eq,
  mem_str,
}
use solon.Base.Map.{Map, lookup, insert}

-- `trim_start_matches(r"\\?\")`; the length of the text is fuel enough, a prefix has four bytes
strip_verbatim : ℕ → Bytes → Bytes
unfolding starts_with
strip_verbatim zero s = s
strip_verbatim (suc f) s =
    let rest = strip_verbatim f (drop 4 s) in if starts_with (codes "\\\\?\\") s then rest else s

abbrev to_slash : ℕ → ℕ
to_slash c = if c == b'\\' then b'/' else c

abbrev guest_under : Bytes → Bytes → Bytes
guest_under drive [] = codes "/mnt/host/" ++ drive
guest_under drive (c ∷ s) = codes "/mnt/host/" ++ drive ++ (b'/' ∷ c ∷ s)

abbrev drive_path : Bytes → Option (Bytes × Bytes)
drive_path (letter ∷ colon ∷ s) =
    let drive = lower_byte letter ∷ [] in
    if is_ascii_alphabetic (lower_byte letter) && colon == b':'
    then some (drive, guest_under drive (trim_start_byte b'/' (map to_slash s)))
    else none
drive_path _ = none

unfoldable pub guest_path_for : Bytes → Option (Bytes × Bytes)
unfolding strip_verbatim trim is_ascii_alphabetic lower_byte trim_start_byte
guest_path_for host_path = let t = trim host_path in drive_path (strip_verbatim (length t) t)

-- `to_ascii_uppercase`
unfoldable pub to_ascii_uppercase : Bytes → Bytes
to_ascii_uppercase [] = []
to_ascii_uppercase (c ∷ s) = (if within b'a' b'z' c then c - 32 else c) ∷ to_ascii_uppercase s

-- The root of a drive on the host.
unfoldable pub host_root_of : Bytes → Bytes
unfolding to_ascii_uppercase
host_root_of drive = to_ascii_uppercase drive ++ codes ":\\"

pub record HostShare : Type 0 where
  pub name : Bytes
  pub host_path : Bytes
  pub port : ℕ
  pub read_only : Bool

pub record ShareInfo : Type 0 where
  pub drive : Bytes
  pub host_root : Bytes
  pub guest_root : Bytes
  pub guest_path : Bytes
  pub mounted_now : Bool
