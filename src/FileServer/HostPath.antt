-- ===== src/FileServer/HostPath.antt =====
-- `host_path`: the Windows path that a path of the protocol stands for. A path of Windows is its text.
use solon.Base.{
  ℕ, ◌-◌, ◌≡◌, refl, Bool, true, false, not, ◌&&◌, ◌||◌, Option, none, some, List, [], ◌∷◌, arith,
  ◌==◌, if◌then◌else◌, within, any,
}
use solon.Base.Text.{
  Bytes, codes, str_eq, split, split_once, trim_start_byte, trim_end_byte, is_ascii_alphabetic,
  to_ascii_lowercase, starts_with,
}

pub data HostPath : Type 0 where
  ok : Bytes → HostPath
  denied : ℕ → HostPath

-- `to_ascii_uppercase`
abbrev pub upper_byte : ℕ → ℕ
upper_byte c = if within b'a' b'z' c then c - 32 else c

-- `rest.replace('/', "\\")`
unfoldable pub to_backslashes : Bytes → Bytes
to_backslashes [] = []
to_backslashes (a ∷ s) = (if a == b'/' then b'\\' else a) ∷ to_backslashes s

abbrev pub is_special : Bytes → Bool
is_special s = str_eq s (codes "..") || str_eq s (codes ".")

-- `d.eq_ignore_ascii_case(&drive)` for some `d`
unfoldable pub is_shared : List Bytes → ℕ → Bool
unfolding any str_eq to_ascii_lowercase
is_shared shared drive =
    any (λ d. str_eq (to_ascii_lowercase d) (to_ascii_lowercase (drive ∷ []))) shared

abbrev pub has_disk : Bytes → Bool
has_disk (a ∷ b ∷ _) = is_ascii_alphabetic a && b == b':'
has_disk _ = false

or_whole : Bytes → Option (Bytes × Bytes) → Bytes × Bytes
or_whole rel none = (rel, [])
or_whole rel (some r) = r

-- Which texts with two backslashes in front have a prefix (a server and its share, or a device), as
-- the standard library reads them.
module _ (is_unc : Bytes → Bool) where
  -- `PathBuf::push` on the root of a drive: a path with a prefix of its own takes the place of the
  -- whole, one with only a root keeps the drive.
  unfoldable pub push_path : ℕ → Bytes → Bytes
  unfolding starts_with is_ascii_alphabetic
  push_path drive s =
      if has_disk s
      then s
      else if starts_with (codes "\\\\") s && is_unc s
      then s
      else if starts_with (codes "\\") s
      then drive ∷ b':' ∷ s
      else drive ∷ b':' ∷ b'\\' ∷ s

  pushed : ℕ → Bytes → Bytes
  pushed drive [] = drive ∷ b':' ∷ b'\\' ∷ []
  pushed drive (a ∷ s) = push_path drive (to_backslashes (a ∷ s))

  -- the drive letter is known to be one, and `rest` is what follows it
  unfoldable pub on_drive : List Bytes → ℕ → Bytes → HostPath
  unfolding pushed
  on_drive shared drive rest =
      if not (is_shared shared drive)
      then denied 13
      else if any is_special (split b'/' rest)
      then denied 22
      else ok (pushed (upper_byte drive) rest)

  drive_of : List Bytes → Bytes × Bytes → HostPath
  unfolding on_drive is_ascii_alphabetic
  drive_of shared (c ∷ [], rest) =
      if is_ascii_alphabetic c then on_drive shared c rest else denied 2
  drive_of shared (_, rest) = denied 2

  unfoldable pub host_path : List Bytes → Bytes → HostPath
  unfolding drive_of split_once trim_start_byte trim_end_byte or_whole
  host_path shared rel =
      let trimmed = trim_end_byte b'/' (trim_start_byte b'/' rel) in
      drive_of shared (or_whole trimmed (split_once b'/' trimmed))

letter-ne-slash : (c : ℕ) → is_ascii_alphabetic c ≡ true → (c == b'/') ≡ false
unfolding is_ascii_alphabetic
letter-ne-slash c h = ground arith

has_disk-to_backslashes : (s : Bytes) → has_disk (to_backslashes s) ≡ has_disk s
unfolding to_backslashes is_ascii_alphabetic
has_disk-to_backslashes [] = refl
has_disk-to_backslashes (a ∷ []) = refl
has_disk-to_backslashes (a ∷ b ∷ s) = ground arith

no_root :
    (s : Bytes)
    → starts_with (codes "/") s ≡ false
    → starts_with (codes "\\") s ≡ false
    → starts_with (codes "\\") (to_backslashes s) ≡ false
unfolding starts_with to_backslashes
no_root [] h k = refl
no_root (a ∷ s) h k = ground arith

no_double_root :
    (s : Bytes) → starts_with (codes "\\") s ≡ false → starts_with (codes "\\\\") s ≡ false
unfolding starts_with
no_double_root [] h = refl
no_double_root (a ∷ []) h = ground arith
no_double_root (a ∷ b ∷ s) h = ground arith

module _ (is_unc : Bytes → Bool) where
  -- A path that begins with a drive letter and a slash, and ends with no slash.
  host_path-on_drive :
      (shared : List Bytes) (c : ℕ) (rest : Bytes)
      → is_ascii_alphabetic c ≡ true
      → trim_end_byte b'/' (c ∷ b'/' ∷ rest) ≡ c ∷ b'/' ∷ rest
      → host_path is_unc shared (c ∷ b'/' ∷ rest) ≡ on_drive is_unc shared c rest
  unfolding host_path trim_start_byte split_once
  host_path-on_drive shared c rest h t = rw (letter-ne-slash c h, t, letter-ne-slash c h) (rw h)

  pushed-inside :
      (drive : ℕ) (rest : Bytes)
      → has_disk rest ≡ false
      → starts_with (codes "/") rest ≡ false
      → starts_with (codes "\\") rest ≡ false
      → pushed is_unc drive rest ≡ drive ∷ b':' ∷ b'\\' ∷ to_backslashes rest
  unfolding pushed push_path
  pushed-inside drive [] d s b = unfold to_backslashes in refl
  pushed-inside drive (a ∷ rest) d s b = rw (
    has_disk-to_backslashes (a ∷ rest),
    d,
    no_double_root (to_backslashes (a ∷ rest)) (no_root (a ∷ rest) s b),
    no_root (a ∷ rest) s b,
  )

  pushed-drive :
      (u drive : ℕ) (tail : Bytes)
      → is_ascii_alphabetic drive ≡ true
      → pushed is_unc u (drive ∷ b':' ∷ tail) ≡ drive ∷ b':' ∷ to_backslashes tail
  unfolding pushed push_path to_backslashes
  pushed-drive u drive tail h = rw (letter-ne-slash drive h, h)

  -- A path on a drive, whose part on the drive begins with no slash, no backslash and no drive of its
  -- own, is refused with EACCES when the drive is not shared, with EINVAL when it has a segment
  -- `.` or `..`, and otherwise leads below the root of that drive.
  pub host_path_inside :
      (shared : List Bytes) (c : ℕ) (rest : Bytes)
      → is_ascii_alphabetic c ≡ true
      → trim_end_byte b'/' (c ∷ b'/' ∷ rest) ≡ c ∷ b'/' ∷ rest
      → has_disk rest ≡ false
      → starts_with (codes "/") rest ≡ false
      → starts_with (codes "\\") rest ≡ false
      → host_path is_unc shared (c ∷ b'/' ∷ rest) ≡ (
          if not (is_shared shared c)
          then denied 13
          else if any is_special (split b'/' rest)
          then denied 22
          else ok (upper_byte c ∷ b':' ∷ b'\\' ∷ to_backslashes rest))
  host_path_inside shared c rest h t d s b =
      rw (host_path-on_drive shared c rest h t)
        (unfold on_drive in rw (pushed-inside (upper_byte c) rest d s b))

  -- On a drive that is shared, a part without special segments and without a slash at its end, which
  -- begins with another drive, leads to that drive, be it shared or not.
  pub host_path_escapes :
      (shared : List Bytes) (c drive : ℕ) (tail : Bytes)
      → is_ascii_alphabetic c ≡ true
      → is_ascii_alphabetic drive ≡ true
      → is_shared shared c ≡ true
      → any is_special (split b'/' (drive ∷ b':' ∷ tail)) ≡ false
      → trim_end_byte b'/' (c ∷ b'/' ∷ drive ∷ b':' ∷ tail) ≡ c ∷ b'/' ∷ drive ∷ b':' ∷ tail
      → host_path is_unc shared (c ∷ b'/' ∷ drive ∷ b':' ∷ tail)
        ≡ ok (drive ∷ b':' ∷ to_backslashes tail)
  host_path_escapes shared c drive tail h d s n t =
      rw (host_path-on_drive shared c (drive ∷ b':' ∷ tail) h t)
        (unfold on_drive in rw (s, n, pushed-drive (upper_byte c) drive tail d))
