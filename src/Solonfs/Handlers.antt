-- ===== src/Solonfs/Handlers.antt =====
-- The operations of `impl Filesystem for SolonFs`, crates/solon-agent/src/solonfs.rs, on files and
-- names. The arguments that an operation does not look at are left out.
use solon.Base.{
  ◌-◌, ltb, if◌then◌else◌, ◌^◌, ◌%◌, ℕ, zero, suc, ◌/◌, min, max, Bool, true, false, not, ◌&&◌,
  Option, none, some, List, [], length, take, any,
}
use solon.Base.Text.{Bytes, str_eq, to_ascii_lowercase}
use solon.Base.KeyMap.{FilePath, get, put, del, nat_eq, path_is_key}
use solon.FileServer.Frame.{fs_max_io}
use solon.FileServer.Handle.{
  negsuc, pos, ℤ, FsAttr, FsStatfs, FsRequest, FsResponse, lookup_in, create, mkdir, unlink, rmdir,
  fsync, statfs, readlink, read_from, rename, truncate, set_times, content, written, link,
  statfs_of, error,
}
use solon.Solonfs.Effect.{Exec, HandlerResult, ok, err, pure, raise, expect, ◌>>=◌, ◌>>◌}
use solon.Solonfs.{
  Host, SolonFs, rel, child_path, forget_path, forget_dir, FileAttr, FileType, to_file_attr,
  name_ok, readahead,
}
use solon.Solonfs.Fetch.{
  Sys, call, unix_now, gets, modify, lift, ino_of, remember_attr, cached_attr, cached_dir, path_of,
  fetch_attr, simple, expect_attr,
}

-- A number of nanoseconds `as i64`, which wraps around.
abbrev pub as_i64 : ℕ → ℤ
as_i64 n = let k = n % 2 ^ 64 in if ltb k (2 ^ 63) then pos k else negsuc (2 ^ 64 - 1 - k)

-- fuser::TimeOrNow; a moment before 1970 is told apart.
pub data TimeOrNow : Type 0 where
  specific_time : ℕ → TimeOrNow
  before_epoch now_time : TimeOrNow

pub data Reply : Type 0 where
  entry created attr : FileAttr → Reply
  bytes : Bytes → Reply
  statfs_reply : FsStatfs → Reply
  written_reply : ℕ → Reply
  opened : ℕ → Reply
  directory_reply : List (ℕ × ℕ × FileType × Bytes) → Reply
  done : Reply

-- statfs.total_bytes / bs, statfs.free_bytes / bs
abbrev pub in_blocks : FsStatfs → FsStatfs
in_blocks s = record { total_bytes = s.total_bytes / 4096; free_bytes = s.free_bytes / 4096 }

abbrev pub expect_link : FsResponse → HandlerResult Bytes
expect_link (link t) = ok t
expect_link (error e) = err e
expect_link _ = err 5

abbrev pub expect_content : FsResponse × Bytes → HandlerResult Bytes
expect_content (content, payload) = ok payload
expect_content (error e, payload) = err e
expect_content _ = err 5

-- Nothing written without an error: the disk is full.
abbrev pub expect_written : FsResponse → HandlerResult ℕ
expect_written (written zero) = err 28
expect_written (written (suc n)) = ok (suc n)
expect_written (error e) = err e
expect_written _ = err 5

abbrev pub expect_statfs : FsResponse → HandlerResult FsStatfs
expect_statfs (statfs_of s) = ok s
expect_statfs (error e) = err e
expect_statfs _ = err 5

-- `en.eq_ignore_ascii_case(&n)`
unfoldable pub eq_ignore_case : Bytes → Bytes → Bool
eq_ignore_case a b = str_eq (to_ascii_lowercase a) (to_ascii_lowercase b)

-- A fresh list of the parent in which no name is this one.
abbrev pub is_absent : Bytes → Option (List (Bytes × ℕ)) → Bool
is_absent name none = false
is_absent name (some l) = not (any (λ c. eq_ignore_case c.0 name) l)

abbrev pub or_none : Option Bytes → Bytes
or_none none = []
or_none (some s) = s

-- `self.rel(ino).or_else(|| self.rel(1)).unwrap_or_default()`
unfoldable pub statfs_path : SolonFs → ℕ → Bytes
statfs_path fs ino = elim (rel fs ino) [ some p ↦ p | none ↦ or_none (rel fs 1) ]

-- The name of what was there before is forgotten.
abbrev pub drop_old : Option ℕ → SolonFs → SolonFs
drop_old none fs = fs
drop_old (some old) fs = record fs { inodes = del old fs.inodes; attrs = del old fs.attrs }

-- The inode follows the file.
unfoldable pub move_paths : FilePath → FilePath → ℕ → SolonFs → SolonFs
move_paths from_p to_p ino fs =
    let fs1 = record fs { by_path = del from_p fs.by_path } in
    let fs2 = drop_old (get to_p fs1.by_path) (record fs1 { by_path = del to_p fs1.by_path }) in
    record fs2 {
      inodes = put ino to_p fs2.inodes;
      by_path = put to_p ino fs2.by_path;
      attrs = del ino fs2.attrs;
    }

module _ (h : Host) where
  unfoldable pub guard : Bool → ℕ → Exec (Sys h) Unit
  guard true e = pure tt
  guard false e = raise e

  abbrev pub child_of : ℕ → Bytes → Exec (Sys h) FilePath
  child_of parent name = do p ← gets h (λ fs. child_path fs parent name); expect 2 p

  abbrev pub entry_of : ℕ → FsAttr → Exec (Sys h) Reply
  entry_of ino a = gets h (λ fs. entry (to_file_attr fs ino a))

  unfoldable pub ask_host : ℕ → ℕ → Bytes → Exec (Sys h) Reply
  ask_host ino parent name = do
    parent_rel ← path_of h parent
    r ← call h (lookup_in parent_rel name) []
    a ← lift h (expect_attr r.0)
    remember_attr h ino a
    entry_of ino a

  unfoldable pub look_further : ℕ → ℕ → Bytes → Option FsAttr → Exec (Sys h) Reply
  look_further ino parent name (some a) = entry_of ino a
  look_further ino parent name none = do
    list ← cached_dir h parent
    guard (not (is_absent name list)) 2
    ask_host ino parent name

  unfoldable pub lookup_name : ℕ → Bytes → Exec (Sys h) Reply
  unfolding look_further
  lookup_name parent name = do
    guard (name_ok name) 2
    path ← child_of parent name
    ino ← ino_of h path
    known ← cached_attr h ino
    look_further ino parent name known

  abbrev pub attr_reply : ℕ → FsAttr → Exec (Sys h) Reply
  attr_reply ino a = gets h (λ fs. attr (to_file_attr fs ino a))

  unfoldable pub get_attr : ℕ → Exec (Sys h) Reply
  get_attr ino = do a ← fetch_attr h ino; attr_reply ino a

  unfoldable pub set_size : Bytes → Option ℕ → Exec (Sys h) Unit
  set_size path none = pure tt
  set_size path (some size) = simple h (truncate path size)

  -- `to_ns`
  unfoldable pub to_ns : Option TimeOrNow → Exec (Sys h) (Option ℤ)
  to_ns none = pure none
  to_ns (some (specific_time n)) = pure (some (as_i64 n))
  to_ns (some before_epoch) = pure (some (pos 0))
  to_ns (some now_time) = do t ← unix_now h; pure (some (as_i64 t))

  unfoldable pub set_both : Bytes → Option TimeOrNow → Option TimeOrNow → Exec (Sys h) Unit
  set_both path atime mtime = do m ← to_ns mtime; a ← to_ns atime; simple h (set_times path m a)

  unfoldable pub set_the_times : Bytes → Option TimeOrNow → Option TimeOrNow → Exec (Sys h) Unit
  set_the_times path none none = pure tt
  set_the_times path (some a) mtime = set_both path (some a) mtime
  set_the_times path none (some m) = set_both path none (some m)

  unfoldable pub setattr : ℕ → Option ℕ → Option TimeOrNow → Option TimeOrNow → Exec (Sys h) Reply
  setattr ino size atime mtime = do
    path ← path_of h ino
    set_size path size
    set_the_times path atime mtime
    modify h (forget_path ino)
    a ← fetch_attr h ino
    attr_reply ino a

  unfoldable pub read_link : ℕ → Exec (Sys h) Reply
  read_link ino = do
    path ← path_of h ino
    r ← call h (readlink path) []
    target ← lift h (expect_link r.0)
    pure (bytes target)

  -- The part that `mkdir` and `create` share, up to the request.
  unfoldable pub new_child : ℕ → Bytes → Exec (Sys h) (ℕ × Bytes)
  new_child parent name = do
    guard (name_ok name) 22
    p ← child_of parent name
    ino ← ino_of h p
    path ← path_of h ino
    pure (ino, path)

  unfoldable pub add_child : ℕ → ℕ → FsRequest → Exec (Sys h) FsAttr
  add_child parent ino req = do
    r ← call h req []
    a ← lift h (expect_attr r.0)
    modify h (forget_dir parent)
    remember_attr h ino a
    pure a

  unfoldable pub make_dir : ℕ → Bytes → Exec (Sys h) Reply
  unfolding new_child add_child
  make_dir parent name = do
    child ← new_child parent name
    a ← add_child parent child.0 (mkdir child.1)
    entry_of child.0 a

  unfoldable pub create_file : ℕ → Bytes → Exec (Sys h) Reply
  unfolding new_child add_child
  create_file parent name = do
    child ← new_child parent name
    a ← add_child parent child.0 (create child.1)
    gets h (λ fs. created (to_file_attr fs child.0 a))

  -- `unlink` and `rmdir` differ in their request only.
  unfoldable pub remove_child : (Bytes → FsRequest) → ℕ → Bytes → Exec (Sys h) Reply
  remove_child req parent name = do
    p ← child_of parent name
    ino ← ino_of h p
    path ← path_of h ino
    simple h (req path)
    modify h (forget_path ino)
    modify h (forget_dir parent)
    pure done

  unfoldable pub unlink_file : ℕ → Bytes → Exec (Sys h) Reply
  unfolding remove_child
  unlink_file = remove_child unlink

  unfoldable pub remove_dir : ℕ → Bytes → Exec (Sys h) Reply
  unfolding remove_child
  remove_dir = remove_child rmdir

  -- The request of a rename; a path that has no inode gets one.
  unfoldable pub ask_rename : ℕ → FilePath → Exec (Sys h) Unit
  ask_rename from_ino to_p = do
    from ← gets h (λ fs. rel fs from_ino)
    i ← ino_of h to_p
    to ← path_of h i
    from' ← expect 2 from
    simple h (rename from' to)

  unfoldable pub forget_both : ℕ → ℕ → Exec (Sys h) Reply
  forget_both parent newparent = do
    modify h (forget_dir parent)
    modify h (forget_dir newparent)
    pure done

  unfoldable pub rename_paths : ℕ → ℕ → FilePath → FilePath → Exec (Sys h) Reply
  unfolding ask_rename move_paths forget_both
  rename_paths parent newparent from_p to_p = do
    from_ino ← ino_of h from_p
    ask_rename from_ino to_p
    modify h (move_paths from_p to_p from_ino)
    forget_both parent newparent

  unfoldable pub rename_file : ℕ → Bytes → ℕ → Bytes → Exec (Sys h) Reply
  unfolding rename_paths
  rename_file parent name newparent newname = do
    guard (name_ok name && name_ok newname) 22
    from_p ← child_of parent name
    to_p ← child_of newparent newname
    rename_paths parent newparent from_p to_p

  -- At least 128 KiB are asked for, at most the limit of the protocol.
  unfoldable pub read_bytes : ℕ → ℕ → ℕ → Exec (Sys h) Reply
  read_bytes ino offset size = do
    path ← path_of h ino
    r ← call h (read_from path offset (min (max size readahead) fs_max_io)) []
    payload ← lift h (expect_content r)
    pure (bytes (take (min size (length payload)) payload))

  unfoldable pub sync_file : ℕ → Exec (Sys h) Reply
  sync_file ino = do path ← path_of h ino; simple h (fsync path); pure done

  unfoldable pub stat_fs : ℕ → Exec (Sys h) Reply
  unfolding statfs_path
  stat_fs ino = do
    path ← gets h (λ fs. statfs_path fs ino)
    r ← call h (statfs path) []
    s ← lift h (expect_statfs r.0)
    pure (statfs_reply (in_blocks s))
