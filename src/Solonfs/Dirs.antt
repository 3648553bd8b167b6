-- ===== src/Solonfs/Dirs.antt =====
-- The operations of `impl Filesystem for SolonFs`, crates/solon-agent/src/solonfs.rs, on open
-- directories, and the choice of the operation.
use solon.Base.{ℕ, ◌+◌, Option, none, some, List, [], ◌∷◌, ◌==◌, if◌then◌else◌, take, drop, all}
use solon.Base.Text.{Bytes, codes}
use solon.Base.KeyMap.{FilePath, get, put, del, nat_eq, path_is_key}
use solon.FileServer.Handle.{file, dir, symlink, FsAttr}
use solon.Solonfs.Effect.{Exec, pure, expect, ◌>>=◌, ◌>>◌}
use solon.Solonfs.{Host, SolonFs, Cached, FileType, directory, symlink_type, regular_file}
use solon.Solonfs.Fetch.{Sys, gets, modify, fetch_dir}
use solon.Solonfs.Handlers.{
  Reply, done, opened, directory_reply, TimeOrNow, lookup_name, get_attr, setattr, read_link,
  make_dir, create_file, unlink_file, remove_dir, rename_file, read_bytes, sync_file, stat_fs,
}
use solon.Solonfs.Write.{write_bytes}

-- An inode, its type and its name.
abbrev pub DirEntry : Type 0
DirEntry = ℕ × FileType × Bytes

-- `p.parent()`
abbrev pub parent_path : FilePath → Option FilePath
parent_path [] = none
parent_path (c ∷ []) = some []
parent_path (c ∷ d ∷ p) = elim (parent_path (d ∷ p)) [ none ↦ none | some q ↦ some (c ∷ q) ]

abbrev pub or_root : Option ℕ → ℕ
or_root none = 1
or_root (some i) = i

unfoldable pub parent_ino : SolonFs → ℕ → ℕ
parent_ino fs ino = or_root (elim (get ino fs.inodes) [
  | none ↦ none
  | some p ↦ elim (parent_path p) [ none ↦ none | some q ↦ get q fs.by_path ]
])

abbrev pub type_of : Option (Cached FsAttr) → FileType
type_of none = regular_file
type_of (some c) = elim c.value.kind [
  | dir ↦ directory
  | symlink ↦ symlink_type
  | file ↦ regular_file
]

unfoldable pub shown_entries : SolonFs → List (Bytes × ℕ) → List DirEntry
shown_entries fs [] = []
shown_entries fs ((name, child) ∷ l) =
    (child, type_of (get child fs.attrs), name) ∷ shown_entries fs l

-- The list that the readings of a handle see.
unfoldable pub snapshot : SolonFs → ℕ → List (Bytes × ℕ) → List DirEntry
unfolding shown_entries parent_ino
snapshot fs ino l =
    (ino, directory, codes ".") ∷ (parent_ino fs ino, directory, codes "..") ∷ shown_entries fs l

-- Each entry with the offset behind it.
unfoldable pub numbered : ℕ → List DirEntry → List (ℕ × ℕ × FileType × Bytes)
numbered i [] = []
numbered i ((child, kind, name) ∷ l) = (child, i + 1, kind, name) ∷ numbered (i + 1) l

module _ (h : Host) where
  unfoldable pub open_dir : Exec (Sys h) Reply
  open_dir = do
    fh ← gets h (λ fs. fs.next_fh)
    modify h (λ fs. record fs { next_fh = fs.next_fh + 1 })
    pure (opened fh)

  unfoldable pub take_snapshot : ℕ → ℕ → Exec (Sys h) Unit
  take_snapshot ino fh = do
    l ← fetch_dir h ino
    modify h (λ fs. record fs { dir_handles = put fh (snapshot fs ino l) fs.dir_handles })

  unfoldable pub renew : ℕ → ℕ → ℕ → Option (List DirEntry) → Exec (Sys h) Unit
  renew ino fh offset none = take_snapshot ino fh
  renew ino fh offset (some l) = if offset == 0 then take_snapshot ino fh else pure tt

  -- `room` is the number of entries that the buffer of the kernel holds.
  unfoldable pub read_dir : ℕ → ℕ → ℕ → ℕ → Exec (Sys h) Reply
  read_dir ino fh offset room = do
    known ← gets h (λ fs. get fh fs.dir_handles)
    renew ino fh offset known
    found ← gets h (λ fs. get fh fs.dir_handles)
    all ← expect 9 found
    pure (directory_reply (take room (drop offset (numbered 0 all))))

  unfoldable pub release_dir : ℕ → Exec (Sys h) Reply
  release_dir fh = do modify h (λ fs. record fs { dir_handles = del fh fs.dir_handles }); pure done

-- The operations that the kernel asks for.
pub data Operation : Type 0 where
  op_lookup op_mkdir op_create op_unlink op_rmdir : ℕ → Bytes → Operation
  op_getattr op_readlink op_fsync op_statfs op_releasedir : ℕ → Operation
  op_setattr : ℕ → Option ℕ → Option TimeOrNow → Option TimeOrNow → Operation
  op_rename : ℕ → Bytes → ℕ → Bytes → Operation
  op_read : ℕ → ℕ → ℕ → Operation
  op_write : ℕ → ℕ → Bytes → Operation
  op_readdir : ℕ → ℕ → ℕ → ℕ → Operation
  op_open op_opendir op_flush op_release op_access : Operation

module _ (h : Host) where
  unfoldable pub serve : Operation → Exec (Sys h) Reply
  serve (op_lookup parent name) = lookup_name h parent name
  serve (op_mkdir parent name) = make_dir h parent name
  serve (op_create parent name) = create_file h parent name
  serve (op_unlink parent name) = unlink_file h parent name
  serve (op_rmdir parent name) = remove_dir h parent name
  serve (op_getattr ino) = get_attr h ino
  serve (op_readlink ino) = read_link h ino
  serve (op_fsync ino) = sync_file h ino
  serve (op_statfs ino) = stat_fs h ino
  serve (op_releasedir fh) = release_dir h fh
  serve (op_setattr ino size atime mtime) = setattr h ino size atime mtime
  serve (op_rename parent name newparent newname) = rename_file h parent name newparent newname
  serve (op_read ino offset size) = read_bytes h ino offset size
  serve (op_write ino offset payload) = write_bytes h ino offset payload
  serve (op_readdir ino fh offset room) = read_dir h ino fh offset room
  serve op_open = pure (opened 0)
  serve op_opendir = open_dir h
  serve op_flush = pure done
  serve op_release = pure done
  serve op_access = pure done
