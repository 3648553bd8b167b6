-- ===== src/Solonfs.antt =====
-- crates/solon-agent/src/solonfs.rs: the file system in the machine, which shows the shared drives of
-- Windows. The state is that of `SolonFs`. A path is the list of its components, a name is a
-- single component, as the kernel sends it, and texts are valid UTF-8. An `Instant` is a number
-- of milliseconds, a time of a file a number of nanoseconds from 1970 on.
pub mod Effect
pub mod Fetch
pub mod Handlers
pub mod Write
pub mod Dirs
pub mod Keeps
pub mod KeepsAll
pub mod Tables
pub mod Moves
pub mod Laws
pub mod WriteLaws
pub mod Pages
pub mod Names
pub mod Call
mod Tests
use solon.Base.{
  ℕ, zero, suc, ◌+◌, ◌-◌, ◌*◌, ◌/◌, ◌%◌, ◌^◌, ◌≤◌, ◌<◌, min, max, ◌≡◌, refl, sym, ap, ◌∙◌, ◌≡⟨◌⟩◌,
  ◌∎, ◌≢◌, ◌↔◌, ◌⊎◌, inl, inr, Bool, true, false, not, ◌&&◌, ◌||◌, Option, none, some, List, [],
  ◌∷◌, ◌++◌, append_assoc, append-nil, map, reverse, arith, ltb, leb, ◌==◌, if◌then◌else◌, within,
  ltb→lt, lt→ltb, leb→le, ==_iff, ==_refl, tests, Bool-cases, Option-cases, length, get_elem?, take,
  drop, get_or, any, all, retain, All, replicate, length-append, take-append-drop, length-take,
  length-drop, take-append, drop-append, length-retain, All-append, drop-drop, drop-append_le,
}
use solon.Base.Text.{Bytes, codes, str_eq, contains_byte}
use solon.Base.KeyMap.{FilePath, get, put, del, Eq, nat_eq, path_is_key}
use solon.FileServer.Handle.{
  FsKind, file, dir, symlink, FsAttr, FsEntry, FsStatfs, FsRequest, FsResponse, attr_of, entries,
  content, written, link, statfs_of, success, error,
}

-- What the handlers use of the host and of the clocks: `call`, `Instant::now`,
-- `SystemTime::now`. Each may change the world.
pub data CallResult : Type 0 where
  answer : FsResponse → Bytes → CallResult
  failed : ℕ → CallResult

pub record Host : Type 1 where
  pub World : Type 0
  pub call : World → FsRequest → Bytes → World × CallResult
  pub now : World → World × ℕ
  pub unix_now : World → World × ℕ

abbrev pub cache_ttl : ℕ
cache_ttl = 1500

abbrev pub readahead : ℕ
readahead = 131072

pub data FileType : Type 0 where
  directory symlink_type regular_file : FileType

pub record Cached (A : Type 0) : Type 0 where
  pub value : A
  pub at : ℕ

abbrev pub cached : {A : Type 0} → A → ℕ → Cached A
cached v t = record { value = v; at = t }

pub record SolonFs : Type 0 where
  pub drive : Bytes
  pub inodes : List (ℕ × FilePath)
  pub by_path : List (FilePath × ℕ)
  pub next_ino : ℕ
  pub attrs : List (ℕ × Cached FsAttr)
  pub dirs : List (ℕ × Cached (List (Bytes × ℕ)))
  pub dir_handles : List (ℕ × List (ℕ × FileType × Bytes))
  pub next_fh : ℕ
  pub uid : ℕ
  pub gid : ℕ

-- `SolonFs::new`
unfoldable pub new : Bytes → SolonFs
new drive = record {
  drive = drive;
  inodes = put 1 [] [];
  by_path = put [] 1 [];
  next_ino = 2;
  attrs = [];
  dirs = [];
  dir_handles = [];
  next_fh = 1;
  uid = 0;
  gid = 0;
}

components_text : FilePath → Bytes
components_text [] = []
components_text (c ∷ p) = b'/' ∷ c ++ components_text p

-- The path in the protocol of the inode.
unfoldable pub rel : SolonFs → ℕ → Option Bytes
unfolding components_text
rel fs ino = elim (get ino fs.inodes) [
  | none ↦ none
  | some p ↦ some (fs.drive ++ components_text p)
]

known_ino : SolonFs → FilePath → Option ℕ → SolonFs × ℕ
known_ino fs path (some i) = (fs, i)
known_ino fs path none = (
  record fs {
    next_ino = fs.next_ino + 1;
    inodes = put fs.next_ino path fs.inodes;
    by_path = put path fs.next_ino fs.by_path;
  },
  fs.next_ino,
)

unfoldable pub ino_for : FilePath → SolonFs → SolonFs × ℕ
unfolding known_ino
ino_for path fs = known_ino fs path (get path fs.by_path)

-- `p.join(name)`
abbrev pub join : FilePath → Bytes → FilePath
join p name = p ++ (name ∷ [])

unfoldable pub child_path : SolonFs → ℕ → Bytes → Option FilePath
child_path fs parent name = elim (get parent fs.inodes) [
  | none ↦ none
  | some p ↦ some (join p name)
]

unfoldable pub forget_path : ℕ → SolonFs → SolonFs
forget_path ino fs = record fs { attrs = del ino fs.attrs; dirs = del ino fs.dirs }

abbrev pub forget_dir : ℕ → SolonFs → SolonFs
forget_dir ino fs = record fs { dirs = del ino fs.dirs }

unfoldable pub remember_at : ℕ → FsAttr → ℕ → SolonFs → SolonFs
remember_at ino attr t fs = record fs { attrs = put ino (cached attr t) fs.attrs }

-- `c.at.elapsed() < CACHE_TTL`
abbrev pub is_fresh : {A : Type 0} → ℕ → Cached A → Bool
is_fresh t c = ltb (t - c.at) cache_ttl

unfoldable pub fresh_value : {A : Type 0} → ℕ → Option (Cached A) → Option A
fresh_value t none = none
fresh_value t (some c) = if is_fresh t c then some c.value else none

pub record FileAttr : Type 0 where
  pub ino : ℕ
  pub size : ℕ
  pub blocks : ℕ
  pub atime : ℕ
  pub mtime : ℕ
  pub ctime : ℕ
  pub crtime : ℕ
  pub kind : FileType
  pub perm : ℕ
  pub nlink : ℕ
  pub uid : ℕ
  pub gid : ℕ
  pub rdev : ℕ
  pub blksize : ℕ
  pub flags : ℕ

-- The kind, the permissions and the number of links.
abbrev pub shown_as : FsKind → Bool → FileType × ℕ × ℕ
shown_as dir readonly = (directory, 511, 2)
shown_as symlink readonly = (symlink_type, 511, 1)
shown_as file readonly = (regular_file, (if readonly then 292 else 438), 1)

unfoldable pub to_file_attr : SolonFs → ℕ → FsAttr → FileAttr
to_file_attr fs ino a =
    let as_shown = shown_as a.kind a.readonly in
    record {
      ino = ino;
      size = a.size;
      blocks = (a.size + 511) / 512;
      atime = a.atime_ns;
      mtime = a.mtime_ns;
      ctime = a.ctime_ns;
      crtime = a.ctime_ns;
      kind = as_shown.0;
      perm = as_shown.1;
      nlink = as_shown.2;
      uid = fs.uid;
      gid = fs.gid;
      rdev = 0;
      blksize = 4096;
      flags = 0;
    }

unfoldable pub name_ok : Bytes → Bool
name_ok [] = false
name_ok (a ∷ s) =
    not (str_eq (a ∷ s) (codes "."))
    && not (str_eq (a ∷ s) (codes ".."))
    && not (contains_byte b'/' (a ∷ s) || contains_byte b'\\' (a ∷ s))
