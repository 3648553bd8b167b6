-- ===== src/FileServer/Handle.antt =====
-- `handle`: one request of the guest. The file system is the argument, and so are `host_path` and the
-- text of a link; a moment is a number of nanoseconds.
use solon.Base.{ℕ, min, Bool, ◌||◌, Option, none, some, List, [], ◌∷◌, ◌==◌, if◌then◌else◌}
use mathlib.Core.Option
use solon.Base.Text.{Bytes, codes, str_eq, contains_byte}
use solon.FileServer.Frame.{fs_max_io}
use solon.FileServer.HostPath.{HostPath, ok, denied}

-- io::ErrorKind, as far as `errno_for` tells the kinds apart
pub data ErrorKind : Type 0 where
  not_found permission_denied already_exists invalid_input directory_not_empty is_a_directory :
      ErrorKind
  not_a_directory read_only_filesystem storage_full other : ErrorKind

pub record IoError : Type 0 where
  pub kind : ErrorKind
  pub raw_os : Option ℕ

errno_for_os : Option ℕ → ℕ
errno_for_os none = 5
errno_for_os (some n) =
    if n == 32 || n == 33 then 16 else if n == 145 then 39 else if n == 267 then 20 else 5

unfoldable pub errno_for : ErrorKind → Option ℕ → ℕ
unfolding errno_for_os
errno_for not_found _ = 2
errno_for permission_denied _ = 13
errno_for already_exists _ = 17
errno_for invalid_input _ = 22
errno_for directory_not_empty _ = 39
errno_for is_a_directory _ = 21
errno_for not_a_directory _ = 20
errno_for read_only_filesystem _ = 30
errno_for storage_full _ = 28
errno_for other raw_os = errno_for_os raw_os

pub data FsKind : Type 0 where
  file dir symlink : FsKind

pub record FsAttr : Type 0 where
  pub kind : FsKind
  pub size : ℕ
  pub mtime_ns : ℕ
  pub atime_ns : ℕ
  pub ctime_ns : ℕ
  pub readonly : Bool

pub record FsEntry : Type 0 where
  pub name : Bytes
  pub attr : FsAttr

pub record FsStatfs : Type 0 where
  pub total_bytes : ℕ
  pub free_bytes : ℕ

-- A moment of the guest, an `i64`: `pos n` is n nanoseconds behind the epoch, `negsuc n` is n + 1 before.
pub data ℤ : Type 0 where
  pos negsuc : ℕ → ℤ

-- `m.max(0) as u64`
abbrev pub since_epoch : ℤ → ℕ
since_epoch (pos n) = n
since_epoch (negsuc n) = 0

pub data FsRequest : Type 0 where
  lookup_in : Bytes → Bytes → FsRequest
  getattr readdir create mkdir unlink rmdir fsync statfs readlink : Bytes → FsRequest
  read_from : Bytes → ℕ → ℕ → FsRequest
  write_to : Bytes → ℕ → FsRequest
  rename : Bytes → Bytes → FsRequest
  truncate : Bytes → ℕ → FsRequest
  set_times : Bytes → Option ℤ → Option ℤ → FsRequest

pub data FsResponse : Type 0 where
  attr_of : FsAttr → FsResponse
  entries : List FsEntry → FsResponse
  content : FsResponse
  written : ℕ → FsResponse
  link : Bytes → FsResponse
  statfs_of : FsStatfs → FsResponse
  success : FsResponse
  error : ℕ → FsResponse

pub data IoResult (A : Type 0) : Type 0 where
  done : A → IoResult A
  failed : IoError → IoResult A

-- What the server asks of the file system of Windows. Times that are set are what `set_times` is
-- told: nothing for one that is not.
pub record FileSystem : Type 1 where
  pub State : Type 0
  pub symlink_metadata : State → Bytes → IoResult FsAttr
  pub join : Bytes → Bytes → Bytes
  pub read_dir : State → Bytes → IoResult (List FsEntry)
  pub read_at : State → Bytes → ℕ → ℕ → IoResult Bytes
  pub write_at : State → Bytes → ℕ → Bytes → State × IoResult ℕ
  pub create_new : State → Bytes → State × IoResult Unit
  pub create_dir : State → Bytes → State × IoResult Unit
  pub remove_file : State → Bytes → State × IoResult Unit
  pub remove_dir : State → Bytes → State × IoResult Unit
  pub is_file : State → Bytes → Bool
  pub rename : State → Bytes → Bytes → State × IoResult Unit
  pub set_len : State → Bytes → ℕ → State × IoResult Unit
  pub open_write : State → Bytes → Bool
  pub set_times : State → Bytes → Option ℕ → Option ℕ → State × IoResult Unit
  pub sync : State → Bytes → State
  pub disk_space : State → Bytes → Option FsStatfs
  pub read_link : State → Bytes → IoResult Bytes

-- target.to_string_lossy().replace('\\', "/")
unfoldable pub link_text : Bytes → Bytes
link_text [] = []
link_text (a ∷ s) = (if a == b'\\' then b'/' else a) ∷ link_text s

abbrev pub err : IoError → FsResponse
err e = error (errno_for e.kind e.raw_os)

abbrev pub respond : {A : Type 0} → (A → FsResponse) → IoResult A → FsResponse
respond f (done a) = f a
respond f (failed e) = err e

abbrev pub is_bad_name : Bytes → Bool
is_bad_name name =
    contains_byte b'/' name
    || contains_byte b'\\' name
    || str_eq name (codes "..")
    || str_eq name (codes ".")

module _ (fs : FileSystem) where
  abbrev pub Answer : Type 0
  Answer = fs.State × FsResponse × Bytes

  abbrev pub without_data : fs.State × FsResponse → Answer
  without_data (st, r) = (st, r, [])

  abbrev pub answer_unit : fs.State × IoResult Unit → fs.State × FsResponse
  answer_unit (st, r) = (st, respond (λ u. success) r)

  -- the attributes of what was made
  abbrev pub made : Bytes → fs.State × IoResult Unit → fs.State × FsResponse
  made p (st, done u) = (st, respond attr_of (fs.symlink_metadata st p))
  made p (st, failed e) = (st, err e)

  abbrev pub data_read : fs.State → IoResult Bytes → Answer
  data_read st (done bytes) = (st, content, bytes)
  data_read st (failed e) = (st, err e, [])

  abbrev pub data_written : fs.State × IoResult ℕ → fs.State × FsResponse
  data_written (st, r) = (st, respond written r)

  -- A file in the place of the target is removed first, whatever comes of it.
  unfoldable pub rename_over : fs.State → Bytes → Bytes → fs.State × FsResponse
  rename_over st a b =
      let st' = if fs.is_file st b then (fs.remove_file st b).0 else st in
      answer_unit (fs.rename st' a b)

  abbrev pub times_set : fs.State → Bytes → Option ℤ → Option ℤ → fs.State × FsResponse
  times_set st p mtime atime =
      if fs.open_write st p
      then answer_unit
          (fs.set_times st p (Option.map since_epoch mtime) (Option.map since_epoch atime))
      else (st, success)

  abbrev pub space : Option FsStatfs → FsResponse
  space none = error 5
  space (some s) = statfs_of s

  abbrev pub run_at : fs.State → HostPath → (Bytes → Answer) → Answer
  run_at st (ok p) run = run p
  run_at st (denied errno) run = (st, error errno, [])

  module _ (host_path : Bytes → HostPath) (st : fs.State) where
    abbrev pub at_path : Bytes → (Bytes → Answer) → Answer
    at_path path run = run_at st (host_path path) run

    abbrev pub both_paths : HostPath → HostPath → Answer
    both_paths (ok a) (ok b) = without_data (rename_over st a b)
    both_paths (denied errno) _ = (st, error errno, [])
    both_paths (ok _) (denied errno) = (st, error errno, [])

    unfoldable pub handle : FsRequest → Bytes → Answer
    unfolding contains_byte str_eq
    handle (lookup_in parent name) payload =
        if is_bad_name name
        then (st, error 22, [])
        else at_path parent
            (λ p. (st, respond attr_of (fs.symlink_metadata st (fs.join p name)), []))
    handle (getattr path) payload =
        at_path path (λ p. (st, respond attr_of (fs.symlink_metadata st p), []))
    handle (readdir path) payload = at_path path (λ p. (st, respond entries (fs.read_dir st p), []))
    handle (read_from path offset len) payload =
        at_path path (λ p. data_read st (fs.read_at st p offset (min len fs_max_io)))
    handle (write_to path offset) payload =
        at_path path (λ p. without_data (data_written (fs.write_at st p offset payload)))
    handle (create path) payload = at_path path (λ p. without_data (made p (fs.create_new st p)))
    handle (mkdir path) payload = at_path path (λ p. without_data (made p (fs.create_dir st p)))
    handle (unlink path) payload =
        at_path path (λ p. without_data (answer_unit (fs.remove_file st p)))
    handle (rmdir path) payload =
        at_path path (λ p. without_data (answer_unit (fs.remove_dir st p)))
    handle (rename from to) payload = both_paths (host_path from) (host_path to)
    handle (truncate path size) payload =
        at_path path (λ p. without_data (answer_unit (fs.set_len st p size)))
    handle (set_times path mtime atime) payload =
        at_path path (λ p. without_data (times_set st p mtime atime))
    handle (fsync path) payload = at_path path (λ p. (fs.sync st p, success, []))
    handle (statfs path) payload = at_path path (λ p. (st, space (fs.disk_space st p), []))
    handle (readlink path) payload =
        at_path path (λ p. (st, respond (λ t. link (link_text t)) (fs.read_link st p), []))
