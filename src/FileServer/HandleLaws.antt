-- ===== src/FileServer/HandleLaws.antt =====
-- What a request can do to the file system, and what it answers.
use solon.FileServer.Frame.{fs_max_io}
use solon.Base.{
  ℕ, min, ◌≡◌, refl, inl, inr, Bool, true, false, ◌||◌, List, [], ◌∷◌, arith, Bool-cases, any,
}
use solon.Base.Text.{Bytes}
use solon.FileServer.HostPath.{HostPath, ok, denied}
use solon.FileServer.Handle.{
  attr_of, run_at, respond, data_read, is_bad_name, IoResult, both_paths, lookup_in, getattr,
  readdir, create, mkdir, unlink, rmdir, fsync, statfs, readlink, read_from, write_to, rename,
  truncate, set_times, Answer, not_found, errno_for, rename, FileSystem, FsRequest, IoError, handle,
  rename_over, error, done, failed,
}

module _ (fs : FileSystem) (host_path : Bytes → HostPath) where
  -- The paths that a request names.
  abbrev pub paths_of : FsRequest → List Bytes
  paths_of (lookup_in parent name) = parent ∷ []
  paths_of (getattr path) = path ∷ []
  paths_of (readdir path) = path ∷ []
  paths_of (read_from path offset len) = path ∷ []
  paths_of (write_to path offset) = path ∷ []
  paths_of (create path) = path ∷ []
  paths_of (mkdir path) = path ∷ []
  paths_of (unlink path) = path ∷ []
  paths_of (rmdir path) = path ∷ []
  paths_of (rename from to) = from ∷ to ∷ []
  paths_of (truncate path size) = path ∷ []
  paths_of (set_times path mtime atime) = path ∷ []
  paths_of (fsync path) = path ∷ []
  paths_of (statfs path) = path ∷ []
  paths_of (readlink path) = path ∷ []

  abbrev is_denied : HostPath → Bool
  is_denied (ok p) = false
  is_denied (denied e) = true

  denied-at :
      (st : fs.State) (o : HostPath) (run : Bytes → Answer fs)
      → (is_denied o || false) ≡ true
      → (errno : ℕ) × (run_at fs st o run ≡ (st, error errno, []))
  denied-at st (ok p) run h = absurd (ground (arith, h))
  denied-at st (denied e) run h = (e, refl)

  denied-both :
      (st : fs.State) (a b : HostPath)
      → (is_denied a || (is_denied b || false)) ≡ true
      → (errno : ℕ) × (both_paths fs host_path st a b ≡ (st, error errno, []))
  denied-both st (ok a) (ok b) h = absurd (ground (arith, h))
  denied-both st (denied e) b h = (e, refl)
  denied-both st (ok a) (denied e) h = (e, refl)

  -- A request that names a path which `host_path` refuses is answered with an error and no data, and
  -- leaves the file system as it is.
  pub handle-denied :
      (st : fs.State) (req : FsRequest) (payload : Bytes)
      → any (λ p. is_denied (host_path p)) (paths_of req) ≡ true
      → (errno : ℕ) × (handle fs host_path st req payload ≡ (st, error errno, []))
  unfolding handle any
  handle-denied st (lookup_in parent name) payload h = elim (Bool-cases (is_bad_name name)) [
    | inl b ↦ (22, rw b)
    | inr b ↦
        let (errno, e) =
          denied-at st (host_path parent)
            (λ p. (st, respond attr_of (fs.symlink_metadata st (fs.join p name)), [])) h in
        (errno, rw b e)
  ]
  handle-denied st (rename from to) payload h = denied-both st (host_path from) (host_path to) h
  handle-denied st (getattr path) payload h = denied-at st (host_path path) _ h
  handle-denied st (readdir path) payload h = denied-at st (host_path path) _ h
  handle-denied st (read_from path offset len) payload h = denied-at st (host_path path) _ h
  handle-denied st (write_to path offset) payload h = denied-at st (host_path path) _ h
  handle-denied st (create path) payload h = denied-at st (host_path path) _ h
  handle-denied st (mkdir path) payload h = denied-at st (host_path path) _ h
  handle-denied st (unlink path) payload h = denied-at st (host_path path) _ h
  handle-denied st (rmdir path) payload h = denied-at st (host_path path) _ h
  handle-denied st (truncate path size) payload h = denied-at st (host_path path) _ h
  handle-denied st (set_times path mtime atime) payload h = denied-at st (host_path path) _ h
  handle-denied st (fsync path) payload h = denied-at st (host_path path) _ h
  handle-denied st (statfs path) payload h = denied-at st (host_path path) _ h
  handle-denied st (readlink path) payload h = denied-at st (host_path path) _ h

  -- What has no effect on the file system.
  abbrev pub is_reading : FsRequest → Bool
  is_reading (lookup_in parent name) = true
  is_reading (getattr path) = true
  is_reading (readdir path) = true
  is_reading (read_from path offset len) = true
  is_reading (statfs path) = true
  is_reading (readlink path) = true
  is_reading _ = false

  kept-at :
      (st : fs.State) (o : HostPath) (run : Bytes → Answer fs)
      → ((p : Bytes) → (run p).0 ≡ st)
      → (run_at fs st o run).0 ≡ st
  kept-at st (ok p) run h = h p
  kept-at st (denied e) run h = refl

  kept-read : (st : fs.State) (r : IoResult Bytes) → (data_read fs st r).0 ≡ st
  kept-read st (done bytes) = refl
  kept-read st (failed e) = refl

  -- The requests that only look leave the file system as it is.
  pub handle-reading :
      (st : fs.State) (req : FsRequest) (payload : Bytes)
      → is_reading req ≡ true
      → (handle fs host_path st req payload).0 ≡ st
  unfolding handle
  handle-reading st (lookup_in parent name) payload h = elim (Bool-cases (is_bad_name name)) [
    | inl b ↦ rw b
    | inr b ↦ rw b (kept-at st (host_path parent) _ (λ p. refl))
  ]
  handle-reading st (getattr path) payload h = kept-at st (host_path path) _ (λ p. refl)
  handle-reading st (readdir path) payload h = kept-at st (host_path path) _ (λ p. refl)
  handle-reading st (read_from path offset len) payload h =
      kept-at st (host_path path) _ (λ p. kept-read st (fs.read_at st p offset (min len fs_max_io)))
  handle-reading st (statfs path) payload h = kept-at st (host_path path) _ (λ p. refl)
  handle-reading st (readlink path) payload h = kept-at st (host_path path) _ (λ p. refl)
  handle-reading st (create _) payload h = absurd (ground (arith, h))
  handle-reading st (mkdir _) payload h = absurd (ground (arith, h))
  handle-reading st (unlink _) payload h = absurd (ground (arith, h))
  handle-reading st (rmdir _) payload h = absurd (ground (arith, h))
  handle-reading st (fsync _) payload h = absurd (ground (arith, h))
  handle-reading st (write_to _ _) payload h = absurd (ground (arith, h))
  handle-reading st (rename _ _) payload h = absurd (ground (arith, h))
  handle-reading st (truncate _ _) payload h = absurd (ground (arith, h))
  handle-reading st (set_times _ _ _) payload h = absurd (ground (arith, h))

module _ (fs : FileSystem) (host_path : Bytes → HostPath) where
  -- There is nothing at a path.
  abbrev pub IsAbsent : fs.State → Bytes → Type 0
  IsAbsent st p = (e : IoError) × (fs.symlink_metadata st p ≡ failed e) × (e.kind ≡ not_found)

  -- What Windows documents where paths that differ in case only name one file: a file that was removed
  -- under one of its names is at none of them, and what is not there is not renamed.
  pub record IsCaseBlind (same : Bytes → Bytes → Bool) : Type 0 where
    pub removed :
        (st : fs.State) (p q : Bytes)
        → same p q ≡ true
        → (fs.remove_file st p).1 ≡ done tt
        → IsAbsent (fs.remove_file st p).0 q
    pub not_renamed :
        (st : fs.State) (p q : Bytes)
        → IsAbsent st p
        → (e : IoError) × (fs.rename st p q ≡ (st, failed e)) × (e.kind ≡ not_found)

  -- When both paths of a rename name one file, in another case, and it can be removed, the answer is
  -- ENOENT and the file is gone, under the old name as under the new one.
  pub rename_same_file :
      (same : Bytes → Bytes → Bool)
      → IsCaseBlind same
      → (st : fs.State) (from to a b : Bytes) (payload : Bytes) → host_path from ≡ ok a
      → host_path to ≡ ok b
      → same b a ≡ true
      → same b b ≡ true
      → fs.is_file st b ≡ true
      → (fs.remove_file st b).1 ≡ done tt
      → ((handle fs host_path st (rename from to) payload).1 ≡ error 2)
        × IsAbsent (handle fs host_path st (rename from to) payload).0 a
        × IsAbsent (handle fs host_path st (rename from to) payload).0 b
  unfolding handle rename_over errno_for
  rename_same_file same w st from to a b payload f t one self there r =
      let absent = w.removed st b a one r in
      let (e, renamed, kind) = w.not_renamed (fs.remove_file st b).0 a b absent in
      rw (f, t, there, renamed, kind) (refl, absent, w.removed st b b self r)
