-- ===== src/Solonfs/Fetch.antt =====
-- The requests to the host behind the caches: the methods of `SolonFs` in
-- crates/solon-agent/src/solonfs.rs that call it.
use solon.Base.{ℕ, Option, none, some, List, [], ◌∷◌}
use solon.Base.Text.{Bytes}
use solon.Base.KeyMap.{FilePath, get, put, nat_eq, path_is_key}
use solon.FileServer.Handle.{
  FsAttr, FsEntry, FsRequest, FsResponse, getattr, readdir, attr_of, entries, success, error,
}
use solon.Solonfs.Effect.{Exec, HandlerResult, ok, err, pure, expect, ◌>>=◌, ◌>>◌}
use solon.Solonfs.{
  Host, CallResult, answer, failed, SolonFs, cached, rel, ino_for, join, remember_at, fresh_value,
}

-- The answers that the callers wait for; the others are an error.
abbrev pub expect_attr : FsResponse → HandlerResult FsAttr
expect_attr (attr_of a) = ok a
expect_attr (error e) = err e
expect_attr _ = err 5

abbrev pub expect_entries : FsResponse → HandlerResult (List FsEntry)
expect_entries (entries l) = ok l
expect_entries (error e) = err e
expect_entries _ = err 5

abbrev pub expect_success : FsResponse → HandlerResult Unit
expect_success success = ok tt
expect_success (error e) = err e
expect_success _ = err 5

module _ (h : Host) where
  -- The state of a handler.
  abbrev pub Sys : Type 0
  Sys = SolonFs × h.World

  abbrev pub answered : SolonFs → h.World × CallResult → Sys × HandlerResult (FsResponse × Bytes)
  answered fs (w, answer r payload) = ((fs, w), ok (r, payload))
  answered fs (w, failed e) = ((fs, w), err e)

  unfoldable pub call : FsRequest → Bytes → Exec Sys (FsResponse × Bytes)
  call req payload (fs, w) = answered fs (h.call w req payload)

  unfoldable pub now : Exec Sys ℕ
  now (fs, w) = let (w', t) = h.now w in ((fs, w'), ok t)

  unfoldable pub unix_now : Exec Sys ℕ
  unix_now (fs, w) = let (w', t) = h.unix_now w in ((fs, w'), ok t)

  unfoldable pub gets : {A : Type 0} → (SolonFs → A) → Exec Sys A
  gets f (fs, w) = ((fs, w), ok (f fs))

  unfoldable pub modify : (SolonFs → SolonFs) → Exec Sys Unit
  modify f (fs, w) = ((f fs, w), ok tt)

  unfoldable pub lift : {A : Type 0} → HandlerResult A → Exec Sys A
  lift r s = (s, r)

  unfoldable pub ino_of : FilePath → Exec Sys ℕ
  ino_of path (fs, w) = let (fs', i) = ino_for path fs in ((fs', w), ok i)

  unfoldable pub remember_attr : ℕ → FsAttr → Exec Sys Unit
  remember_attr ino attr = do t ← now; modify (remember_at ino attr t)

  -- The clock is read first, also when there is nothing in the cache.
  unfoldable pub cached_attr : ℕ → Exec Sys (Option FsAttr)
  cached_attr ino = do t ← now; gets (λ fs. fresh_value t (get ino fs.attrs))

  abbrev pub path_of : ℕ → Exec Sys Bytes
  path_of ino = do p ← gets (λ fs. rel fs ino); expect 2 p

  unfoldable pub ask_attr : ℕ → Exec Sys FsAttr
  ask_attr ino = do
    path ← path_of ino
    r ← call (getattr path) []
    attr ← lift (expect_attr r.0)
    remember_attr ino attr
    pure attr

  unfoldable pub attr_or_ask : ℕ → Option FsAttr → Exec Sys FsAttr
  attr_or_ask ino (some a) = pure a
  attr_or_ask ino none = ask_attr ino

  unfoldable pub fetch_attr : ℕ → Exec Sys FsAttr
  fetch_attr ino = do known ← cached_attr ino; attr_or_ask ino known

  -- The entries of a directory get their inodes, and their attributes are remembered.
  unfoldable pub add_entries : FilePath → List FsEntry → Exec Sys (List (Bytes × ℕ))
  add_entries dir_path [] = pure []
  add_entries dir_path (e ∷ es) = do
    child ← ino_of (join dir_path e.name)
    remember_attr child e.attr
    list ← add_entries dir_path es
    pure ((e.name, child) ∷ list)

  unfoldable pub ask_dir : ℕ → Exec Sys (List (Bytes × ℕ))
  ask_dir ino = do
    path ← path_of ino
    found ← gets (λ fs. get ino fs.inodes)
    dir_path ← expect 2 found
    r ← call (readdir path) []
    l ← lift (expect_entries r.0)
    list ← add_entries dir_path l
    t ← now
    modify (λ fs. record fs { dirs = put ino (cached list t) fs.dirs })
    pure list

  unfoldable pub dir_or_ask : ℕ → Option (List (Bytes × ℕ)) → Exec Sys (List (Bytes × ℕ))
  dir_or_ask ino (some l) = pure l
  dir_or_ask ino none = ask_dir ino

  unfoldable pub cached_dir : ℕ → Exec Sys (Option (List (Bytes × ℕ)))
  cached_dir ino = do t ← now; gets (λ fs. fresh_value t (get ino fs.dirs))

  unfoldable pub fetch_dir : ℕ → Exec Sys (List (Bytes × ℕ))
  fetch_dir ino = do known ← cached_dir ino; dir_or_ask ino known

  unfoldable pub simple : FsRequest → Exec Sys Unit
  simple req = do r ← call req []; lift (expect_success r.0)
