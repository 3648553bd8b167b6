-- ===== src/Solonfs/Laws.antt =====
-- What all operations of `SolonFs`, crates/solon-agent/src/solonfs.rs, keep true.
use solon.Base.{ℕ, ◌≡◌, ◌≢◌, inl, inr, ◌&&◌, some, List, [], ◌∷◌, Option-cases}
use solon.Base.Text.{Bytes}
use solon.Base.KeyMap.{FilePath, get, nat_eq, path_is_key}
use solon.Solonfs.Effect.{Exec, ◌>>=◌}
use solon.Solonfs.{Host, SolonFs, ino_for, child_path, join, name_ok}
use solon.Solonfs.Fetch.{Sys, ino_of, modify, gets}
use solon.Solonfs.Handlers.{
  rename_file, rename_paths, ask_rename, forget_both, move_paths, child_of,
}
use solon.Solonfs.Keeps.{OfTables, Holds, Keeps, Keeps-bind, Keeps-then, fetch_rules}
use solon.Solonfs.KeepsAll.{Keeps-serve, Keeps-ino_of, Keeps-guard, MovesNothing}
use solon.Solonfs.Dirs.{
  Operation, op_lookup, op_mkdir, op_create, op_unlink, op_rmdir, op_getattr, op_readlink, op_fsync,
  op_statfs, op_releasedir, op_setattr, op_rename, op_read, op_write, op_readdir, op_open,
  op_opendir, op_flush, op_release, op_access, serve,
}
use solon.Solonfs.Tables.{IsConsistent, ino_for-IsConsistent, ino_for-known, ino_for-keeps}
use solon.Solonfs.Moves.{move_paths-IsConsistent}

-- Consistent tables, in which the path has the inode.
abbrev pub Knows : FilePath → ℕ → OfTables
Knows p i inodes by_path next = IsConsistent inodes by_path next × (get p by_path ≡ some i)

pub Knows-ino_for :
    (p : FilePath) (i : ℕ) (path : FilePath) (fs : SolonFs)
    → Holds (Knows p i) fs
    → Holds (Knows p i) (ino_for path fs).0
Knows-ino_for p i path fs (c, e) = (ino_for-IsConsistent path fs c, ino_for-keeps path p i fs e)

module _ (h : Host) where
  pub Keeps-ask_rename :
      (p : FilePath) (i : ℕ) (to : FilePath) → Keeps h (Knows p i) (ask_rename h i to)
  unfolding ask_rename
  Keeps-ask_rename p i to = search (fetch_rules, Keeps-ino_of (Knows-ino_for p i)) depth 16

  pub Keeps-forget_both :
      {P : OfTables} (parent newparent : ℕ) → Keeps h P (forget_both h parent newparent)
  unfolding forget_both
  Keeps-forget_both parent newparent = search fetch_rules

  rename_paths-IsConsistent :
      (parent newparent : ℕ) (from to : FilePath)
      → from ≢ []
      → to ≢ []
      → Keeps h IsConsistent (rename_paths h parent newparent from to)
  unfolding rename_paths ino_of modify ◌>>=◌
  rename_paths-IsConsistent parent newparent from to below below' = record {
    at = λ fs w c.
        let (fs', i) = ino_for from fs in
        Keeps-then h IsConsistent (Knows from i) (ask_rename h i to) _ (Keeps-ask_rename from i to)
          (λ _ fs2 w2 k.
            (Keeps-forget_both {P = IsConsistent} parent newparent).at (move_paths from to i fs2) w2
              (move_paths-IsConsistent from to i fs2 k.0 k.1 below below'))
          (λ fs2 k. k.0) fs' w (ino_for-IsConsistent from fs c, ino_for-known from fs);
  }

  pub Keeps-child_of :
      {P : OfTables} {A : Type 0} (parent : ℕ) (name : Bytes) (f : FilePath → Exec (Sys h) A)
      → ((p : FilePath) → Keeps h P (f (join p name)))
      → Keeps h P (child_of h parent name >>= f)
  unfolding child_path gets ◌>>=◌
  Keeps-child_of parent name f k = record {
    at = λ fs w c. elim (Option-cases (get parent fs.inodes)) [
      | inl e ↦ rw (child_path, e) c
      | inr (p, e) ↦ rw (child_path, e) ((k p).at fs w c)
    ];
  }

  pub join-ne-nil : (p : FilePath) (name : Bytes) → join p name ≢ []
  join-ne-nil [] name e = cc
  join-ne-nil (c ∷ p) name e = cc

  rename_file-IsConsistent :
      (parent newparent : ℕ) (name newname : Bytes)
      → Keeps h IsConsistent (rename_file h parent name newparent newname)
  unfolding rename_file
  rename_file-IsConsistent parent newparent name newname =
      Keeps-bind _ _ (Keeps-guard (name_ok name && name_ok newname) 22) λ _.
        Keeps-child_of parent name _ λ p. Keeps-child_of newparent newname _ λ q.
          rename_paths-IsConsistent parent newparent (join p name) (join q newname)
            (join-ne-nil p name) (join-ne-nil q newname)

  Keeps-IsConsistent : (op : Operation) → Keeps h IsConsistent (serve h op)
  unfolding serve
  Keeps-IsConsistent (op_rename parent name newparent newname) =
      rename_file-IsConsistent parent newparent name newname
  Keeps-IsConsistent (op_lookup parent name) =
      Keeps-serve ino_for-IsConsistent (op_lookup parent name) tt
  Keeps-IsConsistent (op_mkdir parent name) =
      Keeps-serve ino_for-IsConsistent (op_mkdir parent name) tt
  Keeps-IsConsistent (op_create parent name) =
      Keeps-serve ino_for-IsConsistent (op_create parent name) tt
  Keeps-IsConsistent (op_unlink parent name) =
      Keeps-serve ino_for-IsConsistent (op_unlink parent name) tt
  Keeps-IsConsistent (op_rmdir parent name) =
      Keeps-serve ino_for-IsConsistent (op_rmdir parent name) tt
  Keeps-IsConsistent (op_getattr ino) = Keeps-serve ino_for-IsConsistent (op_getattr ino) tt
  Keeps-IsConsistent (op_readlink ino) = Keeps-serve ino_for-IsConsistent (op_readlink ino) tt
  Keeps-IsConsistent (op_fsync ino) = Keeps-serve ino_for-IsConsistent (op_fsync ino) tt
  Keeps-IsConsistent (op_statfs ino) = Keeps-serve ino_for-IsConsistent (op_statfs ino) tt
  Keeps-IsConsistent (op_releasedir fh) = Keeps-serve ino_for-IsConsistent (op_releasedir fh) tt
  Keeps-IsConsistent (op_setattr ino size a t) =
      Keeps-serve ino_for-IsConsistent (op_setattr ino size a t) tt
  Keeps-IsConsistent (op_read ino offset size) =
      Keeps-serve ino_for-IsConsistent (op_read ino offset size) tt
  Keeps-IsConsistent (op_write ino offset payload) =
      Keeps-serve ino_for-IsConsistent (op_write ino offset payload) tt
  Keeps-IsConsistent (op_readdir ino fh offset room) =
      Keeps-serve ino_for-IsConsistent (op_readdir ino fh offset room) tt
  Keeps-IsConsistent op_open = Keeps-serve ino_for-IsConsistent op_open tt
  Keeps-IsConsistent op_opendir = Keeps-serve ino_for-IsConsistent op_opendir tt
  Keeps-IsConsistent op_flush = Keeps-serve ino_for-IsConsistent op_flush tt
  Keeps-IsConsistent op_release = Keeps-serve ino_for-IsConsistent op_release tt
  Keeps-IsConsistent op_access = Keeps-serve ino_for-IsConsistent op_access tt

  -- The state after a sequence of operations, whatever the host answers.
  unfoldable pub session : List Operation → Sys h → Sys h
  unfolding serve
  session [] s = s
  session (op ∷ ops) s = session ops (serve h op s).0

  -- Through every sequence of operations the table of inodes and the table of paths stay inverse to
  -- each other, every number in use stays below the next one, and the inode 1 stays the root, from
  -- a state in which this holds.
  pub session-IsConsistent :
      (ops : List Operation) (fs : SolonFs) (w : h.World)
      → Holds IsConsistent fs
      → Holds IsConsistent (session ops (fs, w)).0
  unfolding session
  session-IsConsistent [] fs w c = c
  session-IsConsistent (op ∷ ops) fs w c =
      let s = (serve h op (fs, w)).0 in
      session-IsConsistent ops s.0 s.1 ((Keeps-IsConsistent op).at fs w c)

  -- An inode that is known keeps its path through every operation but a rename.
  pub serve-keeps_path :
      (op : Operation) (ino : ℕ) (p : FilePath) (fs : SolonFs) (w : h.World)
      → Holds IsConsistent fs
      → MovesNothing op
      → get ino fs.inodes ≡ some p
      → get ino (serve h op (fs, w)).0.0.inodes ≡ some p
  serve-keeps_path op ino p fs w c m e =
      let k =
        (Keeps-serve {P = Knows p ino} (Knows-ino_for p ino) op m).at fs w
          (c, c.ino_known ino p e) in
      k.0.path_known p ino k.1
