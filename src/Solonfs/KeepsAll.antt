-- ===== src/Solonfs/KeepsAll.antt =====
-- All the handlers of crates/solon-agent/src/solonfs.rs but `rename` keep what `ino_for` keeps.
use solon.Base.{
  ℕ, zero, suc, ◌+◌, Bool, true, false, Option, none, some, List, [], ◌∷◌, ◌++◌, ltb, ◌==◌,
  if◌then◌else◌, length,
}
use solon.Base.Text.{Bytes}
use solon.Base.KeyMap.{FilePath, nat_eq, path_is_key}
use solon.FileServer.Handle.{FsAttr, FsEntry}
use solon.Solonfs.Effect.{Exec}
use solon.Solonfs.{Host, SolonFs, ino_for, forget_path}
use solon.Solonfs.Fetch.{Sys, ino_of, add_entries, ask_dir, dir_or_ask, fetch_dir}
use solon.Solonfs.Handlers.{
  TimeOrNow, specific_time, before_epoch, now_time, lookup_name, get_attr, setattr, read_link,
  make_dir, create_file, unlink_file, remove_dir, read_bytes, sync_file, stat_fs, guard, set_size,
  to_ns, set_the_times, set_both, look_further, ask_host, new_child, add_child, remove_child,
}
use solon.Solonfs.Write.{write_bytes, write_loop, write_piece}
use solon.Solonfs.Dirs.{
  DirEntry, open_dir, take_snapshot, renew, read_dir, release_dir, Operation, op_lookup, op_mkdir,
  op_create, op_unlink, op_rmdir, op_getattr, op_readlink, op_fsync, op_statfs, op_releasedir,
  op_setattr, op_rename, op_read, op_write, op_readdir, op_open, op_opendir, op_flush, op_release,
  op_access, serve,
}
use solon.Solonfs.Keeps.{
  OfTables, Holds, Keeps, fetch_rules, Keeps-pure, Keeps-remember_attr, Keeps-bind,
}

module _ {h : Host} {P : OfTables} where
  pub Keeps-guard : (b : Bool) (e : ℕ) → Keeps h P (guard h b e)
  unfolding guard
  Keeps-guard true e = search fetch_rules
  Keeps-guard false e = search fetch_rules

  Keeps-set_size : (path : Bytes) (size : Option ℕ) → Keeps h P (set_size h path size)
  unfolding set_size
  Keeps-set_size path none = search fetch_rules
  Keeps-set_size path (some size) = search fetch_rules

  Keeps-to_ns : (t : Option TimeOrNow) → Keeps h P (to_ns h t)
  unfolding to_ns
  Keeps-to_ns none = search fetch_rules
  Keeps-to_ns (some (specific_time n)) = search fetch_rules
  Keeps-to_ns (some before_epoch) = search fetch_rules
  Keeps-to_ns (some now_time) = search fetch_rules

  Keeps-set_both : (path : Bytes) (a m : Option TimeOrNow) → Keeps h P (set_both h path a m)
  unfolding set_both
  Keeps-set_both path a m = search (fetch_rules, Keeps-to_ns) depth 16

  Keeps-set_the_times :
      (path : Bytes) (a m : Option TimeOrNow) → Keeps h P (set_the_times h path a m)
  unfolding set_the_times
  Keeps-set_the_times path none none = search fetch_rules
  Keeps-set_the_times path (some a) m = Keeps-set_both path (some a) m
  Keeps-set_the_times path none (some m) = Keeps-set_both path none (some m)

  Keeps-write_piece :
      (path : Bytes) (offset : ℕ) (payload : Bytes) (n : ℕ)
      → Keeps h P (write_piece h path offset payload n)
  unfolding write_piece
  Keeps-write_piece path offset payload n = search fetch_rules

  Keeps-if :
      {A : Type 0} (b : Bool) (m n : Exec (Sys h) A)
      → Keeps h P m
      → Keeps h P n
      → Keeps h P (if b then m else n)
  Keeps-if true m n km kn = km
  Keeps-if false m n km kn = kn

  Keeps-write_loop :
      (f : ℕ) (path : Bytes) (offset : ℕ) (payload : Bytes) (n : ℕ)
      → Keeps h P (write_loop h f path offset payload n)
  unfolding write_loop
  Keeps-write_loop zero path offset payload n = Keeps-pure none
  Keeps-write_loop (suc f) path offset payload n =
      Keeps-if (ltb n (length payload)) _ _
        (Keeps-bind _ _ (Keeps-write_piece path offset payload n)
          (λ k. Keeps-write_loop f path offset payload (n + k)))
        (Keeps-pure (some n))

-- The operations that move no file to another path.
abbrev pub MovesNothing : Operation → Type 0
MovesNothing (op_rename parent name newparent newname) = ⊥
MovesNothing _ = Unit

module _ {h : Host} {P : OfTables}
    (keep : (path : FilePath) (fs : SolonFs) → Holds P fs → Holds P (ino_for path fs).0) where
  pub Keeps-ino_of : (path : FilePath) → Keeps h P (ino_of h path)
  unfolding ino_of
  Keeps-ino_of path = record { at = λ fs w p. keep path fs p }

  Keeps-add_entries : (path : FilePath) (es : List FsEntry) → Keeps h P (add_entries h path es)
  unfolding add_entries
  Keeps-add_entries path [] = search fetch_rules
  Keeps-add_entries path (e ∷ es) = Keeps-bind _ _ (Keeps-ino_of (path ++ (e.name ∷ []))) λ child.
      Keeps-bind _ _ (Keeps-remember_attr child e.attr)
        λ _. Keeps-bind _ _ (Keeps-add_entries path es) λ list. Keeps-pure ((e.name, child) ∷ list)

  Keeps-dir_or_ask :
      (ino : ℕ) (known : Option (List (Bytes × ℕ))) → Keeps h P (dir_or_ask h ino known)
  unfolding dir_or_ask ask_dir
  Keeps-dir_or_ask ino none = search (fetch_rules, Keeps-add_entries) depth 16
  Keeps-dir_or_ask ino (some l) = search fetch_rules

  Keeps-fetch_dir : (ino : ℕ) → Keeps h P (fetch_dir h ino)
  unfolding fetch_dir
  Keeps-fetch_dir ino = search (fetch_rules, Keeps-dir_or_ask) depth 16

  Keeps-look_further :
      (ino parent : ℕ) (name : Bytes) (known : Option FsAttr)
      → Keeps h P (look_further h ino parent name known)
  unfolding look_further ask_host
  Keeps-look_further ino parent name none = search (fetch_rules, Keeps-guard) depth 16
  Keeps-look_further ino parent name (some a) = search fetch_rules

  Keeps-take_snapshot : (ino fh : ℕ) → Keeps h P (take_snapshot h ino fh)
  unfolding take_snapshot
  Keeps-take_snapshot ino fh = search (fetch_rules, Keeps-fetch_dir) depth 16

  Keeps-renew :
      (ino fh offset : ℕ) (known : Option (List DirEntry)) → Keeps h P (renew h ino fh offset known)
  unfolding renew
  Keeps-renew ino fh offset none = Keeps-take_snapshot ino fh
  Keeps-renew ino fh offset (some l) =
      Keeps-if (offset == 0) _ _ (Keeps-take_snapshot ino fh) (Keeps-pure tt)

  pub Keeps-serve : (op : Operation) → MovesNothing op → Keeps h P (serve h op)
  unfolding serve lookup_name make_dir create_file unlink_file remove_dir remove_child new_child
      add_child get_attr read_link sync_file stat_fs release_dir setattr read_bytes write_bytes
      read_dir open_dir forget_path
  Keeps-serve (op_lookup parent name) m =
      search (fetch_rules, Keeps-guard, Keeps-ino_of, Keeps-look_further) depth 16
  Keeps-serve (op_mkdir parent name) m = search (fetch_rules, Keeps-guard, Keeps-ino_of) depth 16
  Keeps-serve (op_create parent name) m = search (fetch_rules, Keeps-guard, Keeps-ino_of) depth 16
  Keeps-serve (op_unlink parent name) m = search (fetch_rules, Keeps-ino_of) depth 16
  Keeps-serve (op_rmdir parent name) m = search (fetch_rules, Keeps-ino_of) depth 16
  Keeps-serve (op_getattr ino) m = search fetch_rules
  Keeps-serve (op_readlink ino) m = search fetch_rules
  Keeps-serve (op_fsync ino) m = search fetch_rules
  Keeps-serve (op_statfs ino) m = search fetch_rules
  Keeps-serve (op_releasedir fh) m = search fetch_rules
  Keeps-serve (op_setattr ino size a t) m =
      search (fetch_rules, Keeps-set_size, Keeps-set_the_times) depth 16
  Keeps-serve (op_rename parent name newparent newname) m = absurd m
  Keeps-serve (op_read ino offset size) m = search fetch_rules
  Keeps-serve (op_write ino offset payload) m = search (fetch_rules, Keeps-write_loop) depth 16
  Keeps-serve (op_readdir ino fh offset room) m = search (fetch_rules, Keeps-renew) depth 16
  Keeps-serve op_open m = search fetch_rules
  Keeps-serve op_opendir m = search fetch_rules
  Keeps-serve op_flush m = search fetch_rules
  Keeps-serve op_release m = search fetch_rules
  Keeps-serve op_access m = search fetch_rules
