-- ===== src/Solonfs/Names.antt =====
-- Names and renames of `SolonFs`, crates/solon-agent/src/solonfs.rs.
use solon.Base.{
  ℕ, ◌≡◌, refl, sym, ap, ◌∙◌, ◌≢◌, Bool, true, false, ◌&&◌, Option, none, some, [], ◌∷◌, ◌++◌, ◌||◌,
  ◌==◌, not, inl, inr, Bool-cases, arith, if◌then◌else◌,
}
use solon.Base.Text.{Bytes, codes, contains_byte, str_eq}
use solon.Base.KeyMap.{FilePath, get, nat_eq, path_is_key, get-put_self}
use solon.Solonfs.Effect.{Exec, HandlerResult, ok, err, continue, ◌>>=◌}
use solon.Solonfs.{Host, SolonFs, ino_for, child_path, join, name_ok}
use solon.Solonfs.Fetch.{Sys, ino_of, modify, gets}
use solon.Solonfs.Handlers.{
  done, rename_file, rename_paths, ask_rename, forget_both, move_paths, child_of, guard,
  lookup_name, make_dir, create_file, new_child,
}
use solon.Solonfs.Keeps.{OfTables, Holds, Keeps, Keeps-then, fetch_rules}
use solon.Solonfs.KeepsAll.{Keeps-ino_of}
use solon.Solonfs.Dirs.{Operation, op_lookup, op_mkdir, op_create, op_rename, serve}
use solon.Solonfs.Tables.{IsConsistent, ino_for-IsConsistent, ino_for-known, ino_for-keeps}
use solon.Solonfs.Laws.{Knows, Keeps-forget_both, join-ne-nil}
use solon.Solonfs.Moves.{move_paths-IsConsistent, get-move_paths}

-- The error for a name that is empty, `.` or `..` or has a slash or a backslash in it.
unfoldable pub refusal : Operation → Option ℕ
refusal (op_lookup parent name) = if name_ok name then none else some 2
refusal (op_mkdir parent name) = if name_ok name then none else some 22
refusal (op_create parent name) = if name_ok name then none else some 22
refusal (op_rename parent name newparent newname) =
    if name_ok name && name_ok newname then none else some 22
refusal _ = none

serve-refusal :
    (h : Host) (op : Operation) (e : ℕ) (s : Sys h)
    → refusal op ≡ some e
    → serve h op s ≡ (s, err e)
unfolding serve refusal lookup_name make_dir create_file new_child rename_file guard ◌>>=◌
serve-refusal h (op_lookup parent name) e s r = ground (arith, r)
serve-refusal h (op_mkdir parent name) e s r = ground (arith, r)
serve-refusal h (op_create parent name) e s r = ground (arith, r)
serve-refusal h (op_rename parent name newparent newname) e s r = ground (arith, r)
serve-refusal h _ e s r = cc

-- The names that are no name of a single file in a directory.
pub data IsBadName : Bytes → Type 0 where
  no_name : IsBadName []
  this_dir : IsBadName (codes ".")
  parent_dir : IsBadName (codes "..")
  with_slash : (front back : Bytes) → IsBadName (front ++ (b'/' ∷ back))
  with_backslash : (front back : Bytes) → IsBadName (front ++ (b'\\' ∷ back))

contains_byte-middle : (c : ℕ) (a b : Bytes) → contains_byte c (a ++ (c ∷ b)) ≡ true
unfolding contains_byte
contains_byte-middle c [] b = ground arith
contains_byte-middle c (x ∷ a) b = ground (arith, contains_byte-middle c a b)

has_separator :
    (c : ℕ) (front back : Bytes)
    → (c == b'/' || c == b'\\') ≡ true
    → (contains_byte b'/' (front ++ (c ∷ back)) || contains_byte b'\\' (front ++ (c ∷ back))) ≡ true
has_separator c front back h = elim (Bool-cases (c == b'/')) [
  | inl t ↦ let e : c ≡ b'/' = ground arith in rw (e, contains_byte-middle b'/' front back) refl
  | inr f ↦
      let e : c ≡ b'\\' = ground arith in
      rw (e, contains_byte-middle b'\\' front back) (ground arith)
]

not_ok : (a b t : Bool) → t ≡ true → (not a && not b && not t) ≡ false
not_ok a b t h = ground (arith, h)

name_ok-separator :
    (c : ℕ) (front back : Bytes)
    → (c == b'/' || c == b'\\') ≡ true
    → name_ok (front ++ (c ∷ back)) ≡ false
unfolding name_ok
name_ok-separator c [] back h = not_ok _ _ _ (has_separator c [] back h)
name_ok-separator c (x ∷ front) back h = not_ok _ _ _ (has_separator c (x ∷ front) back h)

name_ok-IsBadName : (name : Bytes) → IsBadName name → name_ok name ≡ false
unfolding name_ok str_eq
name_ok-IsBadName _ no_name = refl
name_ok-IsBadName _ this_dir = refl
name_ok-IsBadName _ parent_dir = refl
name_ok-IsBadName _ (with_slash front back) = name_ok-separator b'/' front back refl
name_ok-IsBadName _ (with_backslash front back) = name_ok-separator b'\\' front back refl

-- The operations that make or look for a name, the name, and the error for a bad one. The removals
-- are not among them.
pub data Names : Operation → Bytes → ℕ → Type 0 where
  by_lookup : (parent : ℕ) (name : Bytes) → Names (op_lookup parent name) name 2
  by_mkdir : (parent : ℕ) (name : Bytes) → Names (op_mkdir parent name) name 22
  by_create : (parent : ℕ) (name : Bytes) → Names (op_create parent name) name 22
  by_old_name :
      (parent newparent : ℕ) (name newname : Bytes)
      → Names (op_rename parent name newparent newname) name 22
  by_new_name :
      (parent newparent : ℕ) (name newname : Bytes)
      → Names (op_rename parent name newparent newname) newname 22

Names-refusal :
    (op : Operation) (name : Bytes) (e : ℕ)
    → Names op name e
    → name_ok name ≡ false
    → refusal op ≡ some e
unfolding refusal
Names-refusal _ _ _ (by_lookup parent name) b = rw b refl
Names-refusal _ _ _ (by_mkdir parent name) b = rw b refl
Names-refusal _ _ _ (by_create parent name) b = rw b refl
Names-refusal _ _ _ (by_old_name parent newparent name newname) b = rw b refl
Names-refusal _ _ _ (by_new_name parent newparent name newname) b = ground (arith, b)

-- A lookup, a creation of a file or a directory and a rename, of either name, with a name that is
-- empty, `.` or `..` or has a slash or a backslash in it end with their error: ENOENT for a lookup,
-- else EINVAL, and before anything is asked of the host or changed.
pub serve-bad_name :
    (h : Host) (op : Operation) (name : Bytes) (e : ℕ) (s : Sys h)
    → Names op name e
    → IsBadName name
    → serve h op s ≡ (s, err e)
serve-bad_name h op name e s n b =
    serve-refusal h op e s (Names-refusal op name e n (name_ok-IsBadName name b))

module _ (h : Host) (parent newparent : ℕ) (from to : FilePath) where
  rename_paths-follows :
      (fs : SolonFs) (w : h.World) (s' : Sys h)
      → rename_paths h parent newparent from to (fs, w) ≡ (s', ok done)
      → (get (ino_for from fs).1 s'.0.inodes ≡ some to)
        × (get to s'.0.by_path ≡ some (ino_for from fs).1)
  unfolding rename_paths ino_of modify forget_both move_paths ◌>>=◌
  rename_paths-follows fs w s' e =
      follow (ino_for from fs).1 (ask_rename h (ino_for from fs).1 to ((ino_for from fs).0, w)) e
    where
      follow :
          (i : ℕ) (r : Sys h × HandlerResult Unit)
          → continue r
              (λ _. modify h (move_paths from to i) >>= λ _. forget_both h parent newparent)
            ≡ (s', ok done)
          → (get i s'.0.inodes ≡ some to) × (get to s'.0.by_path ≡ some i)
      follow i ((fs2, w2), ok tt) k = (
        ap (λ z. get i z.0.0.inodes) (sym k) ∙ get-put_self i to _,
        ap (λ z. get to z.0.0.by_path) (sym k) ∙ get-put_self to i _,
      )
      follow i (s2, err n) k = cc

  -- The tables while a rename waits for the host: two paths are known.
  abbrev KnowsBoth : ℕ → FilePath → ℕ → OfTables
  KnowsBoth i q k inodes by_path next =
      IsConsistent inodes by_path next × (get from by_path ≡ some i) × (get q by_path ≡ some k)

  KnowsBoth-ino_for :
      (i : ℕ) (q : FilePath) (k : ℕ) (path : FilePath) (fs : SolonFs)
      → Holds (KnowsBoth i q k) fs
      → Holds (KnowsBoth i q k) (ino_for path fs).0
  KnowsBoth-ino_for i q k path fs (c, e, g) =
      (ino_for-IsConsistent path fs c, ino_for-keeps path from i fs e, ino_for-keeps path q k fs g)

  Keeps-ask_both : (i : ℕ) (q : FilePath) (k : ℕ) → Keeps h (KnowsBoth i q k) (ask_rename h i to)
  unfolding ask_rename
  Keeps-ask_both i q k = search (fetch_rules, Keeps-ino_of (KnowsBoth-ino_for i q k)) depth 16

  rename_paths-others :
      (q : FilePath) (k : ℕ)
      → from ≢ []
      → to ≢ []
      → q ≢ from
      → q ≢ to
      → Keeps h (Knows q k) (rename_paths h parent newparent from to)
  unfolding rename_paths ino_of modify ◌>>=◌
  rename_paths-others q k below below' a b = record {
    at = λ fs w (c, g).
        let (fs', i) = ino_for from fs in
        Keeps-then h (Knows q k) (KnowsBoth i q k) (ask_rename h i to) _ (Keeps-ask_both i q k)
          (λ _ fs2 w2 (c2, e2, g2).
            (Keeps-forget_both h {P = Knows q k} parent newparent).at (move_paths from to i fs2) w2
              (
                move_paths-IsConsistent from to i fs2 c2 e2 below below',
                get-move_paths from to q i k fs2 g2 a b,
              ))
          (λ fs2 (c2, e2, g2). (c2, g2)) fs' w
          (ino_for-IsConsistent from fs c, ino_for-known from fs, ino_for-keeps from q k fs g);
  }

guard-bind :
    (h : Host) {A : Type 0} (b : Bool) (e : ℕ) (f : Unit {0} → Exec (Sys h) A) (s : Sys h)
    → b ≡ true
    → (guard h b e >>= f) s ≡ f tt s
unfolding guard ◌>>=◌
guard-bind h true e f s t = refl
guard-bind h false e f s t = cc

child_of-bind :
    (h : Host) {A : Type 0} (parent : ℕ) (name : Bytes) (f : FilePath → Exec (Sys h) A)
    (fs : SolonFs) (w : h.World) (p : FilePath)
    → get parent fs.inodes ≡ some p
    → (child_of h parent name >>= f) (fs, w) ≡ f (join p name) (fs, w)
unfolding gets child_path ◌>>=◌
child_of-bind h parent name f fs w p e = rw (child_path, e)

module _ (h : Host) (parent newparent : ℕ) (name newname : Bytes) (fs : SolonFs) (w : h.World)
    (p q : FilePath) (names : (name_ok name && name_ok newname) ≡ true)
    (at_p : get parent fs.inodes ≡ some p) (at_q : get newparent fs.inodes ≡ some q) where
  rename_file-at :
      rename_file h parent name newparent newname (fs, w)
      ≡ rename_paths h parent newparent (join p name) (join q newname) (fs, w)
  unfolding rename_file
  rename_file-at =
      guard-bind h _ 22 _ (fs, w) names
      ∙ child_of-bind h parent name _ fs w p at_p
      ∙ child_of-bind h newparent newname _ fs w q at_q

  -- After a rename that succeeds, the inode of the old path has the new path, and the new path has
  -- this inode.
  pub rename-follows :
      (s' : Sys h)
      → serve h (op_rename parent name newparent newname) (fs, w) ≡ (s', ok done)
      → (get (ino_for (join p name) fs).1 s'.0.inodes ≡ some (join q newname))
        × (get (join q newname) s'.0.by_path ≡ some (ino_for (join p name) fs).1)
  unfolding serve
  rename-follows s' e =
      rename_paths-follows h parent newparent (join p name) (join q newname) fs w s'
        (sym rename_file-at ∙ e)

  -- A rename, whatever the host answers, leaves every other inode with its path: also one whose path
  -- lies below the directory that was renamed, so that the inode names a place that is no more.
  pub rename_others :
      (ino : ℕ) (r : FilePath)
      → Holds IsConsistent fs
      → get ino fs.inodes ≡ some r
      → r ≢ join p name
      → r ≢ join q newname
      → get ino (serve h (op_rename parent name newparent newname) (fs, w)).0.0.inodes ≡ some r
  unfolding serve
  rename_others ino r c e a b =
      let k =
        (rename_paths-others h parent newparent (join p name) (join q newname) r ino
            (join-ne-nil h p name) (join-ne-nil h q newname) a b).at
          fs w (c, c.ino_known ino r e) in
      rw rename_file-at (k.0.path_known r ino k.1)
