-- ===== src/Solonfs/Tables.antt =====
-- The tables of inodes and paths of `SolonFs`, crates/solon-agent/src/solonfs.rs.
use solon.Base.{ℕ, ◌+◌, ◌<◌, ◌≡◌, refl, ap, inl, inr, none, some, List, [], arith, Option-cases}
use solon.Base.Text.{Bytes}
use solon.Base.KeyMap.{
  FilePath, get, put, del, nat_eq, path_is_key, path_eq, path_eq_iff, get-put, get-put_self,
}
use solon.Solonfs.{SolonFs, ino_for, new}
use solon.Solonfs.Keeps.{Holds}

module _ (inodes : List (ℕ × FilePath)) (by_path : List (FilePath × ℕ)) (next : ℕ) where
  -- The two tables are inverse to each other, the numbers in use are below the next one, and the
  -- root is the inode 1.
  pub record IsConsistent : Type 0 where
    pub path_known : (p : FilePath) (i : ℕ) → get p by_path ≡ some i → get i inodes ≡ some p
    pub ino_known : (i : ℕ) (p : FilePath) → get i inodes ≡ some p → get p by_path ≡ some i
    pub below_next : (i : ℕ) (p : FilePath) → get i inodes ≡ some p → i < next
    pub root : get 1 inodes ≡ some []

module _ (inodes : List (ℕ × FilePath)) (by_path : List (FilePath × ℕ)) (next : ℕ)
    (c : IsConsistent inodes by_path next) (path : FilePath) (free : get path by_path ≡ none) where
  add-IsConsistent : IsConsistent (put next path inodes) (put path next by_path) (next + 1)
  add-IsConsistent = record {
    path_known = λ q j h. ground (
      arith,
      h,
      get-put path q next by_path,
      get-put next j path inodes,
      path_eq_iff path q,
      c.path_known q j,
      c.below_next j q,
    );
    ino_known = λ j q h. ground (
      arith,
      h,
      get-put path q next by_path,
      get-put next j path inodes,
      path_eq_iff path q,
      c.ino_known j q,
      λ (e : path ≡ q). ap (λ z. get z by_path) e,
    );
    below_next = λ j q h. ground (arith, h, get-put next j path inodes, c.below_next j q);
    root = ground (arith, get-put next 1 path inodes, c.below_next 1 [], c.root);
  }

pub ino_for-IsConsistent :
    (path : FilePath) (fs : SolonFs)
    → Holds IsConsistent fs
    → Holds IsConsistent (ino_for path fs).0
unfolding ino_for
ino_for-IsConsistent path fs c = elim (Option-cases (get path fs.by_path)) [
  | inl e ↦ rw (ino_for, e) (add-IsConsistent fs.inodes fs.by_path fs.next_ino c path e)
  | inr (i, e) ↦ rw (ino_for, e) c
]

-- The inode that a path gets.
pub ino_for-known :
    (path : FilePath) (fs : SolonFs)
    → get path (ino_for path fs).0.by_path ≡ some (ino_for path fs).1
unfolding ino_for
ino_for-known path fs = elim (Option-cases (get path fs.by_path)) [
  | inl e ↦ rw (ino_for, e) (get-put_self path fs.next_ino fs.by_path)
  | inr (i, e) ↦ rw (ino_for, e) e
]

-- A path that has an inode keeps it when another gets one.
pub ino_for-keeps :
    (path q : FilePath) (i : ℕ) (fs : SolonFs)
    → get q fs.by_path ≡ some i
    → get q (ino_for path fs).0.by_path ≡ some i
unfolding ino_for
ino_for-keeps path q i fs h = elim (Option-cases (get path fs.by_path)) [
  | inl e ↦
      rw (ino_for, e)
        (ground (
          arith,
          e,
          h,
          get-put path q fs.next_ino fs.by_path,
          path_eq_iff path q,
          λ (k : path ≡ q). ap (λ z. get z fs.by_path) k,
        ))
  | inr (j, e) ↦ rw (ino_for, e) h
]

pub new-IsConsistent : (drive : Bytes) → Holds IsConsistent (new drive)
unfolding new get put del path_eq
new-IsConsistent drive = record {
  path_known = λ p i h. ground (arith, h, path_eq_iff [] p);
  ino_known = λ i p h. ground (arith, h, path_eq_iff [] p);
  below_next = λ i p h. ground (arith, h);
  root = refl;
}
