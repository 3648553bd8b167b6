-- ===== src/Solonfs/Moves.antt =====
-- `rename` of `impl Filesystem for SolonFs`, crates/solon-agent/src/solonfs.rs.
use solon.Base.{
  ℕ, ◌≡◌, ◌≢◌, inl, inr, Option, none, some, List, [], arith, ◌==◌, if◌then◌else◌, Option-cases,
}
use solon.Base.KeyMap.{
  FilePath, get, put, del, nat_eq, path_is_key, path_eq, path_eq_iff, get-put, get-del,
}
use solon.Solonfs.{SolonFs}
use solon.Solonfs.Keeps.{Holds}
use solon.Solonfs.Handlers.{move_paths}
use solon.Solonfs.Tables.{IsConsistent}

-- The tables that a move leaves.
abbrev moved_paths : FilePath → FilePath → ℕ → List (FilePath × ℕ) → List (FilePath × ℕ)
moved_paths from to i by_path = put to i (del to (del from by_path))

moved_inodes : FilePath → ℕ → Option ℕ → List (ℕ × FilePath) → List (ℕ × FilePath)
moved_inodes to i none inodes = put i to inodes
moved_inodes to i (some old) inodes = put i to (del old inodes)

get-moved_paths :
    (from to q : FilePath) (i : ℕ) (by_path : List (FilePath × ℕ))
    → get q (moved_paths from to i by_path)
      ≡ (if path_eq to q then some i else if path_eq from q then none else get q by_path)
get-moved_paths from to q i by_path = ground (
  arith,
  get-put to q i (del to (del from by_path)),
  get-del to q (del from by_path),
  get-del from q by_path,
)

get-moved_inodes :
    (to : FilePath) (i j : ℕ) (old : Option ℕ) (inodes : List (ℕ × FilePath))
    → get j (moved_inodes to i old inodes) ≡ (
        if i == j
        then some to
        else elim old [ none ↦ get j inodes | some k ↦ if k == j then none else get j inodes ])
unfolding moved_inodes
get-moved_inodes to i j none inodes = get-put i j to inodes
get-moved_inodes to i j (some k) inodes =
    ground (arith, get-put i j to (del k inodes), get-del k j inodes)

module _ (inodes : List (ℕ × FilePath)) (by_path : List (FilePath × ℕ)) (next : ℕ)
    (c : IsConsistent inodes by_path next) (from to : FilePath) (i : ℕ)
    (here : get from by_path ≡ some i) (below : from ≢ []) (below' : to ≢ []) where
  move_none :
      get to (del from by_path) ≡ none
      → IsConsistent (moved_inodes to i none inodes) (moved_paths from to i by_path) next
  move_none e = record {
    path_known = λ q j h. ground (
      arith,
      h,
      here,
      get-moved_paths from to q i by_path,
      get-moved_inodes to i j none inodes,
      path_eq_iff to q,
      path_eq_iff from q,
      c.path_known q j,
      c.path_known from i,
    );
    ino_known = λ j q h. ground (
      arith,
      h,
      here,
      e,
      get-del from to by_path,
      get-moved_paths from to q i by_path,
      get-moved_inodes to i j none inodes,
      path_eq_iff to q,
      path_eq_iff from q,
      path_eq_iff from to,
      c.ino_known j q,
    );
    below_next = λ j q h. ground (
      arith,
      h,
      here,
      get-moved_inodes to i j none inodes,
      c.below_next j q,
      c.path_known from i,
      c.below_next i from,
    );
    root =
        ground
          (arith, here, below, get-moved_inodes to i 1 none inodes, c.path_known from i, c.root);
  }

  move_some :
      (old : ℕ)
      → get to (del from by_path) ≡ some old
      → IsConsistent (moved_inodes to i (some old) inodes) (moved_paths from to i by_path) next
  move_some old e = record {
    path_known = λ q j h. ground (
      arith,
      h,
      here,
      e,
      get-del from to by_path,
      get-moved_paths from to q i by_path,
      get-moved_inodes to i j (some old) inodes,
      path_eq_iff to q,
      path_eq_iff from q,
      path_eq_iff from to,
      c.path_known q j,
      c.path_known from i,
      c.path_known to old,
    );
    ino_known = λ j q h. ground (
      arith,
      h,
      here,
      e,
      get-del from to by_path,
      get-moved_paths from to q i by_path,
      get-moved_inodes to i j (some old) inodes,
      path_eq_iff to q,
      path_eq_iff from q,
      path_eq_iff from to,
      c.ino_known j q,
    );
    below_next = λ j q h. ground (
      arith,
      h,
      here,
      get-moved_inodes to i j (some old) inodes,
      c.below_next j q,
      c.path_known from i,
      c.below_next i from,
    );
    root = ground (
      arith,
      here,
      e,
      below,
      below',
      get-del from to by_path,
      path_eq_iff from to,
      get-moved_inodes to i 1 (some old) inodes,
      c.path_known from i,
      c.path_known to old,
      c.root,
    );
  }

pub move_paths-IsConsistent :
    (from to : FilePath) (i : ℕ) (fs : SolonFs)
    → Holds IsConsistent fs
    → get from fs.by_path ≡ some i
    → from ≢ []
    → to ≢ []
    → Holds IsConsistent (move_paths from to i fs)
unfolding move_paths moved_inodes
move_paths-IsConsistent from to i fs c here below below' =
    elim (Option-cases (get to (del from fs.by_path))) [
      | inl e ↦
          rw (move_paths, e)
            (move_none fs.inodes fs.by_path fs.next_ino c from to i here below below' e)
      | inr (old, e) ↦
          rw (move_paths, e)
            (move_some fs.inodes fs.by_path fs.next_ino c from to i here below below' old e)
    ]

-- The other paths keep their inodes.
pub get-move_paths :
    (from to q : FilePath) (i k : ℕ) (fs : SolonFs)
    → get q fs.by_path ≡ some k
    → q ≢ from
    → q ≢ to
    → get q (move_paths from to i fs).by_path ≡ some k
unfolding move_paths
get-move_paths from to q i k fs e a b =
    let others : get q (moved_paths from to i fs.by_path) ≡ some k = ground (
      arith,
      e,
      a,
      b,
      get-moved_paths from to q i fs.by_path,
      path_eq_iff to q,
      path_eq_iff from q,
    ) in
    elim (Option-cases (get to (del from fs.by_path))) [
      | inl n ↦ rw (move_paths, n) others
      | inr (old, n) ↦ rw (move_paths, n) others
    ]
