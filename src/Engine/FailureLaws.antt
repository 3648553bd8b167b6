-- ===== src/Engine/FailureLaws.antt =====
-- What a request to share a drive leaves, for the service and the hypervisor, crates/solon-service/src/engine.rs.
use solon.Base.{
  ◌≡◌, refl, ap, sym, ◌∙◌, [], ◌∷◌, All, if◌then◌else◌, inl, inr, Bool, true, false, Option, none,
  some, List, arith, Bool-cases, Option-cases,
}
use solon.Base.Text.{Bytes, str_eq}
use solon.Base.TextEq.{str_eq_iff}
use solon.Base.Map.{Map, lookup, insert, lookup-insert}
use solon.Engine.{HostShare, guest_path_for, host_root_of}
use solon.Engine.Shares.{
  Machine, Shares, Answers, ShareResult, shared, share_of, free_port, take_away, add_drive,
  share_drive, ensure_share,
}
use solon.Engine.PortLaws.{shares_of, IsWellShared, ensure_share-IsWellShared}

-- A call that does not share the drive.
abbrev pub is_success : ShareResult → Bool
is_success (shared i) = true
is_success _ = false

-- The names of some shares are not `d`.
abbrev NoneNamed : Bytes → List HostShare → Type 0
NoneNamed d l = All (λ t. str_eq t.name d ≡ false) l

take_away-NoneNamed : (s : HostShare) (l : List HostShare) → NoneNamed s.name l → take_away s l ≡ l
unfolding take_away
take_away-NoneNamed s [] h = refl
take_away-NoneNamed s (t ∷ l) (h, hs) = rw h (ap (λ z. t ∷ z) (take_away-NoneNamed s l hs))

take_away-first :
    (s : HostShare) (l : List HostShare) → NoneNamed s.name l → take_away s (s ∷ l) ≡ l
unfolding take_away
take_away-first s l h =
    let e : str_eq s.name s.name ≡ true = (str_eq_iff s.name s.name).1 refl in
    rw e (take_away-NoneNamed s l h)

-- Each share that the hypervisor has is the one that the service knows for its drive.
abbrev AreKnown : Map HostShare → List HostShare → Type 0
AreKnown m l = All (λ t. lookup t.name m ≡ some t) l

AreKnown-NoneNamed :
    (d : Bytes) (m : Map HostShare) (l : List HostShare)
    → lookup d m ≡ none
    → AreKnown m l
    → NoneNamed d l
AreKnown-NoneNamed d m [] h k = tt
AreKnown-NoneNamed d m (t ∷ l) h (k, ks) = (
  elim (Bool-cases (str_eq t.name d)) [
    | inl e ↦
        let same : t.name ≡ d = (str_eq_iff t.name d).0 e in
        let both : some t ≡ none = sym k ∙ ap (λ z. lookup z m) same ∙ h in absurd cc
    | inr e ↦ e
  ],
  AreKnown-NoneNamed d m l h ks,
)

AreKnown-insert :
    (d : Bytes) (s : HostShare) (m : Map HostShare) (l : List HostShare)
    → NoneNamed d l
    → AreKnown m l
    → AreKnown (insert d s m) l
AreKnown-insert d s m [] n k = tt
AreKnown-insert d s m (t ∷ l) (n, ns) (k, ks) =
    let other : str_eq d t.name ≡ false =
      ground (arith, n, str_eq_iff d t.name, str_eq_iff t.name d) in
    let found_in : lookup t.name (insert d s m)
        ≡ (if str_eq d t.name then some s else lookup t.name m) =
      lookup-insert d t.name s m in
    (found_in ∙ rw other k, AreKnown-insert d s m l ns ks)

abbrev pub hcs_of : Option Machine → List HostShare
hcs_of none = []
hcs_of (some m) = m.hcs

-- The drives of the running machine, for the service and for the hypervisor: the ports of the service
-- are apart, and the hypervisor has no share that the service does not know.
pub record IsSound (s : Shares) : Type 0 where
  pub shares : IsWellShared (shares_of s.running)
  pub in_hcs : AreKnown (shares_of s.running) (hcs_of s.running)

added-AreKnown :
    (d : Bytes) (m : Machine)
    → lookup d m.shares ≡ none
    → AreKnown m.shares m.hcs
    → AreKnown
        (insert d (share_of d (free_port m.shares)) m.shares)
        (share_of d (free_port m.shares) ∷ m.hcs)
added-AreKnown d m n k =
    let s = share_of d (free_port m.shares) in
    let self : str_eq d d ≡ true = (str_eq_iff d d).1 refl in
    let found_in : lookup d (insert d s m.shares)
        ≡ (if str_eq d d then some s else lookup d m.shares) =
      lookup-insert d d s m.shares in
    (
      found_in ∙ rw self refl,
      AreKnown-insert d s m.shares m.hcs (AreKnown-NoneNamed d m.shares m.hcs n k) k,
    )

-- What a call makes of a sound state: one that is sound, and the very same when it fails.
record Leaves (s : Shares) (result : Shares × ShareResult) : Type 0 where
  pub known : AreKnown (shares_of result.0.running) (hcs_of result.0.running)
  pub failed : is_success result.1 ≡ false → result.0 ≡ s

add_drive-Leaves :
    (a : Answers) (d g : Bytes) (m : Machine) (r : List Bytes)
    → a.remove_share ≡ true
    → lookup d m.shares ≡ none
    → AreKnown m.shares m.hcs
    → Leaves (record { running = some m; remembered = r }) (add_drive a d g m r)
unfolding add_drive
add_drive-Leaves a d g m r x n k = elim (Bool-cases a.add_share) [
  | inr e ↦ rw (add_drive, e) (record { known = k; failed = λ h. refl })
  | inl e ↦ elim (Bool-cases a.mount_share) [
    | inr o ↦
        let s = share_of d (free_port m.shares) in
        let taken = take_away-first s m.hcs (AreKnown-NoneNamed d m.shares m.hcs n k) in
        rw (add_drive, e, o, x, taken) (record { known = k; failed = λ h. refl })
    | inl o ↦
        rw (add_drive, e, o)
          (record { known = added-AreKnown d m n k; failed = λ h. absurd (ground (arith, h)) })
  ]
]

share_drive-Leaves :
    (a : Answers) (d g : Bytes) (s : Shares)
    → a.remove_share ≡ true
    → AreKnown (shares_of s.running) (hcs_of s.running)
    → Leaves s (share_drive a d g s)
unfolding share_drive
share_drive-Leaves a d g s x k = go s.running refl
  where
    go : (o : Option Machine) → s.running ≡ o → Leaves s (share_drive a d g s)
    go none e =
        rw (share_drive, e)
          (record {
            known = k;
            failed = λ h i. record { running = e i; remembered = s.remembered };
          })
    go (some m) e = elim (Option-cases (lookup d m.shares)) [
      | inr (t, f) ↦
          rw (share_drive, e, f)
            (record {
              known = k;
              failed = λ h i. record { running = e i; remembered = s.remembered };
            })
      | inl f ↦ rw (share_drive, e, f) (add_drive-Leaves a d g m s.remembered x f (rw e at k))
    ]

ensure_share-Leaves :
    (a : Answers) (host_path : Bytes) (s : Shares)
    → a.remove_share ≡ true
    → AreKnown (shares_of s.running) (hcs_of s.running)
    → Leaves s (ensure_share a host_path s)
unfolding ensure_share
ensure_share-Leaves a host_path s x k = elim (Option-cases (guest_path_for host_path)) [
  | inl e ↦ rw (ensure_share, e) (record { known = k; failed = λ h. refl })
  | inr ((d, g), e) ↦ elim (Bool-cases (a.present (host_root_of d))) [
    | inl p ↦ rw (ensure_share, e, p) (share_drive-Leaves a d g s x k)
    | inr p ↦ rw (ensure_share, e, p) (record { known = k; failed = λ h. refl })
  ]
]

-- As long as the hypervisor removes a share whose mount failed, a request to share a drive, whatever
-- else comes of it, leaves the ports of the drives that the service knows apart and the hypervisor
-- with no share but these, each with its port.
pub ensure_share-IsSound :
    (a : Answers) (host_path : Bytes) (s : Shares)
    → a.remove_share ≡ true
    → IsSound s
    → IsSound (ensure_share a host_path s).0
ensure_share-IsSound a host_path s x w = record {
  shares = ensure_share-IsWellShared a host_path s w.shares;
  in_hcs = (ensure_share-Leaves a host_path s x w.in_hcs).known;
}
