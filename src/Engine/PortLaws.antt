-- ===== src/Engine/PortLaws.antt =====
-- The ports of the shared drives, crates/solon-service/src/engine.rs.
use solon.Base.{
  ℕ, zero, suc, ◌+◌, ◌≤◌, ◌<◌, ◌≡◌, refl, sym, ap, ◌∙◌, ◌⊎◌, inl, inr, Bool, true, false, Option,
  none, some, List, [], ◌∷◌, arith, leb, ◌==◌, if◌then◌else◌, Bool-cases, Option-cases, length, any,
}
use mathlib.Core.Option.{some-injective}
use solon.Base.Text.{Bytes, str_eq}
use solon.Base.TextEq.{str_eq_iff}
use solon.Base.Map.{Map, lookup, insert, lookup-insert}
use solon.Engine.{HostShare, guest_path_for, host_root_of}
use solon.Engine.Shares.{
  Machine, Shares, Answers, share_of, boot_from, boot_shares, shares_by_name, ports_of, is_used,
  find_free, free_port, add_drive, share_drive, ensure_share,
}

-- How many of some ports are not below `p`.
count_from : ℕ → List ℕ → ℕ
count_from p [] = 0
count_from p (q ∷ l) = (if leb p q then 1 else 0) + count_from p l

count_from-suc : (p : ℕ) (l : List ℕ) → count_from (p + 1) l ≤ count_from p l
unfolding count_from
count_from-suc p [] = omega arith
count_from-suc p (q ∷ l) = ground (arith, count_from-suc p l)

count_from-used : (p : ℕ) (l : List ℕ) → is_used p l ≡ true → count_from (p + 1) l < count_from p l
unfolding count_from any
count_from-used p [] h = ground arith
count_from-used p (q ∷ l) h = elim (Bool-cases (q == p)) [
  | inl e ↦ ground (arith, count_from-suc p l)
  | inr e ↦ ground (arith, count_from-used p l, h)
]

count_from-length : (p : ℕ) (l : List ℕ) → count_from p l ≤ length l
unfolding count_from
count_from-length p [] = omega arith
count_from-length p (q ∷ l) = ground (arith, count_from-length p l)

-- The search ends within its fuel, at a port that is not in use.
find_free-some :
    (f p : ℕ) (l : List ℕ)
    → count_from p l < f
    → (q : ℕ) × (find_free f p l ≡ some q) × (is_used q l ≡ false)
unfolding find_free
find_free-some zero p l h = absurd (omega arith)
find_free-some (suc f) p l h = elim (Bool-cases (is_used p l)) [
  | inl e ↦
      let (q, x, y) = find_free-some f (p + 1) l (omega (arith, count_from-used p l e)) in
      (q, rw e x, y)
  | inr e ↦ (p, rw e refl, e)
]

free_port-unused : (m : Map HostShare) → is_used (free_port m) (ports_of m) ≡ false
unfolding free_port
free_port-unused m =
    let (q, x, y) =
      find_free-some (length (ports_of m) + 1) 9100 (ports_of m)
        (omega (arith, count_from-length 9100 (ports_of m))) in
    rw x y

lookup-used :
    (d : Bytes) (m : Map HostShare) (s : HostShare)
    → lookup d m ≡ some s
    → is_used s.port (ports_of m) ≡ true
unfolding lookup any
lookup-used d [] s h = ground (arith, h)
lookup-used d ((e, t) ∷ m) s h = elim (Bool-cases (str_eq e d)) [
  | inl q ↦
      let x : some t ≡ some s = rw q at h in
      let same : t ≡ s = some-injective _ _ x in rw same (ground arith)
  | inr q ↦ let x : lookup d m ≡ some s = rw q at h in ground (arith, lookup-used d m s x)
]

-- Each share has the name of its drive, and no two drives have one port.
pub record IsWellShared (m : Map HostShare) : Type 0 where
  pub named : (d : Bytes) (s : HostShare) → lookup d m ≡ some s → s.name ≡ d
  pub one_port :
      (d e : Bytes) (s t : HostShare)
      → lookup d m ≡ some s
      → lookup e m ≡ some t
      → s.port ≡ t.port
      → d ≡ e

insert-other :
    (d e : Bytes) (s t : HostShare) (m : Map HostShare)
    → lookup e (insert d s m) ≡ some t
    → ((d ≡ e) × (s ≡ t)) ⊎ (lookup e m ≡ some t)
insert-other d e s t m h =
    let found_in : lookup e (insert d s m) ≡ (if str_eq d e then some s else lookup e m) =
      lookup-insert d e s m in
    elim (Bool-cases (str_eq d e)) [
      | inl q ↦
          let x : some s ≡ some t = (sym (rw q at found_in)) ∙ h in
          inl (ground (arith, str_eq_iff d e, q), some-injective _ _ x)
      | inr q ↦ inr ((sym (rw q at found_in)) ∙ h)
    ]

insert-IsWellShared :
    (d : Bytes) (s : HostShare) (m : Map HostShare)
    → s.name ≡ d
    → ((e : Bytes) (t : HostShare) → lookup e m ≡ some t → t.port ≡ s.port → ⊥)
    → IsWellShared m
    → IsWellShared (insert d s m)
insert-IsWellShared d s m n free w = record {
  named = λ e t h. elim (insert-other d e s t m h) [
    | inl (q, x) ↦ ap (λ z. z.name) (sym x) ∙ n ∙ q
    | inr x ↦ w.named e t x
  ];
  one_port = λ e e' t t' h h' same. elim (insert-other d e s t m h) [
    | inl (q, x) ↦ elim (insert-other d e' s t' m h') [
      | inl (q', x') ↦ sym q ∙ q'
      | inr x' ↦ absurd (free e' t' x' (sym same ∙ ap (λ z. z.port) (sym x)))
    ]
    | inr x ↦ elim (insert-other d e' s t' m h') [
      | inl (q', x') ↦ absurd (free e t x (same ∙ ap (λ z. z.port) (sym x')))
      | inr x' ↦ w.one_port e e' t t' x x' same
    ]
  ];
}

abbrev pub shares_of : Option Machine → Map HostShare
shares_of none = []
shares_of (some m) = m.shares

empty-IsWellShared : IsWellShared []
unfolding lookup
empty-IsWellShared = record {
  named = λ d s h. ground (arith, h);
  one_port = λ d e s t h h' same. ground (arith, h);
}

share_of-IsWellShared :
    (d : Bytes) (m : Map HostShare)
    → IsWellShared m
    → IsWellShared (insert d (share_of d (free_port m)) m)
share_of-IsWellShared d m w =
    insert-IsWellShared d (share_of d (free_port m)) m refl
      (λ e t h same.
        taken (lookup-used e m t h) (ap (λ p. is_used p (ports_of m)) same ∙ free_port-unused m))
      w
  where
    taken : {b : Bool} → b ≡ true → b ≡ false → ⊥
    taken x y = ground (arith, x, y)

add_drive-IsWellShared :
    (a : Answers) (d g : Bytes) (m : Machine) (r : List Bytes)
    → IsWellShared m.shares
    → IsWellShared (shares_of (add_drive a d g m r).0.running)
unfolding add_drive
add_drive-IsWellShared a d g m r w = elim (Bool-cases a.add_share) [
  | inr e ↦ rw (add_drive, e) w
  | inl e ↦ elim (Bool-cases a.mount_share) [
    | inr k ↦ elim (Bool-cases a.remove_share) [
      | inl x ↦ rw (add_drive, e, k, x) w
      | inr x ↦ rw (add_drive, e, k, x) w
    ]
    | inl k ↦ rw (add_drive, e, k) (share_of-IsWellShared d m.shares w)
  ]
]

share_drive-IsWellShared :
    (a : Answers) (d g : Bytes) (s : Shares)
    → IsWellShared (shares_of s.running)
    → IsWellShared (shares_of (share_drive a d g s).0.running)
unfolding share_drive
share_drive-IsWellShared a d g s w = go s.running refl
  where
    go :
        (o : Option Machine)
        → s.running ≡ o
        → IsWellShared (shares_of (share_drive a d g s).0.running)
    go none e = rw (share_drive, e) w
    go (some m) e =
        let well : IsWellShared m.shares = rw e at w in
        elim (Option-cases (lookup d m.shares)) [
          | inr (x, k) ↦ rw (share_drive, e, k) w
          | inl k ↦ rw (share_drive, e, k) (add_drive-IsWellShared a d g m s.remembered well)
        ]

-- Whatever Windows, the hypervisor and the agent answer, a request to share a drive keeps the ports of
-- the drives that the service knows apart; the hypervisor may have more shares.
pub ensure_share-IsWellShared :
    (a : Answers) (host_path : Bytes) (s : Shares)
    → IsWellShared (shares_of s.running)
    → IsWellShared (shares_of (ensure_share a host_path s).0.running)
unfolding ensure_share
ensure_share-IsWellShared a host_path s w = elim (Option-cases (guest_path_for host_path)) [
  | inl e ↦ rw (ensure_share, e) w
  | inr ((d, g), e) ↦ elim (Bool-cases (a.present (host_root_of d))) [
    | inl k ↦ rw (ensure_share, e, k) (share_drive-IsWellShared a d g s w)
    | inr k ↦ rw (ensure_share, e, k) w
  ]
]

-- All ports are below `k`.
AreBelow : ℕ → Map HostShare → Type 0
AreBelow k m = (d : Bytes) (s : HostShare) → lookup d m ≡ some s → s.port < k

boot_from-IsWellShared :
    (present : Bytes → Bool) (k : ℕ) (ds : List Bytes) (m : Map HostShare)
    → IsWellShared m
    → AreBelow k m
    → IsWellShared (shares_by_name (boot_from present k ds) m)
unfolding boot_from shares_by_name AreBelow
boot_from-IsWellShared present k [] m w b = w
boot_from-IsWellShared present k (d ∷ ds) m w b = elim (Bool-cases (present (host_root_of d))) [
  | inr e ↦ rw e (boot_from-IsWellShared present k ds m w b)
  | inl e ↦
      let s = share_of d k in
      rw e (
        boot_from-IsWellShared present (k + 1) ds (insert d s m)
          (insert-IsWellShared d s m refl (λ x t h same. absurd (omega (arith, b x t h, same))) w)
          (λ x t h. elim (insert-other d x s t m h) [
            | inl (q, y) ↦ omega (arith, ap (λ z. z.port) y)
            | inr y ↦ omega (arith, b x t y)
          ]))
]

-- The drives that are declared at the start are well shared, whichever are there and however often
-- one is remembered.
pub boot_shares-IsWellShared :
    (present : Bytes → Bool) (drives : List Bytes)
    → IsWellShared (shares_by_name (boot_shares present drives) [])
unfolding boot_shares AreBelow lookup
boot_shares-IsWellShared present drives =
    boot_from-IsWellShared present 9100 drives [] empty-IsWellShared (λ d s h. ground (arith, h))
