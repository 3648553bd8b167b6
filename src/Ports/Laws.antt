-- ===== src/Ports/Laws.antt =====
-- `PortRelays::apply`, crates/solon-service/src/ports.rs.
use solon.Base.{
  ℕ, ◌≡◌, refl, sym, ap, ◌∙◌, inl, inr, Bool, true, false, ◌&&◌, ◌||◌, Option, none, some, List, [],
  ◌∷◌, arith, if◌then◌else◌, Bool-cases, Option-cases,
}
use solon.Base.Text.{codes, str_eq}
use solon.Ports.Opening.{IsStarted, Opened, open_all-Opened}
use solon.Ports.Keys.{find-equal, find-without}
use mathlib.Core.Path.{subst, subst₂}
use solon.Protocol.{PortBinding}
use solon.Ports.{
  Key, key_eq, find, without, PortRelay, PortRelays, key_of, wanted_from, same_target, is_stale,
  stale, close_key, close_all, open_key, open_all, apply,
}

-- No two relays have the same key.
abbrev pub Distinct : List (Key × PortRelay) → Type 0
Distinct [] = Unit
Distinct ((k, r) ∷ m) = (find k m ≡ none) × Distinct m

unfoldable mem_key : Key → List Key → Bool
mem_key j [] = false
mem_key j (k ∷ ks) = key_eq k j || mem_key j ks

find-close_key :
    (k j : Key) (s : PortRelays)
    → find j (close_key k s).active ≡ (if key_eq k j then none else find j s.active)
unfolding close_key
find-close_key k j s = elim (Option-cases (find k s.active)) [
  | inl e ↦ rw (close_key, e) (ground (arith, e, find-equal k j s.active))
  | inr (r, e) ↦ rw (close_key, e) (find-without k j s.active)
]

find-close_all :
    (ks : List Key) (j : Key) (s : PortRelays)
    → find j (close_all ks s).active ≡ (if mem_key j ks then none else find j s.active)
unfolding close_all mem_key
find-close_all [] j s = refl
find-close_all (k ∷ ks) j s =
    ground (arith, find-close_all ks j (close_key k s), find-close_key k j s)

-- Whether the relay of a key is closed.
abbrev closes : Option PortBinding → Option PortRelay → Bool
closes w none = false
closes w (some r) = is_stale w r

mem_key-stale :
    (w : List (Key × PortBinding)) (j : Key) (m : List (Key × PortRelay))
    → Distinct m
    → mem_key j (stale w m) ≡ closes (find j w) (find j m)
unfolding mem_key stale find
mem_key-stale w j [] d = refl
mem_key-stale w j ((k, r) ∷ m) (e, d) = elim (Bool-cases (key_eq k j)) [
  | inl q ↦
      rw q (ground (arith, mem_key-stale w j m d, e, q, find-equal k j m q, find-equal k j w q))
  | inr q ↦ rw q (ground (arith, mem_key-stale w j m d, q))
]

-- Closing relays starts no task.
close_all-next : (ks : List Key) (s : PortRelays) → (close_all ks s).next ≡ s.next
unfolding close_all close_key
close_all-next [] s = refl
close_all-next (k ∷ ks) s = elim (Option-cases (find k s.active)) [
  | inl e ↦ close_all-next ks (close_key k s) ∙ rw (close_key, e)
  | inr (r, e) ↦ close_all-next ks (close_key k s) ∙ rw (close_key, e)
]

abbrev Relayed : ℕ → Option PortRelay → PortBinding → Option PortRelay → Bool → Type 0
Relayed n old b new true = new ≡ old
Relayed n old b new false = IsStarted n b new

-- What becomes of the relay of a key, from the old relay and the wanted binding: none is left when
-- none is wanted, a relay with the wanted target stays with its task, and else a new one starts.
abbrev pub IsApplied : ℕ → Option PortRelay → Option PortBinding → Option PortRelay → Type 0
IsApplied n old none new = new ≡ none
IsApplied n none (some b) new = IsStarted n b new
IsApplied n (some r) (some b) new = Relayed n (some r) b new (same_target r.binding b)

applied :
    (n : ℕ) (old : Option PortRelay) (w : Option PortBinding) (new : Option PortRelay)
    → Opened n (if closes w old then none else old) w new
    → IsApplied n old w new
unfolding is_stale
applied n none none new h = h
applied n (some r) none new h = h
applied n none (some b) new h = h
applied n (some r) (some b) new h = elim (Bool-cases (same_target r.binding b)) [
  | inl e ↦ rw e (rw e at h)
  | inr e ↦ rw e (rw e at h)
]

-- The later of two answers.
abbrev or_this : Option PortBinding → Option PortBinding → Option PortBinding
or_this none o = o
or_this (some b) o = some b

-- The last TCP binding of the list with the key.
unfoldable pub last_binding : Key → List PortBinding → Option PortBinding
last_binding k [] = none
last_binding k (b ∷ bs) =
    or_this (last_binding k bs)
      (if str_eq b.protocol (codes "tcp") && key_eq (key_of b) k then some b else none)

or_this-none : (o : Option PortBinding) → or_this o none ≡ o
or_this-none none = refl
or_this-none (some b) = refl

or_this-put :
    (o : Option PortBinding) (q : Bool) (b : PortBinding) (u v : Option PortBinding)
    → u ≡ (if q then none else v)
    → or_this o (if q then some b else u) ≡ or_this (or_this o (if q then some b else none)) v
or_this-put (some c) q b u v e = refl
or_this-put none true b u v e = refl
or_this-put none false b u v e = e

find-wanted_from :
    (k : Key) (bs : List PortBinding) (m : List (Key × PortBinding))
    → find k (wanted_from bs m) ≡ or_this (last_binding k bs) (find k m)
unfolding wanted_from last_binding find
find-wanted_from k [] m = refl
find-wanted_from k (b ∷ bs) m = elim (Bool-cases (str_eq b.protocol (codes "tcp"))) [
  | inr t ↦ rw t (
      find-wanted_from k bs m
      ∙ ap (λ z. or_this z (find k m)) (sym (or_this-none (last_binding k bs))))
  | inl t ↦ rw t (
      find-wanted_from k bs ((key_of b, b) ∷ without (key_of b) m)
      ∙ or_this-put (last_binding k bs) (key_eq (key_of b) k) b _ _ (find-without (key_of b) k m))
]

IsApplied-from :
    (n n' : ℕ) (old mid : Option PortRelay) (w w' : Option PortBinding) (new : Option PortRelay)
    → n' ≡ n
    → mid ≡ (if closes w' old then none else old)
    → w' ≡ w
    → Opened n' mid w' new
    → IsApplied n old w new
IsApplied-from n n' old mid w w' new p q r h =
    subst (λ z. IsApplied n old z new) r
      (applied n old w' new (subst₂ (λ a b. Opened a b w' new) p q h))

-- After `apply`, a key has a relay exactly when a TCP binding of the list has that key. The last of
-- these counts: a relay that already led to its target is still there, with its task, and in all
-- other cases a new task listens for it. No two relays had the same key before.
pub apply-IsApplied :
    (bs : List PortBinding) (s : PortRelays) (k : Key)
    → Distinct s.active
    → IsApplied s.next (find k s.active) (last_binding k bs) (find k (apply bs s).active)
unfolding apply find
apply-IsApplied bs s k d =
    let w = wanted_from bs [] in
    let closed = close_all (stale w s.active) s in
    IsApplied-from s.next closed.next (find k s.active) (find k closed.active) (last_binding k bs)
      (find k w) _ (close_all-next (stale w s.active) s)
      (find-close_all (stale w s.active) k s
        ∙ ap (λ z. if z then none else find k s.active) (mem_key-stale w k s.active d))
      (find-wanted_from k bs [] ∙ or_this-none (last_binding k bs)) (open_all-Opened w closed k)

without-Distinct : (k : Key) (m : List (Key × PortRelay)) → Distinct m → Distinct (without k m)
unfolding without
without-Distinct k [] d = tt
without-Distinct k ((i, r) ∷ m) (e, d) = elim (Bool-cases (key_eq i k)) [
  | inl q ↦ rw q (without-Distinct k m d)
  | inr q ↦ rw q (ground (arith, find-without k i m, e), without-Distinct k m d)
]

close_all-Distinct :
    (ks : List Key) (s : PortRelays) → Distinct s.active → Distinct (close_all ks s).active
unfolding close_all close_key
close_all-Distinct [] s d = d
close_all-Distinct (k ∷ ks) s d =
    close_all-Distinct ks (close_key k s) (elim (Option-cases (find k s.active)) [
      | inl e ↦ rw (close_key, e) d
      | inr (r, e) ↦ rw (close_key, e) (without-Distinct k s.active d)
    ])

open_all-Distinct :
    (w : List (Key × PortBinding)) (s : PortRelays)
    → Distinct s.active
    → Distinct (open_all w s).active
unfolding open_all open_key
open_all-Distinct [] s d = d
open_all-Distinct ((k, b) ∷ w) s d =
    open_all-Distinct w (open_key k b s) (elim (Option-cases (find k s.active)) [
      | inr (r, e) ↦ rw (open_key, e) d
      | inl e ↦ rw (open_key, e) (e, d)
    ])

-- `apply` leaves no two relays with the same key, when there were none before.
pub apply-Distinct :
    (bs : List PortBinding) (s : PortRelays) → Distinct s.active → Distinct (apply bs s).active
unfolding apply
apply-Distinct bs s d = open_all-Distinct _ _ (close_all-Distinct _ s d)
