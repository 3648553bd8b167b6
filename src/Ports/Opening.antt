-- ===== src/Ports/Opening.antt =====
-- The second loop of `PortRelays::apply`, crates/solon-service/src/ports.rs: the relays that open.
use solon.Base.{
  ℕ, ◌+◌, ◌≤◌, ◌≡◌, refl, sym, ◌∙◌, inl, inr, true, false, Option, none, some, List, [], ◌∷◌, arith,
  if◌then◌else◌, Bool-cases, Option-cases,
}
use solon.Ports.Keys.{find-equal}
use mathlib.Core.Path.{subst₂}
use solon.Protocol.{PortBinding}
use solon.Ports.{Key, key_eq, find, PortRelay, PortRelays, started, open_key, open_all}

-- A relay with a new task listens for the binding.
abbrev pub IsStarted : ℕ → PortBinding → Option PortRelay → Type 0
IsStarted n b new = (t : ℕ) × ((new ≡ some (started b t)) × (n ≤ t))

abbrev pub Opened : ℕ → Option PortRelay → Option PortBinding → Option PortRelay → Type 0
Opened n (some r) w new = new ≡ some r
Opened n none none new = new ≡ none
Opened n none (some b) new = IsStarted n b new

Opened-later :
    (n : ℕ) (old : Option PortRelay) (w : Option PortBinding) (new : Option PortRelay)
    → Opened (n + 1) old w new
    → Opened n old w new
Opened-later n (some r) w new h = h
Opened-later n none none new h = h
Opened-later n none (some b) new (t, (e, l)) = (t, (e, omega arith))

Opened-self : (n : ℕ) (old : Option PortRelay) → Opened n old none old
Opened-self n none = refl
Opened-self n (some r) = refl

Opened-some :
    (n : ℕ) (old : Option PortRelay) (r : PortRelay) (w v : Option PortBinding)
    (new : Option PortRelay)
    → old ≡ some r
    → Opened n old w new
    → Opened n old v new
Opened-some n none r w v new e h = absurd (ground (arith, e))
Opened-some n (some q) r w v new e h = h

Opened-started :
    (n : ℕ) (old : Option PortRelay) (b : PortBinding) (new : Option PortRelay)
    → old ≡ none
    → new ≡ some (started b n)
    → Opened n old (some b) new
Opened-started n none b new e h = (n, (h, omega arith))
Opened-started n (some q) b new e h = absurd (ground (arith, e))

opened : PortRelays → Key → PortBinding → PortRelays
opened s k b = record {
  active = (k, started b s.next) ∷ s.active;
  aborted = s.aborted;
  next = s.next + 1;
}

open_key-some :
    (k : Key) (b : PortBinding) (s : PortRelays) (r : PortRelay)
    → find k s.active ≡ some r
    → open_key k b s ≡ s
unfolding open_key
open_key-some k b s r e = rw (open_key, e)

open_key-none :
    (k : Key) (b : PortBinding) (s : PortRelays)
    → find k s.active ≡ none
    → open_key k b s ≡ opened s k b
unfolding open_key opened
open_key-none k b s e = rw (open_key, e)

started_kept :
    (s : PortRelays) (j k : Key) (b : PortBinding) (w : List (Key × PortBinding))
    (new : Option PortRelay)
    → key_eq k j ≡ true
    → Opened (s.next + 1) (find j (opened s k b).active) (find j w) (new)
    → new ≡ some (started b s.next)
unfolding opened find
started_kept s j k b w new q h = rw q at h

other_kept :
    (s : PortRelays) (j k : Key) (b : PortBinding) (w : List (Key × PortBinding))
    (new : Option PortRelay)
    → key_eq k j ≡ false
    → Opened (s.next + 1) (find j (opened s k b).active) (find j w) (new)
    → Opened (s.next + 1) (find j s.active) (find j w) (new)
unfolding opened find
other_kept s j k b w new q h = rw q at h

open_all-cons :
    (k : Key) (b : PortBinding) (w : List (Key × PortBinding)) (s s' : PortRelays) (j : Key)
    (v : Option PortBinding)
    → open_key k b s ≡ s'
    → (if key_eq k j then some b else find j w) ≡ v
    → Opened s.next (find j s.active) v (find j (open_all w s').active)
    → Opened s.next
        (find j s.active)
        (find j ((k, b) ∷ w))
        (find j (open_all ((k, b) ∷ w) s).active)
unfolding open_all find
open_all-cons k b w s s' j v e f =
    subst₂ (λ z y. Opened s.next (find j s.active) y (find j (open_all w z).active)) (sym e) (sym f)

pub open_all-Opened :
    (w : List (Key × PortBinding)) (s : PortRelays) (j : Key)
    → Opened s.next (find j s.active) (find j w) (find j (open_all w s).active)
unfolding open_all find opened
open_all-Opened [] s j = Opened-self s.next (find j s.active)
open_all-Opened ((k, b) ∷ w) s j = elim (Option-cases (find k s.active)) [
  | inr (r, e) ↦ elim (Bool-cases (key_eq k j)) [
    | inl q ↦ open_all-cons k b w s s j (some b) (open_key-some k b s r e) (rw q) (
        Opened-some s.next (find j s.active) r (find j w) (some b) _
          (sym (find-equal k j s.active q) ∙ e) (open_all-Opened w s j))
    | inr q ↦
        open_all-cons k b w s s j (find j w) (open_key-some k b s r e) (rw q)
          (open_all-Opened w s j)
  ]
  | inl e ↦
      let again = open_all-Opened w (opened s k b) j in
      elim (Bool-cases (key_eq k j)) [
        | inl q ↦ open_all-cons k b w s (opened s k b) j (some b) (open_key-none k b s e) (rw q) (
            Opened-started s.next (find j s.active) b _ (sym (find-equal k j s.active q) ∙ e)
              (started_kept s j k b w _ q again))
        | inr q ↦
            open_all-cons k b w s (opened s k b) j (find j w) (open_key-none k b s e) (rw q)
              (Opened-later s.next (find j s.active) (find j w) _ (other_kept s j k b w _ q again))
      ]
]
