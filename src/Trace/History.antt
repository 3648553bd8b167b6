-- ===== src/Trace/History.antt =====
-- What the hub remembers: the last facts, and the last state of the probes.
use solon.Base.TextEq.{str_eq_sound}
use solon.Base.{
  ℕ, ◌+◌, ◌-◌, ◌≤◌, ◌<◌, ◌≡◌, refl, sym, ap, ◌∙◌, ◌≢◌, ◌⊎◌, inl, inr, Bool, true, false, not,
  Option, none, some, List, [], ◌∷◌, ◌++◌, append_assoc, append-nil, arith, ◌==◌, if◌then◌else◌,
  ==_iff, Bool-cases, length, drop, retain, All, length-append, length-drop, drop-drop,
  drop-append_le,
}
use solon.Protocol.{TraceEvent, status, connection, http, project}
use solon.Trace.{
  str_eq, Bytes, pop_front, TraceHub, history, keep, push, new, clear, backlog, is_of,
}

abbrev pub is_fact : TraceEvent → Bool
is_fact (status _ _) = false
is_fact _ = true

-- The last `n` elements.
abbrev pub last {ℓ} : {A : Type ℓ} → ℕ → List A → List A
last n xs = drop (length xs - n) xs

last-last {ℓ} : {A : Type ℓ} (n : ℕ) (xs ys : List A) → last n (last n xs ++ ys) ≡ last n (xs ++ ys)
last-last n xs ys =
    let k = length xs - n in
    let a : drop k xs ++ ys ≡ drop k (xs ++ ys) = sym (drop-append_le k xs ys (omega arith)) in
    let e : k + (length (xs ++ ys) - k - n) ≡ length (xs ++ ys) - n =
      omega (arith, length-append xs ys) in
    rw (a, drop-drop, length-drop, e)

keep-last :
    (recent : List TraceEvent) (e : TraceEvent)
    → length recent ≤ history
    → keep recent e ≡ last history (recent ++ (e ∷ []))
unfolding keep
keep-last recent e h = elim (Bool-cases (length recent == history)) [
  | inl full ↦
      let k : length (recent ++ (e ∷ [])) - history ≡ 1 =
        omega (arith, length-append recent (e ∷ []), (==_iff _ _).0 full) in
      rw (full, k) (pop recent (omega (arith, (==_iff _ _).0 full)))
  | inr room ↦
      let lt : length recent < history = ground arith in
      let k : length (recent ++ (e ∷ [])) - history ≡ 0 =
        omega (arith, length-append recent (e ∷ [])) in
      rw (room, k)
]
  where
    pop : (l : List TraceEvent) → 0 < length l → pop_front l ++ (e ∷ []) ≡ drop 1 (l ++ (e ∷ []))
    pop [] h = absurd (omega arith)
    pop (x ∷ l) h = refl

length-last {ℓ} : {A : Type ℓ} (n : ℕ) (xs : List A) → length (last n xs) ≤ n
length-last n xs = omega (arith, length-drop (length xs - n) xs)

unfoldable pub push_all : TraceHub → List TraceEvent → TraceHub
push_all h [] = h
push_all h (e ∷ es) = push_all (push h e) es

-- The last state of the probes among the events, or `s`.
abbrev pub last_state : TraceEvent → List TraceEvent → TraceEvent
last_state s [] = s
last_state s (e ∷ es) = last_state (if is_fact e then s else e) es

record Remembers (h : TraceHub) (facts : List TraceEvent) (state : TraceEvent) : Type 0 where
  facts_kept : h.recent ≡ last history facts
  state_kept : h.last_status ≡ state

keep-Remembers :
    (recent facts : List TraceEvent) (e : TraceEvent)
    → recent ≡ last history facts
    → keep recent e ≡ last history (facts ++ (e ∷ []))
keep-Remembers recent facts e h =
    keep-last recent e (rw h (length-last history facts))
    ∙ (rw h (last-last history facts (e ∷ [])))

push-Remembers :
    (h : TraceHub) (facts : List TraceEvent) (state : TraceEvent) (e : TraceEvent)
    → Remembers h facts state
    → Remembers
        (push h e)
        (facts ++ (if is_fact e then e ∷ [] else []))
        (if is_fact e then state else e)
unfolding push
push-Remembers h facts state (status a d) r = record {
  facts_kept = rw append-nil r.facts_kept;
  state_kept = refl;
}
push-Remembers h facts state (connection c) r = record {
  facts_kept = keep-Remembers h.recent facts (connection c) r.facts_kept;
  state_kept = r.state_kept;
}
push-Remembers h facts state (http x) r = record {
  facts_kept = keep-Remembers h.recent facts (http x) r.facts_kept;
  state_kept = r.state_kept;
}

append-if :
    (b : Bool) (facts : List TraceEvent) (e : TraceEvent) (rest : List TraceEvent)
    → (facts ++ (if b then e ∷ [] else [])) ++ rest ≡ facts ++ (if b then e ∷ rest else rest)
append-if true facts e rest = append_assoc facts (e ∷ []) rest
append-if false facts e rest = append_assoc facts [] rest

push_all-Remembers :
    (es : List TraceEvent) (h : TraceHub) (facts : List TraceEvent) (state : TraceEvent)
    → Remembers h facts state
    → Remembers (push_all h es) (facts ++ retain is_fact es) (last_state state es)
unfolding push_all retain
push_all-Remembers [] h facts state r = rw append-nil r
push_all-Remembers (e ∷ es) h facts state r =
    rw (← append-if (is_fact e) facts e (retain is_fact es))
      (push_all-Remembers es (push h e) _ _ (push-Remembers h facts state e r))

-- After any events, the backlog of a new subscriber is the last state of the probes, then the last
-- 20 000 facts in the order in which they were pushed, and no state among them.
pub backlog-push_all :
    (es : List TraceEvent)
    → backlog (push_all new es) ≡ last_state new.last_status es ∷ last history (retain is_fact es)
unfolding backlog
backlog-push_all es =
    let r =
      push_all-Remembers es new [] new.last_status
        (unfold new in record { facts_kept = refl; state_kept = refl }) in
    rw (r.state_kept, r.facts_kept)

retain-retain :
    (p q : TraceEvent → Bool) (l : List TraceEvent)
    → ((e : TraceEvent) → p e ≡ true → q e ≡ true)
    → retain p (retain q l) ≡ retain p l
unfolding retain
retain-retain p q [] h = refl
retain-retain p q (e ∷ l) h = elim (Bool-cases (q e)) [
  | inl k ↦ rw k (ap (λ r. if p e then e ∷ r else r) (retain-retain p q l h))
  | inr k ↦ rw k (rw (not-p (Bool-cases (p e)) k) (retain-retain p q l h))
]
  where
    not-p : (p e ≡ true) ⊎ (p e ≡ false) → q e ≡ false → p e ≡ false
    not-p (inl t) k = cc (h e t)
    not-p (inr f) k = f

is_of-other : (a b : Bytes) (o : Option Bytes) → a ≢ b → is_of b o ≡ true → not (is_of a o) ≡ true
is_of-other a b none ne h = refl
is_of-other a b (some q) ne h = elim (Bool-cases (str_eq q a)) [
  | inl e ↦ absurd (ne (sym (str_eq_sound q a e) ∙ str_eq_sound q b h))
  | inr e ↦ rw e
]

retain-none : (p : TraceEvent → Bool) (l : List TraceEvent) → All (λ e. p e ≡ true) (retain p l)
unfolding retain
retain-none p [] = tt
retain-none p (e ∷ l) = elim (Bool-cases (p e)) [
  | inl t ↦ rw t (t, retain-none p l)
  | inr f ↦ rw f (retain-none p l)
]

-- Clearing one project leaves no fact of it, leaves the facts of every other project as they were
-- and in their order, and leaves the state of the probes.
pub clear_project :
    (h : TraceHub) (a b : Bytes)
    → a ≢ b
    → All (λ e. not (is_of a (project e)) ≡ true) (clear h (some a)).recent
      × (retain (λ e. is_of b (project e)) (clear h (some a)).recent
          ≡ retain (λ e. is_of b (project e)) h.recent)
      × ((clear h (some a)).last_status ≡ h.last_status)
unfolding clear
clear_project h a b ne = (
  retain-none (λ e. not (is_of a (project e))) h.recent,
  retain-retain (λ e. is_of b (project e)) (λ e. not (is_of a (project e))) h.recent
      (λ e k. is_of-other a b (project e) ne k),
  refl,
)
