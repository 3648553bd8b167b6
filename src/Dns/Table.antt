-- ===== src/Dns/Table.antt =====
-- The table of names: `remember` and `name_of`. A moment is a number.
use solon.Base.{
  ℕ, suc, ◌+◌, ◌/◌, ◌≤◌, ◌<◌, ◌≡◌, refl, ap, ◌∙◌, ◌≢◌, ◌⊎◌, inl, inr, Bool, true, false, not, ◌&&◌,
  Option, none, some, List, [], ◌∷◌, arith, leb, if◌then◌else◌, leb→le, Bool-cases, length, take,
  All,
}
use mathlib.Core.Option
use solon.Base.Text.{Bytes, str_eq}
use mathlib.Core.Option
use solon.Base.TextEq.{str_eq_iff, str_eq_refl}
use solon.Base.Map.{Map, lookup, insert, remove, lookup-remove, lookup-insert}

abbrev pub max_names : ℕ
max_names = 4096

pub record Entry : Type 0 where
  pub name : Bytes
  pub seen : ℕ

-- one more among the elements sorted by age
unfoldable pub insert_by_age : Bytes × ℕ → List (Bytes × ℕ) → List (Bytes × ℕ)
insert_by_age x [] = x ∷ []
insert_by_age x (y ∷ ys) =
    let rest = insert_by_age x ys in if leb x.1 y.1 then x ∷ y ∷ ys else y ∷ rest

-- `by_age`, sorted
unfoldable pub by_age : Map Entry → List (Bytes × ℕ)
unfolding insert_by_age
by_age [] = []
by_age ((k, e) ∷ table) = insert_by_age (k, e.seen) (by_age table)

unfoldable pub remove_all : List (Bytes × ℕ) → Map Entry → Map Entry
unfolding remove
remove_all [] table = table
remove_all ((k, _) ∷ ks) table = remove_all ks (remove k table)

-- the older half goes
unfoldable pub forget_oldest : Map Entry → Map Entry
unfolding remove_all by_age
forget_oldest table = remove_all (take (max_names / 2) (by_age table)) table

abbrev pub is_known : Option Entry → Bool
is_known none = false
is_known (some _) = true

unfoldable pub remember : Bytes → Bytes → ℕ → Map Entry → Map Entry
unfolding forget_oldest insert lookup
remember ip name now table =
    insert ip (record { name = name; seen = now })
      (if leb max_names (length table) && not (is_known (lookup ip table))
        then forget_oldest table
        else table)

unfoldable pub name_of : Bytes → Map Entry → Option Bytes
unfolding lookup
name_of ip table = Option.map (λ e. e.name) (lookup ip table)

length-remove : (k : Bytes) (m : Map Entry) → length (remove k m) ≤ length m
unfolding remove
length-remove k [] = omega arith
length-remove k ((j, e) ∷ m) = ground (arith, length-remove k m)

length-remove_known :
    (k : Bytes) (m : Map Entry) → is_known (lookup k m) ≡ true → length (remove k m) < length m
unfolding remove lookup
length-remove_known k [] h = ground arith
length-remove_known k ((j, e) ∷ m) h = ground (arith, length-remove_known k m, length-remove k m)

length-remove_all : (ks : List (Bytes × ℕ)) (m : Map Entry) → length (remove_all ks m) ≤ length m
unfolding remove_all
length-remove_all [] m = omega arith
length-remove_all ((k, t) ∷ ks) m =
    omega (arith, length-remove_all ks (remove k m), length-remove k m)

lookup-remove_all :
    (ks : List (Bytes × ℕ)) (j : Bytes) (m : Map Entry)
    → (lookup j (remove_all ks m) ≡ lookup j m) ⊎ (lookup j (remove_all ks m) ≡ none)
unfolding remove_all
lookup-remove_all [] j m = inl refl
lookup-remove_all ((k, t) ∷ ks) j m =
    ground (arith, lookup-remove_all ks j (remove k m), lookup-remove k j m)

abbrev Known : Map Entry → Bytes × ℕ → Type 0
Known table x = is_known (lookup x.0 table) ≡ true

All-weaken :
    {P Q : Bytes × ℕ → Type 0}
    → ((x : Bytes × ℕ) → P x → Q x)
    → (l : List (Bytes × ℕ)) → All P l
    → All Q l
All-weaken f [] h = tt
All-weaken f (x ∷ l) h = (f x h.0, All-weaken f l h.1)

insert_by_age-All :
    (P : Bytes × ℕ → Type 0) (x : Bytes × ℕ) (l : List (Bytes × ℕ))
    → P x
    → All P l
    → All P (insert_by_age x l)
unfolding insert_by_age
insert_by_age-All P x [] p h = (p, tt)
insert_by_age-All P x (y ∷ ys) p h = elim (Bool-cases (leb x.1 y.1)) [
  | inl e ↦ rw e (p, h)
  | inr e ↦ rw e (h.0, insert_by_age-All P x ys p h.1)
]

Known-cons :
    (k : Bytes) (e : Entry) (m : Map Entry) (x : Bytes × ℕ) → Known m x → Known ((k, e) ∷ m) x
unfolding lookup
Known-cons k e m x h = ground (arith, h)

Known-head : (k : Bytes) (e : Entry) (m : Map Entry) (t : ℕ) → Known ((k, e) ∷ m) (k, t)
unfolding lookup
Known-head k e m t = rw (str_eq_refl k)

by_age-Known : (table : Map Entry) → All (Known table) (by_age table)
unfolding by_age
by_age-Known [] = tt
by_age-Known ((k, e) ∷ table) =
    insert_by_age-All (Known ((k, e) ∷ table)) (k, e.seen) (by_age table)
      (Known-head k e table e.seen)
      (All-weaken (Known-cons k e table) (by_age table) (by_age-Known table))

length-insert_by_age :
    (x : Bytes × ℕ) (l : List (Bytes × ℕ)) → length (insert_by_age x l) ≡ suc (length l)
unfolding insert_by_age
length-insert_by_age x [] = refl
length-insert_by_age x (y ∷ ys) = ground (arith, length-insert_by_age x ys)

length-by_age : (table : Map Entry) → length (by_age table) ≡ length table
unfolding by_age
length-by_age [] = refl
length-by_age ((k, e) ∷ table) =
    length-insert_by_age (k, e.seen) (by_age table) ∙ ap suc (length-by_age table)

remove_all-shorter :
    (ks : List (Bytes × ℕ)) (table : Map Entry)
    → All (Known table) ks
    → 0 < length ks
    → length (remove_all (take (max_names / 2) ks) table) < length table
unfolding remove_all
remove_all-shorter [] table h p = absurd (omega arith)
remove_all-shorter ((k, t) ∷ ks) table h p =
    omega
      (arith, length-remove_all (take 2047 ks) (remove k table), length-remove_known k table h.0)

forget_oldest-shorter :
    (table : Map Entry) → 0 < length table → length (forget_oldest table) < length table
unfolding forget_oldest
forget_oldest-shorter table p =
    remove_all-shorter (by_age table) table (by_age-Known table)
      (omega (arith, length-by_age table))

length-insert : (k : Bytes) (e : Entry) (m : Map Entry) → length (insert k e m) ≤ 1 + length m
unfolding insert
length-insert k e m = omega (arith, length-remove k m)

length-insert_known :
    (k : Bytes) (e : Entry) (m : Map Entry)
    → is_known (lookup k m) ≡ true
    → length (insert k e m) ≤ length m
unfolding insert
length-insert_known k e m h = omega (arith, length-remove_known k m h)

length-remember :
    (ip name : Bytes) (now : ℕ) (table : Map Entry)
    → length table ≤ max_names
    → length (remember ip name now table) ≤ max_names
unfolding remember
length-remember ip name now table h = elim (Bool-cases (is_known (lookup ip table))) [
  | inl k ↦ ground (arith, length-insert_known ip (record { name = name; seen = now }) table k)
  | inr k ↦ elim (Bool-cases (leb max_names (length table))) [
    | inl l ↦
        rw (k, l)
          (omega (
            arith,
            length-insert ip (record { name = name; seen = now }) (forget_oldest table),
            forget_oldest-shorter table (omega (arith, leb→le max_names (length table) l)),
          ))
    | inr l ↦
        rw (k, l) (ground (arith, length-insert ip (record { name = name; seen = now }) table))
  ]
]

not-equal : (a b : Bytes) → a ≢ b → str_eq a b ≡ false
not-equal a b ne = ground (arith, ne, str_eq_iff a b)

lookup-forget_oldest :
    (j : Bytes) (table : Map Entry)
    → (lookup j (forget_oldest table) ≡ lookup j table) ⊎ (lookup j (forget_oldest table) ≡ none)
unfolding forget_oldest
lookup-forget_oldest j table = lookup-remove_all (take (max_names / 2) (by_age table)) j table

kept_or_forgotten :
    (ip name : Bytes) (now : ℕ) (table : Map Entry) (j : Bytes)
    → str_eq ip j ≡ false
    → (lookup j (remember ip name now table) ≡ lookup j table)
      ⊎ (lookup j (remember ip name now table) ≡ none)
unfolding remember
kept_or_forgotten ip name now table j f =
    elim (Bool-cases (leb max_names (length table) && not (is_known (lookup ip table)))) [
      | inl c ↦ rw (c, lookup-insert, f) (lookup-forget_oldest j table)
      | inr c ↦ rw (c, lookup-insert, f) (inl refl)
    ]

remember-lookup :
    (ip name : Bytes) (now : ℕ) (table : Map Entry) (j : Bytes)
    → (name_of ip (remember ip name now table) ≡ some name)
      × (ip ≢ j
          → (lookup j (remember ip name now table) ≡ lookup j table)
            ⊎ (lookup j (remember ip name now table) ≡ none))
unfolding remember name_of
remember-lookup ip name now table j = (
  rw (lookup-insert, str_eq_refl ip),
  λ ne. kept_or_forgotten ip name now table j (not-equal ip j ne),
)

-- What a sequence of resolved names leaves in the table.
abbrev pub remember_all : List (Bytes × Bytes × ℕ) → Map Entry → Map Entry
remember_all [] table = table
remember_all ((ip, name, now) ∷ rest) table = remember_all rest (remember ip name now table)

length-remember_all :
    (l : List (Bytes × Bytes × ℕ)) (table : Map Entry)
    → length table ≤ max_names
    → length (remember_all l table) ≤ max_names
length-remember_all [] table h = h
length-remember_all ((ip, name, now) ∷ rest) table h =
    length-remember_all rest (remember ip name now table) (length-remember ip name now table h)

-- From the empty table on, whatever was resolved, the table never holds more than 4096 names; the
-- name that comes next is known by its address, and any other address keeps its name or loses it.
pub remember_lem :
    (l : List (Bytes × Bytes × ℕ)) (ip name : Bytes) (now : ℕ) (j : Bytes)
    → (length (remember_all l []) ≤ max_names)
      × (name_of ip (remember ip name now (remember_all l [])) ≡ some name)
      × (ip ≢ j
          → (lookup j (remember ip name now (remember_all l [])) ≡ lookup j (remember_all l []))
            ⊎ (lookup j (remember ip name now (remember_all l [])) ≡ none))
remember_lem l ip name now j =
    let found = remember-lookup ip name now (remember_all l []) j in
    (length-remember_all l [] (omega arith), found.0, found.1)
