-- ===== src/Base/Map.antt =====
-- `HashMap<String, V>` as an association list, and `HashSet<String>` as a list of texts. No order of
-- iteration is relied on.
use solon.Base.Tests.{if◌then◌else◌}
use solon.Base.Lists.{retain, any}
use solon.Base.Text.{Bytes, str_eq, mem_str}
use solon.Base.TextEq.{str_eq_iff}
use mathlib.Core.Path.{◌≡◌, ap}
use mathlib.Core.Bool.{Bool, not, ◌||◌, ◌&&◌}
use mathlib.Core.List.{List, [], ◌∷◌}
use mathlib.Core.Option.{Option, none, some}
use native.Mathlib.Omega.{arith}

abbrev pub Map {ℓ} : Type ℓ → Type ℓ
Map V = List (Bytes × V)

module _ {ℓ} {V : Type ℓ} where
  -- m.get(k)
  unfoldable pub lookup : Bytes → Map V → Option V
  lookup k [] = none
  lookup k ((j, v) ∷ m) = let rest = lookup k m in if str_eq j k then some v else rest

  -- m.remove(k)
  unfoldable pub remove : Bytes → Map V → Map V
  remove k [] = []
  remove k ((j, v) ∷ m) = let rest = remove k m in if str_eq j k then rest else (j, v) ∷ rest

  -- m.insert(k, v)
  unfoldable pub insert : Bytes → V → Map V → Map V
  insert k v m = (k, v) ∷ remove k m

  -- m.retain(|k, _| p(k))
  unfoldable pub retain_keys : (Bytes → Bool) → Map V → Map V
  retain_keys p [] = []
  retain_keys p ((j, v) ∷ m) = let rest = retain_keys p m in if p j then (j, v) ∷ rest else rest

  pub lookup-remove :
      (k j : Bytes) (m : Map V) → lookup j (remove k m) ≡ (if str_eq k j then none else lookup j m)
  unfolding lookup remove
  lookup-remove k j [] = ground arith
  lookup-remove k j ((i, v) ∷ m) =
      ground (arith, lookup-remove k j m, str_eq_iff i k, str_eq_iff i j, str_eq_iff k j)

  pub lookup-insert :
      (k j : Bytes) (v : V) (m : Map V)
      → lookup j (insert k v m) ≡ (if str_eq k j then some v else lookup j m)
  unfolding lookup insert
  lookup-insert k j v m = ground (arith, lookup-remove k j m)

  pub lookup-retain_keys :
      (p : Bytes → Bool) (j : Bytes) (m : Map V)
      → lookup j (retain_keys p m) ≡ (if p j then lookup j m else none)
  unfolding lookup retain_keys
  lookup-retain_keys p j [] = ground arith
  lookup-retain_keys p j ((i, v) ∷ m) =
      ground (arith, lookup-retain_keys p j m, str_eq_iff i j, λ (e : i ≡ j). ap p e)

abbrev pub Set : Type 0
Set = List Bytes

-- s.insert(x)
unfoldable pub insert_set : Bytes → Set → Set
unfolding mem_str
insert_set x s = if mem_str x s then s else x ∷ s

-- s.remove(x), without its answer
unfoldable pub remove_set : Bytes → Set → Set
unfolding retain str_eq
remove_set x s = retain (λ y. not (str_eq y x)) s

pub mem_str-insert_set :
    (x y : Bytes) (s : Set) → mem_str y (insert_set x s) ≡ (str_eq x y || mem_str y s)
unfolding insert_set mem_str any
mem_str-insert_set x y s =
    ground (arith, str_eq_iff x y, str_eq_iff y x, λ (e : x ≡ y). ap (λ z. mem_str z s) e)

pub mem_str-remove_set :
    (x y : Bytes) (s : Set) → mem_str y (remove_set x s) ≡ (not (str_eq x y) && mem_str y s)
unfolding remove_set mem_str any retain
mem_str-remove_set x y [] = ground arith
mem_str-remove_set x y (z ∷ s) =
    ground (arith, mem_str-remove_set x y s, str_eq_iff x y, str_eq_iff y z, str_eq_iff z x)

pub mem_str-retain :
    (p : Bytes → Bool) (y : Bytes) (s : Set) → mem_str y (retain p s) ≡ (p y && mem_str y s)
unfolding mem_str any retain
mem_str-retain p y [] = ground arith
mem_str-retain p y (z ∷ s) =
    ground (arith, mem_str-retain p y s, str_eq_iff y z, λ (e : y ≡ z). ap p e)

pub ruleset map_laws = (
  lookup-insert, lookup-remove, lookup-retain_keys, mem_str-insert_set, mem_str-remove_set,
  mem_str-retain,
)
