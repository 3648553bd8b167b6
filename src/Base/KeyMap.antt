-- ===== src/Base/KeyMap.antt =====
-- `HashMap` over any type of keys with a decidable equality, as a list of pairs.
use solon.Base.Tests.{◌==◌, ==_iff, if◌then◌else◌}
use solon.Base.Text.{Bytes, str_eq}
use solon.Base.TextEq.{str_eq_iff}
use Prim.Native.Nat.{ℕ}
use mathlib.Core.Path.{◌≡◌}
use mathlib.Core.Logic.{◌↔◌}
use mathlib.Core.Bool.{Bool, true, false, ◌&&◌}
use mathlib.Core.List.{List, [], ◌∷◌}
use mathlib.Core.Option.{Option, none, some}
use native.Mathlib.Omega.{arith}

pub record Eq {ℓ} (K : Type ℓ) : Type ℓ where
  pub beq : K → K → Bool
  pub beq_iff : (a b : K) → (beq a b ≡ true) ↔ (a ≡ b)

abbrev pub same {ℓ} : {K : Type ℓ} ⦃e : Eq K⦄ → K → K → Bool
same ⦃e⦄ = e.beq

abbrev nat_beq : ℕ → ℕ → Bool
nat_beq a b = a == b

instance abbrev pub nat_eq : Eq ℕ
nat_eq = record { beq = nat_beq; beq_iff = ==_iff }

-- A path as the list of its components.
abbrev pub FilePath : Type 0
FilePath = List Bytes

unfoldable pub path_eq : FilePath → FilePath → Bool
path_eq [] [] = true
path_eq (a ∷ p) (b ∷ q) = str_eq a b && path_eq p q
path_eq _ _ = false

pub path_eq_iff : (p q : FilePath) → (path_eq p q ≡ true) ↔ (p ≡ q)
unfolding path_eq
path_eq_iff [] [] = ground arith
path_eq_iff [] (b ∷ q) = ground arith
path_eq_iff (a ∷ p) [] = ground arith
path_eq_iff (a ∷ p) (b ∷ q) = ground (arith, str_eq_iff a b, path_eq_iff p q)

instance abbrev pub path_is_key : Eq FilePath
path_is_key = record { beq = path_eq; beq_iff = path_eq_iff }

module _ {ℓ κ} {K : Type ℓ} {V : Type κ} ⦃e : Eq K⦄ where
  -- m.get(k)
  unfoldable pub get : K → List (K × V) → Option V
  get k [] = none
  get k ((j, v) ∷ m) = let rest = get k m in if same j k then some v else rest

  -- m.remove(k)
  unfoldable pub del : K → List (K × V) → List (K × V)
  del k [] = []
  del k ((j, v) ∷ m) = let rest = del k m in if same j k then rest else (j, v) ∷ rest

  -- m.insert(k, v)
  unfoldable pub put : K → V → List (K × V) → List (K × V)
  put k v m = (k, v) ∷ del k m

  pub get-del :
      (k j : K) (m : List (K × V)) → get j (del k m) ≡ (if same k j then none else get j m)
  unfolding get del
  get-del k j [] = ground arith
  get-del k j ((i, v) ∷ m) =
      ground (arith, get-del k j m, e.beq_iff i k, e.beq_iff i j, e.beq_iff k j)

  pub get-put :
      (k j : K) (v : V) (m : List (K × V))
      → get j (put k v m) ≡ (if same k j then some v else get j m)
  unfolding get put
  get-put k j v m = ground (arith, get-del k j m)

  pub get-put_self : (k : K) (v : V) (m : List (K × V)) → get k (put k v m) ≡ some v
  get-put_self k v m = ground (arith, get-put k k v m, e.beq_iff k k)

  pub get-del_self : (k : K) (m : List (K × V)) → get k (del k m) ≡ none
  get-del_self k m = ground (arith, get-del k k m, e.beq_iff k k)
