-- ===== src/Base/Utf8.antt =====
-- `String::from_utf8_lossy`: each maximal part of an ill-formed sequence becomes U+FFFD.
use solon.Base.Tests.{ltb, ◌==◌, if◌then◌else◌, within}
use solon.Base.Lists.{length, drop}
use solon.Base.Text.{Bytes}
use Prim.Native.Nat.{ℕ, zero, suc}
use mathlib.Core.Path.{◌≡◌, refl}
use mathlib.Core.Bool.{Bool, ◌&&◌, ◌||◌}
use mathlib.Core.List.{[], ◌∷◌, ◌++◌}

abbrev pub replacement : Bytes
replacement = 0xEF ∷ 0xBF ∷ 0xBD ∷ []

abbrev is_continuation : ℕ → Bool
is_continuation c = within 0x80 0xBF c

-- The second byte that may follow the first byte of a sequence of three or four.
abbrev second_of_three : ℕ → ℕ → Bool
second_of_three a b =
    a == 0xE0 && within 0xA0 0xBF b
    || within 0xE1 0xEC a && is_continuation b
    || a == 0xED && within 0x80 0x9F b
    || within 0xEE 0xEF a && is_continuation b

abbrev second_of_four : ℕ → ℕ → Bool
second_of_four a b =
    a == 0xF0 && within 0x90 0xBF b
    || within 0xF1 0xF3 a && is_continuation b
    || a == 0xF4 && within 0x80 0x8F b

-- What the bytes at the head of the input give, and how many they are.
pub record Step : Type 0 where
  pub emitted : Bytes
  pub width : ℕ

abbrev bad : ℕ → Step
bad n = record { emitted = replacement; width = n }

abbrev good : Bytes → Step
good s = record { emitted = s; width = length s }

step_two : ℕ → Bytes → Step
step_two a [] = bad 1
step_two a (b ∷ _) = if is_continuation b then good (a ∷ b ∷ []) else bad 1

step_three : ℕ → Bytes → Step
step_three a [] = bad 1
step_three a (b ∷ []) = bad (if second_of_three a b then 2 else 1)
step_three a (b ∷ c ∷ _) =
    if second_of_three a b
    then (if is_continuation c then good (a ∷ b ∷ c ∷ []) else bad 2)
    else bad 1

step_four : ℕ → Bytes → Step
step_four a [] = bad 1
step_four a (b ∷ []) = bad (if second_of_four a b then 2 else 1)
step_four a (b ∷ c ∷ []) =
    if second_of_four a b then bad (if is_continuation c then 3 else 2) else bad 1
step_four a (b ∷ c ∷ d ∷ _) =
    if second_of_four a b
    then (if is_continuation c
        then (if is_continuation d then good (a ∷ b ∷ c ∷ d ∷ []) else bad 3)
        else bad 2)
    else bad 1

unfoldable pub utf8_step : ℕ → Bytes → Step
unfolding step_two step_three step_four
utf8_step a rest =
    if ltb a 0x80
    then good (a ∷ [])
    else if within 0xC2 0xDF a
    then step_two a rest
    else if within 0xE0 0xEF a
    then step_three a rest
    else if within 0xF0 0xF4 a
    then step_four a rest
    else bad 1

-- The fuel is the number of bytes: every step takes at least one.
unfoldable pub lossy_fuel : ℕ → Bytes → Bytes
unfolding utf8_step
lossy_fuel zero s = []
lossy_fuel (suc f) [] = []
lossy_fuel (suc f) (a ∷ s) =
    let st = utf8_step a s in st.emitted ++ lossy_fuel f (drop st.width (a ∷ s))

unfoldable pub from_utf8_lossy : Bytes → Bytes
unfolding lossy_fuel
from_utf8_lossy s = lossy_fuel (length s) s

lossy_test :
    from_utf8_lossy (b'a' ∷ 0xE2 ∷ 0x80 ∷ b'b' ∷ 0xC3 ∷ 0xA9 ∷ 0xFF ∷ [])
    ≡ b'a' ∷ 0xEF ∷ 0xBF ∷ 0xBD ∷ b'b' ∷ 0xC3 ∷ 0xA9 ∷ 0xEF ∷ 0xBF ∷ 0xBD ∷ []
unfolding from_utf8_lossy
lossy_test = refl
