-- ===== src/Dns/Name.antt =====
-- `read_name`: a name of a DNS message, with its compression pointers.
use Prim.Native.Nat.{bit_and}
use solon.Base.{
  ℕ, zero, suc, ◌+◌, ◌*◌, ◌<◌, ◌≡◌, refl, ap, ◌∙◌, inl, inr, Bool, true, false, not, ◌&&◌, Option,
  none, some, List, [], ◌∷◌, ◌++◌, append_assoc, append-nil, map, arith, leb, ◌==◌, if◌then◌else◌,
  leb→le, ==_iff, Bool-cases, Option-cases, length, get_elem?, take, drop, All, length-append,
  take-append,
}
use mathlib.Core.Option
use solon.Base.Text.{Bytes, join, to_ascii_lowercase}
use solon.Base.Utf8.{from_utf8_lossy}

-- How a run of labels ends: at the empty one, at a pointer, or unreadable.
pub data Run : Type 0 where
  stopped : List Bytes → ℕ → Run
  pointer : List Bytes → ℕ → ℕ → Run
  bad : Run

unfoldable pub label_text : Bytes → Bytes
unfolding from_utf8_lossy to_ascii_lowercase
label_text label = to_ascii_lowercase (from_utf8_lossy label)

-- `len & 0xC0 == 0xC0`
abbrev pub is_pointer : ℕ → Bool
is_pointer len = bit_and len 0xC0 == 0xC0

-- the target, when the second byte is there
pointer_run : List Bytes → ℕ → ℕ → Option ℕ → Run
pointer_run labels pos len none = bad
pointer_run labels pos len (some low) = pointer labels pos (bit_and len 0x3F * 256 + low)

-- The labels from `pos` on, behind `labels`; `none` when the fuel is short.
unfoldable pub read_labels : ℕ → Bytes → ℕ → List Bytes → Option Run
unfolding pointer_run label_text
read_labels zero msg pos labels = none
read_labels (suc f) msg pos labels = elim (get_elem? msg pos) [
  | none ↦ some bad
  | some len ↦
      let next = pos + 1 + len in
      let label = label_text (take len (drop (pos + 1) msg)) in
      let more = read_labels f msg next (labels ++ (label ∷ [])) in
      if len == 0
      then some (stopped labels (pos + 1))
      else if is_pointer len
      then some (pointer_run labels pos len (get_elem? msg (pos + 1)))
      else if leb next (length msg)
      then more
      else some bad
]

abbrev pub or_pos : Option ℕ → ℕ → ℕ
or_pos none pos = pos
or_pos (some end) pos = end

abbrev pub or_bad : Option Run → Run
or_bad none = bad
or_bad (some r) = r

-- The outer loop, where `hops` more pointers are followed. The first pointer sets where the name
-- ends.
unfoldable pub read_hops : ℕ → Bytes → ℕ → List Bytes → Option ℕ → Option (List Bytes × ℕ)
unfolding read_labels
read_hops zero msg pos labels end = elim (or_bad (read_labels (length msg + 1) msg pos labels)) [
  | stopped labels' pos' ↦ some (labels', or_pos end pos')
  | pointer labels' pos' target ↦ none
  | bad ↦ none
]
read_hops (suc hops) msg pos labels end =
    elim (or_bad (read_labels (length msg + 1) msg pos labels)) [
      | stopped labels' pos' ↦ some (labels', or_pos end pos')
      | pointer labels' pos' target ↦
          let rest = read_hops hops msg target labels' (some (or_pos end (pos' + 2))) in
          if leb (length msg) target then none else rest
      | bad ↦ none
    ]

named : List Bytes × ℕ → Bytes × ℕ
named r = (join b'.' r.0, r.1)

-- 16 pointers are followed at most.
unfoldable pub read_name : Bytes → ℕ → Option (Bytes × ℕ)
unfolding read_hops join named
read_name msg pos = Option.map named (read_hops 16 msg pos [] none)

further : (n pos len f : ℕ) → n < pos + suc f → n < pos + 1 + len + f
further n pos len f h = omega arith

some_fuel : (n pos len f : ℕ) → n < pos + suc f → leb (pos + 1 + len) n ≡ true → 0 < f
some_fuel n pos len f h l = omega (arith, leb→le (pos + 1 + len) n l)

-- The run of labels ends within the fuel that it is given: every label takes a byte at least.
pub read_labels-ends :
    (f : ℕ) (msg : Bytes) (pos : ℕ) (labels : List Bytes)
    → length msg < pos + f
    → 0 < f
    → (r : Run) × (read_labels f msg pos labels ≡ some r)
unfolding read_labels
read_labels-ends zero msg pos labels h p = absurd (omega arith)
read_labels-ends (suc f) msg pos labels h p = elim (Option-cases (get_elem? msg pos)) [
  | inl k ↦ (bad, rw (read_labels, k))
  | inr (len, k) ↦ elim (Bool-cases (len == 0)) [
    | inl z ↦ (stopped labels (pos + 1), rw (read_labels, k, z))
    | inr z ↦ elim (Bool-cases (is_pointer len)) [
      | inl q ↦ (pointer_run labels pos len (get_elem? msg (pos + 1)), rw (read_labels, k, z, q))
      | inr q ↦ elim (Bool-cases (leb (pos + 1 + len) (length msg))) [
        | inr l ↦ (bad, rw (read_labels, k, z, q, l))
        | inl l ↦
            let more =
              read_labels-ends f msg (pos + 1 + len)
                (labels ++ (label_text (take len (drop (pos + 1) msg)) ∷ []))
                (further (length msg) pos len f h) (some_fuel (length msg) pos len f h l) in
            (more.0, rw (read_labels, k, z, q, l) more.1)
      ]
    ]
  ]
]

and-left : (a b : Bool) → (a && b) ≡ true → a ≡ true
and-left a b h = ground arith

and-right : (a b : Bool) → (a && b) ≡ true → b ≡ true
and-right a b h = ground arith

-- The labels of a name as a message holds them, and its end.
unfoldable pub encode_labels : List Bytes → Bytes
encode_labels [] = 0 ∷ []
encode_labels (l ∷ ls) = length l ∷ (l ++ encode_labels ls)

-- A label that can be written: not empty, and its length is no pointer.
pub record IsLabel (label : Bytes) : Type 0 where
  pub some_bytes : 0 < length label
  pub short : length label < 64

get_elem-append :
    (p : Bytes) (c : ℕ) (rest : Bytes) → get_elem? (p ++ (c ∷ rest)) (length p) ≡ some c
get_elem-append [] c rest = refl
get_elem-append (a ∷ p) c rest = get_elem-append p c rest

-- `test` holds of all numbers below `n`.
abbrev below : ℕ → (ℕ → Bool) → Bool
below zero test = true
below (suc n) test = test n && below n test

below-lt : (n : ℕ) (test : ℕ → Bool) → below n test ≡ true → (k : ℕ) → k < n → test k ≡ true
below-lt zero test h k l = absurd (omega arith)
below-lt (suc n) test h k l = elim (Bool-cases (k == n)) [
  | inl e ↦ rw ((==_iff k n).0 e) (and-left (test n) (below n test) h)
  | inr e ↦ below-lt n test (and-right (test n) (below n test) h) k (ground arith)
]

short-is_pointer : (len : ℕ) → len < 64 → is_pointer len ≡ false
short-is_pointer len h = ground (arith, below-lt 64 (λ n. not (is_pointer n)) refl len h)

drop-suc : (p : Bytes) (c : ℕ) (rest : Bytes) → drop (length p + 1) (p ++ (c ∷ rest)) ≡ rest
drop-suc [] c rest = refl
drop-suc (a ∷ p) c rest =
    let one_more : length (a ∷ p) + 1 ≡ suc (length p + 1) = omega arith in
    rw one_more (drop-suc p c rest)

label-inside :
    (prefix l tail : Bytes)
    → take (length l) (drop (length prefix + 1) (prefix ++ (length l ∷ (l ++ tail)))) ≡ l
label-inside prefix l tail = rw (drop-suc prefix (length l) (l ++ tail)) (take-append l tail)

step-label :
    (f : ℕ) (prefix l tail : Bytes) (labels : List Bytes)
    → IsLabel l
    → read_labels (suc f) (prefix ++ (length l ∷ (l ++ tail))) (length prefix) labels
      ≡ read_labels f
          ((prefix ++ (length l ∷ l)) ++ tail)
          (length (prefix ++ (length l ∷ l)))
          (labels ++ (label_text l ∷ []))
unfolding read_labels
step-label f prefix l tail labels a =
    let whole : (prefix ++ (length l ∷ l)) ++ tail ≡ prefix ++ (length l ∷ (l ++ tail)) =
      simp append_assoc in
    let behind : length (prefix ++ (length l ∷ l)) ≡ length prefix + 1 + length l =
      omega (arith, length-append prefix (length l ∷ l)) in
    let some_bytes : (length l == 0) ≡ false = ground (arith, a.some_bytes) in
    let inside : leb (length prefix + 1 + length l) (length (prefix ++ (length l ∷ (l ++ tail))))
        ≡ true =
      ground (arith, length-append prefix (length l ∷ (l ++ tail)), length-append l tail) in
    rw (whole, behind)
      (rw (
        read_labels,
        get_elem-append prefix (length l) (l ++ tail),
        some_bytes,
        short-is_pointer (length l) a.short,
        inside,
        label-inside prefix l tail,
      ))

read_labels-encode_labels :
    (ls : List Bytes) (f : ℕ) (prefix rest : Bytes) (labels : List Bytes)
    → All IsLabel ls
    → length ls < f
    → read_labels f (prefix ++ (encode_labels ls ++ rest)) (length prefix) labels
      ≡ some (stopped (labels ++ map label_text ls) (length prefix + length (encode_labels ls)))
unfolding read_labels encode_labels
read_labels-encode_labels [] zero prefix rest labels a h = absurd (omega arith)
read_labels-encode_labels [] (suc f) prefix rest labels a h =
    rw (read_labels, get_elem-append prefix 0 rest, append-nil)
read_labels-encode_labels (l ∷ ls) zero prefix rest labels a h = absurd (omega arith)
read_labels-encode_labels (l ∷ ls) (suc f) prefix rest labels a h =
    let tail = encode_labels ls ++ rest in
    let shape : encode_labels (l ∷ ls) ++ rest ≡ length l ∷ (l ++ tail) =
      ap (◌∷◌ (length l)) (append_assoc l (encode_labels ls) rest) in
    let end : length (prefix ++ (length l ∷ l)) + length (encode_labels ls)
        ≡ length prefix + length (encode_labels (l ∷ ls)) =
      omega (arith, length-append prefix (length l ∷ l), length-append l (encode_labels ls)) in
    let rest_of =
      read_labels-encode_labels ls f (prefix ++ (length l ∷ l)) rest (labels ++ (label_text l ∷ []))
        a.1 (omega arith) in
    rw shape (
      step-label f prefix l tail labels a.0
      ∙ rest_of
      ∙ ap (λ x. some (stopped x (length (prefix ++ (length l ∷ l)) + length (encode_labels ls))))
          (append_assoc labels (label_text l ∷ []) (map label_text ls))
      ∙ ap (λ n. some (stopped (labels ++ map label_text (l ∷ ls)) n)) end)

length-encode_labels : (ls : List Bytes) → length ls < length (encode_labels ls)
unfolding encode_labels
length-encode_labels [] = omega arith
length-encode_labels (l ∷ ls) =
    omega (arith, length-encode_labels ls, length-append l (encode_labels ls))

enough :
    (ls : List Bytes) (prefix rest : Bytes)
    → length ls < length (prefix ++ (encode_labels ls ++ rest)) + 1
enough ls prefix rest = omega (
  arith,
  length-append prefix (encode_labels ls ++ rest),
  length-append (encode_labels ls) rest,
  length-encode_labels ls,
)

-- A name without pointers is read as its labels, in lower case and with a dot between them, and ends
-- right behind them, wherever it stands in the message and whatever follows it.
pub read_name-encode_labels :
    (ls : List Bytes) (prefix rest : Bytes)
    → All IsLabel ls
    → read_name (prefix ++ (encode_labels ls ++ rest)) (length prefix)
      ≡ some (join b'.' (map label_text ls), length prefix + length (encode_labels ls))
unfolding read_name read_hops
read_name-encode_labels ls prefix rest a = rw (
  read_name,
  read_hops,
  read_labels-encode_labels ls (length (prefix ++ (encode_labels ls ++ rest)) + 1) prefix rest [] a
      (enough ls prefix rest),
)
