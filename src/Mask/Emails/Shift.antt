-- ===== src/Mask/Emails/Shift.antt =====
-- The scan of a text behind a prefix is the scan of the text alone, with the indices moved.
use native.Mathlib.Nat.{suc-add, zero-add, add-suc}
use solon.Base.{
  ℕ, zero, suc, ◌+◌, ◌-◌, ◌≤◌, [], ◌∷◌, ◌++◌, Bool, true, false, not, ◌||◌, ◌≡◌, refl, ◌==◌,
  if◌then◌else◌, ltb, arith, length, drop, append_assoc,
}
use solon.Base.Text.{Bytes}
use solon.Mask.FreeText.{
  byte_at, slice, looks_like_domain, email_start, email_end, EmailScan, email_step, email_loop,
}

pub byte_at-append : (p q : Bytes) (i : ℕ) → byte_at (p ++ q) (length p + i) ≡ byte_at q i
byte_at-append [] q i = rw zero-add
byte_at-append (x ∷ p) q i = rw suc-add (byte_at-append p q i)

pub drop-append_add : (p q : Bytes) (i : ℕ) → drop (length p + i) (p ++ q) ≡ drop i q
drop-append_add [] q i = rw zero-add
drop-append_add (x ∷ p) q i = rw suc-add (drop-append_add p q i)

pub slice-append :
    (p q : Bytes) (i j : ℕ) → slice (length p + i) (length p + j) (p ++ q) ≡ slice i j q
slice-append p q i j =
    let e : length p + j - (length p + i) ≡ j - i = omega arith in rw (e, drop-append_add p q i)

pub email_start-stop : (b : Bytes) (copied k : ℕ) → k ≤ copied → email_start b copied k ≡ k
unfolding email_start
email_start-stop b copied zero h = refl
email_start-stop b copied (suc k) h = ground arith

pub email_start-append :
    (p q : Bytes) (c i : ℕ)
    → email_start (p ++ q) (length p + c) (length p + i) ≡ length p + email_start q c i
unfolding email_start
email_start-append p q c zero =
    email_start-stop (p ++ q) (length p + c) (length p + 0) (omega arith)
email_start-append p q c (suc i) =
    rw add-suc (ground (arith, byte_at-append p q i, email_start-append p q c i))

pub email_end-append :
    (p q : Bytes) (at : ℕ) → email_end (p ++ q) (length p + at) ≡ length p + email_end q at
unfolding email_end
email_end-append p q at =
    let e : length p + at + 1 ≡ length p + (at + 1) = omega arith in
    rw (e, drop-append_add p q (at + 1)) (omega arith)

ltb-add : (n a b : ℕ) → ltb (n + a) (n + b) ≡ ltb a b
ltb-add n a b = ground arith

eq-add : (n a b : ℕ) → (n + a == n + b) ≡ (a == b)
eq-add n a b = ground arith

abbrev pub shift : Bytes → Bytes → EmailScan → EmailScan
shift p out scan = record { out = out ++ scan.out; copied = length p + scan.copied }

shift-if :
    (c d : Bool) (p out : Bytes) (scan taken : EmailScan)
    → (if c then shift p out scan else (if d then shift p out scan else shift p out taken))
      ≡ shift p out (if c then scan else (if d then scan else taken))
shift-if true d p out scan taken = refl
shift-if false true p out scan taken = refl
shift-if false false p out scan taken = refl

pub email_step-append :
    (p q out : Bytes) (at : ℕ) (scan : EmailScan)
    → email_step (p ++ q) (length p + at) (shift p out scan) ≡ shift p out (email_step q at scan)
unfolding email_step
email_step-append p q out at scan =
    let n = length p in
    let e : n + at + 1 ≡ n + (at + 1) = omega arith in
    rw
      (
        byte_at-append p q at,
        ltb-add n at scan.copied,
        email_start-append p q scan.copied at,
        email_end-append p q at,
        eq-add n (email_start q scan.copied at) at,
        e,
        slice-append p q (at + 1) (email_end q at),
        slice-append p q scan.copied (email_start q scan.copied at),
        append_assoc,
      )
      (shift-if (not (byte_at q at == b'@') || ltb at scan.copied)
        (email_start q scan.copied at == at
          || not (looks_like_domain (slice (at + 1) (email_end q at) q)))
        p out scan _)

pub email_loop-append :
    (rounds : ℕ) (p q out : Bytes) (at : ℕ) (scan : EmailScan)
    → email_loop (p ++ q) rounds (length p + at) (shift p out scan)
      ≡ shift p out (email_loop q rounds at scan)
unfolding email_loop
email_loop-append zero p q out at scan = refl
email_loop-append (suc rounds) p q out at scan =
    let e : length p + at + 1 ≡ length p + (at + 1) = omega arith in
    rw (email_step-append p q out at scan, e)
      (email_loop-append rounds p q out (at + 1) (email_step q at scan))
