-- ===== src/Mask/JsonEnds.antt =====
-- The loop of `json_values`, crates/solon-core/src/mask.rs.
use solon.Base.{
  ℕ, zero, suc, ◌+◌, ◌≤◌, ◌<◌, ◌≡◌, refl, inl, inr, Bool, true, not, ◌||◌, some, [], ◌∷◌, arith,
  ltb, leb, ◌==◌, ltb→lt, Bool-cases, Option-cases, length, drop,
}
use solon.Base.Text.{is_ascii_whitespace, Bytes}
use solon.Mask.FreeText.{byte_at, slice, run_length}
use solon.Mask.Names.{is_secret_param}
use solon.Mask.Json.{
  string_end, json_string_end, Round, next, stop, json_value, json_after_colon, json_string,
  json_round, json_loop,
}

later-string_end : (s : Bytes) (i e : ℕ) → string_end s i ≡ some e → i ≤ e
unfolding string_end
later-string_end [] i e h = ground (arith, h)
later-string_end (c ∷ []) i e h = ground (arith, h)
later-string_end (c ∷ d ∷ s) i e h =
    ground (arith, h, later-string_end s (i + 2) e, later-string_end (d ∷ s) (i + 1) e)

-- The next round begins behind `i`, if there is one.
abbrev GoesOn : ℕ → Round → Type 0
GoesOn i (next i' out) = i < i'
GoesOn i (stop out) = Unit

json_value-GoesOn :
    (s : Bytes) (i0 i : ℕ) (out : Bytes) → i0 < i → i < length s → GoesOn i0 (json_value s i out)
unfolding json_value json_string_end
json_value-GoesOn s i0 i out h l = elim (Bool-cases (byte_at s i == b'"')) [
  | inl q ↦ elim (Option-cases (string_end (drop (i + 1) s) (i + 1))) [
    | inl k ↦ rw (q, k) (omega arith)
    | inr (e, k) ↦ rw (q, k) (omega (arith, later-string_end (drop (i + 1) s) (i + 1) e k))
  ]
  | inr q ↦ elim (Bool-cases (byte_at s i == b'{' || byte_at s i == b'[')) [
    | inl b ↦ rw (q, b) h
    | inr b ↦ rw (q, b) (omega arith)
  ]
]

json_after_colon-GoesOn :
    (s : Bytes) (i0 i : ℕ) (out : Bytes) → i0 < i → GoesOn i0 (json_after_colon s i out)
unfolding json_after_colon
json_after_colon-GoesOn s i0 i out h =
    let spaces = run_length is_ascii_whitespace (drop i s) in
    elim (Bool-cases (leb (length s) (i + spaces))) [
      | inl e ↦ rw e tt
      | inr e ↦ rw e (json_value-GoesOn s i0 (i + spaces) _ (omega arith) (ground arith))
    ]

json_string-GoesOn :
    (s : Bytes) (i close : ℕ) (out : Bytes) → i < close → GoesOn i (json_string s i close out)
unfolding json_string
json_string-GoesOn s i close out h =
    let j = close + 1 + run_length is_ascii_whitespace (drop (close + 1) s) in
    elim (Bool-cases (
      leb (length s) j
      || not (byte_at s j == b':')
      || not (is_secret_param (slice (i + 1) close s)))) [
        | inl e ↦ rw e (omega arith)
        | inr e ↦ rw e (json_after_colon-GoesOn s i (j + 1) _ (omega arith))
      ]

run_length-some :
    (p : ℕ → Bool) (s : Bytes) (i : ℕ)
    → i < length s
    → p (byte_at s i) ≡ true
    → 0 < run_length p (drop i s)
unfolding run_length
run_length-some p [] i l h = absurd (omega arith)
run_length-some p (c ∷ s) zero l h = rw h (omega arith)
run_length-some p (c ∷ s) (suc i) l h = run_length-some p s i (omega arith) h

json_round-GoesOn : (s : Bytes) (i : ℕ) (out : Bytes) → i < length s → GoesOn i (json_round s i out)
unfolding json_round json_string_end
json_round-GoesOn s i out l = elim (Bool-cases (byte_at s i == b'"')) [
  | inr q ↦ rw q (omega (arith, run_length-some (λ c. not (c == b'"')) s i l (rw q)))
  | inl q ↦ elim (Option-cases (string_end (drop (i + 1) s) (i + 1))) [
    | inl k ↦ rw (q, k) tt
    | inr (e, k) ↦
        rw (q, k)
          (json_string-GoesOn s i e out
            (omega (arith, later-string_end (drop (i + 1) s) (i + 1) e k)))
  ]
]

-- The scan of a JSON text, well formed or not, ends with a result from any place `i`, when the fuel
-- is positive and larger than the number of bytes from `i` on.
pub json_loop-ends :
    (f : ℕ) (s : Bytes) (i : ℕ) (out : Bytes)
    → length s < i + f
    → 0 < f
    → (r : Bytes) × (json_loop f s i out ≡ some r)
unfolding json_loop
json_loop-ends zero s i out h p = absurd (omega arith)
json_loop-ends (suc f) s i out h p = elim (Bool-cases (ltb i (length s))) [
  | inr e ↦ (out, rw (json_loop, e))
  | inl e ↦
      step (json_round s i out) refl (json_round-GoesOn s i out (ltb→lt i (length s) e)) e
        (λ i' out' m.
          json_loop-ends f s i' out' (omega arith) (omega (arith, ltb→lt i (length s) e)))
]
  where
    step :
        (r : Round)
        → json_round s i out ≡ r
        → GoesOn i r
        → ltb i (length s) ≡ true
        → ((i' : ℕ) (out' : Bytes) → i < i' → (x : Bytes) × (json_loop f s i' out' ≡ some x))
        → (x : Bytes) × (json_loop (suc f) s i out ≡ some x)
    step (next i' out') k g e again =
        let more = again i' out' g in (more.0, rw (json_loop, e, k) more.1)
    step (stop out') k g e again = (out', rw (json_loop, e, k))
