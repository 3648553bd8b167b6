-- ===== src/Domains/BodiesLaws.antt =====
-- What the capture of a body keeps, and what passes on a body of a given length,
-- crates/solon-service/src/domains.rs.
use solon.Base.{
  ℕ, zero, suc, ◌-◌, ◌≤◌, ◌≡◌, refl, sym, ap, ◌∙◌, inl, inr, Bool, true, false, ◌||◌, Option, none,
  some, List, [], ◌∷◌, ◌++◌, append_assoc, append-nil, arith, ltb, leb, Bool-cases, length, take,
  length-append, length-take,
}
use solon.Base.Text.{Bytes}
use solon.DockerProxy.Copy.{arriving}
use solon.Domains.Bodies.{body_capture, Tee, empty_tee, feed, feed_if}

-- The invariant of a capture, which the subtraction in `feed` needs.
abbrev pub IsBounded : Tee → Type 0
IsBounded t = length t.kept ≤ body_capture

take_full : (n : ℕ) (a b : Bytes) → n ≤ length a → take n (a ++ b) ≡ take n a
take_full zero a b h = refl
take_full (suc n) [] b h = absurd (omega arith)
take_full (suc n) (x ∷ a) b h = ap (λ z. x ∷ z) (take_full n a b (omega arith))

take_over : (n : ℕ) (a b : Bytes) → length a ≤ n → take n (a ++ b) ≡ a ++ take (n - length a) b
take_over n [] b h = ap (λ z. take z b) (omega arith)
take_over zero (x ∷ a) b h = absurd (omega arith)
take_over (suc n) (x ∷ a) b h =
    let e : suc n - suc (length a) ≡ n - length a = omega arith in
    ap (λ z. x ∷ z) (take_over n a b (omega arith)) ∙ ap (λ z. x ∷ (a ++ take z b)) (sym e)

take_none : (n : ℕ) (b : Bytes) → n ≡ 0 → take n b ≡ []
take_none zero b h = refl
take_none (suc n) b h = absurd (omega arith)

feed-IsBounded : (t : Tee) (a : Bytes) → IsBounded t → IsBounded (feed t a)
unfolding feed
feed-IsBounded t a h = ground (
  arith,
  length-append t.kept a,
  length-append t.kept (take (4096 - length t.kept) a),
  length-take (4096 - length t.kept) a,
)

-- What a capture holds in the end.
whole : Tee → Bytes → Tee
whole t a = record {
  kept = t.kept ++ take (body_capture - length t.kept) a;
  truncated = ltb (body_capture - length t.kept) (length a) || t.truncated;
}

pub take_all : (n : ℕ) (a : Bytes) → length a ≤ n → take n a ≡ a
take_all n a h =
    ap (take n) (sym (append-nil a))
    ∙ take_over n a [] h
    ∙ ap (λ z. a ++ z) (take_of_nil (n - length a))
    ∙ append-nil a
  where
    take_of_nil : (k : ℕ) → take {A = ℕ} k [] ≡ []
    take_of_nil zero = refl
    take_of_nil (suc k) = refl

feed-whole : (t : Tee) (a : Bytes) → feed t a ≡ whole t a
unfolding feed whole
feed-whole t a = elim (Bool-cases (ltb (4096 - length t.kept) (length a))) [
  | inl e ↦ rw e
  | inr e ↦
      let k : length a ≤ 4096 - length t.kept = ground arith in
      rw (e, take_all (4096 - length t.kept) a k)
]

whole-kept :
    (k a b : Bytes)
    → length k ≤ 4096
    → (k ++ take (4096 - length k) a) ++ take (4096 - length (k ++ take (4096 - length k) a)) b
      ≡ k ++ take (4096 - length k) (a ++ b)
whole-kept k a b h = elim (Bool-cases (leb (length a) (4096 - length k))) [
  | inl e ↦
      let few : length a ≤ 4096 - length k = ground arith in
      let room : 4096 - length (k ++ a) ≡ 4096 - length k - length a =
        omega (arith, length-append k a) in
      rw (take_all (4096 - length k) a few, room)
        (append_assoc k a _ ∙ ap (λ z. k ++ z) (sym (take_over (4096 - length k) a b few)))
  | inr e ↦
      let many : 4096 - length k ≤ length a = ground arith in
      let full : 4096 - length (k ++ take (4096 - length k) a) ≡ 0 =
        omega
          (arith, length-append k (take (4096 - length k) a), length-take (4096 - length k) a) in
      rw (
        take_none _ b full,
        append-nil (k ++ take (4096 - length k) a),
        take_full (4096 - length k) a b many,
      )
]

whole-truncated :
    (k a b : Bytes) (t : Bool)
    → length k ≤ 4096
    → (ltb (4096 - length (k ++ take (4096 - length k) a)) (length b)
        || (ltb (4096 - length k) (length a) || t))
      ≡ (ltb (4096 - length k) (length (a ++ b)) || t)
whole-truncated k a b t h = ground (
  arith,
  length-append a b,
  length-append k (take (4096 - length k) a),
  length-take (4096 - length k) a,
)

-- A capture sees only the bytes that pass, not the pieces in which they come.
pub feed-feed : (t : Tee) (a b : Bytes) → IsBounded t → feed (feed t a) b ≡ feed t (a ++ b)
unfolding whole
feed-feed t a b h =
    feed-whole (feed t a) b
    ∙ ap (λ z. whole z b) (feed-whole t a)
    ∙ (λ i. record {
      kept = whole-kept t.kept a b h i;
      truncated = whole-truncated t.kept a b t.truncated h i;
    })
    ∙ sym (feed-whole t (a ++ b))

feed-nil : (t : Tee) → IsBounded t → feed t [] ≡ t
unfolding feed
feed-nil t h =
    let e : ltb (4096 - length t.kept) 0 ≡ false = ground arith in
    rw e (λ i. record { kept = append-nil t.kept i; truncated = t.truncated })

-- The pieces of a body, fed one by one.
unfoldable pub feed_all : Tee → List Bytes → Tee
feed_all t [] = t
feed_all t (a ∷ l) = feed_all (feed t a) l

feed_all-arriving : (l : List Bytes) (t : Tee) → IsBounded t → feed_all t l ≡ feed t (arriving l)
unfolding feed_all
feed_all-arriving [] t h = sym (feed-nil t h)
feed_all-arriving (a ∷ l) t h =
    feed_all-arriving l (feed t a) (feed-IsBounded t a h) ∙ feed-feed t a (arriving l) h

-- However a body comes in pieces, its capture holds the first 4096 bytes of it, and says that it is
-- cut exactly when there are more.
pub feed_all_lem :
    (pieces : List Bytes)
    → feed_all empty_tee pieces ≡ record {
      kept = take body_capture (arriving pieces);
      truncated = ltb body_capture (length (arriving pieces));
    }
unfolding whole
feed_all_lem pieces =
    feed_all-arriving pieces empty_tee (omega arith)
    ∙ feed-whole empty_tee (arriving pieces)
    ∙ (λ i. record {
      kept = take body_capture (arriving pieces);
      truncated = or_false (ltb body_capture (length (arriving pieces))) i;
    })
  where
    or_false : (b : Bool) → (b || false) ≡ b
    or_false true = refl
    or_false false = refl

-- The invariant of an optional capture.
abbrev pub AreBounded : Option Tee → Type 0
AreBounded none = Unit
AreBounded (some t) = IsBounded t

pub feed_if-feed_if :
    (t : Option Tee) (a b : Bytes) → AreBounded t → feed_if (feed_if t a) b ≡ feed_if t (a ++ b)
feed_if-feed_if none a b h = refl
feed_if-feed_if (some t) a b h = ap some (feed-feed t a b h)

pub feed_if-nil : (t : Option Tee) → AreBounded t → feed_if t [] ≡ t
feed_if-nil none h = refl
feed_if-nil (some t) h = ap some (feed-nil t h)

pub feed_if-AreBounded : (t : Option Tee) (a : Bytes) → AreBounded t → AreBounded (feed_if t a)
feed_if-AreBounded none a h = tt
feed_if-AreBounded (some t) a h = feed-IsBounded t a h
