-- ===== src/Domains/PageLaws.antt =====
-- The escaping of a host in a page, crates/solon-service/src/domains.rs.
use solon.Base.{
  ℕ, zero, suc, ◌≡◌, refl, ap, ◌∙◌, inl, inr, false, ◌||◌, [], ◌∷◌, arith, ◌==◌, if◌then◌else◌,
  Bool-cases, All,
}
use solon.Base.Text.{Bytes, codes, starts_with}
use solon.Domains.Page.{html_escape}

-- What a browser makes of a text in which only the four characters of `html_escape` are written as
-- entities.
unfoldable pub unescape : ℕ → Bytes → Bytes
unfolding starts_with
unescape skip [] = []
unescape (suc skip) (c ∷ s) = unescape skip s
unescape zero (c ∷ s) =
    let lt = unescape 3 s in
    let amp = unescape 4 s in
    let quot = unescape 5 s in
    let other = unescape 0 s in
    if starts_with (codes "&lt;") (c ∷ s)
    then b'<' ∷ lt
    else if starts_with (codes "&gt;") (c ∷ s)
    then b'>' ∷ lt
    else if starts_with (codes "&amp;") (c ∷ s)
    then b'&' ∷ amp
    else if starts_with (codes "&quot;") (c ∷ s)
    then b'"' ∷ quot
    else c ∷ other

html_escape-NoTag :
    (s : Bytes) → All (λ c. (c == b'<' || c == b'>' || c == b'"') ≡ false) (html_escape s)
unfolding html_escape
html_escape-NoTag [] = tt
html_escape-NoTag (c ∷ s) = ground (arith, html_escape-NoTag s)

unescape-plain : (c : ℕ) (s : Bytes) → (c == b'&') ≡ false → unescape 0 (c ∷ s) ≡ c ∷ unescape 0 s
unfolding unescape starts_with
unescape-plain c s h = let k : (b'&' == c) ≡ false = ground arith in rw k refl

unescape-html_escape : (s : Bytes) → unescape 0 (html_escape s) ≡ s
unfolding html_escape unescape starts_with
unescape-html_escape [] = refl
unescape-html_escape (c ∷ s) = elim (Bool-cases (c == b'<')) [
  | inl a ↦
      let e : c ≡ b'<' = ground arith in rw (a, e) (ap (λ z. b'<' ∷ z) (unescape-html_escape s))
  | inr a ↦ elim (Bool-cases (c == b'>')) [
    | inl b ↦
        let e : c ≡ b'>' = ground arith in
        rw (a, b, e) (ap (λ z. b'>' ∷ z) (unescape-html_escape s))
    | inr b ↦ elim (Bool-cases (c == b'&')) [
      | inl d ↦
          let e : c ≡ b'&' = ground arith in
          rw (a, b, d, e) (ap (λ z. b'&' ∷ z) (unescape-html_escape s))
      | inr d ↦ elim (Bool-cases (c == b'"')) [
        | inl f ↦
            let e : c ≡ b'"' = ground arith in
            rw (a, b, d, f, e) (ap (λ z. b'"' ∷ z) (unescape-html_escape s))
        | inr f ↦
            rw (a, b, d, f)
              (unescape-plain c (html_escape s) d ∙ ap (λ z. c ∷ z) (unescape-html_escape s))
      ]
    ]
  ]
]

-- The escaped host of a page has no byte that begins or ends a tag or the value of an attribute, and
-- with the four entities read back it is the host itself.
pub html_escape_lem :
    (s : Bytes)
    → All (λ c. (c == b'<' || c == b'>' || c == b'"') ≡ false) (html_escape s)
      × (unescape 0 (html_escape s) ≡ s)
html_escape_lem s = (html_escape-NoTag s, unescape-html_escape s)
