-- ===== src/DockerProxy/Chunked.antt =====
-- The searches of `copy_chunked`, crates/solon-service/src/docker_proxy.rs.
use solon.Base.{
  ℕ, zero, suc, ◌+◌, ◌≤◌, ◌<◌, ◌≡◌, refl, ◌∙◌, inl, inr, true, false, Option, none, some, [], ◌∷◌,
  arith, ◌==◌, Bool-cases, Option-cases, length,
}
use solon.Base.Text.{Bytes, find_str, starts_with}
use solon.DockerProxy.Copy.{Relay, read, refill, arriving, pending, search}
use solon.DockerProxy.Conserve.{read-HasBytes, HasBytes, pending-refill, length-read-arriving}

pub length-starts_with : (p s : Bytes) → starts_with p s ≡ true → length p ≤ length s
unfolding starts_with
length-starts_with [] s h = omega arith
length-starts_with (a ∷ p) [] h = ground arith
length-starts_with (a ∷ p) (b ∷ s) h = ground (arith, length-starts_with p s)

-- The place of a text lies inside.
pub find_str-inside : (p s : Bytes) (i : ℕ) → find_str p s ≡ some i → i + length p ≤ length s
unfolding find_str
find_str-inside p [] i h = ground (arith, length-starts_with p [])
find_str-inside p (c ∷ s) i h = elim (Bool-cases (starts_with p (c ∷ s))) [
  | inl t ↦ let e : some 0 ≡ some i = rw t at h in ground (arith, e, length-starts_with p (c ∷ s) t)
  | inr f ↦ elim (Option-cases (find_str p s)) [
    | inl n ↦ let e : none ≡ some i = rw (f, n) at h in ground (arith, e)
    | inr (j, k) ↦
        let e : some (j + 1) ≡ some i = rw (f, k) at h in ground (arith, e, find_str-inside p s j k)
  ]
]

-- A search ends, leaves what is pending, and answers with a place that the test found in the
-- buffer.
pub record Searches (test : Bytes → Option ℕ) (r : Relay) (result : Option (Relay × Option ℕ))
    : Type 0 where
  pub out : Relay × Option ℕ
  pub returned : result ≡ some out
  pub kept : pending out.0 ≡ pending r
  pub silent : out.0.guest ≡ r.guest
  pub same_shares : out.0.shares ≡ r.shares
  pub bytes : HasBytes r.client → HasBytes out.0.client
  pub tested : (p : ℕ) → out.1 ≡ some p → test out.0.buf ≡ some p

search-ended :
    (test : Bytes → Option ℕ) (size f : ℕ) (r : Relay)
    → test r.buf ≡ none
    → (length (read size r.client).0 == 0) ≡ true
    → search test size (suc f) r ≡ some (r, none)
unfolding search
search-ended test size f r k z = rw (search, k, z)

search-more :
    (test : Bytes → Option ℕ) (size f : ℕ) (r : Relay)
    → test r.buf ≡ none
    → (length (read size r.client).0 == 0) ≡ false
    → search test size (suc f) r ≡ search test size f (refill r (read size r.client))
unfolding search
search-more test size f r k z = rw (search, k, z)

pub search-Searches :
    (test : Bytes → Option ℕ) (size f : ℕ) (r : Relay)
    → length (arriving r.client) < f
    → Searches test r (search test size f r)
unfolding search
search-Searches test size zero r h = absurd (omega arith)
search-Searches test size (suc f) r h = elim (Option-cases (test r.buf)) [
  | inr (p, k) ↦ record {
    out = (r, some p);
    returned = rw (search, k);
    kept = refl;
    silent = refl;
    same_shares = refl;
    bytes = λ x. x;
    tested = λ q e. k ∙ e;
  }
  | inl k ↦ elim (Bool-cases (length (read size r.client).0 == 0)) [
    | inl z ↦ record {
      out = (r, none);
      returned = search-ended test size f r k z;
      kept = refl;
      silent = refl;
      same_shares = refl;
      bytes = λ x. x;
      tested = λ q e. k ∙ e;
    }
    | inr z ↦
        let found =
          search-Searches test size f (refill r (read size r.client))
            (ground (arith, length-read-arriving size r.client)) in
        record {
          out = found.out;
          returned = search-more test size f r k z ∙ found.returned;
          kept = found.kept ∙ pending-refill size r;
          silent = found.silent;
          same_shares = found.same_shares;
          bytes = λ x. found.bytes (read-HasBytes size r.client x);
          tested = found.tested;
        }
  ]
]
