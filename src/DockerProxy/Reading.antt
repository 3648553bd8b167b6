-- ===== src/DockerProxy/Reading.antt =====
-- The loops of `forward_requests` that only read, crates/solon-service/src/docker_proxy.rs.
use solon.Base.{
  ℕ, zero, suc, ◌-◌, ◌≤◌, ◌<◌, min, ◌≡◌, refl, ◌∙◌, inl, inr, Bool, true, false, Option, some, List,
  arith, ltb, ◌==◌, Bool-cases, Option-cases, length, length-append,
}
use solon.Base.Text.{Bytes}
use solon.DockerProxy.Head.{find_head_end}
use solon.DockerProxy.Copy.{Relay, read, refill, arriving, pending}
use solon.DockerProxy.Conserve.{
  HasBytes, read-HasBytes, pending-refill, length-read-arriving, read-some,
}
use solon.DockerProxy.Forward.{HeadSearch, found, too_long, ended, find_head, read_body, max_head}

-- The bytes of the buffer are more of what was pending, and nothing went to Docker.
pub record Keeps (r r' : Relay) : Type 0 where
  pub kept : pending r' ≡ pending r
  pub silent : r'.guest ≡ r.guest
  pub same_shares : r'.shares ≡ r.shares
  pub bytes : HasBytes r.client → HasBytes r'.client

pub Keeps-refl : (r : Relay) → Keeps r r
Keeps-refl r = record { kept = refl; silent = refl; same_shares = refl; bytes = λ h. h }

Keeps-refill : {r r' : Relay} (size : ℕ) → Keeps (refill r (read size r.client)) r' → Keeps r r'
Keeps-refill {r} size k = record {
  kept = k.kept ∙ pending-refill size r;
  silent = k.silent;
  same_shares = k.same_shares;
  bytes = λ h. k.bytes (read-HasBytes size r.client h);
}

pub data IsHeadSearch (r : Relay) : Option HeadSearch → Type 0 where
  is_found :
      (r' : Relay) (pos : ℕ)
      → Keeps r r'
      → find_head_end r'.buf ≡ some pos
      → IsHeadSearch r (some (found r' pos))
  is_long : (r' : Relay) → Keeps r r' → IsHeadSearch r (some (too_long r'))
  is_ended :
      (r' : Relay)
      → Keeps r r'
      → (HasBytes r.client → length (arriving r'.client) ≡ 0)
      → IsHeadSearch r (some (ended r'))

arriving-ended :
    (size : ℕ) (client : List Bytes)
    → 0 < size
    → (length (read size client).0 == 0) ≡ true
    → HasBytes client
    → length (arriving client) ≡ 0
arriving-ended size client p z h = elim (Bool-cases (length (arriving client) == 0)) [
  | inl e ↦ ground (arith, e)
  | inr e ↦ absurd (ground (arith, read-some size client h p (ground arith)))
]

IsHeadSearch-refill :
    (r : Relay) {result : Option HeadSearch} (size : ℕ)
    → IsHeadSearch (refill r (read size r.client)) result
    → IsHeadSearch r result
IsHeadSearch-refill r size (is_found r' pos k e) = is_found r' pos (Keeps-refill size k) e
IsHeadSearch-refill r size (is_long r' k) = is_long r' (Keeps-refill size k)
IsHeadSearch-refill r size (is_ended r' k e) =
    is_ended r' (Keeps-refill size k) (λ h. e (read-HasBytes size r.client h))

pub fewer :
    (size f : ℕ) (client : List Bytes)
    → (length (read size client).0 == 0) ≡ false
    → length (arriving client) < suc f
    → length (arriving (read size client).1) < f
fewer size f client z h = ground (arith, length-read-arriving size client)

pub find_head-IsHeadSearch :
    (f : ℕ) (r : Relay) → length (arriving r.client) < f → IsHeadSearch r (find_head f r)
unfolding find_head
find_head-IsHeadSearch zero r h = absurd (omega arith)
find_head-IsHeadSearch (suc f) r h = elim (Option-cases (find_head_end r.buf)) [
  | inr (pos, k) ↦ rw (find_head, k) (is_found r pos (Keeps-refl r) k)
  | inl k ↦ elim (Bool-cases (ltb max_head (length r.buf))) [
    | inl l ↦ rw (find_head, k, l) (is_long r (Keeps-refl r))
    | inr l ↦ elim (Bool-cases (length (read 16384 r.client).0 == 0)) [
      | inl z ↦
          rw (find_head, k, l, z)
            (is_ended r (Keeps-refl r) (λ b. arriving-ended 16384 r.client (omega arith) z b))
      | inr z ↦
          rw (find_head, k, l, z)
            (IsHeadSearch-refill r 16384 (
              find_head-IsHeadSearch f (refill r (read 16384 r.client))
                (fewer 16384 f r.client z h)))
    ]
  ]
]

-- The loop for the body of a creation ends; it says if the buffer holds the body.
pub record ReadsBody (len : ℕ) (r : Relay) (result : Option (Relay × Bool)) : Type 0 where
  pub out : Relay × Bool
  pub returned : result ≡ some out
  pub keeps : Keeps r out.0
  pub enough : out.1 ≡ true → len ≤ length out.0.buf

pub read_body-ReadsBody :
    (f len : ℕ) (r : Relay) → len - length r.buf ≤ f → ReadsBody len r (read_body f len r)
unfolding read_body
read_body-ReadsBody zero len r h = record {
  out = (r, true);
  returned = ground arith;
  keeps = Keeps-refl r;
  enough = λ x. omega arith;
}
read_body-ReadsBody (suc f) len r h = elim (Bool-cases (ltb (length r.buf) len)) [
  | inr l ↦ record {
    out = (r, true);
    returned = rw (read_body, l);
    keeps = Keeps-refl r;
    enough = λ x. ground arith;
  }
  | inl l ↦ elim (Bool-cases (length (read (min (len - length r.buf) 65536) r.client).0 == 0)) [
    | inl z ↦ record {
      out = (r, false);
      returned = rw (read_body, l, z);
      keeps = Keeps-refl r;
      enough = λ x. ground arith;
    }
    | inr z ↦
        let size = min (len - length r.buf) 65536 in
        let rest =
          read_body-ReadsBody f len (refill r (read size r.client))
            (ground (arith, length-append r.buf (read size r.client).0)) in
        record {
          out = rest.out;
          returned = rw (read_body, l, z) rest.returned;
          keeps = Keeps-refill size rest.keeps;
          enough = rest.enough;
        }
  ]
]
