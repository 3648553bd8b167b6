-- ===== src/DockerProxy/Conserve.antt =====
-- What a copy of crates/solon-service/src/docker_proxy.rs does to the bytes that are pending, and
-- `copy_exact`.
use solon.Base.{
  ℕ, zero, suc, ◌+◌, ◌-◌, ◌≤◌, ◌<◌, min, ◌≡◌, refl, sym, ap, ◌∙◌, ◌⊎◌, inl, inr, Bool, true, false,
  Option, some, List, [], ◌∷◌, ◌++◌, append_assoc, append-nil, arith, leb, ◌==◌, leb→le, Bool-cases,
  length, take, drop, All, length-append, take-append-drop, length-take, length-drop,
}
use solon.Base.Text.{Bytes}
use solon.DockerProxy.Copy.{
  unexpected_eof, done, Relay, Outcome, read, refill, pass, forward, arriving, pending, copy_rest,
  copy_exact,
}

-- Every piece holds a byte.
abbrev pub HasBytes : List Bytes → Type 0
HasBytes client = All (λ piece. 0 < length piece) client

pub read-HasBytes :
    (size : ℕ) (client : List Bytes) → HasBytes client → HasBytes (read size client).1
unfolding read
read-HasBytes size [] h = tt
read-HasBytes size (piece ∷ pieces) h = elim (Bool-cases (leb (length piece) size)) [
  | inl e ↦ rw e h.1
  | inr e ↦ rw e (ground (arith, length-drop size piece), h.1)
]

-- From `r` to `r'` some bytes went from what is pending to Docker, in order, and nothing else
-- changed.
pub record Passes (r r' : Relay) : Type 0 where
  pub moved : Bytes
  pub sent : r'.guest ≡ r.guest ++ moved
  pub left : pending r ≡ moved ++ pending r'
  pub same_shares : r'.shares ≡ r.shares
  pub bytes : HasBytes r.client → HasBytes r'.client

pub Passes-refl : (r : Relay) → Passes r r
Passes-refl r = record {
  moved = [];
  sent = sym (append-nil _);
  left = refl;
  same_shares = refl;
  bytes = λ h. h;
}

pub Passes-trans : {r s t : Relay} → Passes r s → Passes s t → Passes r t
Passes-trans {r} {s} {t} p q = record {
  moved = p.moved ++ q.moved;
  sent = q.sent ∙ ap (λ g. g ++ q.moved) p.sent ∙ append_assoc r.guest p.moved q.moved;
  left = p.left ∙ ap (λ g. p.moved ++ g) q.left ∙ sym (append_assoc p.moved q.moved (pending t));
  same_shares = q.same_shares ∙ p.same_shares;
  bytes = λ h. q.bytes (p.bytes h);
}

pub read-arriving :
    (size : ℕ) (client : List Bytes)
    → (read size client).0 ++ arriving (read size client).1 ≡ arriving client
unfolding read
read-arriving size [] = refl
read-arriving size (piece ∷ pieces) = elim (Bool-cases (leb (length piece) size)) [
  | inl h ↦ rw h
  | inr h ↦ rw h (
      sym (append_assoc (take size piece) (drop size piece) (arriving pieces))
      ∙ ap (λ p. p ++ arriving pieces) (take-append-drop size piece))
]

pub forward-Passes : (n : ℕ) (r : Relay) → Passes r (forward n r)
forward-Passes n r = record {
  moved = take n r.buf;
  sent = refl;
  left =
      ap (λ b. b ++ arriving r.client) (sym (take-append-drop n r.buf))
      ∙ append_assoc (take n r.buf) (drop n r.buf) (arriving r.client);
  same_shares = refl;
  bytes = λ h. h;
}

pub pending-refill : (size : ℕ) (r : Relay) → pending (refill r (read size r.client)) ≡ pending r
pending-refill size r =
    append_assoc r.buf (read size r.client).0 (arriving (read size r.client).1)
    ∙ ap (λ a. r.buf ++ a) (read-arriving size r.client)

pub refill-Passes : (size : ℕ) (r : Relay) → Passes r (refill r (read size r.client))
refill-Passes size r = record {
  moved = [];
  sent = sym (append-nil _);
  left =
      ap (λ a. r.buf ++ a) (sym (read-arriving size r.client))
      ∙ sym (append_assoc r.buf (read size r.client).0 (arriving (read size r.client).1));
  same_shares = refl;
  bytes = read-HasBytes size r.client;
}

pass-Passes : (size : ℕ) (r : Relay) → r.buf ≡ [] → Passes r (pass r (read size r.client))
pass-Passes size r h = record {
  moved = (read size r.client).0;
  sent = refl;
  left = rw h (sym (read-arriving size r.client));
  same_shares = refl;
  bytes = read-HasBytes size r.client;
}

pub length-read : (size : ℕ) (client : List Bytes) → length (read size client).0 ≤ size
unfolding read
length-read size [] = omega arith
length-read size (piece ∷ pieces) = elim (Bool-cases (leb (length piece) size)) [
  | inl h ↦ rw h (leb→le (length piece) size h)
  | inr h ↦ rw h (omega (arith, length-take size piece))
]

pub read-some :
    (size : ℕ) (client : List Bytes)
    → HasBytes client
    → 0 < size
    → 0 < length (arriving client)
    → 0 < length (read size client).0
unfolding read
read-some size [] h p q = absurd (omega arith)
read-some size (piece ∷ pieces) h p q = elim (Bool-cases (leb (length piece) size)) [
  | inl e ↦ rw e h.0
  | inr e ↦ rw e (ground (arith, length-take size piece))
]

-- What the loop for the rest of a body gives: it ends, the bytes that it passes on are those that it
-- should when it reports success, and it does when enough is to come.
pub record CopiesRest (n : ℕ) (r : Relay) (result : Option (Relay × Bool)) : Type 0 where
  pub out : Relay × Bool
  pub returned : result ≡ some out
  pub passes : Passes r out.0
  pub exact : out.1 ≡ true → length out.0.guest ≡ length r.guest + n
  pub complete : HasBytes r.client → n ≤ length (arriving r.client) → out.1 ≡ true

CopiesRest-ended :
    (f n : ℕ) (r : Relay)
    → (length (read (min (suc n) 65536) r.client).0 == 0) ≡ true
    → CopiesRest (suc n) r (copy_rest (suc f) (suc n) r)
unfolding copy_rest
CopiesRest-ended f n r z = record {
  out = (r, false);
  returned = rw z;
  passes = Passes-refl r;
  exact = λ x. ground arith;
  complete =
      λ x y. ground (arith, read-some (min (suc n) 65536) r.client x (omega arith) (omega arith));
}

pub length-read-arriving :
    (size : ℕ) (client : List Bytes)
    → length (read size client).0 + length (arriving (read size client).1)
      ≡ length (arriving client)
length-read-arriving size client =
    sym (length-append (read size client).0 (arriving (read size client).1))
    ∙ ap (λ b. length b) (read-arriving size client)

CopiesRest-more :
    (f n : ℕ) (r : Relay)
    → r.buf ≡ []
    → (length (read (min (suc n) 65536) r.client).0 == 0) ≡ false
    → CopiesRest
        (suc n - length (read (min (suc n) 65536) r.client).0)
        (pass r (read (min (suc n) 65536) r.client))
        (copy_rest f
          (suc n - length (read (min (suc n) 65536) r.client).0)
          (pass r (read (min (suc n) 65536) r.client)))
    → CopiesRest (suc n) r (copy_rest (suc f) (suc n) r)
unfolding copy_rest
CopiesRest-more f n r e z c =
    let size = min (suc n) 65536 in
    let bound = length-read size r.client in
    record {
      out = c.out;
      returned = rw z c.returned;
      passes = Passes-trans (pass-Passes size r e) c.passes;
      exact = λ x. omega (arith, c.exact x, length-append r.guest (read size r.client).0);
      complete = λ x y.
          c.complete (read-HasBytes size r.client x)
            (omega (arith, length-read-arriving size r.client));
    }

copy_rest-CopiesRest :
    (fuel n : ℕ) (r : Relay) → n ≤ fuel → r.buf ≡ [] → CopiesRest n r (copy_rest fuel n r)
unfolding copy_rest
copy_rest-CopiesRest fuel zero r h e = record {
  out = (r, true);
  returned = refl;
  passes = Passes-refl r;
  exact = λ x. omega arith;
  complete = λ x y. refl;
}
copy_rest-CopiesRest zero (suc n) r h e = absurd (omega arith)
copy_rest-CopiesRest (suc f) (suc n) r h e =
    elim (Bool-cases (length (read (min (suc n) 65536) r.client).0 == 0)) [
      | inl z ↦ CopiesRest-ended f n r z
      | inr z ↦ CopiesRest-more f n r e z (
          copy_rest-CopiesRest f (suc n - length (read (min (suc n) 65536) r.client).0)
            (pass r (read (min (suc n) 65536) r.client)) (ground arith) e)
    ]

-- What `copy_exact` gives: it ends, what it passes on is in order, and it is exactly `len` bytes on
-- success; when the client has that much to send it succeeds, and otherwise it reports the early
-- end.
pub record CopiesExact (len : ℕ) (r : Relay) (result : Option (Relay × Outcome)) : Type 0 where
  pub out : Relay × Outcome
  pub returned : result ≡ some out
  pub passes : Passes r out.0
  pub ends :
      ((out.1 ≡ done len) × (length out.0.guest ≡ length r.guest + len)) ⊎ (out.1 ≡ unexpected_eof)
  pub complete : HasBytes r.client → len ≤ length (pending r) → out.1 ≡ done len

drop-all : (b : Bytes) → drop (length b) b ≡ []
drop-all [] = refl
drop-all (c ∷ b) = drop-all b

CopiesExact-buffered :
    (len : ℕ) (r : Relay) → len ≤ length r.buf → CopiesExact len r (copy_exact len r)
unfolding copy_exact copy_rest
CopiesExact-buffered len r h =
    let all : min len (length r.buf) ≡ len = omega arith in
    let nothing : len - len ≡ 0 = omega arith in
    record {
      out = (forward len r, done len);
      returned = rw (all, nothing);
      passes = forward-Passes len r;
      ends =
          inl (refl, omega (arith, length-append r.guest (take len r.buf), length-take len r.buf));
      complete = λ x y. refl;
    }

CopiesExact-rest :
    (len : ℕ) (r : Relay)
    → length r.buf ≤ len
    → CopiesRest
        (len - length r.buf)
        (forward (length r.buf) r)
        (copy_rest (len - length r.buf) (len - length r.buf) (forward (length r.buf) r))
    → CopiesExact len r (copy_exact len r)
unfolding copy_exact
CopiesExact-rest len r h c =
    let all : min len (length r.buf) ≡ length r.buf = omega arith in
    let moved : length (r.guest ++ take (length r.buf) r.buf) ≡ length r.guest + length r.buf =
      omega (
        arith,
        length-append r.guest (take (length r.buf) r.buf),
        length-take (length r.buf) r.buf,
      ) in
    elim (Bool-cases c.out.1) [
      | inl t ↦ record {
        out = (c.out.0, done len);
        returned = rw (all, c.returned, t);
        passes = Passes-trans (forward-Passes (length r.buf) r) c.passes;
        ends = inl (refl, omega (arith, c.exact t, moved));
        complete = λ x y. refl;
      }
      | inr f ↦ record {
        out = (c.out.0, unexpected_eof);
        returned = rw (all, c.returned, f);
        passes = Passes-trans (forward-Passes (length r.buf) r) c.passes;
        ends = inr refl;
        complete = λ x y.
            ground (arith, c.complete x (omega (arith, length-append r.buf (arriving r.client))));
      }
    ]

-- `copy_exact` ends, and behaves as `CopiesExact` says, whatever the client sends and however it is
-- cut into pieces.
pub copy_exact-CopiesExact : (len : ℕ) (r : Relay) → CopiesExact len r (copy_exact len r)
copy_exact-CopiesExact len r = elim (Bool-cases (leb len (length r.buf))) [
  | inl h ↦ CopiesExact-buffered len r (leb→le len (length r.buf) h)
  | inr h ↦ CopiesExact-rest len r (ground arith) (
      copy_rest-CopiesRest (len - length r.buf) (len - length r.buf) (forward (length r.buf) r)
        (omega arith) (drop-all r.buf))
]
