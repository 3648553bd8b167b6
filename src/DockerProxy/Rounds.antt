-- ===== src/DockerProxy/Rounds.antt =====
-- The rounds of `copy_chunked`, crates/solon-service/src/docker_proxy.rs.
use solon.Base.{
  ℕ, zero, suc, ◌+◌, ◌%◌, ◌^◌, ◌≤◌, ◌<◌, ◌≡◌, refl, sym, ap, ◌∙◌, ◌⊎◌, inl, inr, Option, none, some,
  [], append-nil, arith, ◌==◌, if◌then◌else◌, Bool-cases, Option-cases, length, take, length-append,
  length-take,
}
use solon.Base.Text.{Bytes, find_str, starts_with}
use solon.DockerProxy.Head.{crlf, blank_line, find_head_end}
use solon.DockerProxy.Copy.{
  chunk_size, invalid_data, sized_round, line_round, stop_at, unexpected_eof, after_chunk,
  finish_trailers, done, Relay, Outcome, Round, next, stop, forward, pending, trailers_end, reads,
  chunk_round, copy_round, copy_rounds, copy_chunked,
}
use solon.DockerProxy.Conserve.{
  Passes-refl, copy_exact-CopiesExact, forward-Passes, Passes-trans, Passes,
}
use solon.DockerProxy.Chunked.{Searches, search-Searches, find_str-inside, length-starts_with}

pub find_head_end-inside : (b : Bytes) (e : ℕ) → find_head_end b ≡ some e → e ≤ length b
unfolding find_head_end
find_head_end-inside b e h = elim (Option-cases (find_str blank_line b)) [
  | inl n ↦ let x : none ≡ some e = rw n at h in ground (arith, x)
  | inr (p, k) ↦
      let x : some (p + 4) ≡ some e = rw k at h in
      ground (arith, x, find_str-inside blank_line b p k)
]

trailers_end-inside : (b : Bytes) (e : ℕ) → trailers_end b ≡ some e → e ≤ length b
unfolding trailers_end
trailers_end-inside b e h = elim (Option-cases (find_head_end b)) [
  | inl n ↦
      let x : (if starts_with crlf b then some 2 else none) ≡ some e = rw (trailers_end, n) at h in
      ground (arith, x, length-starts_with crlf b)
  | inr (p, k) ↦
      let x : some p ≡ some e = rw (trailers_end, k) at h in
      ground (arith, x, find_head_end-inside b p k)
]

-- What a round of the loop gives: a result, or a next round with a total of `low` at least.
pub data IsRound (low total : ℕ) (r : Relay) : Option Round → Type 0 where
  goes :
      (r' : Relay) (total' : ℕ)
      → Passes r r'
      → low ≤ total'
      → length r'.guest + total ≡ length r.guest + total'
      → IsRound low total r (some (next r' total'))
  stops :
      (r' : Relay) (o : Outcome)
      → Passes r r'
      → ((n : ℕ) → o ≡ done n → length r'.guest + total ≡ length r.guest + n)
      → IsRound low total r (some (stop r' o))

pub length-forward :
    (n : ℕ) (r : Relay) → n ≤ length r.buf → length (forward n r).guest ≡ length r.guest + n
length-forward n r h = omega (arith, length-append r.guest (take n r.buf), length-take n r.buf)

-- Of two relays with `Passes` between them, what one sends the other has less to send.
pub Passes-length :
    {r r' : Relay}
    → Passes r r'
    → length r.guest + length (pending r) ≡ length r'.guest + length (pending r')
Passes-length {r} {r'} p =
    let s : length r'.guest ≡ length r.guest + length p.moved =
      ap (λ g. length g) p.sent ∙ length-append r.guest p.moved in
    let l : length (pending r) ≡ length p.moved + length (pending r') =
      ap (λ g. length g) p.left ∙ length-append p.moved (pending r') in
    omega (arith, s, l)

-- A round that begins with bytes passed on.
IsRound-after :
    (low total total' : ℕ) (r s : Relay) {result : Option Round}
    → Passes r s
    → length s.guest + total ≡ length r.guest + total'
    → IsRound low total' s result
    → IsRound low total r result
IsRound-after low total total' r s p h (goes r' t q m e) =
    goes r' t (Passes-trans p q) m (omega (arith, h, e))
IsRound-after low total total' r s p h (stops r' o q f) =
    stops r' o (Passes-trans p q) (λ n e. omega (arith, h, f n e))

IsRound-low :
    (low low' total : ℕ) (r : Relay) {result : Option Round}
    → low ≤ low'
    → IsRound low' total r result
    → IsRound low total r result
IsRound-low low low' total r h (goes r' t p m e) = goes r' t p (omega arith) e
IsRound-low low low' total r h (stops r' o p f) = stops r' o p f

Searches-Passes :
    {test : Bytes → Option ℕ} {r : Relay} {result : Option (Relay × Option ℕ)}
    → (s : Searches test r result) → Passes r s.out.0
Searches-Passes s = record {
  moved = [];
  sent = s.silent ∙ sym (append-nil _);
  left = sym s.kept;
  same_shares = s.same_shares;
  bytes = s.bytes;
}

last-IsRound :
    (total : ℕ) (r s : Relay) (end : ℕ)
    → Passes r s
    → length s.guest ≡ length r.guest
    → end ≤ length s.buf
    → IsRound total total r (some (stop (forward end s) (done (total + end))))
last-IsRound total r s end p e h =
    stops (forward end s) (done (total + end)) (Passes-trans p (forward-Passes end s))
      (λ n x. ground (arith, length-forward end s h, e))

end-IsRound :
    (total : ℕ) (r : Relay) (x : Relay × Option ℕ)
    → Passes r x.0
    → length x.0.guest ≡ length r.guest
    → ((p : ℕ) → x.1 ≡ some p → p ≤ length x.0.buf)
    → IsRound total total r (some (stop_at (finish_trailers total x)))
unfolding finish_trailers
end-IsRound total r (s, none) p e h = last-IsRound total r s (length s.buf) p e (omega arith)
end-IsRound total r (s, some end) p e h = last-IsRound total r s end p e (h end refl)

copied-IsRound :
    (total len : ℕ) (r : Relay) (x : Relay × Outcome)
    → Passes r x.0
    → ((x.1 ≡ done len) × (length x.0.guest ≡ length r.guest + len)) ⊎ (x.1 ≡ unexpected_eof)
    → IsRound total total r (some (after_chunk total x))
unfolding after_chunk
copied-IsRound total len r (s, done n) p (inl h) =
    goes s (total + n) p (omega arith) (ground (arith, h.0, h.1))
copied-IsRound total len r (s, done n) p (inr h) = absurd (ground (arith, h))
copied-IsRound total len r (s, unexpected_eof) p h =
    stops s unexpected_eof p (λ n e. ground (arith, e))
copied-IsRound total len r (s, invalid_data) p h = stops s invalid_data p (λ n e. ground (arith, e))

chunk_round-IsRound :
    (size total : ℕ) (r : Relay) → IsRound total total r (chunk_round size total r)
unfolding chunk_round
chunk_round-IsRound size total r = elim (Bool-cases (size == 0)) [
  | inl z ↦
      let s = search-Searches trailers_end 4096 (reads r) r (omega arith) in
      rw (z, s.returned)
        (end-IsRound total r s.out (Searches-Passes s) (ap (λ g. length g) s.silent)
          (λ p e. trailers_end-inside s.out.0.buf p (s.tested p e)))
  | inr z ↦
      let c = copy_exact-CopiesExact ((size + 2) % 2 ^ 64) r in
      rw (z, c.returned) (copied-IsRound total ((size + 2) % 2 ^ 64) r c.out c.passes c.ends)
]

sized_round-IsRound :
    (line_end total : ℕ) (r : Relay) (size : Option ℕ)
    → line_end + 2 ≤ length r.buf
    → IsRound (total + 2) total r (sized_round line_end total r size)
unfolding sized_round
sized_round-IsRound line_end total r none h =
    stops r invalid_data (Passes-refl r) (λ n e. ground (arith, e))
sized_round-IsRound line_end total r (some size) h =
    IsRound-after (total + 2) total (total + (line_end + 2)) r (forward (line_end + 2) r)
      (forward-Passes (line_end + 2) r) (omega (arith, length-forward (line_end + 2) r h))
      (IsRound-low (total + 2) (total + (line_end + 2)) (total + (line_end + 2))
        (forward (line_end + 2) r) (omega arith)
        (chunk_round-IsRound size (total + (line_end + 2)) (forward (line_end + 2) r)))

line_round-IsRound :
    (total : ℕ) (r : Relay) (x : Relay × Option ℕ)
    → Passes r x.0
    → length x.0.guest ≡ length r.guest
    → ((p : ℕ) → x.1 ≡ some p → p + 2 ≤ length x.0.buf)
    → IsRound (total + 2) total r (line_round total x)
unfolding line_round
line_round-IsRound total r (s, none) p e h = stops s unexpected_eof p (λ n x. ground (arith, x))
line_round-IsRound total r (s, some line_end) p e h =
    IsRound-after (total + 2) total total r s p (omega (arith, e))
      (sized_round-IsRound line_end total s (chunk_size (take line_end s.buf)) (h line_end refl))

copy_round-IsRound : (total : ℕ) (r : Relay) → IsRound (total + 2) total r (copy_round total r)
unfolding copy_round
copy_round-IsRound total r =
    let s = search-Searches (find_str crlf) 4096 (reads r) r (omega arith) in
    rw s.returned (
      line_round-IsRound total r s.out (Searches-Passes s) (ap (λ g. length g) s.silent)
        (λ p e. find_str-inside crlf s.out.0.buf p (s.tested p e)))

-- What a loop of such rounds gives: it ends, and a total that it reports is right.
pub record Relays (total : ℕ) (r : Relay) (result : Option (Relay × Outcome)) : Type 0 where
  pub out : Relay × Outcome
  pub returned : result ≡ some out
  pub passes : Passes r out.0
  pub counted : (n : ℕ) → out.1 ≡ done n → length out.0.guest + total ≡ length r.guest + n

copy_rounds-Relays :
    (f total : ℕ) (r : Relay) → length (pending r) < f → Relays total r (copy_rounds f total r)
unfolding copy_rounds
copy_rounds-Relays zero total r h = absurd (omega arith)
copy_rounds-Relays (suc f) total r h =
    go (copy_round total r) refl (copy_round-IsRound total r)
      (λ t r' m. copy_rounds-Relays f t r' m)
  where
    go :
        (o : Option Round)
        → copy_round total r ≡ o
        → IsRound (total + 2) total r o
        → ((t : ℕ) (r' : Relay) → length (pending r') < f → Relays t r' (copy_rounds f t r'))
        → Relays total r (copy_rounds (suc f) total r)
    go o e (goes r' total' p m q) again =
        let rest = again total' r' (omega (arith, Passes-length p)) in
        record {
          out = rest.out;
          returned = rw (copy_rounds, e) rest.returned;
          passes = Passes-trans p rest.passes;
          counted = λ n x. omega (arith, q, rest.counted n x);
        }
    go o e (stops r' outcome p c) again = record {
      out = (r', outcome);
      returned = rw (copy_rounds, e);
      passes = p;
      counted = c;
    }

-- The copy of a chunked body ends, whatever the client sends and however it is cut into pieces;
-- what it passes on is the start of what is pending, in order; and when it succeeds it reports the
-- number of bytes that it passed on.
pub copy_chunked-Relays : (r : Relay) → Relays 0 r (copy_chunked r)
unfolding copy_chunked
copy_chunked-Relays r = copy_rounds-Relays (length (pending r) + 1) 0 r (omega arith)
