-- ===== src/DockerProxy/Requests.antt =====
-- What Docker receives from a client: `forward_requests` of crates/solon-service/src/docker_proxy.rs.
use solon.Base.{
  ◌>>=◌, ℕ, zero, suc, ◌+◌, ◌-◌, ◌≤◌, ◌<◌, ◌≡◌, refl, sym, ap, ◌∙◌, inl, inr, Bool, true, false,
  ◌&&◌, Option, none, some, List, [], ◌∷◌, ◌++◌, append_assoc, append-nil, arith, leb, leb→le,
  Bool-cases, Option-cases, length, take, drop, length-append, take-append-drop, length-take,
  length-drop,
}
use mathlib.Core.Option
use solon.Base.Text.{find_str, Bytes}
use solon.DockerProxy.Head.{Head, blank_line, find_head_end, parse_head, set_content_length}
use solon.DockerProxy.Copy.{
  invalid_data, unexpected_eof, unexpected_eof, done, Relay, Outcome, Round, next, stop, forward,
  pending, arriving, reads,
}
use solon.DockerProxy.Conserve.{Passes, HasBytes, forward-Passes, copy_exact-CopiesExact}
use solon.DockerProxy.Rounds.{find_head_end-inside, copy_chunked-Relays}
use solon.DockerProxy.Reading.{
  is_long, is_ended, is_found, Keeps, IsHeadSearch, find_head-IsHeadSearch, read_body-ReadsBody,
}
use solon.DockerProxy.Forward.{
  within_limit, send_rewritten, HeadSearch, raw_tail, send_request, sent_body, sent_copy, copy_body,
  after_request, known_head, head_round, request_round, request_rounds, forward_requests,
  max_rewrite_body,
}

and-left : (a b : Bool) → (a && b) ≡ true → a ≡ true
and-left a b h = ground arith

and-right : (a b : Bool) → (a && b) ≡ true → b ≡ true
and-right a b h = ground arith

pub find_head_end-pos : (b : Bytes) (e : ℕ) → find_head_end b ≡ some e → 0 < e
unfolding find_head_end
find_head_end-pos b e h = elim (Option-cases (find_str blank_line b)) [
  | inl n ↦ let x : none ≡ some e = rw n at h in ground (arith, x)
  | inr (p, k) ↦ let x : some (p + 4) ≡ some e = rw k at h in ground (arith, x)
]

empty : (b : Bytes) → length b ≡ 0 → b ≡ []
empty [] h = refl
empty (c ∷ b) h = absurd (omega arith)

nothing-left :
    (s : Relay) → length (arriving s.client) ≡ 0 → pending (forward (length s.buf) s) ≡ []
nothing-left s h = empty (pending (forward (length s.buf) s)) (
    omega (
      arith,
      length-append (drop (length s.buf) s.buf) (arriving s.client),
      length-drop (length s.buf) s.buf,
    ))

module _ (rewrite_create_body : Bytes → Bytes × List Bytes) where
  -- From these bytes of a client come these bytes at Docker, and these drives are shared.
  pub data Sent : Bytes → Bytes → List Bytes → Type 0 where
    passed : (p : Bytes) → Sent p p []
    rewrote :
        (bytes body : Bytes) (head : Head)
        → parse_head bytes ≡ some head
        → head.is_create_container ≡ true
        → head.content_length ≡ some (length body)
        → length body ≤ max_rewrite_body
        → Sent
            (bytes ++ body)
            (set_content_length bytes (length (rewrite_create_body body).0)
              ++ (rewrite_create_body body).0)
            (rewrite_create_body body).1
    andthen :
        {a b a' b' : Bytes} {d d' : List Bytes}
        → Sent a b d
        → Sent a' b' d'
        → Sent (a ++ a') (b ++ b') (d ++ d')

  -- From `r` to `r'` bytes were consumed, `lost` among them, and others sent.
  pub record Serves (lost : Bytes) (r r' : Relay) : Type 0 where
    pub consumed : Bytes
    pub sent : Bytes
    pub drives : List Bytes
    pub relation : Sent consumed sent drives
    pub at_guest : r'.guest ≡ r.guest ++ sent
    pub left : pending r ≡ consumed ++ (lost ++ pending r')
    pub shared : r'.shares ≡ r.shares ++ drives
    pub bytes : HasBytes r.client → HasBytes r'.client

  pub Serves-Passes : {r r' : Relay} → Passes r r' → Serves [] r r'
  Serves-Passes p = record {
    consumed = p.moved;
    sent = p.moved;
    drives = [];
    relation = passed p.moved;
    at_guest = p.sent;
    left = p.left;
    shared = p.same_shares ∙ sym (append-nil _);
    bytes = p.bytes;
  }

  pub Serves-trans :
      {lost : Bytes} {r s t : Relay} → Serves [] r s → Serves lost s t → Serves lost r t
  Serves-trans {lost} {r} {s} {t} p q = record {
    consumed = p.consumed ++ q.consumed;
    sent = p.sent ++ q.sent;
    drives = p.drives ++ q.drives;
    relation = andthen p.relation q.relation;
    at_guest = q.at_guest ∙ ap (λ g. g ++ q.sent) p.at_guest ∙ append_assoc r.guest p.sent q.sent;
    left =
        p.left
        ∙ ap (λ g. p.consumed ++ g) q.left
        ∙ sym (append_assoc p.consumed q.consumed (lost ++ pending t));
    shared = q.shared ∙ ap (λ g. g ++ q.drives) p.shared ∙ append_assoc r.shares p.drives q.drives;
    bytes = λ h. q.bytes (p.bytes h);
  }

  -- A round either serves and leaves less, or is the last one. When the last one is a success,
  -- nothing is left, if no piece of the client is empty.
  pub data IsServed (r : Relay) : Option Round → Type 0 where
    serves_on :
        (r' : Relay) (total : ℕ)
        → Serves [] r r'
        → length (pending r') < length (pending r)
        → IsServed r (some (next r' total))
    serves_last :
        (r' : Relay) (o : Outcome) (lost : Bytes)
        → Serves lost r r'
        → ((n : ℕ) → o ≡ done n → HasBytes r.client → lost ++ pending r' ≡ [])
        → IsServed r (some (stop r' o))

  raw_tail-Passes : (total : ℕ) (r : Relay) → Passes r (raw_tail total r).0
  unfolding raw_tail
  raw_tail-Passes total r = record {
    moved = pending r;
    sent = append_assoc r.guest r.buf (arriving r.client);
    left = sym (append-nil _);
    same_shares = refl;
    bytes = λ h. tt;
  }

  tail-IsServed :
      (total : ℕ) (r s : Relay)
      → Serves [] r s
      → IsServed r (some (stop (raw_tail total s).0 (raw_tail total s).1))
  unfolding raw_tail
  tail-IsServed total r s p =
      serves_last (raw_tail total s).0 (raw_tail total s).1 []
        (Serves-trans p (Serves-Passes (raw_tail-Passes total s))) (λ n e h. refl)

  pending-Passes : {r r' : Relay} → Passes r r' → length (pending r') ≤ length (pending r)
  pending-Passes {r} {r'} p =
      let l : length (pending r) ≡ length p.moved + length (pending r') =
        ap (λ g. length g) p.left ∙ length-append p.moved (pending r') in
      omega (arith, l)

  -- A body that was copied, behind what was served before.
  copied-IsServed :
      (total : ℕ) (r s : Relay) (x : Relay × Outcome)
      → Serves [] r s
      → length (pending s) < length (pending r)
      → Passes s x.0
      → IsServed r (some (sent_copy rewrite_create_body total x))
  unfolding sent_copy
  copied-IsServed total r s (t, done n) p m q =
      serves_on t (total + n) (Serves-trans p (Serves-Passes q))
        (omega (arith, m, pending-Passes q))
  copied-IsServed total r s (t, unexpected_eof) p m q =
      serves_last t unexpected_eof [] (Serves-trans p (Serves-Passes q))
        (λ n e h. absurd (ground (arith, e)))
  copied-IsServed total r s (t, invalid_data) p m q =
      serves_last t invalid_data [] (Serves-trans p (Serves-Passes q))
        (λ n e h. absurd (ground (arith, e)))

  copy_body-IsServed :
      (head : Head) (total : ℕ) (r s : Relay)
      → Serves [] r s
      → length (pending s) < length (pending r)
      → IsServed r (copy_body rewrite_create_body head total s)
  unfolding copy_body
  copy_body-IsServed head total r s p m = elim (Option-cases head.content_length) [
    | inr (len, k) ↦
        let c = copy_exact-CopiesExact len s in
        rw (k, c.returned) (copied-IsServed total r s c.out p m c.passes)
    | inl k ↦ elim (Bool-cases head.chunked) [
      | inl h ↦
          let c = copy_chunked-Relays s in
          rw (k, h, c.returned) (copied-IsServed total r s c.out p m c.passes)
      | inr h ↦ rw (k, h) (serves_on s total p m)
    ]
  ]

  after_request-IsServed :
      (head : Head) (r : Relay) {o : Option Round}
      → IsServed r o
      → IsServed r (Option.map (after_request rewrite_create_body head) o)
  unfolding after_request
  after_request-IsServed head r (serves_last r' o lost s d) = serves_last r' o lost s d
  after_request-IsServed head r (serves_on r' total s m) = elim (Bool-cases head.upgrade) [
    | inl u ↦ rw u (tail-IsServed total r r' s)
    | inr u ↦ rw u (serves_on r' total s m)
  ]

  -- What is known when a head was taken from the buffer.
  pub record HasHead (r r1 : Relay) (bytes : Bytes) : Type 0 where
    pub before : pending r ≡ bytes ++ pending r1
    pub some_bytes : 0 < length bytes
    pub same_guest : r1.guest ≡ r.guest
    pub same_shares : r1.shares ≡ r.shares
    pub pieces : HasBytes r.client → HasBytes r1.client

  module _ (r r1 s : Relay) (bytes : Bytes) (h : HasHead r r1 bytes) (k : Keeps r1 s) where
    truncated-IsServed : IsServed r (some (stop s unexpected_eof))
    truncated-IsServed =
        serves_last s unexpected_eof bytes
          (record {
            consumed = [];
            sent = [];
            drives = [];
            relation = passed [];
            at_guest = k.silent ∙ h.same_guest ∙ sym (append-nil r.guest);
            left = h.before ∙ ap (λ p. bytes ++ p) (sym k.kept);
            shared = k.same_shares ∙ h.same_shares ∙ sym (append-nil r.shares);
            bytes = λ x. k.bytes (h.pieces x);
          })
          (λ n e x. absurd (ground (arith, e)))

    body-left :
        (len : ℕ) → pending r ≡ (bytes ++ take len s.buf) ++ (drop len s.buf ++ arriving s.client)
    body-left len =
        h.before
        ∙ ap (λ p. bytes ++ p)
            (sym k.kept
              ∙ ap (λ b. b ++ arriving s.client) (sym (take-append-drop len s.buf))
              ∙ append_assoc (take len s.buf) (drop len s.buf) (arriving s.client))
        ∙ sym (append_assoc bytes (take len s.buf) (drop len s.buf ++ arriving s.client))

    shorter : (len : ℕ) → length (drop len s.buf ++ arriving s.client) < length (pending r)
    shorter len = omega (
      arith,
      ap (λ b. length b) (body-left len)
          ∙ length-append (bytes ++ take len s.buf) (drop len s.buf ++ arriving s.client),
      length-append bytes (take len s.buf),
      h.some_bytes,
    )

    module _ (head : Head) (len : ℕ) (parsed : parse_head bytes ≡ some head)
        (create : head.is_create_container ≡ true) (announced : head.content_length ≡ some len)
        (limit : len ≤ max_rewrite_body) (enough : len ≤ length s.buf) where
      length-body : length (take len s.buf) ≡ len
      length-body = omega (arith, length-take len s.buf)

      replacement : Bytes
      replacement =
          set_content_length bytes (length (rewrite_create_body (take len s.buf)).0)
          ++ (rewrite_create_body (take len s.buf)).0

      rewritten-IsServed :
          (total : ℕ)
          → IsServed r (some (next (send_rewritten rewrite_create_body bytes len s) total))
      unfolding send_rewritten replacement
      rewritten-IsServed total =
          serves_on (send_rewritten rewrite_create_body bytes len s) total
            (record {
              consumed = bytes ++ take len s.buf;
              sent = replacement;
              drives = (rewrite_create_body (take len s.buf)).1;
              relation =
                  rewrote bytes (take len s.buf) head parsed create
                    (announced ∙ ap some (sym length-body)) (omega (arith, length-body, limit));
              at_guest =
                  append_assoc s.guest
                    (set_content_length bytes (length (rewrite_create_body (take len s.buf)).0))
                    (rewrite_create_body (take len s.buf)).0
                  ∙ ap (λ g. g ++ replacement) (k.silent ∙ h.same_guest);
              left = body-left len;
              shared =
                  ap (λ d. d ++ (rewrite_create_body (take len s.buf)).1)
                    (k.same_shares ∙ h.same_shares);
              bytes = λ x. k.bytes (h.pieces x);
            })
            (shorter len)

  module _ (r r1 : Relay) (bytes : Bytes) (h : HasHead r r1 bytes) where
    abbrev sent_head : Relay
    sent_head = record r1 { guest = r1.guest ++ bytes }

    head_passed : Passes r sent_head
    head_passed = record {
      moved = bytes;
      sent = ap (λ g. g ++ bytes) h.same_guest;
      left = h.before;
      same_shares = h.same_shares;
      bytes = h.pieces;
    }

    head_shorter : length (pending sent_head) < length (pending r)
    head_shorter =
        omega (arith, ap (λ b. length b) h.before ∙ length-append bytes (pending r1), h.some_bytes)

    creation-IsServed :
        (head : Head) (len total : ℕ)
        → parse_head bytes ≡ some head
        → head.is_create_container ≡ true
        → head.content_length ≡ some len
        → len ≤ max_rewrite_body
        → (x : Relay × Bool) → Keeps r1 x.0
        → (x.1 ≡ true → len ≤ length x.0.buf)
        → IsServed r (some (sent_body rewrite_create_body bytes len total x))
    unfolding sent_body
    creation-IsServed head len total p c a l (s, true) k e =
        rewritten-IsServed r r1 s bytes h k head len p c a l (e refl) _
    creation-IsServed head len total p c a l (s, false) k e = truncated-IsServed r r1 s bytes h k

    send_request-IsServed :
        (head : Head) (total : ℕ)
        → parse_head bytes ≡ some head
        → IsServed r (send_request rewrite_create_body bytes head total r1)
    unfolding send_request
    send_request-IsServed head total p =
        elim (Bool-cases (head.is_create_container && within_limit head.content_length)) [
          | inr c ↦ rw c (
              copy_body-IsServed head (total + length bytes) r sent_head (Serves-Passes head_passed)
                head_shorter)
          | inl c ↦ elim (Option-cases head.content_length) [
            | inl k ↦ absurd (no_length head.is_create_container (rw k at c))
            | inr (len, k) ↦
                let b = read_body-ReadsBody (len - length r1.buf) len r1 (omega arith) in
                let l : (head.is_create_container && leb len max_rewrite_body) ≡ true = rw k at c in
                rw (c, k, b.returned)
                  (creation-IsServed head len total p (and-left head.is_create_container _ l) k
                    (leb→le len max_rewrite_body (and-right head.is_create_container _ l)) b.out
                    b.keeps b.enough)
          ]
        ]
      where
        no_length : (b : Bool) → (b && false) ≡ true → ⊥
        no_length b e = ground (arith, e)

    known_head-IsServed :
        (total : ℕ) (o : Option Head)
        → parse_head bytes ≡ o
        → IsServed r (known_head rewrite_create_body bytes r1 total o)
    unfolding known_head
    known_head-IsServed total none p =
        tail-IsServed (total + length bytes) r sent_head (Serves-Passes head_passed)
    known_head-IsServed total (some head) p =
        after_request-IsServed head r (send_request-IsServed head total p)

  found-HasHead :
      (r s : Relay) (pos : ℕ)
      → Keeps r s
      → find_head_end s.buf ≡ some pos
      → HasHead r (record s { buf = drop pos s.buf }) (take pos s.buf)
  found-HasHead r s pos k e = record {
    before =
        sym k.kept
        ∙ ap (λ b. b ++ arriving s.client) (sym (take-append-drop pos s.buf))
        ∙ append_assoc (take pos s.buf) (drop pos s.buf) (arriving s.client);
    some_bytes = omega (
      arith,
      length-take pos s.buf,
      find_head_end-inside s.buf pos e,
      find_head_end-pos s.buf pos e,
    );
    same_guest = k.silent;
    same_shares = k.same_shares;
    pieces = k.bytes;
  }

  Keeps-Passes : {r s : Relay} → Keeps r s → Passes r s
  Keeps-Passes {r} k = record {
    moved = [];
    sent = k.silent ∙ sym (append-nil r.guest);
    left = sym k.kept;
    same_shares = k.same_shares;
    bytes = k.bytes;
  }

  ended-IsServed :
      (total : ℕ) (r s : Relay)
      → Keeps r s
      → (HasBytes r.client → length (arriving s.client) ≡ 0)
      → IsServed r (some (stop (forward (length s.buf) s) (done total)))
  ended-IsServed total r s k z =
      serves_last (forward (length s.buf) s) (done total) []
        (Serves-trans (Serves-Passes (Keeps-Passes k))
          (Serves-Passes (forward-Passes (length s.buf) s)))
        (λ n e h. nothing-left s (z h))

  head_round-IsServed :
      (total : ℕ) (r : Relay) {o : Option HeadSearch}
      → IsHeadSearch r o
      → IsServed r (o >>= head_round rewrite_create_body total)
  unfolding head_round
  head_round-IsServed total r (is_long s k) =
      tail-IsServed total r s (Serves-Passes (Keeps-Passes k))
  head_round-IsServed total r (is_ended s k z) = ended-IsServed total r s k z
  head_round-IsServed total r (is_found s pos k e) =
      known_head-IsServed r (record s { buf = drop pos s.buf }) (take pos s.buf)
        (found-HasHead r s pos k e) total (parse_head (take pos s.buf)) refl

  request_round-IsServed :
      (total : ℕ) (r : Relay) → IsServed r (request_round rewrite_create_body total r)
  unfolding request_round
  request_round-IsServed total r =
      head_round-IsServed total r (find_head-IsHeadSearch (reads r) r (omega arith))

  -- What the requests of a client give: the loop ends; Docker received, in order, what the client
  -- sent, the creations of containers rewritten; when it succeeds, that is all that the client sent.
  pub record IsForwarded (r : Relay) (result : Option (Relay × Outcome)) : Type 0 where
    pub out : Relay × Outcome
    pub returned : result ≡ some out
    pub lost : Bytes
    pub serves : Serves lost r out.0
    pub all : (n : ℕ) → out.1 ≡ done n → HasBytes r.client → lost ++ pending out.0 ≡ []

  request_rounds-IsForwarded :
      (f total : ℕ) (r : Relay)
      → length (pending r) < f
      → IsForwarded r (request_rounds rewrite_create_body f total r)
  unfolding request_rounds
  request_rounds-IsForwarded zero total r h = absurd (omega arith)
  request_rounds-IsForwarded (suc f) total r h =
      go (request_round rewrite_create_body total r) refl (request_round-IsServed total r)
        (λ t r' m. request_rounds-IsForwarded f t r' m)
    where
      go :
          (o : Option Round)
          → request_round rewrite_create_body total r ≡ o
          → IsServed r o
          → ((t : ℕ) (r' : Relay)
              → length (pending r') < f
              → IsForwarded r' (request_rounds rewrite_create_body f t r'))
          → IsForwarded r (request_rounds rewrite_create_body (suc f) total r)
      go o e (serves_on r' t s m) again =
          let rest = again t r' (omega arith) in
          record {
            out = rest.out;
            returned = rw (request_rounds, e) rest.returned;
            lost = rest.lost;
            serves = Serves-trans s rest.serves;
            all = λ n x y. rest.all n x (s.bytes y);
          }
      go o e (serves_last r' outcome lost s d) again = record {
        out = (r', outcome);
        returned = rw (request_rounds, e);
        lost = lost;
        serves = s;
        all = d;
      }

  -- The proxy ends with its client; what Docker receives is what the client sent, in order, with
  -- nothing changed but the complete creations of containers of at most 8 MiB, whose body is
  -- rewritten and whose length is set anew; the drives of these are shared. On success this is
  -- all that the client sent, if no read before its end was empty.
  pub forward_requests-IsForwarded :
      (r : Relay) → IsForwarded r (forward_requests rewrite_create_body r)
  unfolding forward_requests
  forward_requests-IsForwarded r =
      request_rounds-IsForwarded (length (pending r) + 1) 0 r (omega arith)
