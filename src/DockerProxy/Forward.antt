-- ===== src/DockerProxy/Forward.antt =====
-- `forward_requests`: the requests of one client, one after the other. What `rewrite_create_body` does
-- is an argument here.
use solon.Base.{
  ◌>>=◌, ℕ, zero, suc, ◌+◌, ◌-◌, min, Bool, true, false, ◌&&◌, Option, none, some, List, [], ◌++◌,
  ltb, leb, ◌==◌, if◌then◌else◌, length, take, drop,
}
use mathlib.Core.Option
use solon.Base.Text.{Bytes}
use solon.DockerProxy.Head.{Head, find_head_end, parse_head, set_content_length}
use solon.DockerProxy.Copy.{
  invalid_data, unexpected_eof, done, unexpected_eof, pending, Relay, Outcome, read, refill,
  forward, arriving, copy_exact, copy_chunked, reads, Round, next, stop,
}

abbrev pub max_rewrite_body : ℕ
max_rewrite_body = 8388608

abbrev pub max_head : ℕ
max_head = 1048576

-- `raw_tail`: what is in the buffer and all that still comes
unfoldable pub raw_tail : ℕ → Relay → Relay × Outcome
raw_tail total r = (
  record r { buf = []; client = []; guest = (r.guest ++ r.buf) ++ arriving r.client },
  done (total + length r.buf + length (arriving r.client)),
)

pub data HeadSearch : Type 0 where
  found : Relay → ℕ → HeadSearch
  too_long : Relay → HeadSearch
  ended : Relay → HeadSearch

-- the loop up to a complete head
unfoldable pub find_head : ℕ → Relay → Option HeadSearch
unfolding find_head_end read
find_head zero r = none
find_head (suc f) r =
    let got = read 16384 r.client in
    let more = find_head f (refill r got) in
    elim (find_head_end r.buf) [
      | some pos ↦ some (found r pos)
      | none ↦
          if ltb max_head (length r.buf)
          then some (too_long r)
          else if length got.0 == 0
          then some (ended r)
          else more
    ]

-- `while buf.len() < len`; true when the body is complete
unfoldable pub read_body : ℕ → ℕ → Relay → Option (Relay × Bool)
unfolding read
read_body zero len r = if ltb (length r.buf) len then none else some (r, true)
read_body (suc f) len r =
    let got = read (min (len - length r.buf) 65536) r.client in
    let more = read_body f len (refill r got) in
    if ltb (length r.buf) len
    then (if length got.0 == 0 then some (r, false) else more)
    else some (r, true)

abbrev pub within_limit : Option ℕ → Bool
within_limit none = false
within_limit (some n) = leb n max_rewrite_body

abbrev pub or_zero : Option ℕ → ℕ
or_zero none = 0
or_zero (some n) = n

module _ (rewrite_create_body : Bytes → Bytes × List Bytes) where
  -- A complete body at the start of the buffer, rewritten.
  unfoldable pub send_rewritten : Bytes → ℕ → Relay → Relay
  unfolding set_content_length
  send_rewritten head len r =
      let (body, drives) = rewrite_create_body (take len r.buf) in
      record r {
        buf = drop len r.buf;
        shares = r.shares ++ drives;
        guest = (r.guest ++ set_content_length head (length body)) ++ body;
      }

  unfoldable pub rewritten_length : Bytes → Bytes → ℕ
  unfolding set_content_length
  rewritten_length head body =
      let out = (rewrite_create_body body).0 in
      length (set_content_length head (length out)) + length out

  unfoldable pub sent_body : Bytes → ℕ → ℕ → Relay × Bool → Round
  unfolding send_rewritten rewritten_length
  sent_body head len total (r, false) = stop r unexpected_eof
  sent_body head len total (r, true) =
      next (send_rewritten head len r) (total + rewritten_length head (take len r.buf))

  unfoldable pub sent_copy : ℕ → Relay × Outcome → Round
  sent_copy total (r, done n) = next r (total + n)
  sent_copy total (r, unexpected_eof) = stop r unexpected_eof
  sent_copy total (r, invalid_data) = stop r invalid_data

  -- a body that goes through unchanged, the head being at Docker already
  unfoldable pub copy_body : Head → ℕ → Relay → Option Round
  unfolding copy_exact copy_chunked sent_copy
  copy_body head total r = elim head.content_length [
    | some len ↦ Option.map (sent_copy total) (copy_exact len r)
    | none ↦
        if head.chunked then Option.map (sent_copy total) (copy_chunked r) else some (next r total)
  ]

  -- a request, its head being out of the buffer
  unfoldable pub send_request : Bytes → Head → ℕ → Relay → Option Round
  unfolding sent_body read_body copy_body
  send_request bytes head total r =
      if head.is_create_container && within_limit head.content_length
      then (let len = or_zero head.content_length in
          Option.map (sent_body bytes len total) (read_body (len - length r.buf) len r))
      else copy_body head (total + length bytes) (record r { guest = r.guest ++ bytes })

  unfoldable pub after_request : Head → Round → Round
  unfolding raw_tail
  after_request head (stop r o) = stop r o
  after_request head (next r total) =
      if head.upgrade then (let (r', o) = raw_tail total r in stop r' o) else next r total

  unfoldable pub known_head : Bytes → Relay → ℕ → Option Head → Option Round
  unfolding raw_tail send_request after_request
  known_head bytes r total none =
      let (r', o) = raw_tail (total + length bytes) (record r { guest = r.guest ++ bytes }) in
      some (stop r' o)
  known_head bytes r total (some head) =
      Option.map (after_request head) (send_request bytes head total r)

  unfoldable pub head_round : ℕ → HeadSearch → Option Round
  unfolding known_head raw_tail parse_head
  head_round total (too_long r) = let (r', o) = raw_tail total r in some (stop r' o)
  head_round total (ended r) = some (stop (forward (length r.buf) r) (done total))
  head_round total (found r pos) =
      known_head (take pos r.buf) (record r { buf = drop pos r.buf }) total
        (parse_head (take pos r.buf))

  -- one round of the outer loop
  unfoldable pub request_round : ℕ → Relay → Option Round
  unfolding head_round find_head
  request_round total r = find_head (reads r) r >>= head_round total

  unfoldable pub request_rounds : ℕ → ℕ → Relay → Option (Relay × Outcome)
  unfolding request_round
  request_rounds zero total r = none
  request_rounds (suc f) total r = elim (request_round total r) [
    | none ↦ none
    | some (stop r' o) ↦ some (r', o)
    | some (next r' total') ↦ request_rounds f total' r'
  ]

  -- Every round takes a head of four bytes at least.
  unfoldable pub forward_requests : Relay → Option (Relay × Outcome)
  unfolding request_rounds
  forward_requests r = request_rounds (length (pending r) + 1) 0 r
