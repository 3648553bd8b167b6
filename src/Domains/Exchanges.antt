-- ===== src/Domains/Exchanges.antt =====
-- What the requests of a connection leave behind, for the loop in `handle` of
-- crates/solon-service/src/domains.rs. The `Arc` that each request gets for its body is a number.
use solon.Base.{ℕ, suc, ◌≡◌, Bool, Option, none, some, List, [], ◌∷◌, ◌++◌, if◌then◌else◌, length}
use solon.Base.Text.{Bytes}
use solon.Protocol.{TraceBody}
use solon.Domains.Head.{
  Body, length_of, chunked, upgrade, rewrite_head, parse_request_head, capturable,
}
use solon.Domains.Bodies.{feed_if, unsent}
use solon.Domains.Relayed.{IsLost}
use solon.Domains.Pump.{Pending, tee_for, captured_body}
use solon.Domains.Requests.{Sending, pending_of}

-- The bytes of a head, what was passed on of the body, and what of it the capture saw.
pub record Exchange : Type 0 where
  pub head : Bytes
  pub moved : Bytes
  pub captured : Bytes

-- The type of the content, when the body is watched.
abbrev pub watched : Bool → Exchange → Option Bytes
watched capture x = if capture then capturable (parse_request_head x.head).2 else none

-- The entry of the queue for a request.
abbrev pub request_of : Bytes → (ℕ → ℕ) → ℕ → Exchange → Pending
request_of scheme now k x =
    let (method, path, headers) = parse_request_head x.head in
    pending_of (now k) method path headers (rewrite_head x.head scheme).1 k

abbrev pub queue_of : Bytes → (ℕ → ℕ) → ℕ → List Exchange → List Pending
queue_of scheme now k [] = []
queue_of scheme now k (x ∷ xs) = request_of scheme now k x ∷ queue_of scheme now (suc k) xs

-- The body of a request in its own place, when it is watched.
abbrev pub body_at : ℕ → Option Bytes → Bytes → List (ℕ × Option TraceBody)
body_at k none captured = []
body_at k (some ct) captured =
    (k, captured_body (feed_if (tee_for (some ct)) captured) (some ct)) ∷ []

abbrev pub bodies_of : Bool → ℕ → List Exchange → List (ℕ × Option TraceBody)
bodies_of capture k [] = []
bodies_of capture k (x ∷ xs) =
    body_at k (watched capture x) x.captured ++ bodies_of capture (suc k) xs

-- What the container gets: the rewritten heads, each with its body.
abbrev pub sent_of : Bytes → List Exchange → Bytes
sent_of scheme [] = []
sent_of scheme (x ∷ xs) = ((rewrite_head x.head scheme).0 ++ x.moved) ++ sent_of scheme xs

-- What the client had sent.
abbrev pub received_of : List Exchange → Bytes
received_of [] = []
received_of (x ∷ xs) = (x.head ++ x.moved) ++ received_of xs

-- A body of a known length is of that length, and watched as a whole.
abbrev pub Fits : Body → Bytes → Bytes → Type 0
Fits (length_of n) moved captured = (captured ≡ moved) × (length moved ≡ n)
Fits chunked moved captured = Unit
Fits upgrade moved captured = Unit

abbrev pub AllFit : Bytes → List Exchange → Type 0
AllFit scheme [] = Unit
AllFit scheme (x ∷ xs) = Fits (rewrite_head x.head scheme).1 x.moved x.captured × AllFit scheme xs

abbrev pub with_last : List Exchange → Option Exchange → List Exchange
with_last [] none = []
with_last [] (some x) = x ∷ []
with_last (x ∷ xs) last = x ∷ with_last xs last

-- The loop ended with the requests `done`, whose bodies were relayed to their ends, and perhaps one
-- more, at which the connection ends.
pub record IsServed (capture : Bool) (scheme : Bytes) (now : ℕ → ℕ) (s : Sending)
    (result : Option (Sending × Bool)) : Type 0 where
  pub out : Sending × Bool
  pub done : List Exchange
  pub last : Option Exchange
  pub lost : Bytes
  pub returned : result ≡ some out
  pub is_lost : IsLost lost
  pub fit : AllFit scheme done
  pub queued :
      out.0.queued ≡ s.queued ++ queue_of scheme now (length s.queued) (with_last done last)
  pub filled : out.0.filled ≡ s.filled ++ bodies_of capture (length s.queued) done
  pub sent : out.0.pipe.out ≡ s.pipe.out ++ sent_of scheme (with_last done last)
  pub left : unsent s.pipe ≡ received_of (with_last done last) ++ (lost ++ unsent out.0.pipe)
