-- ===== src/Domains/Waiting.antt =====
-- The requests that wait for an answer, crates/solon-service/src/domains.rs.
use solon.Base.{
  ℕ, ◌≡◌, refl, sym, ap, ◌∙◌, Bool, true, false, Option, none, some, List, [], ◌∷◌, ◌++◌,
  append_assoc, append-nil, map, if◌then◌else◌,
}
use mathlib.Core.Option
use mathlib.Core.List.{map-append}
use solon.Base.Text.{Bytes}
use solon.Protocol.{TraceHeader, TraceHttp}
use solon.Domains.Pump.{Pending, Pump, arrived, after_arrived, receive, current_request, push_trace}

-- What a trace keeps of a request.
pub record Request : Type 0 where
  pub ts_ms : ℕ
  pub method : Bytes
  pub path : Bytes
  pub headers : List TraceHeader
  pub request_bytes : ℕ

abbrev pub request_of : Pending → Request
request_of p = record {
  ts_ms = p.ts_ms;
  method = p.method;
  path = p.path;
  headers = p.headers;
  request_bytes = p.request_bytes;
}

abbrev pub traced_request : TraceHttp → Request
traced_request t = record {
  ts_ms = t.ts_ms;
  method = t.method;
  path = t.path;
  headers = t.request_headers;
  request_bytes = t.request_bytes;
}

abbrev pub waiting : Option Pending → List Pending → List Pending
waiting none queue = queue
waiting (some p) queue = p ∷ queue

abbrev pub to_come : List (List Pending) → List Pending
to_come [] = []
to_come (l ∷ ls) = l ++ to_come ls

-- The requests of the traces, then those that wait, then those to come.
abbrev pub requests : List TraceHttp → List Pending → List (List Pending) → List Request
requests pushed queue coming = map traced_request pushed ++ map request_of (queue ++ to_come coming)

abbrev pub requests_of : Pump → List Request
requests_of p = requests p.pushed (waiting p.current p.queue) p.coming

pub waiting-append :
    (o : Option Pending) (a b : List Pending) → waiting o a ++ b ≡ waiting o (a ++ b)
waiting-append none a b = refl
waiting-append (some p) a b = refl

pub arrived-to_come :
    (queue : List Pending) (coming : List (List Pending))
    → (queue ++ arrived coming) ++ to_come (after_arrived coming) ≡ queue ++ to_come coming
arrived-to_come queue [] = ap (λ z. z ++ []) (append-nil queue)
arrived-to_come queue (l ∷ ls) = append_assoc queue l (to_come ls)

pub requests_of-receive : (p : Pump) → requests_of (receive p) ≡ requests_of p
requests_of-receive p =
    ap (λ z. map traced_request p.pushed ++ map request_of z)
      (waiting-append p.current (p.queue ++ arrived p.coming) (to_come (after_arrived p.coming))
        ∙ ap (waiting p.current) (arrived-to_come p.queue p.coming)
        ∙ sym (waiting-append p.current p.queue (to_come p.coming)))

pub waiting-current_request :
    (o : Option Pending) (q : List Pending)
    → waiting (current_request o q).0 (current_request o q).1 ≡ waiting o q
unfolding current_request
waiting-current_request (some p) q = refl
waiting-current_request none [] = refl
waiting-current_request none (p ∷ q) = refl

-- An answer that is final takes the request that waits first into the traces, another leaves it.
pub requests-answer :
    (interim : Bool) (current : Option Pending) (queue : List Pending)
    (coming : List (List Pending)) (pushed : List TraceHttp) (f : Pending → TraceHttp)
    → ((p : Pending) → traced_request (f p) ≡ request_of p)
    → requests
        (push_trace (Option.map f (if interim then none else current)) pushed)
        (waiting (if interim then current else none) queue)
        coming
      ≡ requests pushed (waiting current queue) coming
requests-answer true current queue coming pushed f h = refl
requests-answer false none queue coming pushed f h = refl
requests-answer false (some p) queue coming pushed f h =
    rw (map-append traced_request pushed (f p ∷ []), h p)
      (append_assoc (map traced_request pushed) _ _)
