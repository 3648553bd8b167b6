-- ===== src/Solonfs/Call.antt =====
-- `Pool` and `call`, crates/solon-agent/src/solonfs.rs: one exchange with the host over a connection
-- of the pool. The connections that wait are a list, the last one given first. What a connection
-- does is an argument: `transmit` sends bytes and has the bytes that come back, or nothing when it
-- fails. The JSON of a message is an argument too.
use solon.Base.{
  ℕ, ◌%◌, ◌^◌, ◌≤◌, ◌≡◌, refl, false, ◌||◌, Option, none, some, List, [], ◌∷◌, ◌++◌, append_assoc,
  arith, ltb, if◌then◌else◌, length, take, drop,
}
use solon.Base.Text.{Bytes}
use solon.FileServer.Frame.{
  encode_frame, read_exact, read_exact-append, from_le_bytes, to_le_bytes,
  from_le_bytes-to_le_bytes, fs_max_io, length-head, take-head, drop-head,
}
use solon.FileServer.Handle.{FsRequest, FsResponse}
use solon.Solonfs.Effect.{HandlerResult, ok, err}

-- 16 * 1024 * 1024
abbrev pub max_answer : ℕ
max_answer = 16777216

-- `Pool::take`, when no connection comes within its time
unfoldable pub take_connection : {C : Type 0} → List C → Option (C × List C)
take_connection [] = none
take_connection (c ∷ free) = some (c, free)

-- `Pool::give`
unfoldable pub give : {C : Type 0} → C → List C → List C
give c free = c ∷ free

data_of : Bytes → Option (Bytes × Bytes) → Option (Bytes × Bytes)
data_of json none = none
data_of json (some (payload, rest)) = some (json, payload)

json_of : ℕ → Option (Bytes × Bytes) → Option (Bytes × Bytes)
unfolding data_of
json_of data_len none = none
json_of data_len (some (json, rest)) = data_of json (read_exact data_len rest)

lengths_of : Option (Bytes × Bytes) → Option (Bytes × Bytes)
unfolding json_of
lengths_of none = none
lengths_of (some (head, rest)) =
    let json_len = from_le_bytes (take 4 head) in
    let data_len = from_le_bytes (drop 4 head) in
    if ltb max_answer json_len || ltb fs_max_io data_len
    then none
    else json_of data_len (read_exact json_len rest)

-- The JSON and the data of an answer; `none` for an error of the stream.
unfoldable pub read_answer : Bytes → Option (Bytes × Bytes)
unfolding lengths_of
read_answer s = lengths_of (read_exact 8 s)

-- An answer within the limits is read as it was written.
pub read_answer-encode_frame :
    (json payload rest : Bytes)
    → length json ≤ max_answer
    → length payload ≤ fs_max_io
    → read_answer (encode_frame json payload ++ rest) ≡ some (json, payload)
unfolding read_answer
read_answer-encode_frame json payload rest j d =
    let j32 : length json % 2 ^ 32 ≡ length json = omega arith in
    let d32 : length payload % 2 ^ 32 ≡ length payload = omega arith in
    let within : (ltb max_answer (length json) || ltb fs_max_io (length payload)) ≡ false =
      ground arith in
    let head = to_le_bytes (length json) ++ to_le_bytes (length payload) in
    let whole : encode_frame json payload ++ rest ≡ head ++ (json ++ (payload ++ rest)) =
      unfold encode_frame in rw (j32, d32) (simp append_assoc) in
    let first : read_exact 8 (encode_frame json payload ++ rest)
        ≡ some (head, json ++ (payload ++ rest)) =
      rw whole (
        read_exact-append 8 head (json ++ (payload ++ rest))
          (length-head (length json) (length payload))) in
    rw (
      first,
      take-head (length json) (length payload),
      drop-head (length json) (length payload),
      from_le_bytes-to_le_bytes (length json) (omega arith),
      from_le_bytes-to_le_bytes (length payload) (omega arith),
      within,
      read_exact-append (length json) json (payload ++ rest) refl,
      read_exact-append (length payload) payload rest refl,
    )

module _ {C : Type 0} (transmit : C → Bytes → C × Option Bytes) (to_json : FsRequest → Bytes)
    (of_json : Bytes → Option FsResponse) where
  abbrev pub parse_answer : Option (Bytes × Bytes) → Option (FsResponse × Bytes)
  parse_answer none = none
  parse_answer (some (json, payload)) = elim (of_json json) [
    | none ↦ none
    | some r ↦ some (r, payload)
  ]

  abbrev pub received : C × Option Bytes → C × Option (FsResponse × Bytes)
  received (c, none) = (c, none)
  received (c, some s) = (c, parse_answer (read_answer s))

  -- A connection that failed is not given back.
  abbrev pub settle :
      List C → C × Option (FsResponse × Bytes) → List C × HandlerResult (FsResponse × Bytes)
  settle free (c, none) = (free, err 5)
  settle free (c, some r) = (give c free, ok r)

  abbrev pub exchange :
      FsRequest → Bytes → Option (C × List C) → List C × HandlerResult (FsResponse × Bytes)
  exchange req payload none = ([], err 5)
  exchange req payload (some (c, free)) =
      settle free (received (transmit c (encode_frame (to_json req) payload)))

  unfoldable pub call : FsRequest → Bytes → List C → List C × HandlerResult (FsResponse × Bytes)
  unfolding take_connection give
  call req payload free = exchange req payload (take_connection free)

  -- A connection that answers with a frame within the limits gives its answer, and is given back.
  pub call-answered :
      (req : FsRequest) (payload : Bytes) (c c' : C) (free : List C) (r : FsResponse)
      (json content rest : Bytes)
      → transmit c (encode_frame (to_json req) payload)
        ≡ (c', some (encode_frame json content ++ rest))
      → of_json json ≡ some r
      → length json ≤ max_answer
      → length content ≤ fs_max_io
      → call req payload (c ∷ free) ≡ (c' ∷ free, ok (r, content))
  unfolding call
  call-answered req payload c c' free r json content rest t p j d =
      rw (t, read_answer-encode_frame json content rest j d, parse_answer, p)

  -- What is left of the pool: on success as many connections as before, with the rest of them in
  -- their places; on failure the error is 5, and one connection is gone if there was one.
  abbrev pub Settled : List C → List C × HandlerResult (FsResponse × Bytes) → Type 0
  Settled free (left, err e) = (e ≡ 5) × (left ≡ drop 1 free)
  Settled free (left, ok r) = (c : C) × (left ≡ c ∷ drop 1 free)

  settle-Settled :
      (c : C) (free : List C) (r : C × Option (FsResponse × Bytes))
      → Settled (c ∷ free) (settle free r)
  unfolding give
  settle-Settled c free (c', none) = (refl, refl)
  settle-Settled c free (c', some r) = (c', refl)

  pub call-Settled :
      (req : FsRequest) (payload : Bytes) (free : List C) → Settled free (call req payload free)
  unfolding call
  call-Settled req payload [] = (refl, refl)
  call-Settled req payload (c ∷ free) = settle-Settled c free _
