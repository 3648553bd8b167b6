-- ===== src/DockerProxy/Copy.antt =====
-- The copies from the client to Docker. A client is what arrives from it, piece by piece; a read takes
-- no more than it asks for, and nothing once the client has sent all. The writes to Docker succeed.
use solon.Base.{
  ◌>>=◌, ℕ, zero, suc, ◌+◌, ◌-◌, ◌%◌, ◌^◌, min, Bool, true, false, Option, none, some, List, [],
  ◌∷◌, ◌++◌, leb, ◌==◌, if◌then◌else◌, length, take, drop,
}
use mathlib.Core.Option
use solon.Base.Text.{split, find_str, starts_with, trim, Bytes}
use solon.Base.Utf8.{from_utf8_lossy}
use solon.DockerProxy.Numbers.{from_str_radix}
use solon.DockerProxy.Head.{crlf, find_head_end}

-- `shares` are the drives that were given to the engine to share.
pub record Relay : Type 0 where
  pub buf : Bytes
  pub client : List Bytes
  pub guest : Bytes
  pub shares : List Bytes

pub data Outcome : Type 0 where
  done : ℕ → Outcome
  unexpected_eof invalid_data : Outcome

-- client.read
unfoldable pub read : ℕ → List Bytes → Bytes × List Bytes
read size [] = ([], [])
read size (piece ∷ pieces) =
    if leb (length piece) size then (piece, pieces) else (take size piece, drop size piece ∷ pieces)

-- buf.extend_from_slice(&chunk[..n])
abbrev pub refill : Relay → Bytes × List Bytes → Relay
refill r (bytes, rest) = record r { buf = r.buf ++ bytes; client = rest }

-- guest.write_all(&buf[..n]); buf.drain(..n)
abbrev pub forward : ℕ → Relay → Relay
forward n r = record r { guest = r.guest ++ take n r.buf; buf = drop n r.buf }

-- what is read goes to the guest at once
abbrev pub pass : Relay → Bytes × List Bytes → Relay
pass r (bytes, rest) = record r { client = rest; guest = r.guest ++ bytes }

-- All that the client still sends. Its length is the fuel of a loop of reads.
abbrev pub arriving : List Bytes → Bytes
arriving [] = []
arriving (piece ∷ pieces) = piece ++ arriving pieces

-- `while remaining > 0`; true when all is copied
unfoldable pub copy_rest : ℕ → ℕ → Relay → Option (Relay × Bool)
copy_rest fuel zero r = some (r, true)
copy_rest zero (suc n) r = none
copy_rest (suc f) (suc n) r =
    let got = read (min (suc n) 65536) r.client in
    let more = copy_rest f (suc n - length got.0) (pass r got) in
    if length got.0 == 0 then some (r, false) else more

abbrev copied : ℕ → Relay × Bool → Relay × Outcome
copied len (r, true) = (r, done len)
copied len (r, false) = (r, unexpected_eof)

unfoldable pub copy_exact : ℕ → Relay → Option (Relay × Outcome)
unfolding copy_rest
copy_exact len r =
    let n = min len (length r.buf) in
    Option.map (copied len) (copy_rest (len - n) (len - n) (forward n r))

-- Reads until `test` finds a place in the buffer; no place when the client has sent all.
unfoldable pub search : (Bytes → Option ℕ) → ℕ → ℕ → Relay → Option (Relay × Option ℕ)
unfolding read
search test size zero r = none
search test size (suc f) r =
    let got = read size r.client in
    let more = search test size f (refill r got) in
    elim (test r.buf) [
      | some p ↦ some (r, some p)
      | none ↦ if length got.0 == 0 then some (r, none) else more
    ]

abbrev pub reads : Relay → ℕ
reads r = length (arriving r.client) + 1

abbrev first_part : List Bytes → Bytes
first_part [] = []
first_part (p ∷ _) = p

-- the size in front of the extensions of a chunk
unfoldable pub chunk_size : Bytes → Option ℕ
unfolding from_str_radix trim split from_utf8_lossy
chunk_size line = from_str_radix 16 (trim (first_part (split b';' (from_utf8_lossy line))))

-- where the trailers end: behind a blank line, or behind the line end right at the start
unfoldable pub trailers_end : Bytes → Option ℕ
unfolding find_head_end starts_with
trailers_end buf = elim (find_head_end buf) [
  | some p ↦ some p
  | none ↦ if starts_with crlf buf then some 2 else none
]

abbrev finish_at : ℕ → Relay → ℕ → Relay × Outcome
finish_at total r end = (forward end r, done (total + end))

unfoldable pub finish_trailers : ℕ → Relay × Option ℕ → Relay × Outcome
finish_trailers total (r, none) = finish_at total r (length r.buf)
finish_trailers total (r, some end) = finish_at total r end

-- How a round of the loop ends: with the next round, or with a result.
pub data Round : Type 0 where
  next : Relay → ℕ → Round
  stop : Relay → Outcome → Round

unfoldable pub after_chunk : ℕ → Relay × Outcome → Round
after_chunk total (r, done n) = next r (total + n)
after_chunk total (r, unexpected_eof) = stop r unexpected_eof
after_chunk total (r, invalid_data) = stop r invalid_data

abbrev pub stop_at : Relay × Outcome → Round
stop_at (r, o) = stop r o

-- behind the size line
unfoldable pub chunk_round : ℕ → ℕ → Relay → Option Round
unfolding copy_exact search trailers_end finish_trailers after_chunk
chunk_round size total r =
    if size == 0
    then Option.map (λ s. stop_at (finish_trailers total s)) (search trailers_end 4096 (reads r) r)
    else Option.map (after_chunk total) (copy_exact ((size + 2) % 2 ^ 64) r)

unfoldable pub sized_round : ℕ → ℕ → Relay → Option ℕ → Option Round
unfolding chunk_round
sized_round line_end total r none = some (stop r invalid_data)
sized_round line_end total r (some size) =
    chunk_round size (total + (line_end + 2)) (forward (line_end + 2) r)

unfoldable pub line_round : ℕ → Relay × Option ℕ → Option Round
unfolding sized_round chunk_size
line_round total (r, none) = some (stop r unexpected_eof)
line_round total (r, some line_end) =
    sized_round line_end total r (chunk_size (take line_end r.buf))

-- one round of `copy_chunked`
unfoldable pub copy_round : ℕ → Relay → Option Round
unfolding line_round search find_str
copy_round total r = search (find_str crlf) 4096 (reads r) r >>= line_round total

unfoldable pub copy_rounds : ℕ → ℕ → Relay → Option (Relay × Outcome)
unfolding copy_round
copy_rounds zero total r = none
copy_rounds (suc f) total r = elim (copy_round total r) [
  | none ↦ none
  | some (stop r' o) ↦ some (r', o)
  | some (next r' total') ↦ copy_rounds f total' r'
]

-- All that is not at Docker yet.
abbrev pub pending : Relay → Bytes
pending r = r.buf ++ arriving r.client

-- Every round passes on two bytes at least.
unfoldable pub copy_chunked : Relay → Option (Relay × Outcome)
unfolding copy_rounds
copy_chunked r = copy_rounds (length (pending r) + 1) 0 r
