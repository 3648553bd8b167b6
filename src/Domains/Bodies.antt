-- ===== src/Domains/Bodies.antt =====
-- The bodies that the proxy passes on, crates/solon-service/src/domains.rs. A side is what arrives from
-- it, piece by piece; a read takes no more than it asks for, and nothing once all has come. Writes
-- succeed.
use solon.Base.{
  ℕ, zero, suc, ◌+◌, ◌-◌, min, Bool, true, false, ◌||◌, Option, none, some, List, [], ◌∷◌, ◌++◌,
  ltb, ◌==◌, if◌then◌else◌, length, take, drop,
}
use mathlib.Core.Option
use solon.Base.Text.{Bytes, find_str, split, trim}
use solon.Base.Utf8.{from_utf8_lossy}
use solon.DockerProxy.Head.{crlf, find_head_end}
use solon.DockerProxy.Numbers.{from_str_radix}
use solon.DockerProxy.Copy.{read, arriving}
use solon.Mask.Body.{body}
use solon.Protocol.{TraceBody}

abbrev pub body_capture : ℕ
body_capture = 4096

pub record Tee : Type 0 where
  pub kept : Bytes
  pub truncated : Bool

abbrev pub empty_tee : Tee
empty_tee = record { kept = []; truncated = false }

unfoldable pub feed : Tee → Bytes → Tee
feed t chunk =
    let room = body_capture - length t.kept in
    if ltb room (length chunk)
    then record { kept = t.kept ++ take room chunk; truncated = true }
    else record { kept = t.kept ++ chunk; truncated = t.truncated }

unfoldable pub into_body : Tee → Bytes → Option TraceBody
unfolding body
into_body t content_type =
    if length t.kept == 0
    then none
    else some (record { text = body content_type t.kept; truncated = t.truncated })

abbrev pub feed_if : Option Tee → Bytes → Option Tee
feed_if none chunk = none
feed_if (some t) chunk = some (feed t chunk)

-- What was read and not passed on, what still arrives, what was passed on, and what is kept of it.
pub record Pipe : Type 0 where
  pub buf : Bytes
  pub source : List Bytes
  pub out : Bytes
  pub tee : Option Tee

-- `t.feed(bytes)` and `w.write_all(bytes)`; nothing comes of no bytes
abbrev pub emit : Bool → Bytes → Pipe → Pipe
emit watched bytes p = record p {
  out = p.out ++ bytes;
  tee = if watched then feed_if p.tee bytes else p.tee;
}

abbrev pub emit_read : Bool → Bytes × List Bytes → Pipe → Pipe
emit_read watched (bytes, rest) p = emit watched bytes (record p { source = rest })

-- `while n > 0`; false when the side closes before
unfoldable pub forward_rest : Bool → ℕ → ℕ → Pipe → Option (Pipe × Bool)
unfolding read
forward_rest watched fuel zero p = some (p, true)
forward_rest watched zero (suc n) p = none
forward_rest watched (suc f) (suc n) p =
    let got = read (min 16384 (suc n)) p.source in
    let more = forward_rest watched f (suc n - length got.0) (emit_read watched got p) in
    if length got.0 == 0 then some (p, false) else more

unfoldable pub forward_exact : Bool → ℕ → Pipe → Option (Pipe × Bool)
unfolding forward_rest
forward_exact watched n p =
    let k = min (length p.buf) n in
    forward_rest watched (n - k) (n - k)
      (emit watched (take k p.buf) (record p { buf = drop k p.buf }))

pub data Line : Type 0 where
  line : Bytes → Line
  closed too_long : Line

abbrev pub fill : Bytes × List Bytes → Pipe → Pipe
fill (bytes, rest) p = record p { buf = p.buf ++ bytes; source = rest }

-- The line without its end, and the rest of the buffer.
unfoldable pub read_line : ℕ → Pipe → Option (Pipe × Line)
unfolding read find_str
read_line zero p = none
read_line (suc f) p =
    let got = read 8192 p.source in
    let more = read_line f (fill got p) in
    elim (find_str crlf p.buf) [
      | some i ↦ some (record p { buf = drop (i + 2) p.buf }, line (take i p.buf))
      | none ↦
          if ltb 65536 (length p.buf)
          then some (p, too_long)
          else if length got.0 == 0
          then some (p, closed)
          else more
    ]

abbrev pub line_reads : Pipe → ℕ
line_reads p = length (arriving p.source) + 1

-- The head of a message: its length, or nothing when the side closes or the head is too long.
unfoldable pub read_head : ℕ → Pipe → Option (Pipe × Option ℕ)
unfolding read find_head_end
read_head zero p = none
read_head (suc f) p =
    let got = read 8192 p.source in
    let more = read_head f (fill got p) in
    elim (find_head_end p.buf) [
      | some n ↦ some (p, some n)
      | none ↦ if ltb 65536 (length p.buf) || length got.0 == 0 then some (p, none) else more
    ]

pub data Chunks : Type 0 where
  total_of : ℕ → Chunks
  bad_line eof : Chunks

abbrev pub write_line : Bytes → Pipe → Pipe
write_line l p = emit false (l ++ crlf) p

abbrev pub head_part : List Bytes → Bytes
head_part [] = []
head_part (a ∷ _) = a

unfoldable pub size_of : Bytes → Option ℕ
unfolding from_str_radix trim split from_utf8_lossy
size_of l = from_str_radix 16 (trim (head_part (split b';' (from_utf8_lossy l))))

-- The trailers up to the blank line.
unfoldable pub forward_trailers : ℕ → ℕ → Pipe → Option (Pipe × Chunks)
unfolding read_line
forward_trailers zero total p = none
forward_trailers (suc f) total p = elim (read_line (line_reads p) p) [
  | none ↦ none
  | some (p', line []) ↦ some (write_line [] p', total_of total)
  | some (p', line (a ∷ l)) ↦ forward_trailers f total (write_line (a ∷ l) p')
  | some (p', closed) ↦ some (p', eof)
  | some (p', too_long) ↦ some (p', bad_line)
]

-- The content of a chunk, and its line end; only the content is watched.
unfoldable pub forward_chunk : ℕ → Pipe → Option (Pipe × Bool)
unfolding forward_exact
forward_chunk size p = elim (forward_exact true size p) [
  | none ↦ none
  | some (p', true) ↦ forward_exact false 2 p'
  | some (p', false) ↦ some (p', false)
]

-- One round: the line with the size, and what it tells of.
pub data ChunkRound : Type 0 where
  next : Pipe → ℕ → ChunkRound
  stop : Pipe → Chunks → ChunkRound

abbrev pub stopped : Pipe × Chunks → ChunkRound
stopped (p, c) = stop p c

abbrev pub after_content : ℕ → Pipe × Bool → ChunkRound
after_content total (p, true) = next p total
after_content total (p, false) = stop p eof

unfoldable pub size_round : ℕ → Bytes → Pipe → Option ℕ → Option ChunkRound
unfolding forward_trailers forward_chunk
size_round total l p none = some (stop p bad_line)
size_round total l p (some size) =
    let p' = write_line l p in
    if size == 0
    then Option.map stopped
        (forward_trailers (length p'.buf + length (arriving p'.source) + 1) total p')
    else Option.map (after_content (total + size)) (forward_chunk size p')

unfoldable pub chunked_round : ℕ → Pipe → Option ChunkRound
unfolding size_round read_line size_of
chunked_round total p = elim (read_line (line_reads p) p) [
  | none ↦ none
  | some (p', line l) ↦ size_round total l p' (size_of l)
  | some (p', closed) ↦ some (stop p' eof)
  | some (p', too_long) ↦ some (stop p' bad_line)
]

unfoldable pub chunked_rounds : ℕ → ℕ → Pipe → Option (Pipe × Chunks)
unfolding chunked_round
chunked_rounds zero total p = none
chunked_rounds (suc f) total p = elim (chunked_round total p) [
  | none ↦ none
  | some (stop p' c) ↦ some (p', c)
  | some (next p' total') ↦ chunked_rounds f total' p'
]

-- All that was not passed on yet.
abbrev pub unsent : Pipe → Bytes
unsent p = p.buf ++ arriving p.source

unfoldable pub forward_chunked : Pipe → Option (Pipe × Chunks)
unfolding chunked_rounds
forward_chunked p = chunked_rounds (length (unsent p) + 1) 0 p
