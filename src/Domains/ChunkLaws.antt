-- ===== src/Domains/ChunkLaws.antt =====
-- `forward_chunked`, crates/solon-service/src/domains.rs.
use solon.Base.{
  ℕ, zero, suc, ◌+◌, ◌<◌, ◌≡◌, refl, inl, inr, Bool, true, false, Option, some, none, [], ◌∷◌, ◌++◌,
  arith, ◌==◌, Bool-cases, length, length-append,
}
use mathlib.Core.Option
use solon.Base.Text.{Bytes}
use solon.DockerProxy.Head.{crlf}
use solon.DockerProxy.Copy.{arriving}
use solon.Domains.Bodies.{
  Pipe, Line, Chunks, total_of, bad_line, eof, ChunkRound, next, stop, stopped, after_content,
  write_line, line_reads, read_line, size_of, forward_exact, forward_trailers, forward_chunk,
  size_round, chunked_round, chunked_rounds, forward_chunked, unsent,
}
use solon.Domains.BodiesLaws.{AreBounded}
use solon.Domains.ForwardLaws.{forward_exact-Forwards}
use solon.Domains.Lines.{Drains, IsLine, is_line, is_closed, is_long, read_line-IsLine}
use solon.Domains.Relayed.{
  Went, Went-trans, Went-AreBounded, Drains-Went, line-Went, content-Went, end-Went, IsEnd,
  IsEnd-after, Went-length, line-shorter, line_counts, is_total, is_eof, is_bad, nothing_lost,
  line_lost,
}

-- The trailers end within their fuel.
forward_trailers-IsEnd :
    (f total : ℕ) (p : Pipe)
    → AreBounded p.tee
    → length (unsent p) < f
    → IsEnd total p (forward_trailers f total p)
unfolding forward_trailers
forward_trailers-IsEnd zero total p h m = absurd (omega arith)
forward_trailers-IsEnd (suc f) total p h m =
    go (read_line (line_reads p) p) (read_line-IsLine (line_reads p) p (omega arith)) refl
      (λ q. forward_trailers-IsEnd f total q)
  where
    go :
        (o : Option (Pipe × Line))
        → IsLine p o
        → read_line (line_reads p) p ≡ o
        → ((q : Pipe)
            → AreBounded q.tee
            → length (unsent q) < f
            → IsEnd total q (forward_trailers f total q))
        → IsEnd total p (forward_trailers (suc f) total p)
    go o (is_line p' [] d) e again =
        let w = line-Went [] h d in
        rw (forward_trailers, e) (is_total (write_line [] p') total w (line_counts [] h d total))
    go o (is_line p' (a ∷ l) d) e again =
        let w = line-Went (a ∷ l) h d in
        rw (forward_trailers, e)
          (IsEnd-after h w (line_counts (a ∷ l) h d total) (
            again (write_line (a ∷ l) p') (Went-AreBounded w h)
              (omega (arith, line-shorter (a ∷ l) d))))
    go o (is_closed p' d) e again = rw (forward_trailers, e) (is_eof p' (Drains-Went h d))
    go o (is_long p' d) e again =
        rw (forward_trailers, e) (is_bad p' [] nothing_lost (Drains-Went h d))

-- The content of a chunk, and its line end.
data IsChunk (size : ℕ) (p : Pipe) : Option (Pipe × Bool) → Type 0 where
  whole_chunk :
      (p' : Pipe) → (w : Went [] p p') → length w.captured ≡ size → IsChunk size p (some (p', true))
  cut_chunk : (p' : Pipe) → Went [] p p' → IsChunk size p (some (p', false))

forward_chunk-IsChunk :
    (size : ℕ) (p : Pipe) → AreBounded p.tee → IsChunk size p (forward_chunk size p)
unfolding forward_chunk content-Went end-Went Went-trans
forward_chunk-IsChunk size p h =
    let c = forward_exact-Forwards true size p h in
    go c.out c.returned (content-Went c.moves) c.exact
  where
    ended :
        (x : Pipe × Bool) → (w : Went [] p x.0) → length w.captured ≡ size → IsChunk size p (some x)
    ended (q, true) w e = whole_chunk q w e
    ended (q, false) w e = cut_chunk q w

    go :
        (x : Pipe × Bool)
        → forward_exact true size p ≡ some x
        → (w : Went [] p x.0) → (x.1 ≡ true → length w.captured ≡ size)
        → IsChunk size p (forward_chunk size p)
    go (q, false) e w k = rw (forward_chunk, e) (cut_chunk q w)
    go (q, true) e w k =
        let d = forward_exact-Forwards false 2 q (Went-AreBounded w h) in
        let v = end-Went (Went-AreBounded w h) d.moves in
        rw (forward_chunk, e, d.returned)
          (ended d.out (Went-trans h w v) (omega (arith, k refl, length-append w.captured [])))

-- A round: a next one behind a chunk, or the end.
data IsChunkRound (total : ℕ) (p : Pipe) : Option ChunkRound → Type 0 where
  goes :
      (p' : Pipe) (total' : ℕ)
      → (w : Went [] p p') → total' ≡ total + length w.captured
      → length (unsent p') < length (unsent p)
      → IsChunkRound total p (some (next p' total'))
  ends :
      (p' : Pipe) (c : Chunks)
      → IsEnd total p (some (p', c))
      → IsChunkRound total p (some (stop p' c))

stopped-IsChunkRound :
    (total : ℕ) (p : Pipe) {o : Option (Pipe × Chunks)}
    → IsEnd total p o
    → IsChunkRound total p (Option.map stopped o)
stopped-IsChunkRound total p (is_total p' n w e) = ends p' (total_of n) (is_total p' n w e)
stopped-IsChunkRound total p (is_eof p' w) = ends p' eof (is_eof p' w)
stopped-IsChunkRound total p (is_bad p' lost x w) = ends p' bad_line (is_bad p' lost x w)

chunk-IsChunkRound :
    (total size : ℕ) (l : Bytes) (p q : Pipe) (o : Option (Pipe × Bool))
    → (h : AreBounded p.tee) → (d : Drains (l ++ crlf) p q) → IsChunk size (write_line l q) o
    → IsChunkRound total p (Option.map (after_content (total + size)) o)
unfolding Went-trans line-Went
chunk-IsChunkRound total size l p q o h d (whole_chunk p' v e) =
    goes p' (total + size) (Went-trans h (line-Went l h d) v) (omega (arith, e))
      (omega (arith, line-shorter l d, Went-length v))
chunk-IsChunkRound total size l p q o h d (cut_chunk p' v) =
    ends p' eof (is_eof p' (Went-trans h (line-Went l h d) v))

size_round-IsChunkRound :
    (total : ℕ) (l : Bytes) (p q : Pipe) (size : Option ℕ)
    → size_of l ≡ size
    → AreBounded p.tee
    → Drains (l ++ crlf) p q
    → IsChunkRound total p (size_round total l q size)
unfolding size_round
size_round-IsChunkRound total l p q none e h d =
    ends q bad_line (is_bad q (l ++ crlf) (line_lost l e) (Drains-Went h d))
size_round-IsChunkRound total l p q (some size) e h d =
    let w = line-Went l h d in
    elim (Bool-cases (size == 0)) [
      | inl z ↦
          let fuel = length q.buf + length (arriving q.source) + 1 in
          let t =
            forward_trailers-IsEnd fuel total (write_line l q) (Went-AreBounded w h)
              (omega (arith, length-append q.buf (arriving q.source))) in
          rw z (stopped-IsChunkRound total p (IsEnd-after h w (line_counts l h d total) t))
      | inr z ↦ rw z (
          chunk-IsChunkRound total size l p q _ h d
            (forward_chunk-IsChunk size (write_line l q) (Went-AreBounded w h)))
    ]

chunked_round-IsChunkRound :
    (total : ℕ) (p : Pipe) → AreBounded p.tee → IsChunkRound total p (chunked_round total p)
unfolding chunked_round
chunked_round-IsChunkRound total p h =
    go (read_line (line_reads p) p) (read_line-IsLine (line_reads p) p (omega arith)) refl
  where
    go :
        (o : Option (Pipe × Line))
        → IsLine p o
        → read_line (line_reads p) p ≡ o
        → IsChunkRound total p (chunked_round total p)
    go o (is_line q l d) e =
        rw (chunked_round, e) (size_round-IsChunkRound total l p q (size_of l) refl h d)
    go o (is_closed q d) e = rw (chunked_round, e) (ends q eof (is_eof q (Drains-Went h d)))
    go o (is_long q d) e =
        rw (chunked_round, e) (ends q bad_line (is_bad q [] nothing_lost (Drains-Went h d)))

chunked_rounds-IsEnd :
    (f total : ℕ) (p : Pipe)
    → AreBounded p.tee
    → length (unsent p) < f
    → IsEnd total p (chunked_rounds f total p)
unfolding chunked_rounds
chunked_rounds-IsEnd zero total p h m = absurd (omega arith)
chunked_rounds-IsEnd (suc f) total p h m =
    go (chunked_round total p) (chunked_round-IsChunkRound total p h) refl
      (λ t q. chunked_rounds-IsEnd f t q)
  where
    go :
        (o : Option ChunkRound)
        → IsChunkRound total p o
        → chunked_round total p ≡ o
        → ((t : ℕ) (q : Pipe)
            → AreBounded q.tee
            → length (unsent q) < f
            → IsEnd t q (chunked_rounds f t q))
        → IsEnd total p (chunked_rounds (suc f) total p)
    go o (goes q total' w k s) e again =
        rw (chunked_rounds, e)
          (IsEnd-after h w k (again total' q (Went-AreBounded w h) (omega arith)))
    go o (ends q c k) e again = rw (chunked_rounds, e) k

-- A chunked body is relayed without end of the fuel, for any bytes and pieces: what goes on is the
-- start of what is pending, in order, but for at most one line that is no size, which is lost with
-- its end where the relay stops, and what is behind it stays; the capture sees
-- only the contents of the chunks, and the length that is reported on success is that of what it saw.
pub forward_chunked-IsEnd : (p : Pipe) → AreBounded p.tee → IsEnd 0 p (forward_chunked p)
unfolding forward_chunked
forward_chunked-IsEnd p h = chunked_rounds-IsEnd (length (unsent p) + 1) 0 p h (omega arith)
