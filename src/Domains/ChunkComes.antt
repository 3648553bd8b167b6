-- ===== src/Domains/ChunkComes.antt =====
-- A chunk that comes is relayed whole, crates/solon-service/src/domains.rs.
use solon.Base.{
  ℕ, ◌+◌, ◌<◌, ◌≡◌, refl, sym, ap, ◌∙◌, Bool, true, false, Option, some, ◌∷◌, ◌++◌, append_assoc,
  arith, ◌==◌, length, length-append,
}
use solon.Base.Text.{Bytes}
use solon.Base.Split.{Free}
use solon.DockerProxy.Head.{crlf}
use solon.DockerProxy.Conserve.{HasBytes}
use solon.Domains.Bodies.{
  feed_if, Pipe, line, ChunkRound, next, write_line, line_reads, read_line, size_of, forward_exact,
  forward_chunk, size_round, chunked_round, unsent,
}
use solon.Domains.BodiesLaws.{AreBounded, feed_if-AreBounded}
use solon.Domains.ForwardLaws.{seen_by, forward_exact-Forwards}
use solon.Domains.LinesCome.{append-same_length, read_line-Reads}

-- Some bytes that came were passed on.
pub record Delivers (b : Bool) (x : Bytes) (p : Pipe) (rest : Bytes) (result : Option (Pipe × Bool))
    : Type 0 where
  pub after : Pipe
  pub returned : result ≡ some (after, true)
  pub left : unsent after ≡ rest
  pub sent : after.out ≡ p.out ++ x
  pub seen : after.tee ≡ seen_by b p.tee x
  pub bytes : HasBytes after.source

pub forward_exact-Delivers :
    (b : Bool) (x rest : Bytes) (p : Pipe)
    → AreBounded p.tee
    → HasBytes p.source
    → unsent p ≡ x ++ rest
    → Delivers b x p rest (forward_exact b (length x) p)
forward_exact-Delivers b x rest p h g e =
    let f = forward_exact-Forwards b (length x) p h in
    let enough : length (unsent p) ≡ length (x ++ rest) = ap (λ z. length z) e in
    let ok = f.complete g (omega (arith, length-append x rest, enough)) in
    let same =
      append-same_length f.moves.moved x (unsent f.out.0) rest (f.exact ok)
        (sym f.moves.left ∙ e) in
    record {
      after = f.out.0;
      returned = f.returned ∙ ap (λ z. some (f.out.0, z)) ok;
      left = same.1;
      sent = f.moves.sent ∙ ap (λ z. p.out ++ z) same.0;
      seen = f.moves.seen ∙ ap (seen_by b p.tee) same.0;
      bytes = f.moves.bytes g;
    }

-- The content of a chunk and the line with its size, which may have an extension.
pub record Chunk : Type 0 where
  pub line : Bytes
  pub content : Bytes

pub record IsChunk (c : Chunk) : Type 0 where
  pub one_line : Free 13 c.line
  pub short : length c.line < 65536
  pub size : size_of c.line ≡ some (length c.content)
  pub some_content : 0 < length c.content

abbrev pub chunk_text : Chunk → Bytes
chunk_text c = (c.line ++ crlf) ++ (c.content ++ crlf)

-- A round on a chunk that comes.
pub record Goes (c : Chunk) (total : ℕ) (p : Pipe) (rest : Bytes) (result : Option ChunkRound)
    : Type 0 where
  pub after : Pipe
  pub returned : result ≡ some (next after (total + length c.content))
  pub left : unsent after ≡ rest
  pub sent : after.out ≡ p.out ++ chunk_text c
  pub seen : after.tee ≡ feed_if p.tee c.content
  pub bytes : HasBytes after.source

pub forward_chunk-whole :
    (n : ℕ) (p q s : Pipe)
    → forward_exact true n p ≡ some (q, true)
    → forward_exact false 2 q ≡ some (s, true)
    → forward_chunk n p ≡ some (s, true)
unfolding forward_chunk
forward_chunk-whole n p q s a b = rw (forward_chunk, a, b) refl

pub size_round-chunk :
    (total n : ℕ) (l : Bytes) (q s : Pipe)
    → (n == 0) ≡ false
    → forward_chunk n (write_line l q) ≡ some (s, true)
    → size_round total l q (some n) ≡ some (next s (total + n))
unfolding size_round
size_round-chunk total n l q s z e = rw (z, e) refl

pub chunked_round-line :
    (total : ℕ) (p q : Pipe) (l : Bytes) (size : Option ℕ) (o : Option ChunkRound)
    → read_line (line_reads p) p ≡ some (q, line l)
    → size_of l ≡ size
    → size_round total l q size ≡ o
    → chunked_round total p ≡ o
unfolding chunked_round
chunked_round-line total p q l size o a b e = rw (chunked_round, a, b) e

pub chunk_text-append :
    (c : Chunk) (rest : Bytes)
    → chunk_text c ++ rest ≡ c.line ++ (13 ∷ 10 ∷ (c.content ++ (crlf ++ rest)))
chunk_text-append c rest = simp append_assoc

pub chunked_round-Goes :
    (c : Chunk) (total : ℕ) (p : Pipe) (rest : Bytes)
    → IsChunk c
    → AreBounded p.tee
    → HasBytes p.source
    → unsent p ≡ chunk_text c ++ rest
    → Goes c total p rest (chunked_round total p)
chunked_round-Goes c total p rest k h g e =
    let r =
      read_line-Reads (line_reads p) p c.line (c.content ++ (crlf ++ rest)) k.one_line k.short g
        (e ∙ chunk_text-append c rest) (omega arith) in
    let p1 = write_line c.line r.after in
    let bounded : AreBounded p1.tee = rw r.unseen h in
    let d = forward_exact-Delivers true c.content (crlf ++ rest) p1 bounded r.bytes r.left in
    let bounded2 : AreBounded d.after.tee =
      rw d.seen (feed_if-AreBounded p1.tee c.content bounded) in
    let x = forward_exact-Delivers false crlf rest d.after bounded2 d.bytes d.left in
    let some_size : (length c.content == 0) ≡ false = ground (arith, k.some_content) in
    record {
      after = x.after;
      returned =
          chunked_round-line total p r.after c.line (some (length c.content)) _ r.returned k.size (
            size_round-chunk total (length c.content) c.line r.after x.after some_size
              (forward_chunk-whole (length c.content) p1 d.after x.after d.returned x.returned));
      left = x.left;
      sent =
          x.sent
          ∙ ap (λ z. z ++ crlf) d.sent
          ∙ ap (λ z. ((z ++ (c.line ++ crlf)) ++ c.content) ++ crlf) r.silent
          ∙ simp append_assoc;
      seen = x.seen ∙ d.seen ∙ ap (λ z. feed_if z c.content) r.unseen;
      bytes = x.bytes;
    }
