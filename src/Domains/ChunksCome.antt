-- ===== src/Domains/ChunksCome.antt =====
-- A chunked body that comes is relayed whole, `forward_chunked` of crates/solon-service/src/domains.rs.
use solon.Base.{
  ℕ, zero, suc, ◌+◌, ◌<◌, ◌≡◌, refl, sym, ap, ◌∙◌, Option, some, List, [], ◌∷◌, ◌++◌, append_assoc,
  arith, length, length-append, All,
}
use solon.Base.Text.{Bytes, contains_byte}
use solon.Base.Split.{Free}
use solon.DockerProxy.Head.{crlf}
use solon.DockerProxy.Copy.{arriving}
use solon.DockerProxy.Conserve.{HasBytes}
use solon.Domains.Bodies.{
  feed_if, Pipe, line, Chunks, total_of, ChunkRound, next, stop, stopped, write_line, line_reads,
  read_line, size_of, forward_trailers, size_round, chunked_round, chunked_rounds, forward_chunked,
  unsent,
}
use solon.Domains.BodiesLaws.{AreBounded, feed_if-feed_if, feed_if-nil, feed_if-AreBounded}
use solon.Domains.LinesCome.{read_line-Reads}
use solon.Domains.ChunkComes.{
  Chunk, IsChunk, chunk_text, Goes, chunked_round-line, chunked_round-Goes,
}

-- The line with the size 0, and the blank line behind it.
abbrev pub end_text : Bytes → Bytes
end_text l = (l ++ crlf) ++ crlf

-- What the relay of a body that comes gives: the total, and what was passed on and captured.
pub record Comes (text content rest : Bytes) (total : ℕ) (p : Pipe)
    (result : Option (Pipe × Chunks)) : Type 0 where
  pub after : Pipe
  pub returned : result ≡ some (after, total_of total)
  pub left : unsent after ≡ rest
  pub sent : after.out ≡ p.out ++ text
  pub seen : after.tee ≡ feed_if p.tee content

trailers-blank :
    (f total : ℕ) (p q : Pipe)
    → read_line (line_reads p) p ≡ some (q, line [])
    → forward_trailers (suc f) total p ≡ some (write_line [] q, total_of total)
unfolding forward_trailers
trailers-blank f total p q e = rw (forward_trailers, e) refl

size_round-end :
    (total : ℕ) (l : Bytes) (q : Pipe) (o : Pipe × Chunks)
    → forward_trailers (suc (length q.buf + length (arriving q.source))) total (write_line l q)
      ≡ some o
    → size_round total l q (some 0) ≡ some (stopped o)
unfolding size_round
size_round-end total l q o e =
    let m : length q.buf + length (arriving q.source) + 1
        ≡ suc (length q.buf + length (arriving q.source)) =
      omega arith in
    rw (m, e) refl

rounds-stop :
    (f total : ℕ) (p q : Pipe) (c : Chunks)
    → chunked_round total p ≡ some (stop q c)
    → chunked_rounds (suc f) total p ≡ some (q, c)
unfolding chunked_rounds
rounds-stop f total p q c e = rw (chunked_rounds, e) refl

rounds-next :
    (f total total' : ℕ) (p q : Pipe)
    → chunked_round total p ≡ some (next q total')
    → chunked_rounds (suc f) total p ≡ chunked_rounds f total' q
unfolding chunked_rounds
rounds-next f total total' p q e = rw (chunked_rounds, e) refl

end-Comes :
    (f total : ℕ) (l rest : Bytes) (p : Pipe)
    → Free 13 l
    → length l < 65536
    → size_of l ≡ some 0
    → AreBounded p.tee
    → HasBytes p.source
    → unsent p ≡ end_text l ++ rest
    → Comes (end_text l) [] rest total p (chunked_rounds (suc f) total p)
unfolding contains_byte
end-Comes f total l rest p free short size h g e =
    let shape : end_text l ++ rest ≡ l ++ (13 ∷ 10 ∷ (crlf ++ rest)) = simp append_assoc in
    let r =
      read_line-Reads (line_reads p) p l (crlf ++ rest) free short g (e ∙ shape) (omega arith) in
    let p1 = write_line l r.after in
    let t =
      read_line-Reads (line_reads p1) p1 [] rest refl (omega arith) r.bytes r.left (omega arith) in
    record {
      after = write_line [] t.after;
      returned = rounds-stop f total p _ _ (
          chunked_round-line total p r.after l (some 0) _ r.returned size (
            size_round-end total l r.after (write_line [] t.after, total_of total)
              (trailers-blank (length r.after.buf + length (arriving r.after.source)) total p1
                t.after t.returned)));
      left = t.left;
      sent =
          ap (λ z. z ++ crlf) (t.silent ∙ ap (λ z. z ++ (l ++ crlf)) r.silent) ∙ simp append_assoc;
      seen = t.unseen ∙ r.unseen ∙ sym (feed_if-nil p.tee h);
    }

abbrev pub body_text : List Chunk → Bytes → Bytes
body_text [] last = end_text last
body_text (c ∷ cs) last = chunk_text c ++ body_text cs last

abbrev pub contents : List Chunk → Bytes
contents [] = []
contents (c ∷ cs) = c.content ++ contents cs

Goes-Comes :
    {c : Chunk} {text content rest : Bytes} {total total' : ℕ} {p : Pipe} {o : Option ChunkRound}
    {result : Option (Pipe × Chunks)}
    → AreBounded p.tee
    → (g : Goes c total p (text ++ rest) o) → Comes text content rest total' g.after result
    → Comes (chunk_text c ++ text) (c.content ++ content) rest total' p result
Goes-Comes {c} {text} {content} {rest} {total} {total'} {p} h g k = record {
  after = k.after;
  returned = k.returned;
  left = k.left;
  sent = k.sent ∙ ap (λ z. z ++ text) g.sent ∙ append_assoc p.out (chunk_text c) text;
  seen = k.seen ∙ ap (λ z. feed_if z content) g.seen ∙ feed_if-feed_if p.tee c.content content h;
}

Comes-equal :
    {text content rest : Bytes} {n m : ℕ} {p : Pipe} {o o' : Option (Pipe × Chunks)}
    → n ≡ m
    → o' ≡ o
    → Comes text content rest n p o
    → Comes text content rest m p o'
Comes-equal e q c = record {
  after = c.after;
  returned = q ∙ c.returned ∙ ap (λ k. some (c.after, total_of k)) e;
  left = c.left;
  sent = c.sent;
  seen = c.seen;
}

chunked_rounds-Comes :
    (cs : List Chunk) (f total : ℕ) (last rest : Bytes) (p : Pipe)
    → All IsChunk cs
    → Free 13 last
    → length last < 65536
    → size_of last ≡ some 0
    → AreBounded p.tee
    → HasBytes p.source
    → unsent p ≡ body_text cs last ++ rest
    → length (unsent p) < f
    → Comes
        (body_text cs last)
        (contents cs)
        rest
        (total + length (contents cs))
        p
        (chunked_rounds f total p)
chunked_rounds-Comes cs zero total last rest p k free short size h g e m = absurd (omega arith)
chunked_rounds-Comes [] (suc f) total last rest p k free short size h g e m =
    Comes-equal (omega arith) refl (end-Comes f total last rest p free short size h g e)
chunked_rounds-Comes (c ∷ cs) (suc f) total last rest p (k, ks) free short size h g e m =
    let shape = e ∙ append_assoc (chunk_text c) (body_text cs last) rest in
    let r = chunked_round-Goes c total p (body_text cs last ++ rest) k h g shape in
    let bounded : AreBounded r.after.tee = rw r.seen (feed_if-AreBounded p.tee c.content h) in
    let fewer : length (unsent r.after) < f = omega (
      arith,
      ap (λ z. length z) shape,
      ap (λ z. length z) r.left,
      length-append (chunk_text c) (body_text cs last ++ rest),
      length-append (c.line ++ crlf) (c.content ++ crlf),
      length-append c.line crlf,
    ) in
    let ih =
      chunked_rounds-Comes cs f (total + length c.content) last rest r.after ks free short size
        bounded r.bytes r.left fewer in
    Comes-equal (omega (arith, length-append c.content (contents cs)))
      (rounds-next f total (total + length c.content) p r.after r.returned) (Goes-Comes h r ih)

-- A body in chunks that comes, with the size of each in its line and no trailers, is relayed byte for
-- byte, in whatever pieces that are not empty it comes and with extensions in its lines; the length
-- reported is that of its contents, the capture sees just them, and what comes behind the body is left.
pub forward_chunked-Comes :
    (cs : List Chunk) (last rest : Bytes) (p : Pipe)
    → All IsChunk cs
    → Free 13 last
    → length last < 65536
    → size_of last ≡ some 0
    → AreBounded p.tee
    → HasBytes p.source
    → unsent p ≡ body_text cs last ++ rest
    → Comes (body_text cs last) (contents cs) rest (length (contents cs)) p (forward_chunked p)
unfolding forward_chunked
forward_chunked-Comes cs last rest p k free short size h g e = Comes-equal (omega arith) refl (
    chunked_rounds-Comes cs (length (unsent p) + 1) 0 last rest p k free short size h g e
      (omega arith))
