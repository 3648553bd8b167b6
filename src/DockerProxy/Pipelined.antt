-- ===== src/DockerProxy/Pipelined.antt =====
-- A request that is in the buffer already when a chunked body ends.
use solon.Base.{ℕ, suc, ◌+◌, ◌≡◌, refl, Option, some, List, ◌++◌, arith, length, take, drop}
use solon.Base.Text.{starts_with, find_str, Bytes, codes}
use solon.DockerProxy.Head.{crlf, find_head_end}
use solon.DockerProxy.Copy.{
  stop, chunk_round, sized_round, arriving, reads, line_round, pending, Relay, done, forward,
  search, trailers_end, chunk_size, copy_round, copy_rounds, copy_chunked,
}

-- A body that ends with an empty chunk and no trailers, and the next request in the buffer.
abbrev pub last_chunk : Bytes
last_chunk = codes "0\r\n\r\n"

abbrev pub pipelined : Bytes → List Bytes → Bytes → List Bytes → Relay
pipelined next client guest shares = record {
  buf = last_chunk ++ next;
  client = client;
  guest = guest;
  shares = shares;
}

search-found :
    (test : Bytes → Option ℕ) (size : ℕ) (r : Relay) (p : ℕ)
    → test r.buf ≡ some p
    → search test size (reads r) r ≡ some (r, some p)
search-found test size r p h =
    let one_more : reads r ≡ suc (length (arriving r.client)) = omega arith in
    rw one_more (unfold search in rw (search, h))

-- behind the size line of the last chunk
abbrev behind_size : Bytes → List Bytes → Bytes → List Bytes → Relay
behind_size next client guest shares = record {
  buf = crlf ++ next;
  client = client;
  guest = guest ++ codes "0\r\n";
  shares = shares;
}

trailers_end-head : (b : Bytes) (p : ℕ) → find_head_end b ≡ some p → trailers_end b ≡ some p
unfolding trailers_end
trailers_end-head b p h = rw (trailers_end, h)

last_round :
    (next : Bytes) (client : List Bytes) (guest : Bytes) (shares : List Bytes) (end : ℕ)
    → find_head_end (crlf ++ next) ≡ some end
    → copy_round 0 (pipelined next client guest shares)
      ≡ some (stop (forward end (behind_size next client guest shares)) (done (3 + end)))
unfolding copy_round line_round sized_round chunk_round find_str starts_with chunk_size
last_round next client guest shares end h =
    rw (search-found (find_str crlf) 4096 (pipelined next client guest shares) 1 refl) (
      rw (
        search-found trailers_end 4096 (behind_size next client guest shares) end
          (trailers_end-head (crlf ++ next) end h)))

-- When the last chunk has no trailers and the next request is in the buffer, what stands up to the
-- blank line behind the head of this next request is passed on as if it were trailers, and counted
-- as body.
pub copy_chunked-pipelined :
    (next : Bytes) (client : List Bytes) (guest : Bytes) (shares : List Bytes) (pos : ℕ)
    → find_head_end (crlf ++ next) ≡ some (suc (suc pos))
    → copy_chunked (pipelined next client guest shares)
      ≡ some (
        record {
          buf = drop pos next;
          client = client;
          guest = (guest ++ codes "0\r\n") ++ (crlf ++ take pos next);
          shares = shares;
        },
        done (3 + suc (suc pos)),
      )
unfolding copy_chunked copy_rounds copy_round
copy_chunked-pipelined next client guest shares pos h =
    let one_more : length (pending (pipelined next client guest shares)) + 1
        ≡ suc (length (pending (pipelined next client guest shares))) =
      omega arith in
    rw one_more (rw (copy_rounds, last_round next client guest shares (suc (suc pos)) h))
