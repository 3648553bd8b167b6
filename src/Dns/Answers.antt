-- ===== src/Dns/Answers.antt =====
-- `parse_answers`: the name that was asked for, and the addresses of an answer. The text of an IPv6
-- address is an argument.
use Prim.Native.Nat.{bit_and}
use solon.Base.{
  ℕ, zero, suc, ◌+◌, ◌-◌, ◌*◌, ◌&&◌, ◌||◌, Option, none, some, List, [], ◌∷◌, ◌++◌, ltb, ◌==◌,
  if◌then◌else◌, length, take, drop, get_or,
}
use solon.Base.{◌>>=◌}
use solon.Base.Text.{Bytes}
use solon.DockerProxy.Numbers.{to_string}
use solon.Dns.Name.{read_name}

-- `u16::from_be_bytes` of the bytes at `pos`, which are there
abbrev pub word_at : Bytes → ℕ → ℕ
word_at msg pos = get_or msg pos 0 * 256 + get_or msg (pos + 1) 0

-- the text of an `Ipv4Addr`
unfoldable pub ipv4_text : Bytes → Bytes
unfolding to_string
ipv4_text [] = []
ipv4_text (a ∷ []) = to_string a
ipv4_text (a ∷ b ∷ s) = let rest = ipv4_text (b ∷ s) in to_string a ++ (b'.' ∷ rest)

-- the position behind `n` more questions
unfoldable pub skip_questions : ℕ → Bytes → ℕ → Option ℕ
unfolding read_name
skip_questions zero msg pos = some pos
skip_questions (suc n) msg pos = read_name msg pos >>= (λ r. skip_questions n msg (r.1 + 4))

module _ (ipv6_text : Bytes → Bytes) where
  -- `match (rtype, rdlen)`
  unfoldable pub with_address : ℕ → Bytes → List Bytes → List Bytes
  unfolding ipv4_text
  with_address rtype rdata ips =
      if rtype == 1 && length rdata == 4
      then ips ++ (ipv4_text rdata ∷ [])
      else if rtype == 28 && length rdata == 16
      then ips ++ (ipv6_text rdata ∷ [])
      else ips

  -- the records of the answer section; a record that is cut off ends them
  unfoldable pub read_records : ℕ → Bytes → ℕ → List Bytes → Option (List Bytes)
  unfolding read_name with_address
  read_records zero msg pos ips = some ips
  read_records (suc n) msg pos ips = read_name msg pos >>= (λ r.
      let rdlen = word_at msg (r.1 + 8) in
      let rdata = take rdlen (drop (r.1 + 10) msg) in
      let rest = read_records n msg (r.1 + 10 + rdlen) (with_address (word_at msg r.1) rdata ips) in
      if ltb (length msg) (r.1 + 10)
      then some ips
      else if ltb (length msg) (r.1 + 10 + rdlen)
      then some ips
      else rest)

  abbrev if_any : Bytes → List Bytes → Option (Bytes × List Bytes)
  if_any qname [] = none
  if_any qname (ip ∷ ips) = some (qname, ip ∷ ips)

  unfoldable pub parse_answers : Bytes → Option (Bytes × List Bytes)
  unfolding read_name skip_questions read_records
  parse_answers msg =
      if ltb (length msg) 12 || bit_and (get_or msg 2 0) 0x80 == 0
      then none
      else (let qdcount = word_at msg 4 in
          let ancount = word_at msg 6 in
          if qdcount == 0 || ancount == 0
          then none
          else (read_name msg 12 >>= (λ q.
              skip_questions (qdcount - 1) msg (q.1 + 4)
              >>= (λ pos. read_records ancount msg pos [] >>= if_any q.0))))
