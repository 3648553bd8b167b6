-- ===== src/Domains/HeadLaws.antt =====
-- What the rewriting of the head of a request keeps and replaces, crates/solon-service/src/domains.rs.
use solon.Base.{
  ℕ, ◌≡◌, refl, sym, ap, ◌∙◌, ◌⊎◌, inl, inr, Bool, true, false, not, ◌&&◌, ◌||◌, Option, none, some,
  List, [], ◌∷◌, ◌++◌, append_assoc, append-nil, arith, if◌then◌else◌, Bool-cases, Option-cases,
  any,
}
use solon.Base.Text.{Bytes, codes, str_eq, to_ascii_lowercase, contains_str, split_once}
use solon.Base.TextEq.{str_eq_sound}
use solon.Base.Utf8.{from_utf8_lossy}
use solon.DockerProxy.Head.{split_crlf, crlf}
use solon.DockerProxy.Numbers.{from_str_radix}
use solon.Domains.Head.{
  is_named, head_of, tail_of, is_empty, field_of, Body, length_of, chunked, upgrade, Rewriting,
  is_forwarding, with_length, rewrite_field, rewrite_line, rewrite_lines, proxy_headers, start_of,
  rewrite_head,
}

abbrev forwards : Option (Bytes × Bytes) → Bool
forwards none = false
forwards (some (k, v)) = is_forwarding k

-- The lines that go on: not the empty ones, and none of the headers that the proxy sets itself.
abbrev pub is_kept : Bytes → Bool
is_kept l = not (is_empty l) && not (forwards (field_of l))

abbrev pub kept_text : List Bytes → Bytes
kept_text [] = []
kept_text (l ∷ ls) = (if is_kept l then l ++ crlf else []) ++ kept_text ls

abbrev host_after : Bytes → Option (Bytes × Bytes) → Bytes
host_after host none = host
host_after host (some (k, v)) = if is_named (codes "host") k then v else host

-- The value of the last `Host` header.
abbrev pub last_host : Bytes → List Bytes → Bytes
last_host host [] = host
last_host host (l ∷ ls) = last_host (host_after host (field_of l)) ls

-- A name that is not one of the six is none of them in capitals either.
named-is_forwarding :
    (name key : Bytes)
    → is_named name key ≡ true
    → is_forwarding key ≡ (
        str_eq name (codes "x-forwarded-proto")
        || str_eq name (codes "x-forwarded-host")
        || str_eq name (codes "x-forwarded-for")
        || str_eq name (codes "x-forwarded-port")
        || str_eq name (codes "x-real-ip")
        || str_eq name (codes "forwarded"))
unfolding is_named
named-is_forwarding name key h =
    let e : to_ascii_lowercase key ≡ name = str_eq_sound (to_ascii_lowercase key) name h in rw e

module _ (key : Bytes) where
  host_is_other : is_named (codes "host") key ≡ true → is_forwarding key ≡ false
  unfolding str_eq
  host_is_other h = named-is_forwarding (codes "host") key h

  length_is_other : is_named (codes "content-length") key ≡ true → is_forwarding key ≡ false
  unfolding str_eq
  length_is_other h = named-is_forwarding (codes "content-length") key h

  transfer_is_other : is_named (codes "transfer-encoding") key ≡ true → is_forwarding key ≡ false
  unfolding str_eq
  transfer_is_other h = named-is_forwarding (codes "transfer-encoding") key h

  upgrade_is_other : is_named (codes "upgrade") key ≡ true → is_forwarding key ≡ false
  unfolding str_eq
  upgrade_is_other h = named-is_forwarding (codes "upgrade") key h

  connection_is_other : is_named (codes "connection") key ≡ true → is_forwarding key ≡ false
  unfolding str_eq
  connection_is_other h = named-is_forwarding (codes "connection") key h

rewrite_field-out :
    (r : Rewriting) (line key value : Bytes)
    → (rewrite_field r line key value).out
      ≡ (if is_forwarding key then r.out else r.out ++ (line ++ crlf))
unfolding rewrite_field
rewrite_field-out r line key value = elim (Bool-cases (is_named (codes "host") key)) [
  | inl a ↦ rw (a, host_is_other key a)
  | inr a ↦ elim (Bool-cases (is_named (codes "content-length") key)) [
    | inl b ↦ rw (a, b, length_is_other key b)
    | inr b ↦ elim (Bool-cases (is_named (codes "transfer-encoding") key)) [
      | inl c ↦ rw (a, b, c, transfer_is_other key c)
      | inr c ↦ elim (Bool-cases (is_named (codes "upgrade") key)) [
        | inl d ↦ rw (a, b, c, d, upgrade_is_other key d)
        | inr d ↦ elim (Bool-cases (is_named (codes "connection") key)) [
          | inl e ↦ rw (a, b, c, d, e, connection_is_other key e)
          | inr e ↦ elim (Bool-cases (is_forwarding key)) [
            | inl f ↦ rw (a, b, c, d, e, f)
            | inr f ↦ rw (a, b, c, d, e, f)
          ]
        ]
      ]
    ]
  ]
]

rewrite_line-out :
    (r : Rewriting) (l : Bytes)
    → (rewrite_line r l).out ≡ r.out ++ (if is_kept l then l ++ crlf else [])
unfolding rewrite_line
rewrite_line-out r [] = sym (append-nil r.out)
rewrite_line-out r (a ∷ l) = elim (Option-cases (field_of (a ∷ l))) [
  | inl e ↦ rw (rewrite_line, e)
  | inr ((k, v), e) ↦
      rw (rewrite_line, e) (rewrite_field-out r (a ∷ l) k v ∙ pushed (is_forwarding k))
]
  where
    pushed :
        (b : Bool)
        → (if b then r.out else r.out ++ ((a ∷ l) ++ crlf))
          ≡ r.out ++ (if not b then (a ∷ l) ++ crlf else [])
    pushed true = sym (append-nil r.out)
    pushed false = refl

rewrite_field-host :
    (r : Rewriting) (line key value : Bytes)
    → (rewrite_field r line key value).host
      ≡ (if is_named (codes "host") key then value else r.host)
unfolding rewrite_field
rewrite_field-host r line key value = ground arith

rewrite_line-host :
    (r : Rewriting) (l : Bytes) → (rewrite_line r l).host ≡ host_after r.host (field_of l)
unfolding rewrite_line field_of split_once
rewrite_line-host r [] = refl
rewrite_line-host r (a ∷ l) = elim (Option-cases (field_of (a ∷ l))) [
  | inl e ↦ rw (rewrite_line, e)
  | inr ((k, v), e) ↦ rw (rewrite_line, e) (rewrite_field-host r (a ∷ l) k v)
]

rewrite_lines-out :
    (r : Rewriting) (ls : List Bytes) → (rewrite_lines r ls).out ≡ r.out ++ kept_text ls
unfolding rewrite_lines
rewrite_lines-out r [] = sym (append-nil r.out)
rewrite_lines-out r (l ∷ ls) =
    rewrite_lines-out (rewrite_line r l) ls
    ∙ ap (λ z. z ++ kept_text ls) (rewrite_line-out r l)
    ∙ append_assoc r.out (if is_kept l then l ++ crlf else []) (kept_text ls)

rewrite_lines-host :
    (r : Rewriting) (ls : List Bytes) → (rewrite_lines r ls).host ≡ last_host r.host ls
unfolding rewrite_lines
rewrite_lines-host r [] = refl
rewrite_lines-host r (l ∷ ls) =
    rewrite_lines-host (rewrite_line r l) ls ∙ ap (λ z. last_host z ls) (rewrite_line-host r l)

-- The rewritten head is the request line, the lines of the client without the empty ones and without
-- the six headers that tell of a proxy, in whatever case they are written, and then the headers of
-- the proxy for the last host that the client named: none of those six is the client's.
pub rewrite_head_lem :
    (head scheme : Bytes)
    → (let lines = split_crlf (from_utf8_lossy head) in
        (rewrite_head head scheme).0
        ≡ ((head_of lines ++ crlf) ++ kept_text (tail_of lines))
          ++ proxy_headers scheme (last_host [] (tail_of lines)))
unfolding rewrite_head
rewrite_head_lem head scheme =
    let lines = split_crlf (from_utf8_lossy head) in
    let r = start_of (head_of lines) in
    rw (rewrite_lines-out r (tail_of lines), rewrite_lines-host r (tail_of lines))

abbrev says_chunked_field : Option (Bytes × Bytes) → Bool
says_chunked_field none = false
says_chunked_field (some (k, v)) =
    is_named (codes "transfer-encoding") k && contains_str (codes "chunked") (to_ascii_lowercase v)

-- A line that says that the body comes in chunks.
abbrev pub says_chunked_line : Bytes → Bool
says_chunked_line l = says_chunked_field (field_of l)

-- Whether the body is relayed in chunks or as a tunnel.
abbrev pub IsUnsized : Body → Type 0
IsUnsized (length_of n) = ⊥
IsUnsized chunked = Unit
IsUnsized upgrade = Unit

abbrev IsChunked : Body → Type 0
IsChunked b = b ≡ chunked

transfer_is_not :
    (key : Bytes)
    → is_named (codes "transfer-encoding") key ≡ true
    → (is_named (codes "host") key ≡ false) × (is_named (codes "content-length") key ≡ false)
unfolding is_named str_eq
transfer_is_not key h =
    let e : to_ascii_lowercase key ≡ codes "transfer-encoding" =
      str_eq_sound (to_ascii_lowercase key) (codes "transfer-encoding") h in
    (rw e, rw e)

with_length-chunked : (n : Option ℕ) → with_length n chunked ≡ chunked
with_length-chunked none = refl
with_length-chunked (some n) = refl

rewrite_field-IsChunked :
    (r : Rewriting) (line key value : Bytes)
    → (r.body ≡ chunked)
      ⊎ ((is_named (codes "transfer-encoding") key
            && contains_str (codes "chunked") (to_ascii_lowercase value))
          ≡ true)
    → IsChunked (rewrite_field r line key value).body
unfolding rewrite_field
rewrite_field-IsChunked r line key value (inl e) =
    ground (arith, e, with_length-chunked (from_str_radix 10 value))
rewrite_field-IsChunked r line key value (inr e) = ground (arith, e, transfer_is_not key)

rewrite_line-IsChunked :
    (r : Rewriting) (l : Bytes)
    → (r.body ≡ chunked) ⊎ (says_chunked_line l ≡ true)
    → IsChunked (rewrite_line r l).body
unfolding rewrite_line field_of split_once
rewrite_line-IsChunked r [] (inl e) = e
rewrite_line-IsChunked r [] (inr e) = cc
rewrite_line-IsChunked r (a ∷ l) h = elim (Option-cases (field_of (a ∷ l))) [
  | inl e ↦ rw (rewrite_line, e) (none_case h e)
  | inr ((k, v), e) ↦
      rw (rewrite_line, e) (rewrite_field-IsChunked r (a ∷ l) k v (some_case k v h e))
]
  where
    none_case :
        (r.body ≡ chunked) ⊎ (says_chunked_line (a ∷ l) ≡ true)
        → field_of (a ∷ l) ≡ none
        → r.body ≡ chunked
    none_case (inl c) e = c
    none_case (inr c) e = let k : false ≡ true = sym (ap says_chunked_field e) ∙ c in cc

    some_case :
        (k v : Bytes)
        → (r.body ≡ chunked) ⊎ (says_chunked_line (a ∷ l) ≡ true)
        → field_of (a ∷ l) ≡ some (k, v)
        → (r.body ≡ chunked)
          ⊎ ((is_named (codes "transfer-encoding") k
                && contains_str (codes "chunked") (to_ascii_lowercase v))
              ≡ true)
    some_case k v (inl c) e = inl c
    some_case k v (inr c) e = inr (sym (ap says_chunked_field e) ∙ c)

rewrite_lines-IsChunked :
    (r : Rewriting) (ls : List Bytes)
    → (r.body ≡ chunked) ⊎ (any says_chunked_line ls ≡ true)
    → IsChunked (rewrite_lines r ls).body
unfolding rewrite_lines any
rewrite_lines-IsChunked r [] (inl e) = e
rewrite_lines-IsChunked r [] (inr e) = cc
rewrite_lines-IsChunked r (l ∷ ls) (inl e) =
    rewrite_lines-IsChunked (rewrite_line r l) ls (inl (rewrite_line-IsChunked r l (inl e)))
rewrite_lines-IsChunked r (l ∷ ls) (inr e) = elim (Bool-cases (says_chunked_line l)) [
  | inl c ↦ rewrite_lines-IsChunked (rewrite_line r l) ls (inl (rewrite_line-IsChunked r l (inr c)))
  | inr c ↦ rewrite_lines-IsChunked (rewrite_line r l) ls (inr (rw c at e))
]

-- A request with a line that says that its body is chunked is relayed in chunks, or as a tunnel when
-- it asks for one, whatever lengths the other lines claim, before or behind that line.
pub rewrite_head-IsUnsized :
    (head scheme : Bytes)
    → any says_chunked_line (tail_of (split_crlf (from_utf8_lossy head))) ≡ true
    → IsUnsized (rewrite_head head scheme).1
unfolding rewrite_head
rewrite_head-IsUnsized head scheme h =
    let lines = split_crlf (from_utf8_lossy head) in
    let r = rewrite_lines (start_of (head_of lines)) (tail_of lines) in
    or_upgrade (r.upgrade_asked && r.connection_upgrade) r.body
      (rewrite_lines-IsChunked (start_of (head_of lines)) (tail_of lines) (inr h))
  where
    or_upgrade : (b : Bool) (body : Body) → body ≡ chunked → IsUnsized (if b then upgrade else body)
    or_upgrade true body e = tt
    or_upgrade false (length_of n) e = absurd (ground (arith, e))
    or_upgrade false chunked e = tt
    or_upgrade false upgrade e = tt
