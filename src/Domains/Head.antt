-- ===== src/Domains/Head.antt =====
-- The heads of requests and responses, crates/solon-service/src/domains.rs.
use solon.Base.{
  ℕ, Bool, true, false, not, ◌&&◌, ◌||◌, Option, none, some, List, [], ◌∷◌, ◌++◌, map, ltb, ◌==◌,
  if◌then◌else◌, within,
}
use mathlib.Core.Option
use solon.Base.Text.{Bytes, codes, str_eq, to_ascii_lowercase, contains_str, trim, split_once}
use solon.Base.Utf8.{from_utf8_lossy}
use solon.DockerProxy.Head.{split_crlf, next_word, crlf}
use solon.DockerProxy.Numbers.{from_str_radix}
use solon.Mask.Params.{path, header_value}
use solon.Mask.Body.{is_text_content}
use solon.Protocol.{TraceHeader}

-- `a.eq_ignore_ascii_case(b)`, where `b` is in lower case
unfoldable pub is_named : Bytes → Bytes → Bool
is_named name key = str_eq (to_ascii_lowercase key) name

abbrev pub head_of : List Bytes → Bytes
head_of [] = []
head_of (l ∷ ls) = l

abbrev pub tail_of : List Bytes → List Bytes
tail_of [] = []
tail_of (l ∷ ls) = ls

abbrev pub is_empty : Bytes → Bool
is_empty [] = true
is_empty (_ ∷ _) = false

abbrev pub trimmed : Bytes × Bytes → Bytes × Bytes
trimmed (k, v) = (trim k, trim v)

-- The name and the value of a line with a colon.
unfoldable pub field_of : Bytes → Option (Bytes × Bytes)
unfolding split_once trim
field_of line = Option.map trimmed (split_once b':' line)

abbrev pub cons_some : Option (Bytes × Bytes) → List (Bytes × Bytes) → List (Bytes × Bytes)
cons_some none l = l
cons_some (some f) l = f ∷ l

-- An empty line has no colon.
unfoldable pub fields_of : List Bytes → List (Bytes × Bytes)
unfolding field_of
fields_of [] = []
fields_of (l ∷ ls) = cons_some (field_of l) (fields_of ls)

unfoldable pub head_lines : Bytes → Bytes × List (Bytes × Bytes)
unfolding split_crlf from_utf8_lossy fields_of
head_lines head =
    let lines = split_crlf (from_utf8_lossy head) in (head_of lines, fields_of (tail_of lines))

-- What follows the head of a request.
pub data Body : Type 0 where
  length_of : ℕ → Body
  chunked upgrade : Body

pub record Rewriting : Type 0 where
  pub out : Bytes
  pub host : Bytes
  pub body : Body
  pub upgrade_asked : Bool
  pub connection_upgrade : Bool

abbrev pub is_forwarding : Bytes → Bool
is_forwarding key =
    is_named (codes "x-forwarded-proto") key
    || is_named (codes "x-forwarded-host") key
    || is_named (codes "x-forwarded-for") key
    || is_named (codes "x-forwarded-port") key
    || is_named (codes "x-real-ip") key
    || is_named (codes "forwarded") key

abbrev pub with_length : Option ℕ → Body → Body
with_length none b = b
with_length (some n) chunked = chunked
with_length (some n) (length_of m) = length_of n
with_length (some n) upgrade = length_of n

abbrev pub push_line : Bytes → Rewriting → Rewriting
push_line line r = record r { out = r.out ++ (line ++ crlf) }

-- A line with a name and a value.
unfoldable pub rewrite_field : Rewriting → Bytes → Bytes → Bytes → Rewriting
unfolding is_named to_ascii_lowercase contains_str from_str_radix str_eq
rewrite_field r line key value =
    if is_named (codes "host") key
    then push_line line (record r { host = value })
    else if is_named (codes "content-length") key
    then push_line line (record r { body = with_length (from_str_radix 10 value) r.body })
    else if is_named (codes "transfer-encoding") key
    then push_line line (record r {
      body = if contains_str (codes "chunked") (to_ascii_lowercase value) then chunked else r.body;
    })
    else if is_named (codes "upgrade") key
    then push_line line (record r { upgrade_asked = true })
    else if is_named (codes "connection") key
    then push_line line (record r {
      connection_upgrade =
          contains_str (codes "upgrade") (to_ascii_lowercase value) || r.connection_upgrade;
    })
    else if is_forwarding key
    then r
    else push_line line r

unfoldable pub rewrite_line : Rewriting → Bytes → Rewriting
unfolding rewrite_field field_of
rewrite_line r line =
    if is_empty line
    then r
    else elim (field_of line) [ none ↦ push_line line r | some (k, v) ↦ rewrite_field r line k v ]

unfoldable pub rewrite_lines : Rewriting → List Bytes → Rewriting
unfolding rewrite_line
rewrite_lines r [] = r
rewrite_lines r (l ∷ ls) = rewrite_lines (rewrite_line r l) ls

-- The headers of the proxy itself.
unfoldable pub proxy_headers : Bytes → Bytes → Bytes
unfolding str_eq
proxy_headers scheme host =
    codes "X-Forwarded-Proto: "
    ++ scheme
    ++ crlf
    ++ (if is_empty host then [] else codes "X-Forwarded-Host: " ++ host ++ crlf)
    ++ codes "X-Forwarded-Port: "
    ++ (if str_eq scheme (codes "https") then codes "443" else codes "80")
    ++ crlf
    ++ codes "X-Forwarded-For: 127.0.0.1"
    ++ crlf
    ++ codes "X-Real-IP: 127.0.0.1"
    ++ crlf
    ++ (if is_empty host
        then codes "Forwarded: for=127.0.0.1;proto=" ++ scheme ++ crlf
        else codes "Forwarded: for=127.0.0.1;host=" ++ host ++ codes ";proto=" ++ scheme ++ crlf)
    ++ crlf

abbrev pub start_of : Bytes → Rewriting
start_of request_line = record {
  out = request_line ++ crlf;
  host = [];
  body = length_of 0;
  upgrade_asked = false;
  connection_upgrade = false;
}

abbrev pub rewritten_head : Bytes → Rewriting → Bytes × Body
rewritten_head scheme r = (
  r.out ++ proxy_headers scheme r.host,
  if r.upgrade_asked && r.connection_upgrade then upgrade else r.body,
)

unfoldable pub rewrite_head : Bytes → Bytes → Bytes × Body
unfolding rewrite_lines split_crlf from_utf8_lossy
rewrite_head head scheme =
    let lines = split_crlf (from_utf8_lossy head) in
    rewritten_head scheme (rewrite_lines (start_of (head_of lines)) (tail_of lines))

-- `TraceHeader::masked`
unfoldable pub masked : Bytes × Bytes → TraceHeader
unfolding header_value trim
masked (name, value) = record { name = trim name; value = header_value name value }

abbrev pub word_or_empty : Option (Bytes × Bytes) → Bytes × Bytes
word_or_empty none = ([], [])
word_or_empty (some w) = w

-- The method, the masked path and the masked headers.
unfoldable pub parse_request_head : Bytes → Bytes × Bytes × List TraceHeader
unfolding head_lines next_word path masked
parse_request_head head =
    let (line, fields) = head_lines head in
    let (method, rest) = word_or_empty (next_word line) in
    (method, path (word_or_empty (next_word rest)).0, map masked fields)

pub data RespBody : Type 0 where
  no_body : RespBody
  resp_length : ℕ → RespBody
  resp_chunked resp_upgrade until_close : RespBody

-- `parse::<u16>().ok().unwrap_or(0)`
abbrev pub status_or_zero : Option ℕ → ℕ
status_or_zero none = 0
status_or_zero (some n) = if ltb n 65536 then n else 0

-- The first value of a header.
unfoldable pub find_field : Bytes → List (Bytes × Bytes) → Option Bytes
unfolding is_named
find_field name [] = none
find_field name ((k, v) ∷ l) =
    let rest = find_field name l in if is_named name k then some v else rest

abbrev pub says_chunked : Option Bytes → Bool
says_chunked none = false
says_chunked (some v) = contains_str (codes "chunked") (to_ascii_lowercase v)

abbrev pub until_length : Option ℕ → RespBody
until_length none = until_close
until_length (some n) = resp_length n

abbrev pub parsed_length : Option Bytes → Option ℕ
parsed_length none = none
parsed_length (some v) = from_str_radix 10 (trim v)

unfoldable pub resp_body : ℕ → Bytes → List (Bytes × Bytes) → RespBody
unfolding find_field
resp_body status method fields =
    if status == 101
    then resp_upgrade
    else if is_named (codes "head") method
        || status == 204
        || status == 304
        || within 100 199 status
    then no_body
    else if says_chunked (find_field (codes "transfer-encoding") fields)
    then resp_chunked
    else until_length (parsed_length (find_field (codes "content-length") fields))

unfoldable pub parse_response_head : Bytes → Bytes → ℕ × List TraceHeader × RespBody
unfolding head_lines resp_body masked next_word from_str_radix
parse_response_head head method =
    let (line, fields) = head_lines head in
    let word = word_or_empty (next_word (word_or_empty (next_word line)).1) in
    let status = status_or_zero (from_str_radix 10 word.0) in
    (status, map masked fields, resp_body status method fields)

unfoldable pub find_header : Bytes → List TraceHeader → Option Bytes
unfolding is_named
find_header name [] = none
find_header name (h ∷ l) =
    let rest = find_header name l in if is_named name h.name then some h.value else rest

abbrev pub encoding_of : Option Bytes → Bytes
encoding_of none = codes "identity"
encoding_of (some v) = trim v

abbrev pub text_type : Option Bytes → Option Bytes
text_type none = none
text_type (some ct) = if is_text_content ct then some ct else none

-- The type of a body that is worth keeping: a text that is not compressed.
unfoldable pub capturable : List TraceHeader → Option Bytes
unfolding find_header
capturable headers =
    let encoding = encoding_of (find_header (codes "content-encoding") headers) in
    if not (is_named (codes "identity") encoding) && not (is_empty encoding)
    then none
    else text_type (find_header (codes "content-type") headers)
