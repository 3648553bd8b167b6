-- ===== src/DockerProxy/Head.antt =====
-- The head of a request: where it ends, what the proxy reads of it, and its new length.
use solon.Base.{
  ℕ, suc, ◌+◌, Bool, true, false, ◌&&◌, ◌||◌, Option, none, some, List, [], ◌∷◌, ◌++◌, ◌==◌,
  if◌then◌else◌, take, drop,
}
use mathlib.Core.Option
use solon.Base.{◌>>=◌}
use solon.Base.Text.{
  contains_str, position, trim, trim_start, split_once, find_str, cons_head, starts_with,
  to_ascii_lowercase, split, leading_space, str_eq, Bytes, codes,
}
use solon.Base.Utf8.{from_utf8_lossy}
use solon.DockerProxy.Numbers.{from_str_radix, to_string}

pub record Head : Type 0 where
  pub is_create_container : Bool
  pub content_length : Option ℕ
  pub chunked : Bool
  pub upgrade : Bool

abbrev pub crlf : Bytes
crlf = 13 ∷ 10 ∷ []

abbrev pub blank_line : Bytes
blank_line = 13 ∷ 10 ∷ 13 ∷ 10 ∷ []

-- the index behind the blank line
unfoldable pub find_head_end : Bytes → Option ℕ
unfolding find_str
find_head_end buf = Option.map (λ p. p + 4) (find_str blank_line buf)

-- `text.split("\r\n")`
unfoldable pub split_crlf : Bytes → List Bytes
split_crlf [] = [] ∷ []
split_crlf (a ∷ []) = (a ∷ []) ∷ []
split_crlf (a ∷ b ∷ s) =
    let after = split_crlf s in
    let further = split_crlf (b ∷ s) in
    if a == 13 && b == 10 then [] ∷ after else cons_head a further

-- The number of bytes in front of the next whitespace.
unfoldable pub word_length : Bytes → ℕ
unfolding leading_space
word_length [] = 0
word_length (c ∷ s) = let rest = word_length s in if leading_space (c ∷ s) == 0 then suc rest else 0

-- `next()` on `split_whitespace()`: the word and what follows it
unfoldable pub next_word : Bytes → Option (Bytes × Bytes)
unfolding trim_start word_length
next_word s =
    let t = trim_start s in
    if word_length t == 0 then none else some (take (word_length t) t, drop (word_length t) t)

abbrev first_part : List Bytes → Bytes
first_part [] = []
first_part (p ∷ _) = p

abbrev pub before_query : Bytes → Bytes
before_query path = first_part (split b'?' path)

-- the part from the slash behind the version on
behind_version : Bytes → Option ℕ → Bytes
behind_version p none = p
behind_version p (some i) = drop (1 + i) p

unfoldable pub is_create_path : Bytes → Bool
unfolding split starts_with position str_eq behind_version
is_create_path path =
    let p = before_query path in
    let p' =
      if starts_with (codes "/v") p
      then behind_version p (position (λ c. c == b'/') (drop 1 p))
      else p in
    str_eq p' (codes "/containers/create")

-- one header of `for line in lines`
unfoldable pub read_header : Head → Bytes → Bytes → Head
unfolding to_ascii_lowercase trim str_eq contains_str from_str_radix
read_header h name value =
    let n = to_ascii_lowercase (trim name) in
    let v = trim value in
    if str_eq n (codes "content-length")
    then record h { content_length = from_str_radix 10 v }
    else if str_eq n (codes "transfer-encoding")
    then record h { chunked = contains_str (codes "chunked") (to_ascii_lowercase v) }
    else if str_eq n (codes "connection")
    then record h { upgrade = h.upgrade || contains_str (codes "upgrade") (to_ascii_lowercase v) }
    else if str_eq n (codes "upgrade")
    then record h { upgrade = true }
    else h

read_line : Head → Option (Bytes × Bytes) → Head
unfolding read_header
read_line h none = h
read_line h (some (name, value)) = read_header h name value

unfoldable pub read_headers : Head → List Bytes → Head
unfolding read_line split_once
read_headers h [] = h
read_headers h (line ∷ lines) = read_headers (read_line h (split_once b':' line)) lines

-- The method and the path of a request line, when its third word is a version of HTTP.
unfoldable pub request_line : Bytes → Option (Bytes × Bytes)
unfolding next_word starts_with
request_line line = do
  (method, s) ← next_word line
  (path, s) ← next_word s
  (version, s) ← next_word s
  if starts_with (codes "HTTP/") version then some (method, path) else none

start_head : Bytes × Bytes → Head
unfolding is_create_path str_eq
start_head r = record {
  is_create_container = str_eq r.0 (codes "POST") && is_create_path r.1;
  content_length = none;
  chunked = false;
  upgrade = false;
}

unfoldable pub parse_lines : List Bytes → Option Head
unfolding request_line start_head read_headers
parse_lines [] = none
parse_lines (line ∷ lines) = Option.map (λ r. read_headers (start_head r) lines) (request_line line)

-- A head that is not UTF-8 is not recognised; the lossy reading changes exactly those.
unfoldable pub parse_head : Bytes → Option Head
unfolding from_utf8_lossy str_eq parse_lines split_crlf
parse_head head = if str_eq (from_utf8_lossy head) head then parse_lines (split_crlf head) else none

abbrev pub length_line : ℕ → Bytes
length_line len = codes "Content-Length: " ++ (to_string len ++ crlf)

abbrev is_empty : Bytes → Bool
is_empty [] = true
is_empty (_ ∷ _) = false

-- The lines behind the first one, and if one of them was replaced.
unfoldable pub replace_length : ℕ → List Bytes → Bytes × Bool
unfolding starts_with to_ascii_lowercase to_string
replace_length len [] = ([], false)
replace_length len (line ∷ lines) =
    let (out, replaced) = replace_length len lines in
    if starts_with (codes "content-length:") (to_ascii_lowercase line)
    then (length_line len ++ out, true)
    else if is_empty line
    then (out, replaced)
    else (line ++ (crlf ++ out), replaced)

first_line : Bytes → Bytes
first_line line = if is_empty line then [] else line ++ crlf

unfoldable pub set_lines : ℕ → List Bytes → Bytes
unfolding replace_length first_line
set_lines len [] = []
set_lines len (line ∷ lines) =
    let (out, replaced) = replace_length len lines in
    first_line line ++ (out ++ ((if replaced then [] else length_line len) ++ crlf))

unfoldable pub set_content_length : Bytes → ℕ → Bytes
unfolding set_lines split_crlf from_utf8_lossy
set_content_length head len = set_lines len (split_crlf (from_utf8_lossy head))
