-- ===== src/Mask/Params.antt =====
-- URL paths, parameters, forms and header values.
use solon.Base.{
  ℕ, ◌+◌, [], ◌∷◌, ◌++◌, Bool, not, ◌||◌, Option, none, some, ◌==◌, if◌then◌else◌, length, take,
  drop, map,
}
use solon.Base.Text.{
  Bytes, codes, join, split, split_once, position, rposition, find_str, contains_byte, contains_str,
}
use solon.Mask.Names.{redacted, is_secret_header, is_secret_param}
use solon.Mask.FreeText.{text}

-- What follows the next slash stays, through `text`.
matrix_tail : Bytes → Option ℕ → Bytes
matrix_tail value none = []
matrix_tail value (some slash) = text (drop slash value)

matrix_pair : Bytes → Option (Bytes × Bytes) → Bytes
matrix_pair part none = text part
matrix_pair part (some (name, value)) =
    if is_secret_param name
    then name ++ (b'=' ∷ (redacted ++ matrix_tail value (position (λ c. c == b'/') value)))
    else text part

-- One part of a segment with matrix parameters.
unfoldable pub matrix_part : Bytes → Bytes
unfolding matrix_tail matrix_pair split_once position
matrix_part part = matrix_pair part (split_once b'=' part)

unfoldable pub matrix : Bytes → Bytes
unfolding join matrix_part split contains_byte
matrix before =
    if not (contains_byte b';' before)
    then text before
    else join b';' (map matrix_part (split b';' before))

masked_pair : Bytes → Option (Bytes × Bytes) → Bytes
masked_pair pair none = pair
masked_pair pair (some (name, value)) =
    name ++ (b'=' ∷ (if is_secret_param name then redacted else text value))

-- One `name=value` of a query or of a form.
unfoldable pub mask_pair : Bytes → Bytes
unfolding masked_pair split_once
mask_pair pair = masked_pair pair (split_once b'=' pair)

unfoldable pub form : Bytes → Bytes
unfolding join mask_pair split
form s = join b'&' (map mask_pair (split b'&' s))

path_parts : Bytes → Option (Bytes × Bytes) → Bytes
path_parts p none = matrix p
path_parts p (some (before, query)) =
    matrix before ++ (b'?' ∷ join b'&' (map mask_pair (split b'&' query)))

unfoldable pub path : Bytes → Bytes
unfolding path_parts matrix join mask_pair split split_once
path p = path_parts p (split_once b'?' p)

abbrev pub ends_authority : ℕ → Bool
ends_authority c = c == b'/' || c == b'?' || c == b'#'

abbrev pub or_length : Option ℕ → Bytes → ℕ
or_length none s = length s
or_length (some i) s = i

-- The authority without what stands before its last `@`.
hidden_user : Bytes → Option ℕ → Bytes
hidden_user authority none = authority
hidden_user authority (some at) = redacted ++ (b'@' ∷ drop (at + 1) authority)

unfoldable pub mask_authority : Bytes → Bytes
unfolding hidden_user rposition
mask_authority authority = hidden_user authority (rposition b'@' authority)

url_parts : Bytes → Option ℕ → Bytes
url_parts value none = path value
url_parts value (some scheme_end) =
    let scheme = take (scheme_end + 3) value in
    let rest = drop (scheme_end + 3) value in
    let authority_end = or_length (position ends_authority rest) rest in
    scheme ++ (mask_authority (take authority_end rest) ++ path (drop authority_end rest))

unfoldable pub url : Bytes → Bytes
unfolding url_parts mask_authority path position find_str
url value = url_parts value (find_str (codes "://") value)

unfoldable pub header_value : Bytes → Bytes → Bytes
unfolding is_secret_header url contains_str contains_byte
header_value name value =
    if is_secret_header name
    then redacted
    else if contains_str (codes "://") value || contains_byte b'?' value
    then url value
    else text value
