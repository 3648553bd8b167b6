-- ===== src/Mask/Body.antt =====
-- Which bodies are captured, and how they are masked.
use solon.Base.{List, [], ◌∷◌, Bool, ◌||◌, if◌then◌else◌}
use solon.Base.Text.{
  Bytes, codes, str_eq, starts_with, ends_with, mem_str, split, trim, to_ascii_lowercase,
}
use solon.Base.Utf8.{from_utf8_lossy}
use solon.Mask.FreeText.{text}
use solon.Mask.Params.{form}
use solon.Mask.Json.{json_values}

abbrev first_part : List Bytes → Bytes
first_part [] = []
first_part (p ∷ _) = p

unfoldable pub mime_of : Bytes → Bytes
unfolding split trim to_ascii_lowercase
mime_of content_type = to_ascii_lowercase (trim (first_part (split b';' content_type)))

abbrev form_type : Bytes
form_type = codes "application/x-www-form-urlencoded"

unfoldable pub is_text_content : Bytes → Bool
unfolding mime_of starts_with ends_with mem_str
is_text_content content_type =
    let mime = mime_of content_type in
    starts_with (codes "text/") mime
    || ends_with (codes "+json") mime
    || ends_with (codes "+xml") mime
    || mem_str mime (
        codes "application/json"
        ∷ codes "application/xml"
        ∷ form_type
        ∷ codes "application/javascript"
        ∷ codes "application/x-ndjson"
        ∷ codes "application/graphql"
        ∷ [])

unfoldable pub body : Bytes → Bytes → Bytes
unfolding mime_of str_eq ends_with from_utf8_lossy form json_values text
body content_type bytes =
    let raw = from_utf8_lossy bytes in
    let mime = mime_of content_type in
    if str_eq mime form_type
    then form raw
    else if str_eq mime (codes "application/json")
        || ends_with (codes "+json") mime
        || str_eq mime (codes "application/x-ndjson")
    then text (json_values raw)
    else text raw
