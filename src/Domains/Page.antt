-- ===== src/Domains/Page.antt =====
-- Where a first request goes, and the pages that the proxy answers itself: `handle`, `html_escape` and
-- `not_found_page` of crates/solon-service/src/domains.rs.
use solon.Base.{Bool, Option, none, some, List, [], ◌∷◌, ◌++◌, ◌==◌, if◌then◌else◌, length}
use solon.Base.Text.{Bytes, codes, split, to_ascii_lowercase}
use solon.Base.Utf8.{from_utf8_lossy}
use solon.Base.Map.{lookup}
use solon.DockerProxy.Numbers.{to_string}
use solon.DockerProxy.Head.{crlf}
use solon.Domains.{Target, DomainMap}
use solon.Domains.Head.{is_named, field_of, head_of}

unfoldable pub html_escape : Bytes → Bytes
html_escape [] = []
html_escape (c ∷ s) =
    let rest = html_escape s in
    if c == b'<'
    then codes "&lt;" ++ rest
    else if c == b'>'
    then codes "&gt;" ++ rest
    else if c == b'&'
    then codes "&amp;" ++ rest
    else if c == b'"'
    then codes "&quot;" ++ rest
    else c ∷ rest

-- U+2192 and the blank behind it
abbrev pub arrow : Bytes
arrow = 226 ∷ 134 ∷ 146 ∷ 32 ∷ []

unfoldable pub domain_items : DomainMap → Bytes
unfolding to_string
domain_items [] = []
domain_items ((name, t) ∷ m) =
    codes "<li><a href=\"http://"
    ++ name
    ++ codes "/\">"
    ++ name
    ++ codes "</a> <small>"
    ++ arrow
    ++ t.ip
    ++ codes ":"
    ++ to_string t.port
    ++ codes "</small></li>"
    ++ domain_items m

abbrev pub items_or_none : Bytes → Bytes
items_or_none [] = codes "<li><em>no running container yet</em></li>"
items_or_none (c ∷ s) = c ∷ s

unfoldable pub not_found_page : Bytes → DomainMap → Bytes
unfolding html_escape domain_items
not_found_page host domains =
    codes
      "<!doctype html><html lang=\"en\"><meta charset=\"utf-8\"><title>Solon</title><body style=\"font-family:Segoe UI,sans-serif;max-width:40em;margin:4em auto;color:#222\"><h1 style=\"font-weight:600\">Solon</h1><p><code>"
    ++ html_escape host
    ++ codes "</code> does not match any container.</p><p>Available domains:</p><ul>"
    ++ items_or_none (domain_items domains)
    ++ codes "</ul></body></html>"

unfoldable pub bad_gateway_page : Bytes → Target → Bytes
unfolding html_escape to_string
bad_gateway_page host t =
    codes
      "<!doctype html><meta charset=\"utf-8\"><title>Solon</title><body style=\"font-family:Segoe UI,sans-serif;max-width:40em;margin:4em auto;color:#222\"><h1 style=\"font-weight:600\">Solon</h1><p>The container behind <code>"
    ++ html_escape host
    ++ codes "</code> is not answering on port "
    ++ to_string t.port
    ++ codes " ("
    ++ t.ip
    ++ codes ").</p><p>Check that it listens on that port, or publish the right one.</p></body>"

-- An answer of the proxy with its length.
unfoldable pub page_response : Bytes → Bytes → Bytes
unfolding to_string
page_response status body =
    codes "HTTP/1.1 "
    ++ status
    ++ crlf
    ++ codes "Content-Type: text/html; charset=utf-8"
    ++ crlf
    ++ codes "Content-Length: "
    ++ to_string (length body)
    ++ crlf
    ++ codes "Connection: close"
    ++ crlf
    ++ crlf
    ++ body

abbrev host_field : Option (Bytes × Bytes) → Option Bytes
host_field none = none
host_field (some (k, v)) = if is_named (codes "host") k then some (to_ascii_lowercase v) else none

-- `find_map`: the first line that is a `Host` header; a text that `lines` cuts at line feeds, where the
-- carriage return goes with the blanks
unfoldable pub first_host : List Bytes → Bytes
unfolding field_of is_named to_ascii_lowercase
first_host [] = []
first_host (l ∷ ls) =
    let rest = first_host ls in elim (host_field (field_of l)) [ some host ↦ host | none ↦ rest ]

-- The host of a request, without its port.
unfoldable pub host_of : Bytes → Bytes
unfolding first_host split from_utf8_lossy
host_of head = head_of (split b':' (first_host (split b'\n' (from_utf8_lossy head))))

pub data Decision : Type 0 where
  reply : Bytes → Decision
  relay_to : Bytes → Target → Decision

-- The first request of a connection: the address whose container is woken (`on_connection_ip`), and
-- what follows; `connects` tells which containers answer in time.
unfoldable pub decide : DomainMap → (Target → Bool) → Bytes → Option Bytes × Decision
unfolding host_of not_found_page bad_gateway_page page_response lookup
decide domains connects head =
    let host = host_of head in
    elim (lookup host domains) [
      | none ↦ (none, reply (page_response (codes "404 Not Found") (not_found_page host domains)))
      | some target ↦ (
        some target.ip,
        if connects target
            then relay_to host target
            else reply (page_response (codes "502 Bad Gateway") (bad_gateway_page host target)),
      )
    ]
