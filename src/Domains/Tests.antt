-- ===== src/Domains/Tests.antt =====
-- The domains of some containers, the hosts file and the relayed messages of small examples.
use solon.Base.{◌||◌, ◌==◌, All, none, ◌≡◌, refl, true, false, some, [], ◌∷◌, ◌++◌, arith, any}
use solon.Base.Text.{Bytes, codes, str_eq, contains_byte, to_ascii_lowercase, contains_str}
use solon.Base.Utf8.{from_utf8_lossy}
use solon.Base.Map.{lookup}
use solon.DockerProxy.Head.{split_crlf}
use solon.Protocol.{ContainerEndpoint}
use solon.Domains.{is_ipv4, sanitize, pick_port, target_of, names_of, domains_for}
use solon.Domains.Table.{first_target, lookup-domains_for}
use solon.Domains.Hosts.{hosts_without_block, block, crlf, hosts_begin, legacy_hosts_begin}
use solon.Domains.HostsLaws.{lines_text, hosts_without_block-block, IsPlain}
use solon.Domains.Head.{rewrite_head, proxy_headers, field_of, is_named}
use solon.Domains.HeadLaws.{rewrite_head_lem, IsUnsized, rewrite_head-IsUnsized}
use solon.Domains.Bodies.{empty_tee, feed, Pipe, forward_exact, forward_chunked, total_of}
use solon.Domains.BodiesLaws.{feed_all, feed_all_lem}
use solon.Domains.ForwardLaws.{Forwards, forward_exact-Forwards}
use solon.Domains.Relayed.{IsEnd}
use solon.Domains.ChunkLaws.{forward_chunked-IsEnd}
use solon.Domains.Bodies.{size_of}
use solon.Domains.ChunkComes.{Chunk, IsChunk}
use solon.Domains.ChunksCome.{body_text, Comes, forward_chunked-Comes}
use solon.Domains.Head.{parse_response_head}
use solon.Domains.Pump.{Pending, Connection, Pump, current_request, answer_round, pump}
use solon.Domains.CloseLaws.{IsUndercounted, answer_round-until_close}
use solon.Domains.Pairing.{IsPumped, pump-IsPumped}
use solon.Domains.Requests.{Sending}
use solon.Domains.Page.{html_escape, host_of}
use solon.Domains.PageLaws.{unescape, html_escape_lem}

abbrev odoo : ContainerEndpoint
odoo = record {
  id = codes "2";
  name = codes "/odoo18-odoo-1";
  compose_project = some (codes "odoo18");
  compose_service = some (codes "odoo");
  ip = codes "10.90.2.3";
  exposed_tcp = 8069 ∷ 8071 ∷ 8072 ∷ [];
  published_tcp = 8069 ∷ [];
}

abbrev nada : ContainerEndpoint
nada = record odoo { ip = []; name = codes "/nada" }

odoo_port : pick_port odoo ≡ 8069
unfolding pick_port
odoo_port = refl

lookup-domains_for_example :
    lookup (codes "odoo.odoo18.solon.local") (domains_for (nada ∷ odoo ∷ []))
    ≡ some (target_of odoo)
unfolding first_target is_ipv4 names_of
lookup-domains_for_example = lookup-domains_for (nada ∷ odoo ∷ []) (codes "odoo.odoo18.solon.local")

my_app : sanitize (codes "/My_App.v2") ≡ codes "my-app-v2"
unfolding sanitize
my_app = refl

no_name : sanitize (codes "___") ≡ []
unfolding sanitize
no_name = refl

nas-IsPlain : IsPlain (codes "10.1.1.1 nas")
unfolding hosts_without_block contains_byte hosts_begin legacy_hosts_begin
nas-IsPlain = record { one_line = refl; no_begin = refl; no_end = refl }

hosts_without_block-block_example :
    hosts_without_block (codes "10.1.1.1 nas" ++ (block (codes "a.solon.local" ∷ []) ++ crlf))
    ≡ lines_text (codes "10.1.1.1 nas" ∷ [])
unfolding contains_byte
hosts_without_block-block_example =
    hosts_without_block-block (codes "10.1.1.1 nas") (codes "10.1.1.1 nas" ∷ [])
      (codes "a.solon.local" ∷ []) (nas-IsPlain, tt) (refl, tt) refl

abbrev blog : Bytes
blog =
    codes
      "GET / HTTP/1.1\r\nHost: a\r\nX-FORWARDED-for: 1.2.3.4\r\nTransfer-Encoding: chunked\r\nContent-Length: 12\r\n\r\n"

rewrite_head_lem_example :
    (rewrite_head blog (codes "http")).0
    ≡ codes "GET / HTTP/1.1\r\nHost: a\r\nTransfer-Encoding: chunked\r\nContent-Length: 12\r\n"
      ++ proxy_headers (codes "http") (codes "a")
unfolding split_crlf from_utf8_lossy field_of is_named str_eq to_ascii_lowercase
rewrite_head_lem_example = rewrite_head_lem blog (codes "http")

rewrite_head-IsUnsized_example : IsUnsized (rewrite_head blog (codes "http")).1
unfolding split_crlf from_utf8_lossy any field_of is_named str_eq to_ascii_lowercase contains_str
rewrite_head-IsUnsized_example = rewrite_head-IsUnsized blog (codes "http") refl

feed_all_lem_example :
    feed_all empty_tee (codes "ab" ∷ codes "c" ∷ [])
    ≡ record { kept = codes "abc"; truncated = false }
feed_all_lem_example = feed_all_lem (codes "ab" ∷ codes "c" ∷ [])

abbrev partial : Pipe
partial = record {
  buf = codes "ab";
  source = codes "c" ∷ codes "defgh" ∷ [];
  out = [];
  tee = some empty_tee;
}

a_body :
    forward_exact true 4 partial
    ≡ some (
      record {
        buf = [];
        source = codes "efgh" ∷ [];
        out = codes "abcd";
        tee = some (record { kept = codes "abcd"; truncated = false });
      },
      true,
    )
unfolding forward_exact feed
a_body = refl

chunks :
    forward_chunked (record {
      buf = [];
      source = codes "3\r\nabc\r\n0\r\n\r\nSUITE" ∷ [];
      out = [];
      tee = some empty_tee;
    })
    ≡ some (
      record {
        buf = codes "SUITE";
        source = [];
        out = codes "3\r\nabc\r\n0\r\n\r\n";
        tee = some (record { kept = codes "abc"; truncated = false });
      },
      total_of 3,
    )
unfolding forward_chunked feed
chunks = refl

forward_exact-Forwards_example : Forwards true 4 partial (forward_exact true 4 partial)
forward_exact-Forwards_example = forward_exact-Forwards true 4 partial (omega arith)

abbrev chunked_pipe : Pipe
chunked_pipe = record {
  buf = codes "3\r";
  source = codes "\nabc\r\n0\r\n\r\nSUITE" ∷ [];
  out = [];
  tee = some empty_tee;
}

forward_chunked-IsEnd_example : IsEnd 0 chunked_pipe (forward_chunked chunked_pipe)
forward_chunked-IsEnd_example = forward_chunked-IsEnd chunked_pipe (omega arith)

abbrev abc : Chunk
abc = record { line = codes "3"; content = codes "abc" }

abc-IsChunk : IsChunk abc
unfolding size_of contains_byte
abc-IsChunk = record {
  one_line = refl;
  short = omega arith;
  size = refl;
  some_content = omega arith;
}

forward_chunked-Comes_example :
    Comes
      (body_text (abc ∷ []) (codes "0"))
      (codes "abc")
      (codes "SUITE")
      3
      chunked_pipe
      (forward_chunked chunked_pipe)
unfolding size_of contains_byte
forward_chunked-Comes_example =
    forward_chunked-Comes (abc ∷ []) (codes "0") (codes "SUITE") chunked_pipe (abc-IsChunk, tt) refl
      (omega arith) refl (omega arith) (omega arith, tt) refl

abbrev a_request : Pending
a_request = record {
  ts_ms = 1;
  started = 0;
  method = codes "GET";
  path = codes "/";
  headers = [];
  request_bytes = 0;
  slot = 0;
}

abbrev answers : Pump
answers = record {
  pipe = record {
    buf = [];
    source =
        codes "HTTP/1.1 100 Continue\r\n\r\nHTTP/1.1 200 OK\r\nContent-Length: 2\r\n\r\nok" ∷ [];
    out = [];
    tee = none;
  };
  current = none;
  queue = [];
  coming = (a_request ∷ []) ∷ [];
  pushed = [];
}

abbrev a_connection : Connection
a_connection = record {
  scheme = codes "http";
  host = codes "web.solon.local";
  dst = record {
    ip = codes "10.0.0.2";
    container_id = none;
    name = none;
    project = none;
    service = none;
  };
  capture = false;
  now = λ i. i;
  body_slot = λ i. none;
}

pump-IsPumped_example : IsPumped answers (pump a_connection 200 0 answers)
pump-IsPumped_example = pump-IsPumped a_connection 200 0 answers (omega arith)

-- The head of an answer without a length, with two bytes of its body, and four more to come.
abbrev closing : Pump
closing = record {
  pipe = record {
    buf = codes "HTTP/1.1 200 OK\r\n\r\nab";
    source = codes "cdef" ∷ [];
    out = [];
    tee = none;
  };
  current = none;
  queue = a_request ∷ [];
  coming = [];
  pushed = [];
}

answer_round-until_close_example :
    IsUndercounted 19 a_request closing (answer_round a_connection 0 19 closing)
unfolding current_request parse_response_head
answer_round-until_close_example =
    answer_round-until_close a_connection 0 19 closing a_request [] 200 [] refl refl refl

-- Two requests, the first with a body of JSON.
abbrev two_requests : Sending
two_requests = record {
  pipe = record { buf = post ++ codes "{}" ++ get; source = []; out = []; tee = none };
  queued = [];
  filled = [];
}
  where
    post : Bytes
    post = codes "POST /a HTTP/1.1\r\nContent-Type: application/json\r\nContent-Length: 2\r\n\r\n"

    get : Bytes
    get = codes "GET /b HTTP/1.1\r\nHost: a\r\n\r\n"

html_escape_lem_example :
    All (λ c. (c == b'<' || c == b'>' || c == b'"') ≡ false) (html_escape (codes "<b>\"a&\""))
    × (unescape 0 (html_escape (codes "<b>\"a&\"")) ≡ codes "<b>\"a&\"")
html_escape_lem_example = html_escape_lem (codes "<b>\"a&\"")

escaped : html_escape (codes "<script>&\"x\"") ≡ codes "&lt;script&gt;&amp;&quot;x&quot;"
unfolding html_escape
escaped = refl

a_host :
    host_of (codes "GET / HTTP/1.1\r\nHost: Web.solon.local:80\r\n\r\n") ≡ codes "web.solon.local"
unfolding host_of str_eq
a_host = refl
