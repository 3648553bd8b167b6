-- ===== src/DockerProxy/Tests.antt =====
-- The unit tests of docker_proxy.rs, and examples.
use solon.DockerProxy.Pipelined.{copy_chunked-pipelined, pipelined}
use solon.DockerProxy.Forward.{forward_requests}
use solon.DockerProxy.Copy.{read, done, copy_chunked, Relay, copy_exact}
use solon.DockerProxy.Rewrite.{Json, Found}
use solon.DockerProxy.Requests.{forward_requests-IsForwarded, IsForwarded}
use solon.DockerProxy.Rounds.{copy_chunked-Relays, Relays}
use solon.DockerProxy.Head.{crlf, find_head_end, set_content_length, parse_head}
use solon.Base.{◌≡◌, refl, true, false, none, some, List, [], ◌∷◌, ◌++◌, reverse}
use solon.Base.Text.{Bytes, codes}
use solon.DockerProxy.Path.{translate_host_path, rewrite_bind}

windows_paths :
    (translate_host_path (codes "C:\\Users\\v\\proj")
      ≡ some (codes "c", codes "/mnt/host/c/Users/v/proj"))
    × (translate_host_path (codes "D:/data/") ≡ some (codes "d", codes "/mnt/host/d/data"))
    × (translate_host_path (codes "/c/Users/v") ≡ some (codes "c", codes "/mnt/host/c/Users/v"))
    × (translate_host_path (codes "//e/x") ≡ some (codes "e", codes "/mnt/host/e/x"))
    × (translate_host_path (codes "C:") ≡ some (codes "c", codes "/mnt/host/c"))
    × (translate_host_path (codes "/var/lib") ≡ none)
    × (translate_host_path (codes "named-volume") ≡ none)
    × (translate_host_path (codes "/mnt/host/c/x") ≡ none)
unfolding translate_host_path
windows_paths = (refl, refl, refl, refl, refl, refl, refl, refl)

binds :
    (rewrite_bind (codes "C:\\Users\\v\\proj:/app:ro")
      ≡ some (codes "c", codes "/mnt/host/c/Users/v/proj:/app:ro"))
    × (rewrite_bind (codes "vol:/data") ≡ none)
    × (rewrite_bind (codes "/host/x:/y") ≡ none)
unfolding rewrite_bind
binds = (refl, refl, refl)

http_heads :
    (parse_head (
        codes
          "POST /v1.51/containers/create?name=x HTTP/1.1\r\nHost: docker\r\nContent-Length: 12\r\n\r\n")
      ≡ some (record {
        is_create_container = true;
        content_length = some 12;
        chunked = false;
        upgrade = false;
      }))
    × (parse_head (
          codes
            "POST /v1.51/exec/abc/start HTTP/1.1\r\nConnection: Upgrade\r\nUpgrade: tcp\r\n\r\n")
        ≡ some (record {
          is_create_container = false;
          content_length = none;
          chunked = false;
          upgrade = true;
        }))
    × (parse_head (codes "POST /build HTTP/1.1\r\nTransfer-Encoding: chunked\r\n\r\n")
        ≡ some (record {
          is_create_container = false;
          content_length = none;
          chunked = true;
          upgrade = false;
        }))
    × (parse_head (codes "garbage") ≡ none)
    × (set_content_length (codes "POST /x HTTP/1.1\r\nContent-Length: 3\r\nHost: a\r\n\r\n") 42
        ≡ codes "POST /x HTTP/1.1\r\nContent-Length: 42\r\nHost: a\r\n\r\n")
unfolding parse_head set_content_length
http_heads = (refl, refl, refl, refl, refl)

abbrev body_relay : Relay
body_relay = record {
  buf = codes "ab";
  client = codes "cde" ∷ codes "fg" ∷ [];
  guest = [];
  shares = [];
}

copied_exactly :
    copy_exact 4 body_relay
    ≡ some (
      record { buf = []; client = codes "e" ∷ codes "fg" ∷ []; guest = codes "abcd"; shares = [] },
      done 4,
    )
unfolding copy_exact read
copied_exactly = refl

abbrev chunked_relay : Relay
chunked_relay = record {
  buf = [];
  client = codes "3\r\nabc\r" ∷ codes "\n0\r\n\r\n" ∷ [];
  guest = [];
  shares = [];
}

copied_chunks :
    copy_chunked chunked_relay
    ≡ some (
      record { buf = []; client = []; guest = codes "3\r\nabc\r\n0\r\n\r\n"; shares = [] },
      done 13,
    )
unfolding copy_chunked
copied_chunks = refl

copy_chunked-Relays_example : Relays 0 chunked_relay (copy_chunked chunked_relay)
copy_chunked-Relays_example = copy_chunked-Relays chunked_relay

abbrev reverse_body : Bytes → Bytes × List Bytes
reverse_body body = (reverse body, codes "c" ∷ [])

abbrev creation : Relay
creation = record {
  buf = [];
  client =
      codes "POST /containers/create HTTP/1.1\r\nContent-Length: 2\r\n\r\nab"
      ∷ codes "GET /x HTTP/1.1\r\n\r\n"
      ∷ [];
  guest = [];
  shares = [];
}

forwarded :
    forward_requests reverse_body creation
    ≡ some (
      record {
        buf = [];
        client = [];
        guest =
            codes
              "POST /containers/create HTTP/1.1\r\nContent-Length: 2\r\n\r\nbaGET /x HTTP/1.1\r\n\r\n";
        shares = codes "c" ∷ [];
      },
      done 76,
    )
unfolding forward_requests
forwarded = refl

forward_requests-IsForwarded_example :
    IsForwarded reverse_body creation (forward_requests reverse_body creation)
forward_requests-IsForwarded_example = forward_requests-IsForwarded reverse_body creation

abbrev next_request : Bytes
next_request = codes "GET /x HTTP/1.1\r\n\r\n"

copy_chunked-pipelined_example :
    copy_chunked (pipelined next_request [] [] [])
    ≡ some (
      record {
        buf = [];
        client = [];
        guest = ([] ++ codes "0\r\n") ++ (crlf ++ next_request);
        shares = [];
      },
      done 24,
    )
unfolding find_head_end
copy_chunked-pipelined_example = copy_chunked-pipelined next_request [] [] [] 19 refl

-- texts alone
abbrev texts : Json
texts = record {
  Value = Bytes;
  from_slice = some;
  to_vec = some;
  get = λ k v. none;
  set = λ k v x. v;
  is_object = λ v. false;
  as_array = λ v. none;
  of_array = λ vs. [];
  as_str = some;
  of_str = λ s. s;
}

abbrev two_binds : List Bytes
two_binds = codes "C:\\x:/app" ∷ codes "vol:/data" ∷ []

abbrev nothing_found : Found
nothing_found = record { drives = []; changed = false }
