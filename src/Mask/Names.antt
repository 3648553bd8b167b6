-- ===== src/Mask/Names.antt =====
-- The names of headers and parameters whose values are hidden.
use solon.Base.{List, [], ◌∷◌, Bool, ◌||◌, any}
use solon.Base.Text.{Bytes, codes, to_ascii_lowercase, trim, mem_str, contains_str}

-- "•••" in UTF-8
abbrev pub redacted : Bytes
redacted = 0xE2 ∷ 0x80 ∷ 0xA2 ∷ 0xE2 ∷ 0x80 ∷ 0xA2 ∷ 0xE2 ∷ 0x80 ∷ 0xA2 ∷ []

unfoldable pub secret_headers : List Bytes
secret_headers =
    codes "authorization"
    ∷ codes "proxy-authorization"
    ∷ codes "cookie"
    ∷ codes "set-cookie"
    ∷ codes "authentication"
    ∷ codes "www-authenticate"
    ∷ codes "proxy-authenticate"
    ∷ codes "x-api-key"
    ∷ codes "api-key"
    ∷ codes "x-auth-token"
    ∷ codes "x-access-token"
    ∷ codes "x-csrf-token"
    ∷ codes "x-xsrf-token"
    ∷ codes "x-session-token"
    ∷ []

unfoldable pub secret_params : List Bytes
secret_params =
    codes "pass"
    ∷ codes "pwd"
    ∷ codes "mdp"
    ∷ codes "token"
    ∷ codes "secret"
    ∷ codes "key"
    ∷ codes "auth"
    ∷ codes "session"
    ∷ codes "sig"
    ∷ codes "credential"
    ∷ codes "otp"
    ∷ codes "code"
    ∷ []

unfoldable pub secret_header_fragments : List Bytes
secret_header_fragments =
    codes "token"
    ∷ codes "secret"
    ∷ codes "key"
    ∷ codes "auth"
    ∷ codes "session"
    ∷ codes "cookie"
    ∷ codes "credential"
    ∷ codes "pass"
    ∷ codes "signature"
    ∷ []

unfoldable pub is_secret_header : Bytes → Bool
unfolding secret_headers secret_header_fragments to_ascii_lowercase trim mem_str contains_str any
is_secret_header name =
    let lower = to_ascii_lowercase (trim name) in
    mem_str lower secret_headers || any (λ f. contains_str f lower) secret_header_fragments

unfoldable pub is_secret_param : Bytes → Bool
unfolding secret_params to_ascii_lowercase contains_str any
is_secret_param name =
    let lower = to_ascii_lowercase name in any (λ f. contains_str f lower) secret_params
