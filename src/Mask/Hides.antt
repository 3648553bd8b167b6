-- ===== src/Mask/Hides.antt =====
-- Suspicious names and credentials in forms, paths, URLs and headers of
-- crates/solon-core/src/mask.rs.
use mathlib.Core.List.{map-append}
use solon.Base.{
  ℕ, suc, ◌+◌, List, [], ◌∷◌, ◌++◌, true, ◌≡◌, refl, sym, ap, ◌∙◌, ◌==◌, if◌then◌else◌, arith,
  length, take, drop, map, All, All-append, append-nil, take-append, drop-append, append_assoc,
}
use solon.Base.Text.{Bytes, codes, join, starts_with, split, position, contains_byte, contains_str}
use solon.Base.Split.{
  Free, Avoids, split-append, split-join, split_once-append, position-append, position-Avoids,
  rposition-append, find_str-append,
}
use solon.Mask.Names.{redacted, is_secret_header, is_secret_param}
use solon.Mask.Params.{
  matrix, matrix_part, mask_pair, form, path, ends_authority, mask_authority, or_length, url,
  header_value,
}

-- `name=value`
abbrev pub assign : Bytes → Bytes → Bytes
assign name value = name ++ (b'=' ∷ value)

-- What the pair needs so that the code reads the name as it stands.
pub record IsSecret (name : Bytes) : Type 0 where
  pub suspicious : is_secret_param name ≡ true
  pub no_equals : Free b'=' name

pub mask_pair-secret :
    (name value : Bytes) → IsSecret name → mask_pair (assign name value) ≡ assign name redacted
unfolding mask_pair
mask_pair-secret name value s = rw (split_once-append b'=' name value s.no_equals, s.suspicious)

-- parts of a list with one part singled out
pub split-join-around :
    (c : ℕ) (before after : List Bytes) (p : Bytes)
    → All (Free c) (before ++ (p ∷ after))
    → split c (join c (before ++ (p ∷ after))) ≡ before ++ (p ∷ after)
split-join-around c [] after p h = split-join c p after h
split-join-around c (b ∷ bs) after p h = split-join c b (bs ++ (p ∷ after)) h

-- The parts of a query or a form, one of them a suspicious assignment.
pub masked_parts :
    (before after : List Bytes) (name value : Bytes)
    → IsSecret name
    → All (Free b'&') (before ++ (assign name value ∷ after))
    → join b'&' (map mask_pair (split b'&' (join b'&' (before ++ (assign name value ∷ after)))))
      ≡ join b'&' (map mask_pair before ++ (assign name redacted ∷ map mask_pair after))
masked_parts before after name value s h =
    rw (split-join-around b'&' before after (assign name value) h) (
      ap (join b'&') (
        map-append mask_pair before (assign name value ∷ after)
        ∙ ap (λ x. map mask_pair before ++ (x ∷ map mask_pair after))
            (mask_pair-secret name value s)))

-- In a form, the value of a suspicious field is replaced and the other fields are masked one by
-- one, so the result does not depend on the value.
pub form_hides :
    (before after : List Bytes) (name value : Bytes)
    → IsSecret name
    → All (Free b'&') (before ++ (assign name value ∷ after))
    → form (join b'&' (before ++ (assign name value ∷ after)))
      ≡ join b'&' (map mask_pair before ++ (assign name redacted ∷ map mask_pair after))
unfolding form
form_hides = masked_parts

-- In a path with a query, the same holds of the query, and the route in front is masked by itself.
pub path_hides :
    (route : Bytes) (before after : List Bytes) (name value : Bytes)
    → Free b'?' route
    → IsSecret name
    → All (Free b'&') (before ++ (assign name value ∷ after))
    → path (route ++ (b'?' ∷ join b'&' (before ++ (assign name value ∷ after))))
      ≡ matrix route
        ++ (b'?' ∷ join b'&' (map mask_pair before ++ (assign name redacted ∷ map mask_pair after)))
unfolding path
path_hides route before after name value r s h =
    rw (split_once-append b'?' route (join b'&' (before ++ (assign name value ∷ after))) r)
      (ap (λ q. matrix route ++ (b'?' ∷ q)) (masked_parts before after name value s h))

contains_byte-append : (c : ℕ) (p q : Bytes) → contains_byte c (p ++ (c ∷ q)) ≡ true
unfolding contains_byte
contains_byte-append c [] q = ground arith
contains_byte-append c (a ∷ p) q = rw (contains_byte-append c p q) (ground arith)

matrix_part-secret :
    (name value : Bytes)
    → IsSecret name
    → Avoids (λ c. c == b'/') value
    → matrix_part (assign name value) ≡ assign name redacted
unfolding matrix_part
matrix_part-secret name value s v = rw (
  split_once-append b'=' name value s.no_equals,
  s.suspicious,
  position-Avoids (λ c. c == b'/') value v,
)

-- In a segment with matrix parameters, the value of a suspicious one that holds no slash is
-- replaced, and the other parts are masked one by one.
pub matrix_hides :
    (segment : Bytes) (before after : List Bytes) (name value : Bytes)
    → IsSecret name
    → Avoids (λ c. c == b'/') value
    → Free b';' segment
    → All (Free b';') (before ++ (assign name value ∷ after))
    → matrix (segment ++ (b';' ∷ join b';' (before ++ (assign name value ∷ after))))
      ≡ join b';' (
          matrix_part segment
          ∷ (map matrix_part before ++ (assign name redacted ∷ map matrix_part after)))
unfolding matrix
matrix_hides segment before after name value s v g h =
    rw
      (
        contains_byte-append b';' segment (join b';' (before ++ (assign name value ∷ after))),
        split-append b';' segment (join b';' (before ++ (assign name value ∷ after))) g,
        split-join-around b';' before after (assign name value) h,
      )
      (ap (λ ps. join b';' (matrix_part segment ∷ ps))
        (map-append matrix_part before (assign name value ∷ after)
          ∙ ap (λ x. map matrix_part before ++ (x ∷ map matrix_part after))
              (matrix_part-secret name value s v)))

-- An authority with credentials.
pub record IsAuthority (user host : Bytes) : Type 0 where
  pub user_inside : Avoids ends_authority user
  pub host_inside : Avoids ends_authority host
  pub host_plain : Free b'@' host

abbrev pub login : Bytes → Bytes → Bytes
login user host = user ++ (b'@' ∷ host)

drop-suc : (p rest : Bytes) (c : ℕ) → drop (length p + 1) (p ++ (c ∷ rest)) ≡ rest
drop-suc [] rest c = refl
drop-suc (a ∷ p) rest c = rw (suc-add (length p)) (drop-suc p rest c)
  where
    suc-add : (n : ℕ) → suc n + 1 ≡ suc (n + 1)
    suc-add n = omega arith

mask_authority-user :
    (user host : Bytes)
    → Free b'@' host
    → mask_authority (login user host) ≡ redacted ++ (b'@' ∷ host)
unfolding mask_authority
mask_authority-user user host h = rw (rposition-append b'@' user host h, drop-suc user host b'@')

-- What may stand behind an authority: nothing, or a path, query or fragment.
abbrev pub IsTail : Bytes → Type 0
IsTail [] = Unit
IsTail (c ∷ _) = ends_authority c ≡ true

login-inside : (user host : Bytes) → IsAuthority user host → Avoids ends_authority (login user host)
login-inside user host a = All-append _ user (b'@' ∷ host) a.user_inside (refl, a.host_inside)

authority_end-tail :
    (authority tail : Bytes)
    → Avoids ends_authority authority
    → IsTail tail
    → or_length (position ends_authority (authority ++ tail)) (authority ++ tail) ≡ length authority
authority_end-tail authority [] a t =
    rw append-nil (rw (position-Avoids ends_authority authority a))
authority_end-tail authority (c ∷ tail) a t =
    rw (position-append ends_authority authority c tail a t)

abbrev pub with_scheme : Bytes → Bytes → Bytes
with_scheme scheme rest = scheme ++ (codes "://" ++ rest)

take-scheme :
    (scheme rest : Bytes)
    → take (length scheme + 3) (with_scheme scheme rest) ≡ scheme ++ codes "://"
take-scheme [] rest = refl
take-scheme (a ∷ scheme) rest = rw (suc-add (length scheme)) (ap (◌∷◌ a) (take-scheme scheme rest))
  where
    suc-add : (n : ℕ) → suc n + 3 ≡ suc (n + 3)
    suc-add n = omega arith

drop-scheme : (scheme rest : Bytes) → drop (length scheme + 3) (with_scheme scheme rest) ≡ rest
drop-scheme [] rest = refl
drop-scheme (a ∷ scheme) rest = rw (suc-add (length scheme)) (drop-scheme scheme rest)
  where
    suc-add : (n : ℕ) → suc n + 3 ≡ suc (n + 3)
    suc-add n = omega arith

-- In a URL the credentials in front of the host are replaced; the scheme and the host stay, and
-- what follows is masked as a path.
pub url_hides :
    (scheme user host tail : Bytes)
    → Free b':' scheme
    → IsAuthority user host
    → IsTail tail
    → url (with_scheme scheme (login user host ++ tail))
      ≡ with_scheme scheme ((redacted ++ (b'@' ∷ host)) ++ path tail)
unfolding url
url_hides scheme user host tail f a t = rw (
  find_str-append b':' (codes "//") scheme (codes "//" ++ (login user host ++ tail)) f refl,
  take-scheme scheme (login user host ++ tail),
  drop-scheme scheme (login user host ++ tail),
  authority_end-tail (login user host) tail (login-inside user host a) t,
  take-append (login user host) tail,
  drop-append (login user host) tail,
  mask_authority-user user host a.host_plain,
  append_assoc,
)

contains_str-append :
    (c : ℕ) (needle p rest : Bytes)
    → starts_with (c ∷ needle) (c ∷ rest) ≡ true
    → contains_str (c ∷ needle) (p ++ (c ∷ rest)) ≡ true
unfolding contains_str
contains_str-append c needle [] rest s = rw s
contains_str-append c needle (a ∷ p) rest s =
    rw (contains_str-append c needle p rest s) (ground arith)

-- The kept value of a header that is a URL with credentials is the same whatever the credentials
-- are, be the name of the header secret or not.
pub header_value_hides :
    (name scheme user host tail other : Bytes)
    → Free b':' scheme
    → IsAuthority user host
    → IsAuthority other host
    → IsTail tail
    → header_value name (with_scheme scheme (login user host ++ tail))
      ≡ header_value name (with_scheme scheme (login other host ++ tail))
unfolding header_value
header_value_hides name scheme user host tail other f a b t =
    rw
      (
        contains_str-append b':' (codes "//") scheme (codes "//" ++ (login user host ++ tail)) refl,
        contains_str-append b':' (codes "//") scheme (codes "//" ++ (login other host ++ tail))
            refl,
      )
      (ap (λ v. if is_secret_header name then redacted else v)
        (url_hides scheme user host tail f a t ∙ sym (url_hides scheme other host tail f b t)))
