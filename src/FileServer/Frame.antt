-- ===== src/FileServer/Frame.antt =====
-- The frames of the protocol: `encode_frame`, and the reading at the head of `serve_connection`.
use solon.Base.{
  ℕ, ◌+◌, ◌*◌, ◌/◌, ◌%◌, ◌^◌, ◌≤◌, ◌<◌, ◌≡◌, refl, false, ◌||◌, Option, none, some, [], ◌∷◌, ◌++◌,
  append_assoc, arith, ltb, if◌then◌else◌, length, take, drop, length-append, take-append,
  drop-append,
}
use solon.Base.Text.{Bytes}

-- `u32::to_le_bytes`
unfoldable pub to_le_bytes : ℕ → Bytes
to_le_bytes n = n % 256 ∷ n / 256 % 256 ∷ n / 65536 % 256 ∷ n / 16777216 % 256 ∷ []

-- `u32::from_le_bytes`
unfoldable pub from_le_bytes : Bytes → ℕ
from_le_bytes [] = 0
from_le_bytes (b ∷ bs) = b + 256 * from_le_bytes bs

-- The JSON is that of the message; the lengths are cut to 32 bits.
unfoldable pub encode_frame : Bytes → Bytes → Bytes
encode_frame json payload =
    to_le_bytes (length json % 2 ^ 32)
    ++ (to_le_bytes (length payload % 2 ^ 32) ++ (json ++ payload))

abbrev pub max_json : ℕ
max_json = 1048576

abbrev pub fs_max_io : ℕ
fs_max_io = 1048576

-- What a round of the server reads, and what stays in the stream.
pub data Frame : Type 0 where
  frame : Bytes → Bytes → Bytes → Frame
  unexpected_eof too_big : Frame

-- `stream.read_exact` of `n` bytes
unfoldable pub read_exact : ℕ → Bytes → Option (Bytes × Bytes)
read_exact n s = if ltb (length s) n then none else some (take n s, drop n s)

read_data : Bytes → Option (Bytes × Bytes) → Frame
read_data json none = unexpected_eof
read_data json (some (payload, rest)) = frame json payload rest

read_json : ℕ → Option (Bytes × Bytes) → Frame
unfolding read_data
read_json data_len none = unexpected_eof
read_json data_len (some (json, rest)) = read_data json (read_exact data_len rest)

read_lengths : Option (Bytes × Bytes) → Frame
unfolding read_json
read_lengths none = unexpected_eof
read_lengths (some (head, rest)) =
    let json_len = from_le_bytes (take 4 head) in
    let data_len = from_le_bytes (drop 4 head) in
    if ltb max_json json_len || ltb (fs_max_io + 16) data_len
    then too_big
    else read_json data_len (read_exact json_len rest)

unfoldable pub read_frame : Bytes → Frame
unfolding read_lengths
read_frame s = read_lengths (read_exact 8 s)

pub from_le_bytes-to_le_bytes : (n : ℕ) → n < 2 ^ 32 → from_le_bytes (to_le_bytes n) ≡ n
unfolding from_le_bytes to_le_bytes
from_le_bytes-to_le_bytes n h = omega arith

pub length-head : (a b : ℕ) → length (to_le_bytes a ++ to_le_bytes b) ≡ 8
unfolding to_le_bytes
length-head a b = refl

pub take-head : (a b : ℕ) → take 4 (to_le_bytes a ++ to_le_bytes b) ≡ to_le_bytes a
unfolding to_le_bytes
take-head a b = refl

pub drop-head : (a b : ℕ) → drop 4 (to_le_bytes a ++ to_le_bytes b) ≡ to_le_bytes b
unfolding to_le_bytes
drop-head a b = refl

-- The first bytes of a stream, when they are all there.
pub read_exact-append :
    (n : ℕ) (s rest : Bytes) → length s ≡ n → read_exact n (s ++ rest) ≡ some (s, rest)
unfolding read_exact
read_exact-append n s rest h =
    let short : ltb (length (s ++ rest)) (length s) ≡ false =
      ground (arith, length-append s rest) in
    rw (← h, short, take-append, drop-append)

-- A frame within the limits is read back as it was written, with what follows it left in the stream.
pub read_frame-encode_frame :
    (json payload rest : Bytes)
    → length json ≤ max_json
    → length payload ≤ fs_max_io + 16
    → read_frame (encode_frame json payload ++ rest) ≡ frame json payload rest
unfolding read_frame
read_frame-encode_frame json payload rest j d =
    let j32 : length json % 2 ^ 32 ≡ length json = omega arith in
    let d32 : length payload % 2 ^ 32 ≡ length payload = omega arith in
    let within : (ltb max_json (length json) || ltb (fs_max_io + 16) (length payload)) ≡ false =
      ground arith in
    let head = to_le_bytes (length json) ++ to_le_bytes (length payload) in
    let whole : encode_frame json payload ++ rest ≡ head ++ (json ++ (payload ++ rest)) =
      unfold encode_frame in rw (j32, d32) (simp append_assoc) in
    let first : read_exact 8 (encode_frame json payload ++ rest)
        ≡ some (head, json ++ (payload ++ rest)) =
      rw whole (
        read_exact-append 8 head (json ++ (payload ++ rest))
          (length-head (length json) (length payload))) in
    rw (
      first,
      take-head (length json) (length payload),
      drop-head (length json) (length payload),
      from_le_bytes-to_le_bytes (length json) (omega arith),
      from_le_bytes-to_le_bytes (length payload) (omega arith),
      within,
      read_exact-append (length json) json (payload ++ rest) refl,
      read_exact-append (length payload) payload rest refl,
    )
