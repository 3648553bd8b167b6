-- ===== src/DockerProxy/Path.antt =====
-- `translate_host_path` and `rewrite_bind`: a Windows path as a path of the machine.
use solon.Base.{
  ℕ, ◌+◌, ◌-◌, Bool, false, ◌&&◌, Option, none, some, [], ◌∷◌, ◌++◌, leb, ◌==◌, if◌then◌else◌,
  within, length, take, drop,
}
use mathlib.Core.Option
use solon.Base.Text.{
  trim_start_byte, trim_end_byte, Bytes, codes, is_ascii_alphabetic, lower_byte, starts_with,
  position,
}

-- `rest.replace('\\', "/")`
unfoldable pub to_slashes : Bytes → Bytes
to_slashes [] = []
to_slashes (a ∷ s) = (if a == b'\\' then b'/' else a) ∷ to_slashes s

-- the form `C:…`
abbrev pub has_drive : Bytes → Bool
has_drive (a ∷ b ∷ _) = is_ascii_alphabetic a && b == b':'
has_drive _ = false

-- what stands behind the slashes of `/c/…` and `//c/…`
abbrev pub is_msys : Bytes → Bool
is_msys [] = false
is_msys (a ∷ []) = is_ascii_alphabetic a
is_msys (a ∷ b ∷ _) = is_ascii_alphabetic a && b == b'/'

abbrev pub first_byte : Bytes → ℕ
first_byte [] = 0
first_byte (a ∷ _) = a

-- The letter of the drive, in lower case, and what follows it.
unfoldable pub drive_and_rest : Bytes → Option (ℕ × Bytes)
unfolding trim_start_byte is_ascii_alphabetic lower_byte
drive_and_rest src =
    if has_drive src
    then some (lower_byte (first_byte src), drop 2 src)
    else (let trimmed = trim_start_byte b'/' src in
        if within 1 2 (length src - length trimmed) && is_msys trimmed
        then some (lower_byte (first_byte trimmed), drop 1 trimmed)
        else none)

abbrev pub with_slash : Bytes → Bytes
with_slash [] = b'/' ∷ []
with_slash (a ∷ s) = if a == b'/' then a ∷ s else b'/' ∷ (a ∷ s)

-- `/mnt/host/{drive}` and the path on the drive
unfoldable pub guest_path : ℕ → Bytes → Bytes
unfolding trim_end_byte to_slashes
guest_path drive rest =
    codes "/mnt/host/" ++ (drive ∷ trim_end_byte b'/' (with_slash (to_slashes rest)))

translated : Option (ℕ × Bytes) → Option (Bytes × Bytes)
translated none = none
translated (some (drive, rest)) = some (drive ∷ [], guest_path drive rest)

-- The drive and the path in the machine; nothing for a path that is not one of Windows.
unfoldable pub translate_host_path : Bytes → Option (Bytes × Bytes)
unfolding translated drive_and_rest guest_path
translate_host_path src = translated (drive_and_rest src)

cut_at : Bytes → Option ℕ → Option (Bytes × Bytes)
cut_at bind none = none
cut_at bind (some cut) = some (take cut bind, drop cut bind)

-- Where the source of a bind ends: the first colon, behind that of the drive.
unfoldable pub split_bind : Bytes → Option (Bytes × Bytes)
unfolding cut_at position starts_with is_ascii_alphabetic
split_bind bind =
    if leb 3 (length bind) && has_drive bind
    then cut_at bind (Option.map (λ i. i + 2) (position (λ c. c == b':') (drop 2 bind)))
    else if starts_with (codes "/") bind
    then cut_at bind (position (λ c. c == b':') bind)
    else none

with_tail : Bytes → Option (Bytes × Bytes) → Option (Bytes × Bytes)
with_tail tail none = none
with_tail tail (some (drive, guest)) = some (drive, guest ++ tail)

rewritten : Option (Bytes × Bytes) → Option (Bytes × Bytes)
unfolding with_tail translate_host_path
rewritten none = none
rewritten (some (src, tail)) = with_tail tail (translate_host_path src)

unfoldable pub rewrite_bind : Bytes → Option (Bytes × Bytes)
unfolding rewritten split_bind
rewrite_bind bind = rewritten (split_bind bind)
