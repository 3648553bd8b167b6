-- ===== src/Domains/Hosts.antt =====
-- The block of the `hosts` file, crates/solon-service/src/domains.rs. The files is bytes; what its
-- readings and writings give, attempt by attempt, is an argument.
use solon.Base.{
  ℕ, zero, suc, ◌+◌, Bool, true, false, ◌&&◌, ◌||◌, List, [], ◌∷◌, ◌++◌, reverse, ltb, ◌==◌,
  if◌then◌else◌,
}
use solon.Base.Text.{Bytes, codes, str_eq, mem_str, is_ascii_whitespace, split}
use solon.Domains.{DomainMap}

-- the e with an acute accent
abbrev e_acute : Bytes
e_acute = 0xC3 ∷ 0xA9 ∷ []

managed_by : Bytes → Bytes
managed_by name =
    codes "-begin (g"
    ++ (e_acute
        ++ (codes "r" ++ (e_acute ++ (codes " par " ++ (name ++ codes ", ne pas modifier)")))))

unfoldable pub hosts_begin : Bytes
unfolding managed_by
hosts_begin = codes "# solon" ++ managed_by (codes "Solon")

abbrev pub hosts_end : Bytes
hosts_end = codes "# solon-end"

unfoldable pub legacy_hosts_begin : Bytes
unfolding managed_by
legacy_hosts_begin = codes "# monodon" ++ managed_by (codes "Monodon")

abbrev pub legacy_hosts_end : Bytes
legacy_hosts_end = codes "# monodon-end"

-- `trim_ascii_start`, `trim_ascii_end` and `trim_ascii` on bytes
unfoldable pub trim_ascii_start : Bytes → Bytes
unfolding is_ascii_whitespace
trim_ascii_start [] = []
trim_ascii_start (a ∷ s) =
    let rest = trim_ascii_start s in if is_ascii_whitespace a then rest else a ∷ s

unfoldable pub trim_ascii_end : Bytes → Bytes
unfolding trim_ascii_start
trim_ascii_end s = reverse (trim_ascii_start (reverse s))

unfoldable pub trim_ascii : Bytes → Bytes
unfolding trim_ascii_end
trim_ascii s = trim_ascii_end (trim_ascii_start s)

-- `line.strip_suffix(b"\r").unwrap_or(line)`
unfoldable pub strip_cr : Bytes → Bytes
strip_cr [] = []
strip_cr (a ∷ []) = if a == 13 then [] else a ∷ []
strip_cr (a ∷ b ∷ s) = a ∷ strip_cr (b ∷ s)

abbrev pub is_begin : Bytes → Bool
is_begin t = mem_str t (hosts_begin ∷ legacy_hosts_begin ∷ [])

abbrev pub is_end : Bytes → Bool
is_end t = mem_str t (hosts_end ∷ legacy_hosts_end ∷ [])

-- What a line leaves, and whether the lines behind it are skipped.
unfoldable pub keep_line : Bool → Bytes → Bytes × Bool
unfolding strip_cr trim_ascii mem_str
keep_line skipping line =
    let t = strip_cr line in
    if is_begin (trim_ascii t)
    then ([], true)
    else if is_end (trim_ascii t)
    then ([], false)
    else ((if skipping then [] else t ++ (13 ∷ 10 ∷ [])), skipping)

abbrev pub is_empty : Bytes → Bool
is_empty [] = true
is_empty (_ ∷ _) = false

-- The last part is no line when it is empty: it stands behind the last line feed.
unfoldable pub keep_lines : Bool → List Bytes → Bytes
unfolding keep_line
keep_lines skipping [] = []
keep_lines skipping (line ∷ []) = if is_empty line then [] else (keep_line skipping line).0
keep_lines skipping (line ∷ next ∷ lines) =
    let kept = keep_line skipping line in kept.0 ++ keep_lines kept.1 (next ∷ lines)

unfoldable pub hosts_without_block : Bytes → Bytes
unfolding keep_lines split
hosts_without_block current = keep_lines false (split b'\n' current)

abbrev pub crlf : Bytes
crlf = 13 ∷ 10 ∷ []

-- The names in the order of a `BTreeMap`.
unfoldable pub str_lt : Bytes → Bytes → Bool
str_lt [] [] = false
str_lt [] (b ∷ t) = true
str_lt (a ∷ s) [] = false
str_lt (a ∷ s) (b ∷ t) = ltb a b || (a == b && str_lt s t)

unfoldable pub enter : Bytes → List Bytes → List Bytes
unfolding str_lt
enter k [] = k ∷ []
enter k (j ∷ l) = let rest = enter k l in if str_lt k j then k ∷ j ∷ l else j ∷ rest

unfoldable pub keys : DomainMap → List Bytes
unfolding enter
keys [] = []
keys ((k, t) ∷ m) = enter k (keys m)

unfoldable pub name_lines : List Bytes → Bytes
name_lines [] = []
name_lines (n ∷ ns) = codes "127.0.0.1 " ++ (n ++ (13 ∷ 10 ∷ name_lines ns))

unfoldable pub block : List Bytes → Bytes
unfolding name_lines
block [] = []
block (n ∷ ns) = crlf ++ (hosts_begin ++ (crlf ++ (name_lines (n ∷ ns) ++ hosts_end)))

-- The content that the file should have.
unfoldable pub next_hosts : List Bytes → Bytes → Bytes
unfolding block hosts_without_block trim_ascii_end
next_hosts names current = trim_ascii_end (hosts_without_block current) ++ (block names ++ crlf)

-- An attempt to read or to write; `busy` is error 32 or a permission denied.
pub data Attempt (A : Type 0) : Type 0 where
  done : A → Attempt A
  not_found busy other : Attempt A

-- `for attempt in 0..20`: the attempts that are left, and the error when all of them were busy.
unfoldable pub read_hosts : ℕ → (ℕ → Attempt Bytes) → ℕ → Attempt Bytes
read_hosts zero attempt i = busy
read_hosts (suc left) attempt i = elim (attempt i) [
  | done bytes ↦ done bytes
  | not_found ↦ done []
  | busy ↦ read_hosts left attempt (i + 1)
  | other ↦ other
]

unfoldable pub write_hosts : ℕ → (ℕ → Attempt Unit) → ℕ → Attempt Unit
write_hosts zero attempt i = busy
write_hosts (suc left) attempt i = elim (attempt i) [
  | done u ↦ done u
  | not_found ↦ not_found
  | busy ↦ write_hosts left attempt (i + 1)
  | other ↦ other
]

-- How the block is written: nothing is done when the content is the same.
pub data Written : Type 0 where
  unchanged : Written
  wrote : Bytes → Attempt Unit → Written
  unread : Attempt Bytes → Written

abbrev write_read : List Bytes → (ℕ → Attempt Unit) → Attempt Bytes → Written
write_read names writes (done current) =
    let next = next_hosts names current in
    if str_eq next current then unchanged else wrote next (write_hosts 20 writes 0)
write_read names writes failed = unread failed

unfoldable pub write_hosts_block : DomainMap → (ℕ → Attempt Bytes) → (ℕ → Attempt Unit) → Written
unfolding next_hosts read_hosts write_hosts str_eq keys
write_hosts_block domains reads writes = write_read (keys domains) writes (read_hosts 20 reads 0)
