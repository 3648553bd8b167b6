-- ===== src/FileServer/Tests.antt =====
-- The unit tests of fs.rs and fileserver.rs, and examples.
use solon.FileServer.HandleLaws.{handle-denied, rename_same_file, IsAbsent, IsCaseBlind}
use solon.FileServer.Frame.{read_frame-encode_frame, frame, encode_frame, read_frame}
use solon.FileServer.Handle.{
  failed, error, other, not_found, rename, file, done, IoError, FsAttr, FileSystem, handle,
  errno_for,
}
use solon.Base.{
  ℕ, ◌≡◌, refl, Bool, true, false, not, none, some, List, [], ◌∷◌, ◌++◌, arith, ap, ◌∙◌, sym, inl,
  inr, Bool-cases, if◌then◌else◌, any, retain,
}
use solon.Base.TextEq.{str_eq_iff}
use solon.Base.Text.{
  starts_with, trim_end_byte, to_ascii_lowercase, is_ascii_alphabetic, str_eq, split, Bytes, codes,
}
use solon.FileServer.HostPath.{
  host_path_inside, upper_byte, host_path_escapes, is_special, HostPath, is_shared, push_path,
  to_backslashes, ok, denied, host_path,
}

abbrev shared : List Bytes
shared = codes "c" ∷ []

abbrev any_unc : Bytes → Bool
any_unc s = true

paths :
    (host_path any_unc shared (codes "c/Users/v") ≡ ok (codes "C:\\Users\\v"))
    × (host_path any_unc shared (codes "c") ≡ ok (codes "C:\\"))
    × (host_path any_unc shared (codes "d/x") ≡ denied 13)
    × (host_path any_unc shared (codes "c/../x") ≡ denied 22)
    × (host_path any_unc shared (codes "zz/x") ≡ denied 2)
unfolding host_path is_shared split push_path to_backslashes
paths = (refl, refl, refl, refl, refl)

error_numbers : (errno_for not_found none ≡ 2) × (errno_for other (some 32) ≡ 16)
unfolding errno_for
error_numbers = (refl, refl)

host_path_inside_example : host_path any_unc shared (codes "c/Users/v") ≡ (
    if not (is_shared shared b'c')
    then denied 13
    else if any is_special (split b'/' (codes "Users/v"))
    then denied 22
    else ok (upper_byte b'c' ∷ b':' ∷ b'\\' ∷ to_backslashes (codes "Users/v")))
unfolding is_ascii_alphabetic starts_with trim_end_byte
host_path_inside_example =
    host_path_inside any_unc shared b'c' (codes "Users/v") refl refl refl refl refl

host_path_escapes_example :
    host_path any_unc shared (codes "c/D:/x") ≡ ok (b'D' ∷ b':' ∷ to_backslashes (codes "/x"))
unfolding is_ascii_alphabetic is_shared split trim_end_byte
host_path_escapes_example =
    host_path_escapes any_unc shared b'c' b'D' (codes "/x") refl refl refl refl refl

read_frame-encode_frame_example :
    read_frame (encode_frame (codes "{}") (codes "ab") ++ codes "next")
    ≡ frame (codes "{}") (codes "ab") (codes "next")
read_frame-encode_frame_example =
    read_frame-encode_frame (codes "{}") (codes "ab") (codes "next") (omega arith) (omega arith)

-- A directory as a list of names, where case does not count.
abbrev same_name : Bytes → Bytes → Bool
same_name a b = str_eq (to_ascii_lowercase a) (to_ascii_lowercase b)

abbrev missing : IoError
missing = record { kind = not_found; raw_os = some 2 }

abbrev no_attr : FsAttr
no_attr = record {
  kind = file;
  size = 0;
  mtime_ns = 0;
  atime_ns = 0;
  ctime_ns = 0;
  readonly = false;
}

abbrev is_there : List Bytes → Bytes → Bool
is_there st p = any (same_name p) st

abbrev without : List Bytes → Bytes → List Bytes
without st p = retain (λ q. not (same_name p q)) st

abbrev directory : FileSystem
directory = record {
  State = List Bytes;
  symlink_metadata = λ st p. if is_there st p then done no_attr else failed missing;
  join = λ p name. p ++ (b'\\' ∷ name);
  read_dir = λ st p. done [];
  read_at = λ st p offset len. done [];
  write_at = λ st p offset payload. (st, done 0);
  create_new = λ st p. (p ∷ st, done tt);
  create_dir = λ st p. (st, done tt);
  remove_file = λ st p. (without st p, done tt);
  remove_dir = λ st p. (st, done tt);
  is_file = is_there;
  rename = λ st a b. if is_there st a then (b ∷ without st a, done tt) else (st, failed missing);
  set_len = λ st p size. (st, done tt);
  open_write = λ st p. false;
  set_times = λ st p m a. (st, done tt);
  sync = λ st p. st;
  disk_space = λ st p. none;
  read_link = λ st p. failed missing;
}

abbrev on_c : Bytes → HostPath
on_c rel = host_path any_unc shared rel

without-IsAbsent :
    (st : List Bytes) (p q : Bytes) → same_name p q ≡ true → is_there (without st p) q ≡ false
unfolding any retain
without-IsAbsent [] p q h = refl
without-IsAbsent (r ∷ st) p q h =
    let lower : to_ascii_lowercase p ≡ to_ascii_lowercase q =
      (str_eq_iff (to_ascii_lowercase p) (to_ascii_lowercase q)).0 h in
    let other : same_name p r ≡ same_name q r = ap (λ z. str_eq z (to_ascii_lowercase r)) lower in
    elim (Bool-cases (same_name p r)) [
      | inl t ↦ rw t (without-IsAbsent st p q h)
      | inr n ↦
          let m : same_name q r ≡ false = sym other ∙ n in rw (n, m) (without-IsAbsent st p q h)
    ]

directory-IsCaseBlind : IsCaseBlind directory on_c same_name
directory-IsCaseBlind = record {
  removed = λ st p q h r. (missing, rw (without-IsAbsent st p q h) refl, refl);
  not_renamed = λ st p q (e, absent, k). elim (Bool-cases (is_there st p)) [
    | inl t ↦ let both : done no_attr ≡ failed e = rw t at absent in absurd (cc)
    | inr f ↦ (missing, rw f refl, refl)
  ];
}

rename_same_file_example :
    ((handle directory on_c
        (codes "C:\\readme" ∷ [])
        (rename (codes "c/readme") (codes "c/README"))
        []).1
      ≡ error 2)
    × IsAbsent directory on_c
        (handle directory on_c
          (codes "C:\\readme" ∷ [])
          (rename (codes "c/readme") (codes "c/README"))
          []).0
        (codes "C:\\readme")
    × IsAbsent directory on_c
        (handle directory on_c
          (codes "C:\\readme" ∷ [])
          (rename (codes "c/readme") (codes "c/README"))
          []).0
        (codes "C:\\README")
unfolding host_path any str_eq to_ascii_lowercase is_shared split push_path to_backslashes
rename_same_file_example =
    rename_same_file directory on_c same_name directory-IsCaseBlind (codes "C:\\readme" ∷ [])
      (codes "c/readme") (codes "c/README") (codes "C:\\readme") (codes "C:\\README") [] refl refl
      refl refl refl refl

handle-denied_example :
    (errno : ℕ) × (handle directory on_c
        (codes "C:\\a" ∷ [])
        (rename (codes "c/a") (codes "d/b"))
        []
      ≡ (codes "C:\\a" ∷ [], error errno, []))
unfolding host_path any is_shared split
handle-denied_example =
    handle-denied directory on_c (codes "C:\\a" ∷ []) (rename (codes "c/a") (codes "d/b")) [] refl
