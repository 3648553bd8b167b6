-- ===== src/Solonfs/Tests.antt =====
-- The file system in the machine on a host that takes a byte at a time.
use solon.Base.{
  ℕ, ◌%◌, ◌^◌, ◌≤◌, ◌≡◌, refl, ◌≢◌, false, Option, none, some, List, [], ◌∷◌, ◌++◌, arith, length,
  take, drop,
}
use solon.Base.Text.{Bytes, codes, str_eq, contains_byte}
use solon.Base.KeyMap.{get, put, del, nat_eq, path_is_key, path_eq}
use solon.FileServer.Frame.{encode_frame}
use solon.FileServer.Handle.{
  FsAttr, file, FsRequest, FsResponse, lookup_in, mkdir, fsync, write_to, rename, getattr, readdir,
  attr_of, entries, written, success, error,
}
use solon.Solonfs.Effect.{HandlerResult, ok, err, ◌>>=◌}
use solon.Solonfs.{
  Host, CallResult, answer, SolonFs, ino_for, rel, new, name_ok, FileType, regular_file,
}
use solon.Solonfs.Fetch.{gets, call, lift, modify, Sys}
use solon.Solonfs.Handlers.{Reply}
use solon.Solonfs.Dirs.{op_lookup, op_mkdir, op_rename, numbered, serve}
use solon.Solonfs.Write.{write_piece, write_bytes, write_loop}
use solon.Solonfs.Keeps.{Holds}
use solon.Solonfs.Tables.{IsConsistent, new-IsConsistent, ino_for-IsConsistent}
use solon.Solonfs.Laws.{session, session-IsConsistent, serve-keeps_path}
use solon.Solonfs.WriteLaws.{overlay, write_loop-ends, write_lem}
use solon.Solonfs.Pages.{read_pages, read_pages_lem}
use solon.Solonfs.Names.{serve-bad_name, by_new_name, with_backslash, rename_others}
use solon.Solonfs.Call

abbrev an_attr : FsAttr
an_attr = record {
  kind = file;
  size = 3;
  mtime_ns = 0;
  atime_ns = 0;
  ctime_ns = 0;
  readonly = false;
}

-- The content of one file.
abbrev take_byte : (ℕ → ℕ) → ℕ → Bytes → (ℕ → ℕ) × CallResult
take_byte w o [] = (w, answer (written 0) [])
take_byte w o (x ∷ chunk) = (overlay w o (x ∷ []), answer (written 1) [])

abbrev serve_byte : (ℕ → ℕ) → FsRequest → Bytes → (ℕ → ℕ) × CallResult
serve_byte w (write_to path offset) chunk = take_byte w offset chunk
serve_byte w (getattr path) chunk = (w, answer (attr_of an_attr) [])
serve_byte w (lookup_in parent name) chunk = (w, answer (attr_of an_attr) [])
serve_byte w (mkdir path) chunk = (w, answer (attr_of an_attr) [])
serve_byte w (rename from to) chunk = (w, answer success [])
serve_byte w (readdir path) chunk = (w, answer (entries []) [])
serve_byte w _ chunk = (w, answer (error 5) [])

abbrev slow_host : Host
slow_host = record { World = ℕ → ℕ; call = serve_byte; now = λ w. (w, 0); unix_now = λ w. (w, 0) }

abbrev no_bytes : ℕ → ℕ
no_bytes j = 0

abbrev drive_c : SolonFs
drive_c = new (codes "c")

session-IsConsistent_example :
    Holds IsConsistent
      (session slow_host
        (op_lookup 1 (codes "a")
          ∷ op_mkdir 1 (codes "d")
          ∷ op_rename 1 (codes "a") 3 (codes "b")
          ∷ [])
        (drive_c, no_bytes)).0
session-IsConsistent_example =
    session-IsConsistent slow_host
      (op_lookup 1 (codes "a")
        ∷ op_mkdir 1 (codes "d")
        ∷ op_rename 1 (codes "a") 3 (codes "b")
        ∷ [])
      drive_c no_bytes (new-IsConsistent (codes "c"))

serve-keeps_path_example :
    get 1 (serve slow_host (op_lookup 1 (codes "a")) (drive_c, no_bytes)).0.0.inodes ≡ some []
unfolding new get put del
serve-keeps_path_example =
    serve-keeps_path slow_host (op_lookup 1 (codes "a")) 1 [] drive_c no_bytes
      (new-IsConsistent (codes "c")) tt refl

takes_byte :
    (w : ℕ → ℕ) (offset : ℕ) (chunk : Bytes) (w' : ℕ → ℕ) (n : ℕ) (pl : Bytes)
    → slow_host.call w (write_to (codes "c") offset) chunk ≡ (w', answer (written n) pl)
    → (n ≤ length chunk) × ((j : ℕ) → w' j ≡ overlay w offset (take n chunk) j)
takes_byte w offset [] w' n pl e =
    let e1 : 0 ≡ n = cc in let e2 : w ≡ w' = cc in rw (← e1, ← e2) (omega arith, λ j. ground arith)
takes_byte w offset (x ∷ chunk) w' n pl e =
    let e1 : 1 ≡ n = cc in
    let e2 : overlay w offset (x ∷ []) ≡ w' = cc in rw (← e1, ← e2) (omega arith, λ j. refl)

write_loop-ends_example :
    write_loop slow_host 3 (codes "c") 0 (codes "ab") 0 (drive_c, no_bytes)
    ≢ ((drive_c, no_bytes), ok none)
write_loop-ends_example =
    write_loop-ends slow_host 3 (codes "c") 0 (codes "ab") 0 (drive_c, no_bytes) (drive_c, no_bytes)
      (omega arith) (omega arith)

abbrev two : List (ℕ × FileType × Bytes)
two = (1, regular_file, codes "a") ∷ (2, regular_file, codes "b") ∷ []

read_pages_lem_example :
    read_pages slow_host 1 7
      (1 ∷ 4 ∷ [])
      1
      (record drive_c { dir_handles = (7, two) ∷ [] }, no_bytes)
    ≡ ((record drive_c { dir_handles = (7, two) ∷ [] }, no_bytes), numbered 1 (drop 1 two))
unfolding get
read_pages_lem_example =
    read_pages_lem slow_host 1 7 (1 ∷ 4 ∷ []) 1 (record drive_c { dir_handles = (7, two) ∷ [] })
      no_bytes two refl (omega arith) (omega arith) (omega arith)

serve-bad_name_example :
    serve slow_host (op_rename 1 (codes "a") 1 (codes "b\\c")) (drive_c, no_bytes)
    ≡ ((drive_c, no_bytes), err 22)
serve-bad_name_example =
    serve-bad_name slow_host (op_rename 1 (codes "a") 1 (codes "b\\c")) (codes "b\\c") 22
      (drive_c, no_bytes) (by_new_name 1 1 (codes "a") (codes "b\\c"))
      (with_backslash (codes "b") (codes "c"))

write_lem_example :
    (2 ≡ length (codes "ab") % 2 ^ 32)
    × ((j : ℕ)
        → (write_bytes slow_host 1 5 (codes "ab") (drive_c, no_bytes)).0.1 j
          ≡ overlay no_bytes 5 (codes "ab") j)
unfolding write_bytes new rel get put del ◌>>=◌ gets write_piece call lift modify
write_lem_example =
    write_lem slow_host (codes "c") (λ w. w) takes_byte 1 5 (codes "ab") drive_c no_bytes
      (write_bytes slow_host 1 5 (codes "ab") (drive_c, no_bytes)).0 2 refl refl

-- The drive with a directory \`a\` and a file in it.
abbrev with_child : SolonFs
with_child = (ino_for (codes "a" ∷ codes "f" ∷ []) (ino_for (codes "a" ∷ []) drive_c).0).0

with_child-IsConsistent : Holds IsConsistent with_child
with_child-IsConsistent =
    ino_for-IsConsistent (codes "a" ∷ codes "f" ∷ []) (ino_for (codes "a" ∷ []) drive_c).0
      (ino_for-IsConsistent (codes "a" ∷ []) drive_c (new-IsConsistent (codes "c")))

abbrev moved : Sys slow_host × HandlerResult Reply
moved = serve slow_host (op_rename 1 (codes "a") 1 (codes "b")) (with_child, no_bytes)

a_file-ne : (codes "a" ∷ codes "f" ∷ []) ≢ codes "a" ∷ []
a_file-ne e = cc

b-ne : (codes "a" ∷ codes "f" ∷ []) ≢ codes "b" ∷ []
b-ne e = cc

rename_others_example : get 3 moved.0.0.inodes ≡ some (codes "a" ∷ codes "f" ∷ [])
unfolding new ino_for get put del path_eq str_eq name_ok contains_byte
rename_others_example =
    rename_others slow_host 1 1 (codes "a") (codes "b") with_child no_bytes [] [] refl refl refl 3
      (codes "a" ∷ codes "f" ∷ []) with_child-IsConsistent refl a_file-ne b-ne

abbrev to_text : FsRequest → Bytes
to_text r = codes "q"

abbrev of_text : Bytes → Option FsResponse
of_text s = some success

abbrev echo : ℕ → Bytes → ℕ × Option Bytes
echo c s = (c, some (encode_frame (codes "{}") (codes "xy") ++ []))

an_exchange :
    Call.call echo to_text of_text (fsync (codes "c")) [] (4 ∷ 5 ∷ [])
    ≡ (4 ∷ 5 ∷ [], ok (success, codes "xy"))
an_exchange =
    Call.call-answered echo to_text of_text (fsync (codes "c")) [] 4 4 (5 ∷ []) success (codes "{}")
      (codes "xy") [] refl refl (omega arith) (omega arith)

call-Settled_example :
    Call.Settled echo to_text of_text
      (4 ∷ [])
      (Call.call echo to_text of_text (fsync (codes "c")) [] (4 ∷ []))
call-Settled_example = Call.call-Settled echo to_text of_text (fsync (codes "c")) [] (4 ∷ [])
