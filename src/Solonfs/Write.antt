-- ===== src/Solonfs/Write.antt =====
-- `write` of `impl Filesystem for SolonFs`, crates/solon-agent/src/solonfs.rs: the pieces that go to
-- the host.
use solon.Base.{
  ℕ, zero, suc, ◌+◌, ◌%◌, ◌^◌, Option, none, some, ltb, if◌then◌else◌, length, take, drop,
}
use solon.Base.Text.{Bytes}
use solon.FileServer.Frame.{fs_max_io}
use solon.FileServer.Handle.{write_to}
use solon.Solonfs.Effect.{Exec, pure, ◌>>=◌, ◌>>◌}
use solon.Solonfs.{Host, forget_path}
use solon.Solonfs.Fetch.{Sys, call, modify, lift, path_of}
use solon.Solonfs.Handlers.{Reply, written_reply, expect_written}

-- The number of bytes that the loop has written; `none` when the fuel is short.
abbrev pub count_or_zero : Option ℕ → ℕ
count_or_zero none = 0
count_or_zero (some n) = n

module _ (h : Host) where
  -- One round of the loop: the number of bytes that the host took.
  unfoldable pub write_piece : Bytes → ℕ → Bytes → ℕ → Exec (Sys h) ℕ
  write_piece path offset payload written = do
    r ← call h (write_to path (offset + written)) (take fs_max_io (drop written payload))
    lift h (expect_written r.0)

  -- `while done < data.len()`
  unfoldable pub write_loop : ℕ → Bytes → ℕ → Bytes → ℕ → Exec (Sys h) (Option ℕ)
  write_loop zero path offset payload written = pure none
  write_loop (suc f) path offset payload written =
      let more : Exec (Sys h) (Option ℕ) = write_piece path offset payload written >>= λ n.
      write_loop f path offset payload (written + n) in
      if ltb written (length payload) then more else pure (some written)

  unfoldable pub write_bytes : ℕ → ℕ → Bytes → Exec (Sys h) Reply
  unfolding write_loop
  write_bytes ino offset payload = do
    path ← path_of h ino
    n ← write_loop (length payload + 1) path offset payload 0
    modify h (forget_path ino)
    pure (written_reply (count_or_zero n % 2 ^ 32))
