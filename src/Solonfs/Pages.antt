-- ===== src/Solonfs/Pages.antt =====
-- The pages of an open directory, `readdir` of crates/solon-agent/src/solonfs.rs.
use solon.Base.{
  ℕ, zero, suc, ◌+◌, ◌≤◌, ◌<◌, ◌≡◌, refl, sym, ap, ◌∙◌, false, some, List, [], ◌∷◌, ◌++◌, arith,
  ◌==◌, length, take, drop, All, take-append-drop, length-take, length-drop, drop-drop,
}
use solon.Base.Text.{Bytes}
use solon.Base.KeyMap.{get, nat_eq, path_is_key}
use solon.Solonfs.Effect.{HandlerResult, ok, ◌>>=◌}
use solon.Solonfs.{Host, SolonFs, FileType}
use solon.Solonfs.Fetch.{Sys, gets}
use solon.Solonfs.Handlers.{Reply, directory_reply}
use solon.Solonfs.Dirs.{DirEntry, numbered, read_dir, renew}

drop_nil {ℓ} : {A : Type ℓ} (n : ℕ) → drop {A = A} n [] ≡ []
drop_nil zero = refl
drop_nil (suc n) = refl

drop-numbered : (o i : ℕ) (l : List DirEntry) → drop o (numbered i l) ≡ numbered (i + o) (drop o l)
unfolding numbered
drop-numbered zero i l = ap (λ z. numbered z l) (omega arith)
drop-numbered (suc o) i [] = refl
drop-numbered (suc o) i ((child, kind, name) ∷ l) =
    let e : i + 1 + o ≡ i + suc o = omega arith in
    drop-numbered o (i + 1) l ∙ ap (λ z. numbered z (drop o l)) e

take-numbered : (r i : ℕ) (l : List DirEntry) → take r (numbered i l) ≡ numbered i (take r l)
unfolding numbered
take-numbered zero i l = refl
take-numbered (suc r) i [] = refl
take-numbered (suc r) i ((child, kind, name) ∷ l) =
    ap (λ z. (child, i + 1, kind, name) ∷ z) (take-numbered r (i + 1) l)

numbered-append :
    (i : ℕ) (k l : List DirEntry) → numbered i (k ++ l) ≡ numbered i k ++ numbered (i + length k) l
unfolding numbered
numbered-append i [] l = ap (λ z. numbered z l) (omega arith)
numbered-append i ((child, kind, name) ∷ k) l =
    let e : i + 1 + length k ≡ i + suc (length k) = omega arith in
    ap (λ z. (child, i + 1, kind, name) ∷ z)
      (numbered-append (i + 1) k l ∙ ap (λ z. numbered (i + 1) k ++ numbered z l) e)

-- Where a reader continues: behind the last entry that it saw.
unfoldable last_offset : ℕ → List (ℕ × ℕ × FileType × Bytes) → ℕ
last_offset o [] = o
last_offset o ((child, i, kind, name) ∷ l) = last_offset i l

last_offset-numbered : (o : ℕ) (l : List DirEntry) → last_offset o (numbered o l) ≡ o + length l
unfolding last_offset numbered
last_offset-numbered o [] = omega arith
last_offset-numbered o ((child, kind, name) ∷ l) = omega (arith, last_offset-numbered (o + 1) l)

drop-length-take : (r : ℕ) (l : List DirEntry) → drop (length (take r l)) l ≡ drop r l
drop-length-take zero l = refl
drop-length-take (suc r) [] = refl
drop-length-take (suc r) (e ∷ l) = drop-length-take r l

drop_all : (n : ℕ) (l : List DirEntry) → length l ≤ n → drop n l ≡ []
drop_all n [] h = drop_nil n
drop_all zero (e ∷ l) h = absurd (omega arith)
drop_all (suc n) (e ∷ l) h = drop_all n l (omega arith)

numbered_nil : (i : ℕ) → numbered i [] ≡ []
unfolding numbered
numbered_nil i = refl

-- A page and all that follows it.
page-append :
    (o r : ℕ) (l : List DirEntry)
    → numbered o (take r (drop o l))
        ++ numbered (o + length (take r (drop o l))) (drop (o + length (take r (drop o l))) l)
      ≡ numbered o (drop o l)
page-append o r l =
    let page = take r (drop o l) in
    let rest : drop (o + length page) l ≡ drop r (drop o l) =
      sym (drop-drop o (length page) l) ∙ drop-length-take r (drop o l) in
    sym (numbered-append o page (drop (o + length page) l))
    ∙ ap (λ z. numbered o (page ++ z)) rest
    ∙ ap (numbered o) (take-append-drop r (drop o l))

page_of : HandlerResult Reply → List (ℕ × ℕ × FileType × Bytes)
page_of (ok (directory_reply l)) = l
page_of _ = []

module _ (h : Host) (ino fh : ℕ) where
  -- A reader that continues behind what it saw; each page has room for a number of entries.
  unfoldable pub read_pages : List ℕ → ℕ → Sys h → Sys h × List (ℕ × ℕ × FileType × Bytes)
  unfolding page_of last_offset
  read_pages [] offset s = (s, [])
  read_pages (room ∷ rooms) offset s =
      let r = read_dir h ino fh offset room s in
      let rest = read_pages rooms (last_offset offset (page_of r.1)) r.0 in
      (rest.0, page_of r.1 ++ rest.1)

  read_dir-page :
      (offset room : ℕ) (fs : SolonFs) (w : h.World) (l : List DirEntry)
      → get fh fs.dir_handles ≡ some l
      → 0 < offset
      → read_dir h ino fh offset room (fs, w)
        ≡ ((fs, w), ok (directory_reply (numbered offset (take room (drop offset l)))))
  unfolding read_dir gets renew ◌>>=◌
  read_dir-page offset room fs w l e p =
      let t : (offset == 0) ≡ false = ground arith in
      let page : take room (drop offset (numbered 0 l))
          ≡ numbered offset (take room (drop offset l)) =
        ap (take room) (drop-numbered offset 0 l ∙ ap (λ z. numbered z (drop offset l)) zero_add)
        ∙ take-numbered room offset (drop offset l) in
      rw (e, t, e) (rw page)
    where
      zero_add : 0 + offset ≡ offset
      zero_add = omega arith

  -- A reader of an open directory that continues where its last page ended sees each entry of the
  -- list that the handle holds behind the first page once, in order, each with the offset behind it,
  -- when the pages have room for an entry and there are as many pages as entries; nothing changes,
  -- whatever happens to the directory on the host.
  pub read_pages_lem :
      (rooms : List ℕ) (offset : ℕ) (fs : SolonFs) (w : h.World) (l : List DirEntry)
      → get fh fs.dir_handles ≡ some l
      → 0 < offset
      → All (λ r. 0 < r) rooms
      → length l ≤ offset + length rooms
      → read_pages rooms offset (fs, w) ≡ ((fs, w), numbered offset (drop offset l))
  unfolding read_pages
  read_pages_lem [] offset fs w l e p a m =
      ap (λ z. ((fs, w), z))
        (sym (ap (numbered offset) (drop_all offset l (omega arith)) ∙ numbered_nil offset))
  read_pages_lem (room ∷ rooms) offset fs w l e p (some_room, a) m =
      let page = take room (drop offset l) in
      let next = offset + length page in
      let ih =
        read_pages_lem rooms next fs w l e (omega arith) a
          (omega (arith, length-take room (drop offset l), length-drop offset l)) in
      let here = read_dir-page offset room fs w l e p in
      rw (here, page_of, last_offset-numbered offset page, ih)
        (ap (λ z. ((fs, w), z)) (page-append offset room l))
