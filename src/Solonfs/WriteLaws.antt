-- ===== src/Solonfs/WriteLaws.antt =====
-- The pieces of a write, crates/solon-agent/src/solonfs.rs: the loop ends, and a file of the host
-- that takes what it says it took has the whole data in the end.
use solon.Base.{
  ℕ, zero, suc, ◌+◌, ◌-◌, ◌%◌, ◌^◌, ◌≤◌, ◌<◌, ◌≡◌, refl, sym, ap, ◌∙◌, ◌≢◌, inl, inr, ◌&&◌, Option,
  none, some, [], ◌∷◌, arith, ltb, leb, if◌then◌else◌, Bool-cases, length, take, drop, get_or, all,
  length-take, length-drop,
}
use solon.Base.Text.{Bytes}
use solon.FileServer.Frame.{fs_max_io}
use solon.FileServer.Handle.{
  write_to, attr_of, entries, content, written, link, statfs_of, success, error,
}
use solon.Solonfs.Effect.{Exec, HandlerResult, ok, err, pure, continue, ◌>>=◌}
use solon.Solonfs.{Host, CallResult, answer, failed, SolonFs, forget_path, rel}
use solon.Solonfs.Fetch.{Sys, call, modify, lift, answered, gets}
use solon.Solonfs.Handlers.{written_reply, expect_written}
use solon.Solonfs.Write.{write_piece, write_loop, write_bytes, count_or_zero}

-- `c` with the bytes of `a` from `o` on.
abbrev pub overlay : (ℕ → ℕ) → ℕ → Bytes → ℕ → ℕ
overlay c o a j = if leb o j && ltb j (o + length a) then get_or a (j - o) 0 else c j

get_or-take : (n i : ℕ) (a : Bytes) → i < n → get_or (take n a) i 0 ≡ get_or a i 0
get_or-take zero i a h = elim h [ ]
get_or-take (suc n) i [] h = refl
get_or-take (suc n) zero (x ∷ a) h = refl
get_or-take (suc n) (suc i) (x ∷ a) h = get_or-take n i a (omega arith)

get_or-drop : (k i : ℕ) (a : Bytes) → get_or (drop k a) i 0 ≡ get_or a (k + i) 0
get_or-drop zero i a = ap (λ z. get_or a z 0) (omega arith)
get_or-drop (suc k) i [] = refl
get_or-drop (suc k) i (x ∷ a) =
    let e : suc (k + i) ≡ suc k + i = omega arith in
    get_or-drop k i a ∙ ap (λ z. get_or (x ∷ a) z 0) e

take_all : (n : ℕ) (a : Bytes) → length a ≤ n → take n a ≡ a
take_all zero [] h = refl
take_all zero (x ∷ a) h = absurd (omega arith)
take_all (suc n) [] h = refl
take_all (suc n) (x ∷ a) h = ap (λ z. x ∷ z) (take_all n a (omega arith))

length-take_le : (n : ℕ) (a : Bytes) → n ≤ length a → length (take n a) ≡ n
length-take_le n a h = omega (arith, length-take n a)

add_back : (o k j : ℕ) → o + k ≤ j → k + (j - (o + k)) ≡ j - o
add_back o k j h = omega arith

overlay-ext :
    (c d : ℕ → ℕ) (o : ℕ) (a : Bytes) (j : ℕ) → c j ≡ d j → overlay c o a j ≡ overlay d o a j
overlay-ext c d o a j h =
    ap (λ z. if leb o j && ltb j (o + length a) then get_or a (j - o) 0 else z) h

overlay-none : (c : ℕ → ℕ) (o j : ℕ) → c j ≡ overlay c o [] j
overlay-none c o j = ground arith

-- Two pieces that follow each other are one.
overlay-overlay :
    (c : ℕ → ℕ) (o k n m j : ℕ) (p : Bytes)
    → k ≤ length p
    → n ≤ length (take m (drop k p))
    → overlay (overlay c o (take k p)) (o + k) (take n (take m (drop k p))) j
      ≡ overlay c o (take (k + n) p) j
overlay-overlay c o k n m j p hk hn =
    let lm : n ≤ m = omega (arith, hn, length-take m (drop k p)) in
    let ln : k + n ≤ length p = omega (arith, hn, hk, length-take m (drop k p), length-drop k p) in
    let e1 = length-take_le n (take m (drop k p)) hn in
    let e2 = length-take_le k p hk in
    let e3 = length-take_le (k + n) p ln in
    rw (e1, e2, e3)
      (ground (
        arith,
        get_or-take n (j - (o + k)) (take m (drop k p)),
        get_or-take m (j - (o + k)) (drop k p),
        get_or-drop k (j - (o + k)) p,
        get_or-take k (j - o) p,
        get_or-take (k + n) (j - o) p,
        λ (h : o + k ≤ j). ap (λ z. get_or p z 0) (add_back o k j h),
      ))

module _ (h : Host) where
  -- Where a piece was written, the host had answered with a positive number.
  piece_inversion :
      {A : Type 0} (fs : SolonFs) (r : h.World × CallResult) (g : ℕ → Exec (Sys h) A) (s' : Sys h)
      (v : A)
      → continue (continue (answered h fs r) (λ x. lift h (expect_written x.0))) g ≡ (s', ok v)
      → (w : h.World) × (n : ℕ) × (pl : Bytes) × (r ≡ (w, answer (written (suc n)) pl))
        × (g (suc n) (fs, w) ≡ (s', ok v))
  unfolding lift
  piece_inversion fs (w, answer (written (suc n)) pl) g s' v e = (w, n, pl, refl, e)
  piece_inversion fs (w, answer (written zero) pl) g s' v e = cc
  piece_inversion fs (w, answer (attr_of a) pl) g s' v e = cc
  piece_inversion fs (w, answer (entries l) pl) g s' v e = cc
  piece_inversion fs (w, answer content pl) g s' v e = cc
  piece_inversion fs (w, answer (link t) pl) g s' v e = cc
  piece_inversion fs (w, answer (statfs_of t) pl) g s' v e = cc
  piece_inversion fs (w, answer success pl) g s' v e = cc
  piece_inversion fs (w, answer (error n) pl) g s' v e = cc
  piece_inversion fs (w, failed n) g s' v e = cc

  -- The loop of a write ends, whatever the host answers, when the fuel is positive and larger than the
  -- number of bytes that are left; each round that goes on has written one byte at least.
  pub write_loop-ends :
      (f : ℕ) (path : Bytes) (offset : ℕ) (payload : Bytes) (k : ℕ) (s s' : Sys h)
      → length payload < k + f
      → 0 < f
      → write_loop h f path offset payload k s ≢ (s', ok none)
  unfolding write_loop write_piece call ◌>>=◌
  write_loop-ends zero path offset payload k s s' l p e = absurd (omega arith)
  write_loop-ends (suc f) path offset payload k (fs, w) s' l p e =
      elim (Bool-cases (ltb k (length payload))) [
        | inr t ↦
            let last : ◌≡◌ {A = Sys h × HandlerResult (Option ℕ)} ((fs, w), ok (some k))
                (s', ok none) =
              rw t at e in
            cc
        | inl t ↦
            let (w1, n1, pl, e1, e2) =
              piece_inversion fs
                (h.call w (write_to path (offset + k)) (take fs_max_io (drop k payload)))
                (λ m. write_loop h f path offset payload (k + m)) s' none (rw t at e) in
            write_loop-ends f path offset payload (k + suc n1) (fs, w1) s' (omega arith)
              (ground arith) e2
      ]

module _ (h : Host) (path : Bytes) (bytes_at : h.World → ℕ → ℕ)
    (takes : (w : h.World) (offset : ℕ) (chunk : Bytes) (w' : h.World) (n : ℕ) (pl : Bytes)
      → h.call w (write_to path offset) chunk ≡ (w', answer (written n) pl)
      → (n ≤ length chunk)
        × ((j : ℕ) → bytes_at w' j ≡ overlay (bytes_at w) offset (take n chunk) j)) where
  write_loop_lem :
      (f : ℕ) (c : ℕ → ℕ) (offset : ℕ) (payload : Bytes) (k : ℕ) (fs : SolonFs) (w : h.World)
      (fs' : SolonFs) (w' : h.World) (n : ℕ)
      → k ≤ length payload
      → ((j : ℕ) → bytes_at w j ≡ overlay c offset (take k payload) j)
      → write_loop h f path offset payload k (fs, w) ≡ ((fs', w'), ok (some n))
      → (n ≡ length payload) × ((j : ℕ) → bytes_at w' j ≡ overlay c offset payload j)
  unfolding write_loop write_piece call ◌>>=◌
  write_loop_lem zero c offset payload k fs w fs' w' n hk so e = cc
  write_loop_lem (suc f) c offset payload k fs w fs' w' n hk so e =
      elim (Bool-cases (ltb k (length payload))) [
        | inr t ↦
            let last : ◌≡◌ {A = Sys h × HandlerResult (Option ℕ)} ((fs, w), ok (some k))
                ((fs', w'), ok (some n)) =
              rw t at e in
            let same_k : k ≡ n = cc in
            let same_w : w ≡ w' = cc in
            let full : k ≡ length payload = ground arith in
            (
              sym same_k ∙ full,
              λ j.
                  sym (ap (λ z. bytes_at z j) same_w)
                  ∙ so j
                  ∙ ap (λ z. overlay c offset z j) (take_all k payload (omega arith)),
            )
        | inl t ↦
            let (w1, n1, pl, e1, e2) =
              piece_inversion h fs
                (h.call w (write_to path (offset + k)) (take fs_max_io (drop k payload)))
                (λ m. write_loop h f path offset payload (k + m)) (fs', w') (some n) (rw t at e) in
            let (few, then_so) =
              takes w (offset + k) (take fs_max_io (drop k payload)) w1 (suc n1) pl e1 in
            write_loop_lem f c offset payload (k + suc n1) fs w1 fs' w' n
              (omega (arith, length-take fs_max_io (drop k payload), length-drop k payload))
              (λ j.
                then_so j
                ∙ overlay-ext (bytes_at w) (overlay c offset (take k payload)) (offset + k) _ j
                    (so j)
                ∙ overlay-overlay c offset k (suc n1) fs_max_io j payload hk few)
              e2
      ]

  finish :
      (ino offset : ℕ) (payload : Bytes) (fs : SolonFs) (w : h.World)
      (r : Sys h × HandlerResult (Option ℕ)) (s' : Sys h) (n : ℕ)
      → write_loop h (length payload + 1) path offset payload 0 (fs, w) ≡ r
      → continue r
          (λ m. modify h (forget_path ino) >>= λ _. pure (written_reply (count_or_zero m % 2 ^ 32)))
        ≡ (s', ok (written_reply n))
      → (n ≡ length payload % 2 ^ 32)
        × ((j : ℕ) → bytes_at s'.1 j ≡ overlay (bytes_at w) offset payload j)
  unfolding modify ◌>>=◌
  finish ino offset payload fs w ((fs1, w1), ok (some m)) s' n k e =
      let (all, so) =
        write_loop_lem (length payload + 1) (bytes_at w) offset payload 0 fs w fs1 w1 m
          (omega arith) (λ j. overlay-none (bytes_at w) offset j) k in
      let same_w : w1 ≡ s'.1 = cc in
      let same_n : m % 2 ^ 32 ≡ n = cc in
      (sym same_n ∙ ap (λ z. z % 2 ^ 32) all, λ j. sym (ap (λ z. bytes_at z j) same_w) ∙ so j)
  finish ino offset payload fs w (s1, ok none) s' n k e = absurd (
      write_loop-ends h (length payload + 1) path offset payload 0 (fs, w) s1 (omega arith)
        (omega arith) k)
  finish ino offset payload fs w (s1, err x) s' n k e = cc

  -- On a host that puts the bytes in the file that it says it took, a write that succeeds has written
  -- all its data at its offset and nothing else, however the host cut the pieces short, and it
  -- reports the number of bytes, cut to 32 bits.
  pub write_lem :
      (ino offset : ℕ) (payload : Bytes) (fs : SolonFs) (w : h.World) (s' : Sys h) (n : ℕ)
      → rel fs ino ≡ some path
      → write_bytes h ino offset payload (fs, w) ≡ (s', ok (written_reply n))
      → (n ≡ length payload % 2 ^ 32)
        × ((j : ℕ) → bytes_at s'.1 j ≡ overlay (bytes_at w) offset payload j)
  unfolding write_bytes gets ◌>>=◌
  write_lem ino offset payload fs w s' n p e =
      finish ino offset payload fs w
        (write_loop h (length payload + 1) path offset payload 0 (fs, w)) s' n refl (rw p at e)
