-- ===== src/Domains/HostsLaws.antt =====
-- What the rewriting of the `hosts` file keeps, crates/solon-service/src/domains.rs.
use solon.Base.{
  ℕ, ◌≡◌, refl, sym, ap, ◌∙◌, inl, inr, Bool, true, false, List, [], ◌∷◌, ◌++◌, append_assoc,
  append-nil, reverse, arith, ◌==◌, if◌then◌else◌, Bool-cases, any, All,
}
use solon.Base.Text.{Bytes, codes, str_eq, mem_str, split, contains_byte, is_ascii_whitespace}
use solon.Base.Split.{Free, split-append}
use mathlib.Core.List.{reverse-cons, reverse-append}
use solon.Domains.Hosts.{
  trim_ascii_start, trim_ascii_end, hosts_begin, hosts_end, legacy_hosts_begin, strip_cr,
  trim_ascii, is_begin, is_end, keep_line, keep_lines, hosts_without_block, block, name_lines, crlf,
}

strip_cr-append : (l : Bytes) → strip_cr (l ++ (13 ∷ [])) ≡ l
unfolding strip_cr
strip_cr-append [] = refl
strip_cr-append (a ∷ []) = refl
strip_cr-append (a ∷ b ∷ l) = ap (λ z. a ∷ z) (strip_cr-append (b ∷ l))

-- The lines of a text, each with its line end.
abbrev pub lines_text : List Bytes → Bytes
lines_text [] = []
lines_text (l ∷ ls) = l ++ (13 ∷ 10 ∷ lines_text ls)

-- A line that is none of the markers, whatever blanks it has around it.
pub record IsPlain (l : Bytes) : Type 0 where
  pub one_line : Free b'\n' l
  pub no_begin : is_begin (trim_ascii l) ≡ false
  pub no_end : is_end (trim_ascii l) ≡ false

keep_plain :
    (b : Bool) (l : Bytes)
    → IsPlain l
    → keep_line b (l ++ (13 ∷ [])) ≡ ((if b then [] else l ++ (13 ∷ 10 ∷ [])), b)
unfolding keep_line
keep_plain b l p = rw (strip_cr-append l, p.no_begin, p.no_end)

split-some : (c : ℕ) (s : Bytes) → (h : Bytes) × (t : List Bytes) × (split c s ≡ h ∷ t)
unfolding split
split-some c [] = ([], [], refl)
split-some c (a ∷ s) =
    let (h, t, e) = split-some c s in
    elim (Bool-cases (a == c)) [ inl k ↦ ([], h ∷ t, rw (k, e)) | inr k ↦ (a ∷ h, t, rw (k, e)) ]

Free-append_cr : (l : Bytes) → Free 10 l → Free 10 (l ++ (13 ∷ []))
unfolding contains_byte
Free-append_cr [] h = refl
Free-append_cr (a ∷ l) h = ground (arith, Free-append_cr l, h)

-- A line with its line feed, and what follows.
keep-line :
    (b : Bool) (l s : Bytes)
    → Free 10 l
    → keep_lines b (split 10 (l ++ (13 ∷ 10 ∷ s)))
      ≡ (keep_line b (l ++ (13 ∷ []))).0 ++ keep_lines (keep_line b (l ++ (13 ∷ []))).1 (split 10 s)
unfolding keep_lines
keep-line b l s f =
    let (h, t, e) = split-some 10 s in
    let whole : l ++ (13 ∷ 10 ∷ s) ≡ (l ++ (13 ∷ [])) ++ (10 ∷ s) = simp append_assoc in
    rw (whole, split-append 10 (l ++ (13 ∷ [])) s (Free-append_cr l f), e)

keep-lines_text :
    (b : Bool) (ls : List Bytes) (s : Bytes)
    → All IsPlain ls
    → keep_lines b (split 10 (lines_text ls ++ s))
      ≡ (if b then [] else lines_text ls) ++ keep_lines b (split 10 s)
keep-lines_text true [] s p = refl
keep-lines_text false [] s p = refl
keep-lines_text true (l ∷ ls) s (p, ps) =
    let whole : lines_text (l ∷ ls) ++ s ≡ l ++ (13 ∷ 10 ∷ (lines_text ls ++ s)) =
      simp append_assoc in
    rw (whole, keep-line true l (lines_text ls ++ s) p.one_line, keep_plain true l p)
      (keep-lines_text true ls s ps)
keep-lines_text false (l ∷ ls) s (p, ps) =
    let whole : lines_text (l ∷ ls) ++ s ≡ l ++ (13 ∷ 10 ∷ (lines_text ls ++ s)) =
      simp append_assoc in
    rw
      (
        whole,
        keep-line false l (lines_text ls ++ s) p.one_line,
        keep_plain false l p,
        keep-lines_text false ls s ps,
      )
      (simp append_assoc)

abbrev host_line : Bytes → Bytes
host_line n = codes "127.0.0.1 " ++ n

-- A line that begins with a digit is no marker.
trim_ascii_start-append :
    (s : Bytes) → trim_ascii_start (s ++ (49 ∷ [])) ≡ trim_ascii_start s ++ (49 ∷ [])
unfolding trim_ascii_start is_ascii_whitespace
trim_ascii_start-append [] = refl
trim_ascii_start-append (a ∷ s) = elim (Bool-cases (is_ascii_whitespace a)) [
  | inl e ↦ rw e (trim_ascii_start-append s)
  | inr e ↦ rw e
]

trim_ascii-digit : (s : Bytes) → trim_ascii (49 ∷ s) ≡ 49 ∷ reverse (trim_ascii_start (reverse s))
unfolding trim_ascii trim_ascii_end is_ascii_whitespace
trim_ascii-digit s =
    ap (λ z. reverse (trim_ascii_start z)) (reverse-cons 49 s)
    ∙ ap reverse (trim_ascii_start-append (reverse s))
    ∙ reverse-append (trim_ascii_start (reverse s)) (49 ∷ [])

host_line-IsPlain : (n : Bytes) → Free b'\n' n → IsPlain (host_line n)
unfolding hosts_begin legacy_hosts_begin mem_str str_eq any contains_byte
host_line-IsPlain n f = record {
  one_line = f;
  no_begin = rw (trim_ascii-digit (codes "27.0.0.1 " ++ n));
  no_end = rw (trim_ascii-digit (codes "27.0.0.1 " ++ n));
}

host_lines : List Bytes → List Bytes
host_lines [] = []
host_lines (n ∷ ns) = host_line n ∷ host_lines ns

host_lines-IsPlain : (ns : List Bytes) → All (Free b'\n') ns → All IsPlain (host_lines ns)
unfolding host_lines
host_lines-IsPlain [] h = tt
host_lines-IsPlain (n ∷ ns) (f, fs) = (host_line-IsPlain n f, host_lines-IsPlain ns fs)

name_lines-lines_text : (ns : List Bytes) → name_lines ns ≡ lines_text (host_lines ns)
unfolding name_lines host_lines
name_lines-lines_text [] = refl
name_lines-lines_text (n ∷ ns) = rw (name_lines-lines_text ns)

begin_line : keep_line false (hosts_begin ++ (13 ∷ [])) ≡ ([], true)
unfolding keep_line hosts_begin
begin_line = refl

end_line : keep_line true (hosts_end ++ (13 ∷ [])) ≡ ([], false)
unfolding keep_line hosts_begin legacy_hosts_begin
end_line = refl

hosts_begin-Free : Free 10 hosts_begin
unfolding hosts_begin contains_byte
hosts_begin-Free = refl

hosts_end-Free : Free 10 hosts_end
unfolding contains_byte
hosts_end-Free = refl

abbrev block_text : List Bytes → Bytes
block_text ns =
    hosts_begin ++ (13 ∷ 10 ∷ (lines_text (host_lines ns) ++ (hosts_end ++ (13 ∷ 10 ∷ []))))

keep-block_text :
    (ns : List Bytes) → All (Free b'\n') ns → keep_lines false (split 10 (block_text ns)) ≡ []
unfolding keep_lines split
keep-block_text ns fs = rw (
  keep-line false hosts_begin (lines_text (host_lines ns) ++ (hosts_end ++ (13 ∷ 10 ∷ [])))
      hosts_begin-Free,
  begin_line,
  keep-lines_text true (host_lines ns) (hosts_end ++ (13 ∷ 10 ∷ [])) (host_lines-IsPlain ns fs),
  keep-line true hosts_end [] hosts_end-Free,
  end_line,
)

regroup :
    (t b x e : Bytes)
    → t ++ ((crlf ++ (b ++ (crlf ++ (x ++ e)))) ++ crlf)
      ≡ (t ++ crlf) ++ (b ++ (13 ∷ 10 ∷ (x ++ (e ++ (13 ∷ 10 ∷ [])))))
regroup t b x e = simp append_assoc

block_whole :
    (t : Bytes) (ls : List Bytes) (n : Bytes) (ns : List Bytes)
    → t ++ crlf ≡ lines_text ls
    → t ++ (block (n ∷ ns) ++ crlf) ≡ lines_text ls ++ block_text (n ∷ ns)
unfolding block
block_whole t ls n ns e =
    ap (λ z. t ++ ((crlf ++ (hosts_begin ++ (crlf ++ (z ++ hosts_end)))) ++ crlf))
      (name_lines-lines_text (n ∷ ns))
    ∙ regroup t hosts_begin (lines_text (host_lines (n ∷ ns))) hosts_end
    ∙ ap (λ z. z ++ block_text (n ∷ ns)) e

-- The block of Solon behind the lines of the user is taken out again, and nothing else: from a file
-- with these lines, each with its CR LF and none a marker, and the block for any names behind them,
-- exactly the lines are left.
pub hosts_without_block-block :
    (t : Bytes) (ls names : List Bytes)
    → All IsPlain ls
    → All (Free b'\n') names
    → t ++ crlf ≡ lines_text ls
    → hosts_without_block (t ++ (block names ++ crlf)) ≡ lines_text ls
unfolding hosts_without_block block
hosts_without_block-block t ls [] ps fs e =
    rw (e, ← append-nil (lines_text ls)) (keep-lines_text false ls [] ps)
hosts_without_block-block t ls (n ∷ ns) ps fs e = rw (block_whole t ls n ns e) (
    keep-lines_text false ls (block_text (n ∷ ns)) ps
    ∙ ap (λ z. lines_text ls ++ z) (keep-block_text (n ∷ ns) fs)
    ∙ append-nil (lines_text ls))

-- The lines of a file with bare line feeds.
abbrev pub lf_text : List Bytes → Bytes
lf_text [] = []
lf_text (l ∷ ls) = l ++ (10 ∷ lf_text ls)

keep_bare :
    (l : Bytes) → IsPlain l → strip_cr l ≡ l → keep_line false l ≡ (l ++ (13 ∷ 10 ∷ []), false)
unfolding keep_line
keep_bare l p e = rw (e, p.no_begin, p.no_end)

-- The rewriting does not keep the rest of the file byte for byte: lines that end in a bare line feed
-- come back with CR LF, also where there is no block at all.
pub hosts_without_block-lf_text :
    (ls : List Bytes)
    → All IsPlain ls
    → All (λ l. strip_cr l ≡ l) ls
    → hosts_without_block (lf_text ls) ≡ lines_text ls
unfolding hosts_without_block keep_lines split
hosts_without_block-lf_text [] ps es = refl
hosts_without_block-lf_text (l ∷ ls) (p, ps) (e, es) =
    let (h, t, k) = split-some 10 (lf_text ls) in
    let ih = hosts_without_block-lf_text ls ps es in
    rw (split-append 10 l (lf_text ls) p.one_line, k, keep_bare l p e)
      (ap (λ z. (l ++ (13 ∷ 10 ∷ [])) ++ z) (sym (ap (keep_lines false) k) ∙ ih)
        ∙ append_assoc l (13 ∷ 10 ∷ []) (lines_text ls))
