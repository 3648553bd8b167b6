-- ===== src/Solonfs/Keeps.antt =====
-- What the handlers of crates/solon-agent/src/solonfs.rs keep true of the tables of inodes and paths:
-- one rule for each way to build a handler.
use solon.Base.{ℕ, Option, none, some, List}
use solon.Base.Text.{Bytes}
use solon.Base.KeyMap.{FilePath, nat_eq, path_is_key}
use solon.FileServer.Handle.{FsRequest, FsAttr}
use solon.Solonfs.Effect.{continue, Exec, HandlerResult, ok, err, pure, raise, expect, ◌>>=◌}
use solon.Solonfs.{Host, CallResult, answer, failed, SolonFs, remember_at}
use solon.Solonfs.Fetch.{
  answered, Sys, call, now, unix_now, gets, modify, lift, remember_attr, cached_attr, cached_dir,
  ask_attr, attr_or_ask, fetch_attr, simple,
}

-- A statement about the tables.
abbrev pub OfTables : Type 1
OfTables = List (ℕ × FilePath) → List (FilePath × ℕ) → ℕ → Type 0

abbrev pub Holds : OfTables → SolonFs → Type 0
Holds P fs = P fs.inodes fs.by_path fs.next_ino

Holds-answered :
    (h : Host) (P : OfTables) (fs : SolonFs) (r : h.World × CallResult)
    → Holds P fs
    → Holds P (answered h fs r).0.0
Holds-answered h P fs (w, answer r payload) p = p
Holds-answered h P fs (w, failed e) p = p

module _ (h : Host) (P : OfTables) where
  pub record Keeps {A : Type 0} (m : Exec (Sys h) A) : Type 0 where
    pub at : (fs : SolonFs) (w : h.World) → Holds P fs → Holds P (m (fs, w)).0.0

module _ {h : Host} {P : OfTables} where
  pub Keeps-pure : {A : Type 0} (a : A) → Keeps h P (pure a)
  unfolding pure
  Keeps-pure a = record { at = λ fs w p. p }

  pub Keeps-raise : {A : Type 0} (e : ℕ) → Keeps h P (raise {A = A} e)
  unfolding raise
  Keeps-raise e = record { at = λ fs w p. p }

  pub Keeps-expect : {A : Type 0} (e : ℕ) (o : Option A) → Keeps h P (expect e o)
  unfolding expect
  Keeps-expect e none = record { at = λ fs w p. p }
  Keeps-expect e (some a) = record { at = λ fs w p. p }

  pub Keeps-lift : {A : Type 0} (r : HandlerResult A) → Keeps h P (lift h r)
  unfolding lift
  Keeps-lift r = record { at = λ fs w p. p }

  pub Keeps-gets : {A : Type 0} (f : SolonFs → A) → Keeps h P (gets h f)
  unfolding gets
  Keeps-gets f = record { at = λ fs w p. p }

  pub Keeps-modify :
      (f : SolonFs → SolonFs)
      → ((fs : SolonFs) → Holds P fs → Holds P (f fs))
      → Keeps h P (modify h f)
  unfolding modify
  Keeps-modify f k = record { at = λ fs w p. k fs p }

  Keeps-continue :
      {A B : Type 0} (r : Sys h × HandlerResult A) (f : A → Exec (Sys h) B)
      → Holds P r.0.0
      → ((a : A) → Keeps h P (f a))
      → Holds P (continue r f).0.0
  Keeps-continue ((fs, w), ok a) f p kf = (kf a).at fs w p
  Keeps-continue ((fs, w), err e) f p kf = p

  pub Keeps-bind :
      {A B : Type 0} (m : Exec (Sys h) A) (f : A → Exec (Sys h) B)
      → Keeps h P m
      → ((a : A) → Keeps h P (f a))
      → Keeps h P (m >>= f)
  unfolding ◌>>=◌
  Keeps-bind m f km kf = record { at = λ fs w p. Keeps-continue (m (fs, w)) f (km.at fs w p) kf }

  pub Keeps-call : (req : FsRequest) (payload : Bytes) → Keeps h P (call h req payload)
  unfolding call
  Keeps-call req payload = record { at = λ fs w p. Holds-answered h P fs (h.call w req payload) p }

  pub Keeps-now : Keeps h P (now h)
  unfolding now
  Keeps-now = record { at = λ fs w p. p }

  pub Keeps-unix_now : Keeps h P (unix_now h)
  unfolding unix_now
  Keeps-unix_now = record { at = λ fs w p. p }

-- A last step that leads from one statement to another.
pub Keeps-then :
    (h : Host) (P Q : OfTables) {A B : Type 0} (m : Exec (Sys h) A) (f : A → Exec (Sys h) B)
    → Keeps h Q m
    → ((a : A) (fs : SolonFs) (w : h.World) → Holds Q fs → Holds P (f a (fs, w)).0.0)
    → ((fs : SolonFs) → Holds Q fs → Holds P fs)
    → (fs : SolonFs) (w : h.World) → Holds Q fs
    → Holds P ((m >>= f) (fs, w)).0.0
unfolding ◌>>=◌
Keeps-then h P Q {A} {B} m f km kf weaken fs w q = finish (m (fs, w)) (km.at fs w q)
  where
    finish : (r : Sys h × HandlerResult A) → Holds Q r.0.0 → Holds P (continue r f).0.0
    finish ((fs', w'), ok a) q' = kf a fs' w' q'
    finish ((fs', w'), err e) q' = weaken fs' q'

pub ruleset keeps_rules = (
  Keeps-pure, Keeps-raise, Keeps-expect, Keeps-lift, Keeps-gets, Keeps-modify, Keeps-bind,
  Keeps-call, Keeps-now, Keeps-unix_now,
)

module _ {h : Host} {P : OfTables} where
  pub Keeps-remember_attr : (ino : ℕ) (a : FsAttr) → Keeps h P (remember_attr h ino a)
  unfolding remember_attr remember_at
  Keeps-remember_attr ino a = search keeps_rules

  pub Keeps-cached_attr : (ino : ℕ) → Keeps h P (cached_attr h ino)
  unfolding cached_attr
  Keeps-cached_attr ino = search keeps_rules

  pub Keeps-cached_dir : (ino : ℕ) → Keeps h P (cached_dir h ino)
  unfolding cached_dir
  Keeps-cached_dir ino = search keeps_rules

  pub Keeps-simple : (req : FsRequest) → Keeps h P (simple h req)
  unfolding simple
  Keeps-simple req = search keeps_rules

  Keeps-ask_attr : (ino : ℕ) → Keeps h P (ask_attr h ino)
  unfolding ask_attr
  Keeps-ask_attr ino = search (keeps_rules, Keeps-remember_attr)

  Keeps-attr_or_ask : (ino : ℕ) (known : Option FsAttr) → Keeps h P (attr_or_ask h ino known)
  unfolding attr_or_ask
  Keeps-attr_or_ask ino none = Keeps-ask_attr ino
  Keeps-attr_or_ask ino (some a) = search keeps_rules

  pub Keeps-fetch_attr : (ino : ℕ) → Keeps h P (fetch_attr h ino)
  unfolding fetch_attr
  Keeps-fetch_attr ino = search (keeps_rules, Keeps-cached_attr, Keeps-attr_or_ask)

pub ruleset fetch_rules = (
  keeps_rules, Keeps-remember_attr, Keeps-cached_attr, Keeps-cached_dir, Keeps-simple,
  Keeps-fetch_attr,
)
