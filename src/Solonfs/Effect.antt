-- ===== src/Solonfs/Effect.antt =====
-- What a handler of crates/solon-agent/src/solonfs.rs does: it changes the state, and ends with a
-- value or with the error number of its reply. What was changed before an error stays changed.
use solon.Base.{ℕ, Option, none, some}

pub data HandlerResult (A : Type 0) : Type 0 where
  ok : A → HandlerResult A
  err : ℕ → HandlerResult A

abbrev pub Exec : Type 0 → Type 0 → Type 0
Exec S A = S → S × HandlerResult A

module _ {S A : Type 0} where
  unfoldable pub pure : A → Exec S A
  pure a s = (s, ok a)

  unfoldable pub raise : ℕ → Exec S A
  raise e s = (s, err e)

  -- `let Some(a) = … else { return reply.error(e) }`
  unfoldable pub expect : ℕ → Option A → Exec S A
  expect e none s = (s, err e)
  expect e (some a) s = (s, ok a)

module _ {S A B : Type 0} where
  abbrev pub continue : S × HandlerResult A → (A → Exec S B) → S × HandlerResult B
  continue (s, ok a) f = f a s
  continue (s, err e) f = (s, err e)

  infixl 10 ◌>>=◌ ◌>>◌
  unfoldable pub ◌>>=◌ : Exec S A → (A → Exec S B) → Exec S B
  unfolding pure raise expect
  ◌>>=◌ m f s = continue (m s) f

  abbrev pub ◌>>◌ : Exec S A → Exec S B → Exec S B
  m >> k = m >>= λ _. k
