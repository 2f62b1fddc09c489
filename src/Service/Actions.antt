-- ===== src/Service/Actions.antt =====
-- Handlers: they read and write the state of the key store, and may throw. What was written before a
-- throw stays written.
use iso26430_6_asm_prototype.Base.{Result, ok, err}

abbrev pub Action : Type 0 → Type 0 → Type 0
Action S A = S → Result A × S

module _ {S A : Type 0} where
  abbrev pub pure : A → Action S A
  pure a s = (ok a, s)

  abbrev pub lift : Result A → Action S A
  lift r s = (r, s)

  abbrev pub read : (S → A) → Action S A
  read f s = (ok (f s), s)

module _ {S A B : Type 0} where
  abbrev pub resume : Result A → (A → Action S B) → Action S B
  resume (ok a) f s = f a s
  resume (err e) f s = (err e, s)

  infixl 5 ◌>>=◌
  abbrev pub ◌>>=◌ : Action S A → (A → Action S B) → Action S B
  ◌>>=◌ m f s = let (r, s') = m s in resume r f s'
