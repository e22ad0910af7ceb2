-- ===== src/Exec.antt =====
-- Coroutines that change the state and may raise: what was written before a raise stays written, so
-- the state stands beside the error too. Between two suspensions the event loop runs nothing else,
-- so an operation that only awaits finished work is one step.
use langgraph_runtime_inmem.Prelude.{Error, Result, ok, err, ◌≡◌, arith}

abbrev pub Exec {ℓ} : Type ℓ → Type ℓ → Type ℓ
Exec S A = S → Result A × S

module _ {ℓ} {S A : Type ℓ} where
  abbrev pub pure : A → Exec S A
  pure a s = (ok a, s)

  abbrev pub raise : Error → Exec S A
  raise e s = (err e, s)

  abbrev pub lift : Result A → Exec S A
  lift r s = (r, s)

  abbrev pub gets : (S → A) → Exec S A
  gets f s = (ok (f s), s)

abbrev pub modify : {S : Type 0} → (S → S) → Exec S (Unit {0})
modify f s = (ok tt, f s)

module _ {S A B : Type 0} where
  abbrev pub continue : Result A → (A → Exec S B) → Exec S B
  continue (ok a) f s = f a s
  continue (err e) f s = (err e, s)

  infixl 5 ◌>>=◌ ◌>>◌
  abbrev pub ◌>>=◌ : Exec S A → (A → Exec S B) → Exec S B
  ◌>>=◌ m f s = let (r, s') = m s in continue r f s'

  abbrev pub ◌>>◌ : Exec S A → Exec S B → Exec S B
  m >> n = m >>= λ _. n

-- Returning a value after an action leaves the action's state.
pub state-pure : {S A B : Type 0} (m : Exec S A) (b : B) (s : S) → ((m >> pure b) s).1 ≡ (m s).1
state-pure m b s = ground arith
