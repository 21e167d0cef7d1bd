-- ===== src/Arp/Handler.antt =====
-- Methods of a server that change its state and may fail with a gRPC status code. What was written
-- before a failure stays written, so the state comes back beside the error too.
pub mod Follows
pub mod Ensures
use spec_torture.Base.{Bool, true, false, Option, none, some, List, [], ◌∷◌}

-- The status codes of arp/server/util.go; message texts are left out.
pub data Code : Type 0 where
  unauthenticated invalid_argument not_found already_exists : Code
  permission_denied failed_precondition internal : Code

pub data Result {ℓ} (A : Type ℓ) : Type ℓ where
  ok : A → Result A
  err : Code → Result A

abbrev pub Handler {ℓ} : Type ℓ → Type ℓ → Type ℓ
Handler S A = S → Result A × S

module _ {ℓ} {S A : Type ℓ} where
  pub pure : A → Handler S A
  pure a s = (ok a, s)

  pub fail : Code → Handler S A
  fail c s = (err c, s)

  pub gets : (S → A) → Handler S A
  gets f s = (ok (f s), s)

  -- `if x == nil { return err }`, and a read through a pointer
  pub or_fail : Code → Option A → Handler S A
  or_fail c none s = (err c, s)
  or_fail c (some a) s = (ok a, s)

  -- a failure of `m` runs `undo` before it is returned
  abbrev pub undone : (S → S) → Result A → S → Result A × S
  undone undo (ok a) s = (ok a, s)
  undone undo (err c) s = (err c, undo s)

  pub on_error : (S → S) → Handler S A → Handler S A
  on_error undo m s = let (r, s') = m s in undone undo r s'

module _ {S : Type 0} where
  pub modify : (S → S) → Handler S (Unit {0})
  modify f s = (ok tt, f s)

  -- `if !test { return err }`
  pub guard : Bool → Code → Handler S (Unit {0})
  guard true c s = (ok tt, s)
  guard false c s = (err c, s)

module _ {ℓ} {S A B : Type ℓ} where
  abbrev pub continue : (A → Handler S B) → Result A → Handler S B
  continue f (ok a) s = f a s
  continue f (err c) s = (err c, s)

  infixl 5 ◌>>=◌ ◌>>◌
  -- opening this opens the other ways to build a handler too
  unfoldable pub ◌>>=◌ : Handler S A → (A → Handler S B) → Handler S B
  unfolding pure fail gets or_fail on_error modify guard
  ◌>>=◌ m f s = let (r, s') = m s in continue f r s'

  abbrev pub ◌>>◌ : Handler S A → Handler S B → Handler S B
  m >> n = m >>= λ _. n
