-- ===== src/Python/Exec.antt =====
-- Methods that change an object and may raise: state passing with an outcome. What was changed
-- before an exception stays changed.
pub mod Keeps
pub mod Triple
use custom_shell.Prelude.{ℕ, ◌≡◌, refl}

-- The exceptions that the program raises or handles, `exception` for a plain `Exception`; an `OSError` and a `select.error` carry errno.
pub data Exn : Type 0 where
  eof timeout : Exn
  pexpect_error value_error type_error assertion_error stop_iteration attribute_error name_error
        index_error struct_error termios_error re_error exception system_exit :
      Exn
  os_error : ℕ → Exn
  select_error : ℕ → Exn

-- `blocked` is a call that never returns.
pub data Outcome {ℓ} (A : Type ℓ) : Type ℓ where
  ok : A → Outcome A
  raised : Exn → Outcome A
  blocked : Outcome A

abbrev pub Exec {ℓ} : Type ℓ → Type ℓ → Type ℓ
Exec S A = S → Outcome A × S

module _ {ℓ} {S A : Type ℓ} where
  unfoldable pub pure : A → Exec S A
  pure a s = (ok a, s)

  unfoldable pub raise : Exn → Exec S A
  raise e s = (raised e, s)

  unfoldable pub block : Exec S A
  block s = (blocked, s)

  unfoldable pub gets : (S → A) → Exec S A
  gets f s = (ok (f s), s)

unfoldable pub modify {ℓ} : {S : Type ℓ} → (S → S) → Exec S (Unit {ℓ})
modify f s = (ok tt, f s)

module _ {ℓ} {S A B : Type ℓ} where
  abbrev pub continue : Outcome A → (A → Exec S B) → Exec S B
  continue (ok a) f s = f a s
  continue (raised e) f s = (raised e, s)
  continue blocked f s = (blocked, s)

  infixl 5 ◌>>=◌ ◌>>◌
  unfoldable pub ◌>>=◌ : Exec S A → (A → Exec S B) → Exec S B
  unfolding pure raise block gets modify
  ◌>>=◌ m f s = let (r, s') = m s in continue r f s'

  abbrev pub ◌>>◌ : Exec S A → Exec S B → Exec S B
  m >> n = m >>= λ _. n

module _ {ℓ} {S A : Type ℓ} where
  abbrev pub recover : Outcome A → (Exn → Exec S A) → Exec S A
  recover (raised e) f s = f e s
  recover (ok a) f s = (ok a, s)
  recover blocked f s = (blocked, s)

  -- `try: m  except: …`, with a handler that raises again what it does not handle.
  unfoldable pub catch : Exec S A → (Exn → Exec S A) → Exec S A
  unfolding pure raise
  catch m f s = let (r, s') = m s in recover r f s'

module _ {ℓ} {S A B : Type ℓ} where
  abbrev pub branch : Outcome A → (Exn → Exec S B) → (A → Exec S B) → Exec S B
  branch (ok a) f g s = g a s
  branch (raised e) f g s = f e s
  branch blocked f g s = (blocked, s)

  -- `try: m  except: …  else: …`
  unfoldable pub try_else : Exec S A → (Exn → Exec S B) → (A → Exec S B) → Exec S B
  unfolding pure raise
  try_else m f g s = let (r, s') = m s in branch r f g s'
