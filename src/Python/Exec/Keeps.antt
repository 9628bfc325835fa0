-- ===== src/Python/Exec/Keeps.antt =====
-- Invariants of methods: one rule for each way to build a method.
use custom_shell.Prelude.{◌≡◌, refl, Bool, true, false, if◌then◌else◌}
use custom_shell.Python.Exec.{
  Exn, Outcome, ok, raised, blocked, Exec, pure, raise, block, gets, modify, ◌>>=◌, continue, catch,
  recover, branch, try_else,
}

-- If the part `view` of the state satisfies `P`, it does so after `m` too, however `m` ends.
pub record Keeps {ℓ} {S V A : Type ℓ} (view : S → V) (P : V → Type ℓ) (m : Exec S A) : Type ℓ where
  pub at : (s : S) → P (view s) → P (view (m s).1)

module _ {ℓ} {S V A : Type ℓ} {view : S → V} {P : V → Type ℓ} where
  pub Keeps-pure : (a : A) → Keeps view P (pure a)
  unfolding pure
  Keeps-pure a = record { at = λ s h. h }

  pub Keeps-raise : (e : Exn) → Keeps view P (raise {A = A} e)
  unfolding raise
  Keeps-raise e = record { at = λ s h. h }

  pub Keeps-block : Keeps view P (block {A = A})
  unfolding block
  Keeps-block = record { at = λ s h. h }

  pub Keeps-gets : (f : S → A) → Keeps view P (gets f)
  unfolding gets
  Keeps-gets f = record { at = λ s h. h }

  pub Keeps-if :
      (b : Bool) (m n : Exec S A)
      → Keeps view P m
      → Keeps view P n
      → Keeps view P (if b then m else n)
  Keeps-if true m n km kn = km
  Keeps-if false m n km kn = kn

  -- Each branch may use the test.
  pub Keeps-if_test :
      (b : Bool) (m n : Exec S A)
      → (b ≡ true → Keeps view P m)
      → (b ≡ false → Keeps view P n)
      → Keeps view P (if b then m else n)
  Keeps-if_test true m n km kn = km refl
  Keeps-if_test false m n km kn = kn refl

  Keeps-recover :
      (r : Outcome A) (f : Exn → Exec S A) (s : S)
      → ((e : Exn) → Keeps view P (f e))
      → P (view s)
      → P (view (recover r f s).1)
  Keeps-recover (raised e) f s k h = (k e).at s h
  Keeps-recover (ok a) f s k h = h
  Keeps-recover blocked f s k h = h

  pub Keeps-catch :
      (m : Exec S A) (f : Exn → Exec S A)
      → Keeps view P m
      → ((e : Exn) → Keeps view P (f e))
      → Keeps view P (catch m f)
  unfolding catch
  Keeps-catch m f km kf = record {
    at = λ s h. let (r, s') = m s in Keeps-recover r f s' kf (km.at s h);
  }

pub Keeps-modify {ℓ} :
    {S V : Type ℓ} {view : S → V} {P : V → Type ℓ} (f : S → S)
    → ((s : S) → P (view s) → P (view (f s)))
    → Keeps view P (modify f)
unfolding modify
Keeps-modify f k = record { at = k }

module _ {ℓ} {S V A B : Type ℓ} {view : S → V} {P : V → Type ℓ} where
  Keeps-continue :
      (r : Outcome A) (f : A → Exec S B) (s : S)
      → ((a : A) → Keeps view P (f a))
      → P (view s)
      → P (view (continue r f s).1)
  Keeps-continue (ok a) f s k h = (k a).at s h
  Keeps-continue (raised e) f s k h = h
  Keeps-continue blocked f s k h = h

  pub Keeps-bind :
      (m : Exec S A) (f : A → Exec S B)
      → Keeps view P m
      → ((a : A) → Keeps view P (f a))
      → Keeps view P (m >>= f)
  unfolding ◌>>=◌
  Keeps-bind m f km kf = record {
    at = λ s h. let (r, s') = m s in Keeps-continue r f s' kf (km.at s h);
  }

  Keeps-branch :
      (r : Outcome A) (f : Exn → Exec S B) (g : A → Exec S B) (s : S)
      → ((e : Exn) → Keeps view P (f e))
      → ((a : A) → Keeps view P (g a))
      → P (view s)
      → P (view (branch r f g s).1)
  Keeps-branch (ok a) f g s kf kg h = (kg a).at s h
  Keeps-branch (raised e) f g s kf kg h = (kf e).at s h
  Keeps-branch blocked f g s kf kg h = h

  pub Keeps-try_else :
      (m : Exec S A) (f : Exn → Exec S B) (g : A → Exec S B)
      → Keeps view P m
      → ((e : Exn) → Keeps view P (f e))
      → ((a : A) → Keeps view P (g a))
      → Keeps view P (try_else m f g)
  unfolding try_else
  Keeps-try_else m f g km kf kg = record {
    at = λ s h. let (r, s') = m s in Keeps-branch r f g s' kf kg (km.at s h);
  }

pub ruleset keeps_rules =
    (Keeps-pure, Keeps-raise, Keeps-block, Keeps-gets, Keeps-if, Keeps-catch, Keeps-bind)
