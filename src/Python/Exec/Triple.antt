-- ===== src/Python/Exec/Triple.antt =====
-- What a method does from states with a property: a postcondition for a value, and one for an
-- exception or a call that does not return.
use custom_shell.Prelude.{Option, none, some, Bool, true, false, ◌≡◌, refl, if◌then◌else◌}
use custom_shell.Python.Exec.{
  Exn, Outcome, ok, raised, blocked, Exec, pure, raise, block, gets, modify, ◌>>=◌, continue, catch,
  recover, try_else, branch,
}
use custom_shell.Python.Exec.Keeps.{Keeps}

module _ {ℓ} {S A : Type ℓ} where
  -- `none` stands for a call that does not return.
  abbrev pub Post : (A → S → Type ℓ) → (Option Exn → S → Type ℓ) → Outcome A → S → Type ℓ
  Post Q E (ok a) s = Q a s
  Post Q E (raised e) s = E (some e) s
  Post Q E blocked s = E none s

  pub record Triple (P : S → Type ℓ) (m : Exec S A) (Q : A → S → Type ℓ)
      (E : Option Exn → S → Type ℓ) : Type ℓ where
    pub run : (s : S) → P s → Post Q E (m s).0 (m s).1

module _ {ℓ} {S A : Type ℓ} {P : S → Type ℓ} {Q : A → S → Type ℓ}
    {E : Option Exn → S → Type ℓ} where
  pub Triple-pure : (a : A) → ((s : S) → P s → Q a s) → Triple P (pure a) Q E
  unfolding pure
  Triple-pure a k = record { run = k }

  pub Triple-raise : (e : Exn) → ((s : S) → P s → E (some e) s) → Triple P (raise e) Q E
  unfolding raise
  Triple-raise e k = record { run = k }

  pub Triple-block : ((s : S) → P s → E none s) → Triple P block Q E
  unfolding block
  Triple-block k = record { run = k }

  pub Triple-gets : (f : S → A) → ((s : S) → P s → Q (f s) s) → Triple P (gets f) Q E
  unfolding gets
  Triple-gets f k = record { run = k }

  pub Triple-if :
      (b : Bool) (m n : Exec S A)
      → (b ≡ true → Triple P m Q E)
      → (b ≡ false → Triple P n Q E)
      → Triple P (if b then m else n) Q E
  Triple-if true m n km kn = km refl
  Triple-if false m n km kn = kn refl

  -- A stronger precondition.
  pub Triple-from :
      {P' : S → Type ℓ} {m : Exec S A} → ((s : S) → P s → P' s) → Triple P' m Q E → Triple P m Q E
  Triple-from k h = record { run = λ s p. h.run s (k s p) }

  -- One state at a time.
  pub Triple-at : {m : Exec S A} → ((s : S) → P s → Triple (λ n. n ≡ s) m Q E) → Triple P m Q E
  Triple-at k = record { run = λ s p. (k s p).run s refl }

  -- What the precondition says of no state in particular.
  pub Triple-given :
      {F : Type ℓ} {m : Exec S A} → ((s : S) → P s → F) → (F → Triple P m Q E) → Triple P m Q E
  Triple-given f k = record { run = λ s p. (k (f s p)).run s p }

  -- Weaker postconditions.
  pub Triple-to :
      {Q' : A → S → Type ℓ} {E' : Option Exn → S → Type ℓ} {m : Exec S A}
      → Triple P m Q' E'
      → ((a : A) (s : S) → Q' a s → Q a s)
      → ((e : Option Exn) (s : S) → E' e s → E e s)
      → Triple P m Q E
  Triple-to {Q' = Q'} {E' = E'} {m = m} h kq ke = record {
    run = λ s p. go (m s).0 (m s).1 (h.run s p);
  }
    where
      go : (o : Outcome A) (s : S) → Post Q' E' o s → Post Q E o s
      go (ok a) s x = kq a s x
      go (raised e) s x = ke (some e) s x
      go blocked s x = ke none s x

  pub Triple-catch :
      {E' : Option Exn → S → Type ℓ} (m : Exec S A) (f : Exn → Exec S A)
      → Triple P m Q E'
      → ((e : Exn) → Triple (E' (some e)) (f e) Q E)
      → ((s : S) → E' none s → E none s)
      → Triple P (catch m f) Q E
  unfolding catch
  Triple-catch {E' = E'} m f h k b = record { run = λ s p. go (m s).0 (m s).1 (h.run s p) }
    where
      go : (o : Outcome A) (s : S) → Post Q E' o s → Post Q E (recover o f s).0 (recover o f s).1
      go (ok a) s x = x
      go (raised e) s x = (k e).run s x
      go blocked s x = b s x

-- Two specifications of one method.
pub Triple-both {ℓ} :
    {S A : Type ℓ} {P P' : S → Type ℓ} {Q Q' : A → S → Type ℓ} {E E' : Option Exn → S → Type ℓ}
    (m : Exec S A)
    → Triple P m Q E
    → Triple P' m Q' E'
    → Triple (λ s. P s × P' s) m (λ a s. Q a s × Q' a s) (λ e s. E e s × E' e s)
Triple-both {S = S} {A = A} {Q = Q} {Q' = Q'} {E = E} {E' = E'} m h k = record {
  run = λ s p. both (m s).0 (m s).1 (h.run s p.0) (k.run s p.1);
}
  where
    both :
        (o : Outcome A) (s : S)
        → Post Q E o s
        → Post Q' E' o s
        → Post (λ a s. Q a s × Q' a s) (λ e s. E e s × E' e s) o s
    both (ok a) s x y = (x, y)
    both (raised e) s x y = (x, y)
    both blocked s x y = (x, y)

-- What a method keeps, however it ends.
pub Keeps-Triple {ℓ} :
    {S V A : Type ℓ} {view : S → V} {P : V → Type ℓ} {m : Exec S A}
    → Keeps view P m
    → Triple (λ s. P (view s)) m (λ _ s. P (view s)) (λ _ s. P (view s))
Keeps-Triple {S = S} {A = A} {view = view} {P = P} {m = m} h = record {
  run = λ s p. kept (m s).0 (m s).1 (h.at s p);
}
  where
    kept : (o : Outcome A) (s : S) → P (view s) → Post (λ _ s. P (view s)) (λ _ s. P (view s)) o s
    kept (ok a) s x = x
    kept (raised e) s x = x
    kept blocked s x = x

pub Triple-modify {ℓ} :
    {S : Type ℓ} {P : S → Type ℓ} {Q : Unit {ℓ} → S → Type ℓ} {E : Option Exn → S → Type ℓ}
    (f : S → S)
    → ((s : S) → P s → Q tt (f s))
    → Triple P (modify f) Q E
unfolding modify
Triple-modify f k = record { run = k }

module _ {ℓ} {S A B : Type ℓ} {P : S → Type ℓ} {R : A → S → Type ℓ} {Q : B → S → Type ℓ}
    {E : Option Exn → S → Type ℓ} where
  pub Triple-bind :
      (m : Exec S A) (f : A → Exec S B)
      → Triple P m R E
      → ((a : A) → Triple (R a) (f a) Q E)
      → Triple P (m >>= f) Q E
  unfolding ◌>>=◌
  Triple-bind m f h k = record { run = λ s p. go (m s).0 (m s).1 (h.run s p) }
    where
      go : (o : Outcome A) (s : S) → Post R E o s → Post Q E (continue o f s).0 (continue o f s).1
      go (ok a) s x = (k a).run s x
      go (raised e) s x = x
      go blocked s x = x

  pub Triple-try_else :
      {E' : Option Exn → S → Type ℓ} (m : Exec S A) (f : Exn → Exec S B) (g : A → Exec S B)
      → Triple P m R E'
      → ((e : Exn) → Triple (E' (some e)) (f e) Q E)
      → ((a : A) → Triple (R a) (g a) Q E)
      → ((s : S) → E' none s → E none s)
      → Triple P (try_else m f g) Q E
  unfolding try_else
  Triple-try_else {E' = E'} m f g h kf kg b = record { run = λ s p. go (m s).0 (m s).1 (h.run s p) }
    where
      go : (o : Outcome A) (s : S) → Post R E' o s → Post Q E (branch o f g s).0 (branch o f g s).1
      go (ok a) s x = (kg a).run s x
      go (raised e) s x = (kf e).run s x
      go blocked s x = b s x
