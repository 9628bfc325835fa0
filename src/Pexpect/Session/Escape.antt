-- ===== src/Pexpect/Session/Escape.antt =====
-- Where `interact` cuts the keys of the user.
use custom_shell.Prelude.{
  ℕ, false, [], ◌∷◌, ◌++◌, Bytes, Option, none, some, ◌==◌, ◌≡◌, ◌≢◌, ap, All, Bool-cases, ==_iff,
  inl, inr, arith,
}
use custom_shell.Pexpect.Session.{put_first, before_last}

-- The text cut at its last escape character, or the text without any.
abbrev pub Cut : ℕ → Bytes → Option Bytes → Type 0
Cut escape text none = All (λ c. c ≢ escape) text
Cut escape text (some front) =
    (back : Bytes) × (text ≡ front ++ escape ∷ back) × All (λ c. c ≢ escape) back

put_first-Cut :
    (escape c : ℕ) (text : Bytes) (o : Option Bytes)
    → Cut escape text o
    → Cut escape (c ∷ text) (put_first escape c o)
unfolding put_first
put_first-Cut escape c text (some front) (back, e, h) = (back, ap (λ x. c ∷ x) e, h)
put_first-Cut escape c text none h = elim (Bool-cases (c == escape)) [
  | inl e ↦ rw e (text, ap (λ x. x ∷ text) ((==_iff c escape).0 e), h)
  | inr n ↦ rw n ((λ x. unequal n x), h)
]
  where
    unequal : (c == escape) ≡ false → c ≡ escape → ⊥
    unequal n x = ground arith

-- `interact` sends what stands before the last escape character of the keys that it reads at once: the
-- rest has no escape character, but what is sent may have some. Without any, all of it is sent.
pub before_last-Cut : (escape : ℕ) (text : Bytes) → Cut escape text (before_last escape text)
unfolding before_last
before_last-Cut escape [] = tt
before_last-Cut escape (c ∷ text) =
    put_first-Cut escape c text (before_last escape text) (before_last-Cut escape text)
