-- ===== src/Python/Regex/Classes.antt =====
-- The text that the usual parts of an expression match: literal texts, classes of bytes, and groups
-- around them.
use custom_shell.Prelude.{
  ℕ, ◌+◌, ◌-◌, Bool, true, [], ◌∷◌, ◌++◌, append_assoc, Bytes, ◌==◌, length, length-append, take,
  All, ◌≡◌, ◌≢◌, refl, sym, ◌∙◌, ap, arith, subst, ==_iff,
}
use custom_shell.Python.Regex.{byte, group, literal, some_of, Cursor}
use custom_shell.Python.Regex.Language.{Rounds, no_round, one_more, Denotes}

-- Between the cursors stands the text `s`.
pub record Eats (c : Cursor) (s : Bytes) (d : Cursor) : Type 0 where
  pub text : c.rest ≡ s ++ d.rest
  pub pos : d.pos ≡ c.pos + length s

pub Eats-trans : (c d e : Cursor) (s t : Bytes) → Eats c s d → Eats d t e → Eats c (s ++ t) e
Eats-trans c d e s t h k = record {
  text = h.text ∙ ap (λ r. s ++ r) k.text ∙ sym (append_assoc s t e.rest);
  pos = omega (arith, h.pos, k.pos, length-append s t);
}

-- A part that has no groups of its own.
pub record EatsPlain (c : Cursor) (s : Bytes) (d : Cursor) : Type 0 where
  pub eats : Eats c s d
  pub groups : d.groups ≡ c.groups

EatsPlain-trans :
    (c d e : Cursor) (s t : Bytes) → EatsPlain c s d → EatsPlain d t e → EatsPlain c (s ++ t) e
EatsPlain-trans c d e s t h k = record {
  eats = Eats-trans c d e s t h.eats k.eats;
  groups = k.groups ∙ h.groups;
}

abbrev pub AllIn : (ℕ → Bool) → Bytes → Type 0
AllIn p s = All (λ b. p b ≡ true) s

pub byte-Eats :
    (p : ℕ → Bool) (c d : Cursor)
    → Denotes (byte p) c d
    → (b : ℕ) × (p b ≡ true) × EatsPlain c (b ∷ []) d
byte-Eats p c d (b, h, rest, pos, groups) =
    (b, h, record { eats = record { text = rest; pos = omega (arith, pos) }; groups = groups })

pub many-Eats :
    (p : ℕ → Bool) (c d : Cursor)
    → Rounds (Denotes (byte p)) c d
    → (s : Bytes) × AllIn p s × EatsPlain c s d
many-Eats p _ _ (no_round c) =
    ([], tt, record { eats = record { text = refl; pos = omega arith }; groups = refl })
many-Eats p _ _ (one_more c k d x r) =
    let (b, h, one) = byte-Eats p c k x in
    let (s, all, more) = many-Eats p k d r in
    (b ∷ s, (h, all), EatsPlain-trans c k d (b ∷ []) s one more)

-- One byte or more of a class.
pub some_of-Eats :
    (p : ℕ → Bool) (c d : Cursor)
    → Denotes (some_of (byte p)) c d
    → (s : Bytes) × (s ≢ []) × AllIn p s × EatsPlain c s d
some_of-Eats p c d (k, x, r) =
    let (b, h, one) = byte-Eats p c k x in
    let (s, all, more) = many-Eats p k d r in
    (b ∷ s, (λ e. cc e), (h, all), EatsPlain-trans c k d (b ∷ []) s one more)

pub literal-Eats : (s : Bytes) (c d : Cursor) → Denotes (literal s) c d → EatsPlain c s d
literal-Eats [] c d h =
    subst (λ d. EatsPlain c [] d) (sym h)
      (record { eats = record { text = refl; pos = omega arith }; groups = refl })
literal-Eats (b ∷ s) c d (k, x, r) =
    let (a, e, one) = byte-Eats (λ a. a == b) c k x in
    let same : a ≡ b = (==_iff a b).0 e in
    subst (λ a. EatsPlain c (a ∷ s) d) same
      (EatsPlain-trans c k d (a ∷ []) s one (literal-Eats s k d r))

take-front : (s t : Bytes) → take (length s) (s ++ t) ≡ s
take-front [] t = refl
take-front (b ∷ s) t = ap (λ r. b ∷ r) (take-front s t)

-- A group around a class keeps the text that it matches.
pub group-Eats :
    (n : ℕ) (p : ℕ → Bool) (c d : Cursor)
    → Denotes (group n (some_of (byte p))) c d
    → (s : Bytes) × (s ≢ []) × AllIn p s × Eats c s d × (d.groups ≡ (n, s) ∷ c.groups)
group-Eats n p c d (e, y, same) =
    let (s, ne, all, h) = some_of-Eats p c e y in
    (
      s,
      ne,
      all,
      record {
        text = h.eats.text ∙ ap (λ (x : Cursor). s ++ x.rest) (sym same);
        pos = ap (λ (x : Cursor). x.pos) same ∙ h.eats.pos;
      },
      ap (λ (x : Cursor). x.groups) same
          ∙ ap (λ t. (n, t) ∷ e.groups) (kept s e h.eats)
          ∙ ap (λ g. (n, s) ∷ g) h.groups,
    )
  where
    kept : (s : Bytes) (e : Cursor) → Eats c s e → take (e.pos - c.pos) c.rest ≡ s
    kept s e h =
        ap (λ k. take k c.rest) (omega (arith, h.pos))
        ∙ ap (take (length s)) h.text
        ∙ take-front s e.rest
