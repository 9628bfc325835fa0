-- ===== src/Python/Text/Places.antt =====
-- Where `str.find` finds a text.
use mathlib.Core.Bool.{false≢true}
use native.Mathlib.Decide.{dec_le}
use custom_shell.Prelude.{
  ℕ, zero, suc, ◌+◌, ◌-◌, ◌≤◌, ◌<◌, true, false, Bytes, if◌then◌else◌, [], ◌∷◌, ◌++◌, none, some,
  length, drop, ◌≡◌, refl, arith, Bool-cases, Option-cases, sym, ◌∙◌, inl, inr, length-drop, ap,
  le→leb, ◌⊎◌,
}
use custom_shell.Python.Text.{starts_with, find_at, find, occurs}

drop-suc : (i : ℕ) (s : Bytes) (c : ℕ) (r : Bytes) → drop i s ≡ c ∷ r → drop (suc i) s ≡ r
drop-suc zero [] c r h = cc
drop-suc zero (x ∷ s) c r h = cc
drop-suc (suc i) [] c r h = cc
drop-suc (suc i) (x ∷ s) c r h = drop-suc i s c r h

find_at_suffix :
    (s sub : Bytes) (i : ℕ) (r : Bytes)
    → i ≤ length s
    → drop i s ≡ r
    → find_at sub r i ≡ (if occurs s sub i then some i else find s sub (suc i))
unfolding find_at find
find_at_suffix s sub i [] h e = ground (arith, ap length e, length-drop i s)
find_at_suffix s sub i (c ∷ r) h e =
    ground (arith, ap length e, length-drop i s, drop-suc i s c r e)

-- One round of a search from the left.
pub find_step :
    (s sub : Bytes) (i : ℕ)
    → i ≤ length s
    → find s sub i ≡ (if occurs s sub i then some i else find s sub (suc i))
unfolding find
find_step s sub i h = rw (le→leb i (length s) h) (find_at_suffix s sub i (drop i s) h refl)

pub find_beyond : (s sub : Bytes) (i : ℕ) → length s < i → find s sub i ≡ none
unfolding find
find_beyond s sub i h = ground arith

-- Where nothing stands between two starts, the search finds the same from either.
pub find_skip :
    (k : ℕ) (s sub : Bytes) (i j : ℕ)
    → i + k ≡ j
    → j ≤ length s
    → ((p : ℕ) → i ≤ p → p < j → occurs s sub p ≡ false)
    → find s sub i ≡ find s sub j
find_skip zero s sub i j e h free = ap (find s sub) (omega arith)
find_skip (suc k) s sub i j e h free =
    rw (find_step s sub i (omega arith), free i (omega arith) (omega arith))
      (find_skip k s sub (suc i) j (omega arith) h (λ p a b. free p (omega arith) b))

-- `i` is the first place of `sub` at or behind `start`.
pub record IsFirst (s sub : Bytes) (start i : ℕ) : Type 0 where
  pub from : start ≤ i
  pub within : i ≤ length s
  pub here : occurs s sub i ≡ true
  pub before : (j : ℕ) → start ≤ j → j < i → occurs s sub j ≡ false

IsFirst-self :
    (s sub : Bytes) (start i : ℕ)
    → start ≤ length s
    → occurs s sub start ≡ true
    → start ≡ i
    → IsFirst s sub start i
IsFirst-self s sub start i h hit e = record {
  from = omega arith;
  within = omega arith;
  here = rw (← e) hit;
  before = λ j a b. absurd (omega arith);
}

IsFirst-earlier :
    (s sub : Bytes) (start i : ℕ)
    → occurs s sub start ≡ false
    → IsFirst s sub (suc start) i
    → IsFirst s sub start i
IsFirst-earlier s sub start i miss f = record {
  from = omega (arith, f.from);
  within = f.within;
  here = f.here;
  before = λ j a b. go j b (le_cases a);
}
  where
    le_cases : {j : ℕ} → start ≤ j → (start ≡ j) ⊎ (suc start ≤ j)
    le_cases a = omega arith

    go : (j : ℕ) → j < i → (start ≡ j) ⊎ (suc start ≤ j) → occurs s sub j ≡ false
    go j b (inl e) = rw (← e) miss
    go j b (inr a) = f.before j a b

find_fuel :
    (k : ℕ) (s sub : Bytes) (start found : ℕ)
    → start + k ≡ suc (length s)
    → find s sub start ≡ some found
    → IsFirst s sub start found
find_fuel zero s sub start found e h = absurd (cc (find_beyond s sub start (omega arith)))
find_fuel (suc k) s sub start found e h = elim (Bool-cases (occurs s sub start)) [
  | inl hit ↦
      IsFirst-self s sub start found (omega arith) hit
        (ground (arith, find_step s sub start (omega arith)))
  | inr miss ↦ IsFirst-earlier s sub start found miss (
      find_fuel k s sub (suc start) found (omega arith)
        (rw (find_step s sub start (omega arith), miss) at h))
]

-- `s.find(sub, start)` returns the first place where `sub` stands.
pub find-IsFirst : (s sub : Bytes) (start i : ℕ) → find s sub start ≡ some i → IsFirst s sub start i
find-IsFirst s sub start i h = elim (dec_le start (suc (length s))) [
  | yes le ↦ find_fuel (suc (length s) - start) s sub start i (omega arith) h
  | no gt ↦ absurd (cc (find_beyond s sub start (omega arith)))
]

find_fuel-none :
    (k : ℕ) (s sub : Bytes) (start : ℕ)
    → start + k ≡ suc (length s)
    → find s sub start ≡ none
    → (i : ℕ) → start ≤ i
    → i ≤ length s
    → occurs s sub i ≡ false
find_fuel-none zero s sub start e h i a b = absurd (omega arith)
find_fuel-none (suc k) s sub start e h i a b = elim (Bool-cases (occurs s sub start)) [
  | inl hit ↦ cc (rw (find_step s sub start (omega arith), hit) at h)
  | inr miss ↦ go miss (find_fuel-none k s sub (suc start) (omega arith)) (le_cases start i a)
]
  where
    le_cases : (m n : ℕ) → m ≤ n → (m ≡ n) ⊎ (suc m ≤ n)
    le_cases m n h = omega arith

    go :
        occurs s sub start ≡ false
        → (find s sub (suc start) ≡ none
            → (j : ℕ) → suc start ≤ j
            → j ≤ length s
            → occurs s sub j ≡ false)
        → (start ≡ i) ⊎ (suc start ≤ i)
        → occurs s sub i ≡ false
    go miss later (inl same) = rw (← same) miss
    go miss later (inr beyond) =
        later (rw (find_step s sub start (omega arith), miss) at h) i beyond b

-- Where `s.find(sub, start)` returns -1, `sub` stands nowhere.
pub find-none :
    (s sub : Bytes) (start i : ℕ)
    → find s sub start ≡ none
    → start ≤ i
    → i ≤ length s
    → occurs s sub i ≡ false
find-none s sub start i h a b =
    find_fuel-none (suc (length s) - start) s sub start (omega arith) h i a b

-- A text that stands at `i` is found there or further to the left.
pub find-le :
    (s sub : Bytes) (start i : ℕ)
    → start ≤ i
    → i ≤ length s
    → occurs s sub i ≡ true
    → (m : ℕ) × (find s sub start ≡ some m) × (m ≤ i)
find-le s sub start i a b hit = elim (Option-cases (find s sub start)) [
  | inl e ↦ absurd (false≢true (sym (find-none s sub start i e a b) ∙ hit))
  | inr (m, e) ↦ (
    m,
    e,
    elim (dec_le m i) [
      | yes le ↦ le
      | no gt ↦
          absurd (false≢true (sym ((find-IsFirst s sub start m e).before i a (omega arith)) ∙ hit))
    ],
  )
]

starts_with-length : (sub s : Bytes) → starts_with sub s ≡ true → length sub ≤ length s
unfolding starts_with
starts_with-length [] s h = omega arith
starts_with-length (p ∷ ps) [] h = cc
starts_with-length (p ∷ ps) (c ∷ s) h = ground (arith, starts_with-length ps s)

-- A text that stands in `s` ends in `s`.
pub occurs-end :
    (s sub : Bytes) (i : ℕ) → i ≤ length s → occurs s sub i ≡ true → i + length sub ≤ length s
occurs-end s sub i b hit = omega (arith, starts_with-length sub (drop i s) hit, length-drop i s)

-- A text that another one starts with, and that is as long as a front of it, is that front.
pub starts_with-whole :
    (sub front s : Bytes)
    → length front ≡ length sub
    → starts_with sub (front ++ s) ≡ true
    → front ≡ sub
unfolding starts_with
starts_with-whole [] [] s e h = refl
starts_with-whole (p ∷ ps) (c ∷ front) s e h =
    ground (arith, starts_with-whole ps front s (omega (arith, e)))
starts_with-whole [] (c ∷ front) s e h = absurd (omega (arith, e))
starts_with-whole (p ∷ ps) [] s e h = absurd (omega (arith, e))

starts_with-append : (sub s t : Bytes) → starts_with sub s ≡ true → starts_with sub (s ++ t) ≡ true
unfolding starts_with
starts_with-append [] s t h = refl
starts_with-append (p ∷ ps) [] t h = cc
starts_with-append (p ∷ ps) (c ∷ s) t h = ground (arith, starts_with-append ps s t)

-- A text that stands in `s` stands there in every longer text.
occurs-append :
    (i : ℕ) (s t sub : Bytes) → i ≤ length s → occurs s sub i ≡ true → occurs (s ++ t) sub i ≡ true
occurs-append zero s t sub l h = starts_with-append sub s t h
occurs-append (suc i) [] t sub l h = absurd (omega arith)
occurs-append (suc i) (c ∷ s) t sub l h = occurs-append i s t sub (omega arith) h

pub occurs-shorter :
    (i : ℕ) (s t sub : Bytes)
    → i ≤ length s
    → occurs (s ++ t) sub i ≡ false
    → occurs s sub i ≡ false
occurs-shorter i s t sub l h = elim (Bool-cases (occurs s sub i)) [
  | inl hit ↦ absurd (false≢true (sym h ∙ occurs-append i s t sub l hit))
  | inr miss ↦ miss
]
