-- ===== src/Python/Text.antt =====
-- Methods of Python 2 byte strings that the program calls, and their laws.
pub mod Places
use mathlib.Core.Bool.{false≢true}
use native.Mathlib.Decide.{dec_le}
use custom_shell.Prelude.{
  ℕ, zero, suc, ◌+◌, ◌-◌, ◌≤◌, ◌<◌, Bool, true, false, ◌&&◌, ◌||◌, Bytes, leb, ◌==◌, if◌then◌else◌,
  [], ◌∷◌, ◌++◌, Option, none, some, length, drop, ◌≡◌, refl, arith, Bool-cases, Option-cases, sym,
  ◌∙◌, inl, inr, length-drop, ap, le→leb, ◌⊎◌,
}

-- `c.isspace()` of one byte: tab, newline, vertical tab, form feed, carriage return and blank.
abbrev pub is_space : ℕ → Bool
is_space c = (leb 9 c && leb c 13) || c == 32

abbrev pub is_digit : ℕ → Bool
is_digit c = leb 48 c && leb c 57

-- `s.startswith(prefix)`
unfoldable pub starts_with : Bytes → Bytes → Bool
starts_with [] s = true
starts_with (p ∷ ps) [] = false
starts_with (p ∷ ps) (c ∷ s) = p == c && starts_with ps s

-- The first place of `sub` in `s`, which begins at position `i` of the text.
unfoldable pub find_at : Bytes → Bytes → ℕ → Option ℕ
unfolding starts_with
find_at sub [] i = if starts_with sub [] then some i else none
find_at sub (c ∷ s) i = if starts_with sub (c ∷ s) then some i else find_at sub s (i + 1)

-- `s.find(sub, start)`, with `none` for -1.
unfoldable pub find : Bytes → Bytes → ℕ → Option ℕ
unfolding find_at
find s sub start = if leb start (length s) then find_at sub (drop start s) start else none

-- `s.find(sub, -back)`: the start counts from the end, is cut at 0, and -0 is the front.
unfoldable pub back_start : Bytes → ℕ → ℕ
back_start s back = if back == 0 then 0 else length s - back

unfoldable pub find_back : Bytes → Bytes → ℕ → Option ℕ
unfolding back_start find
find_back s sub back = find s sub (back_start s back)

-- `sub` stands in `s` at position `i`.
abbrev pub occurs : Bytes → Bytes → ℕ → Bool
occurs s sub i = starts_with sub (drop i s)
