-- ===== src/Pexpect/Terminal/Window.antt =====
-- The window size that is set is the one that is read.
use custom_shell.Prelude.{
  ℕ, ◌+◌, ◌*◌, ◌/◌, ◌%◌, ◌<◌, ◌≤◌, true, false, ◌&&◌, ltb, ◌≡◌, ◌⊎◌, inl, inr, refl, arith, lt→ltb,
}
use native.Mathlib.Decide.{dec_lt}
use custom_shell.Python.Exec.{ok, raised, struct_error, gets, modify, raise, pure, ◌>>=◌}
use custom_shell.Pexpect.Terminal.{Terminal, getwinsize, setwinsize}

unpack-pack_short : (n : ℕ) → n % 256 + n / 256 * 256 ≡ n
unpack-pack_short n = omega arith

-- The outcome of `setwinsize` in the terminal `t`.
abbrev pub Resized : ℕ → ℕ → Terminal → Type 0
Resized r c t =
    ((r < 65536)
      × (c < 65536)
      × ((setwinsize r c t).0 ≡ ok tt)
      × ((getwinsize (setwinsize r c t).1).0 ≡ ok (r, c))
      × ((setwinsize r c t).1.local_flags ≡ t.local_flags))
    ⊎ (((65536 ≤ r) ⊎ (65536 ≤ c)) × (setwinsize r c t ≡ (raised struct_error, t)))

fits-cases :
    (r c : ℕ)
    → (((ltb r 65536 && ltb c 65536) ≡ true) × (r < 65536) × (c < 65536))
      ⊎ (((ltb r 65536 && ltb c 65536) ≡ false) × ((65536 ≤ r) ⊎ (65536 ≤ c)))
fits-cases r c = elim (dec_lt r 65536) [
  | yes a ↦ elim (dec_lt c 65536) [
    | yes b ↦ inl (rw (lt→ltb r 65536 a, lt→ltb c 65536 b) refl, a, b)
    | no b ↦ inr (ground arith, inr (omega arith))
  ]
  | no a ↦ inr (ground arith, inl (omega arith))
]

-- `setwinsize(r, c)` raises `struct.error`, and changes nothing, where a number has more than 16 bits;
-- for all other numbers `getwinsize` returns them afterwards.
pub setwinsize-Resized : (r c : ℕ) (t : Terminal) → Resized r c t
unfolding setwinsize getwinsize gets modify raise pure ◌>>=◌
setwinsize-Resized r c t = elim (fits-cases r c) [
  | inl (e, a, b) ↦
      inl (a, b, rw e refl, rw (e, unpack-pack_short r, unpack-pack_short c) refl, rw e refl)
  | inr (e, a) ↦ inr (a, rw e refl)
]
