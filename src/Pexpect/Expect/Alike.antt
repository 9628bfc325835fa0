-- ===== src/Pexpect/Expect/Alike.antt =====
-- Two searchers that find the same in every text that the loop comes to.
use mathlib.Core.Path.{fun_ext}
use custom_shell.Prelude.{
  ℕ, zero, suc, ◌++◌, Bytes, Option, none, some, length, if◌then◌else◌, ◌≡◌, refl, ap, ◌∙◌,
}
use custom_shell.Prelude.Int.{ℤ}
use custom_shell.Python.Exec.{Exn, try_else, ◌>>=◌}
use custom_shell.Pexpect.Machine.{M, World, Spawn, self, world}
use custom_shell.Pexpect.Reading.{or_default}
use custom_shell.Pexpect.Expect.{
  Span, Searching, window_of, read_on, is_over, extend, fresh, on_exception, round, seek,
  start_thread, deadline, enough, expect_loop,
}

-- `Same` holds of the old buffer, and of every text behind a failed search.
pub record Alike (f g : Searching) (window : Option ℕ) : Type 1 where
  pub Same : Bytes → ℕ → Type 0
  pub begin : (s : Bytes) → Same s (length s)
  pub more :
      (s : Bytes) (freshlen : ℕ) (c : Bytes)
      → Same s freshlen
      → f.search s freshlen window ≡ none
      → Same (s ++ c) (length c)
  pub search :
      (s : Bytes) (freshlen : ℕ)
      → Same s freshlen
      → f.search s freshlen window ≡ g.search s freshlen window
  pub eof_index : f.eof_index ≡ g.eof_index
  pub timeout_index : f.timeout_index ≡ g.timeout_index

module _ (f g : Searching) (window : Option ℕ) (h : Alike f g window) (end_time : ℤ) where
  on_exception-same :
      (incoming : Bytes) (e : Exn) → on_exception f incoming e ≡ on_exception g incoming e
  unfolding on_exception
  on_exception-same incoming Exn.eof =
      ap (λ i. on_exception (record f { eof_index = i }) incoming Exn.eof) h.eof_index
  on_exception-same incoming Exn.timeout =
      ap (λ i. on_exception (record f { timeout_index = i }) incoming Exn.timeout) h.timeout_index
  on_exception-same incoming _ = refl

  next-Same :
      (s : Bytes) (freshlen : ℕ) (c : Option Bytes)
      → h.Same s freshlen
      → f.search s freshlen window ≡ none
      → h.Same (extend s c) (fresh freshlen c)
  next-Same s freshlen none x missed = x
  next-Same s freshlen (some c) x missed = h.more s freshlen c x missed

  round-same :
      (again again' : Option ℤ → Bytes → ℕ → M (Option ℕ)) (found : Option Span) (limit : Option ℤ)
      (s : Bytes) (freshlen : ℕ)
      → h.Same s freshlen
      → f.search s freshlen window ≡ found
      → ((t : Option ℤ) (r : Bytes) (n : ℕ) → h.Same r n → again t r n ≡ again' t r n)
      → round f window end_time again found limit s freshlen
        ≡ round g window end_time again' found limit s freshlen
  unfolding round
  round-same again again' (some span) limit s freshlen x e k = refl
  round-same again again' none limit s freshlen x e k =
      ap
        (λ (q : Exn → M (Option ℕ)).
          if is_over limit
          then q Exn.timeout
          else try_else (read_on end_time limit) q
              (λ ct. again ct.1 (extend s ct.0) (fresh freshlen ct.0)))
        (fun_ext (on_exception-same s))
      ∙ ap
          (λ (next : Option Bytes × Option ℤ → M (Option ℕ)).
            if is_over limit
            then on_exception g s Exn.timeout
            else try_else (read_on end_time limit) (on_exception g s) next)
          (fun_ext (λ (ct : Option Bytes × Option ℤ).
            k ct.1 (extend s ct.0) (fresh freshlen ct.0) (next-Same s freshlen ct.0 x e)))

  seek-same :
      (fuel : ℕ) (limit : Option ℤ) (s : Bytes) (freshlen : ℕ)
      → h.Same s freshlen
      → seek f window end_time fuel limit s freshlen ≡ seek g window end_time fuel limit s freshlen
  unfolding seek
  seek-same zero limit s freshlen x = refl
  seek-same (suc fuel) limit s freshlen x =
      round-same _ _ (f.search s freshlen window) limit s freshlen x refl (seek-same fuel)
      ∙ ap (λ o. round g window end_time (seek g window end_time fuel) o limit s freshlen)
          (h.search s freshlen x)

-- With such searchers the calls do the same.
pub expect_loop-same :
    (f g : Searching) (window : Option ℕ) (limit : Option ℤ)
    → Alike f g window
    → expect_loop f limit (window_of window) ≡ expect_loop g limit (window_of window)
unfolding expect_loop
expect_loop-same f g window limit h =
    ap (λ (k : Spawn → M (Option ℕ)). start_thread >>= λ _. self >>= k)
      (fun_ext (λ (s : Spawn).
        ap (λ (k : World → M (Option ℕ)). world >>= k)
          (fun_ext (λ (w : World).
            ap (λ (k : ℤ → M (Option ℕ)). deadline (or_default limit s.timeout) >>= k)
              (fun_ext (λ (end_time : ℤ).
                seek-same f g window h end_time (enough w) (or_default limit s.timeout) s.buffer
                  (length s.buffer) (h.begin s.buffer)))))))
