-- ===== src/Pexpect/Terminal/Echo.antt =====
-- What `setecho` changes.
use custom_shell.Prelude.{ℕ, ◌/◌, ◌%◌, Bool, true, false, ◌≡◌, refl, arith}
use custom_shell.Python.Exec.{ok, gets, modify, ◌>>=◌, pure}
use custom_shell.Pexpect.Terminal.{Terminal, echo_bit, with_echo, without_echo, getecho, setecho}

echo-with_echo : (n : ℕ) → echo_bit (with_echo n) ≡ 1
echo-with_echo n = ground arith

echo-without_echo : (n : ℕ) → echo_bit (without_echo n) ≡ 0
echo-without_echo n = ground arith

others-with_echo : (n : ℕ) → (with_echo n % 8 ≡ n % 8) × (with_echo n / 16 ≡ n / 16)
others-with_echo n = ground arith

others-without_echo : (n : ℕ) → (without_echo n % 8 ≡ n % 8) × (without_echo n / 16 ≡ n / 16)
others-without_echo n = ground arith

-- What `setecho` leaves.
pub record IsEchoSet (state : Bool) (t u : Terminal) : Type 0 where
  pub reads : getecho u ≡ (ok state, u)
  pub lower : u.local_flags % 8 ≡ t.local_flags % 8
  pub higher : u.local_flags / 16 ≡ t.local_flags / 16
  pub window : u.window ≡ t.window

-- After `setecho(state)`, `getecho` returns `state`, and all other local flags and the window size are
-- as before.
pub setecho-IsEchoSet :
    (state : Bool) (t : Terminal)
    → ((setecho state t).0 ≡ ok tt) × IsEchoSet state t (setecho state t).1
unfolding setecho getecho pure ◌>>=◌ gets modify
setecho-IsEchoSet true t = (
  refl,
  record {
    reads = rw (echo-with_echo t.local_flags) refl;
    lower = (others-with_echo t.local_flags).0;
    higher = (others-with_echo t.local_flags).1;
    window = refl;
  },
)
setecho-IsEchoSet false t = (
  refl,
  record {
    reads = rw (echo-without_echo t.local_flags) refl;
    lower = (others-without_echo t.local_flags).0;
    higher = (others-without_echo t.local_flags).1;
    window = refl;
  },
)
