-- ===== src/Pexpect/ForkPty/Examples.antt =====
-- A start on a machine that needs `__fork_pty`.
use custom_shell.Prelude.{[], ◌∷◌, codes, false, ◌≡◌, refl}
use custom_shell.Prelude.Int.{pos}
use custom_shell.Python.Exec.{ok, raised, os_error}
use custom_shell.Pexpect.ForkPty.{opened, failed, Files, fork_pty}

abbrev files : Files
files = record {
  answers = opened (pos 7) ∷ failed 6 ∷ opened (pos 7) ∷ opened (pos 8) ∷ [];
  opens = [];
  closes = [];
  standard = [];
  session = false;
}

forks : (fork_pty (pos 5) (pos 6) (pos 0) (codes "/dev/pts/3") files).0 ≡ ok (pos 0, pos 5)
unfolding fork_pty
forks = refl

closes_all :
    (fork_pty (pos 5) (pos 6) (pos 0) (codes "/dev/pts/3") files).1.closes
    ≡ pos 5 ∷ pos 7 ∷ pos 7 ∷ pos 8 ∷ pos 6 ∷ []
unfolding fork_pty
closes_all = refl

-- Without a controlling terminal the first `os.open` raises, and nobody handles that.
fails_detached :
    (fork_pty
      (pos 5)
      (pos 6)
      (pos 0)
      (codes "/dev/pts/3")
      (record files { answers = failed 6 ∷ failed 6 ∷ opened (pos 7) ∷ opened (pos 8) ∷ [] })).0
    ≡ raised (os_error 6)
unfolding fork_pty
fails_detached = refl
