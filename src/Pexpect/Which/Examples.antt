-- ===== src/Pexpect/Which/Examples.antt =====
-- `which` in a small file system.
use custom_shell.Prelude.{bytes_eq, Bool, Bytes, codes, some, ◌≡◌, refl}
use custom_shell.Pexpect.Which.{which}

abbrev only_ls : Bytes → Bool
only_ls f = bytes_eq f (codes "/bin/ls")

finds : which only_ls (some (codes "/usr/bin:/bin/:/bin")) (codes "ls") ≡ some (codes "/bin/ls")
unfolding which
finds = refl
