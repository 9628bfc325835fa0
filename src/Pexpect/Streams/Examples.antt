-- ===== src/Pexpect/Streams/Examples.antt =====
-- Lines of a concrete child, and the theorems at concrete inputs.
use custom_shell.Prelude.{[], ◌∷◌, codes, some, ◌≡◌, refl}
use custom_shell.Prelude.Int.{pos, negsuc}
use custom_shell.Python.Exec.{ok}
use custom_shell.Python.Exec.Triple.{Post}
use custom_shell.Pexpect.Machine.{Machine, new_spawn, item, thread_done, ready, Read}
use custom_shell.Pexpect.Lifecycle.Examples.{machine}
use custom_shell.Pexpect.Streams.{read, readline, readlines}
use custom_shell.Pexpect.Streams.Lines.{IsRead, FailsLine, readline-IsRead}
use custom_shell.Pexpect.Streams.Sizes.{IsCut, FailsSize, read-IsCut}
use custom_shell.Pexpect.Streams.AllLines.{HasAll, LosesLines, readlines-HasAll}

-- The thread hands over two lines in pieces, and the child has gone: a read fails with EIO.
abbrev two_lines : Machine
two_lines = record machine {
  world = record machine.world {
    arrivals = item (codes "a\r\nb") ∷ item (codes "\r") ∷ item (codes "\n") ∷ thread_done ∷ [];
    selects = ready ∷ ready ∷ [];
    reads = Read.failed 5 ∷ Read.failed 5 ∷ [];
  };
}

reads_two_lines : (readlines two_lines).0 ≡ ok (some (codes "a\r\n" ∷ codes "b\r\n" ∷ []))
unfolding readlines new_spawn
reads_two_lines = refl

reads_three_bytes : (read (pos 3) two_lines).0 ≡ ok (some (codes "a\r\n"))
unfolding read new_spawn
reads_three_bytes = refl

readline-IsRead_example :
    Post
      (IsRead two_lines)
      (FailsLine two_lines)
      (readline (negsuc 0) two_lines).0
      (readline (negsuc 0) two_lines).1
readline-IsRead_example = readline-IsRead two_lines (negsuc 0) (λ e. cc e)

read-IsCut_example :
    Post
      (IsCut 3 two_lines)
      (FailsSize two_lines 2)
      (read (pos 3) two_lines).0
      (read (pos 3) two_lines).1
read-IsCut_example = read-IsCut two_lines 2

readlines-HasAll_example :
    Post (HasAll two_lines) (LosesLines two_lines) (readlines two_lines).0 (readlines two_lines).1
readlines-HasAll_example = readlines-HasAll two_lines
