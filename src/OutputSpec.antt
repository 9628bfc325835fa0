-- ===== src/OutputSpec.antt =====
-- src/output_spec.py: what the output of the shell looks like, and the commands that are built in.
-- The expressions are compiled by pexpect, so that a dot stands for any byte.
use custom_shell.Prelude.{ℕ, Bool, true, not, List, [], ◌∷◌, Bytes, codes, ◌==◌}
use custom_shell.Python.Text.{is_space, is_digit}
use custom_shell.Python.Regex.{
  Regex, byte, empty, seq, alt, many, group, literal, some_of, some_lazy,
}

abbrev pub shell : Bytes
shell = codes "./cush"

-- A byte other than `c`.
abbrev pub is_other : ℕ → ℕ → Bool
is_other c b = not (b == c)

-- `<[^@]*@[^>]*>\$`
abbrev pub prompt : Regex
prompt = seq (literal (codes "<")) (
    seq (many (byte (is_other b'@')))
      (seq (literal (codes "@")) (seq (many (byte (is_other b'>'))) (literal (codes ">$")))))

-- `\[(\d+)\] (\d+)`
abbrev pub bgjob_regex : Regex
bgjob_regex = seq (literal (codes "[")) (
    seq (group 1 (some_of (byte is_digit)))
      (seq (literal (codes "] ")) (group 2 (some_of (byte is_digit)))))

abbrev pub is_dark : ℕ → Bool
is_dark b = not (is_space b)

-- `\[(\d+)\].?\s+(\S+)\s+\((.+?)\)\r\n`
abbrev pub job_status_regex : Regex
job_status_regex = seq (literal (codes "[")) (
    seq (group 1 (some_of (byte is_digit))) (
      seq (literal (codes "]")) (
        seq (alt (byte (λ b. true)) empty) (
          seq (some_of (byte is_space)) (
            seq (group 2 (some_of (byte is_dark))) (
              seq (some_of (byte is_space)) (
                seq (literal (codes "("))
                  (seq (group 3 (some_lazy (byte (λ b. true)))) (literal (codes ")\r\n"))))))))))

abbrev pub jobs_status_msg : List (Bytes × Bytes)
jobs_status_msg = (codes "stopped", codes "Stopped") ∷ (codes "running", codes "Running") ∷ []

abbrev pub builtin_commands : List (Bytes × Bytes)
builtin_commands =
    (codes "jobs", codes "jobs")
    ∷ (codes "stop", codes "stop %s")
    ∷ (codes "kill", codes "kill %s")
    ∷ (codes "fg", codes "fg %s")
    ∷ (codes "bg", codes "bg %s")
    ∷ (codes "exit", codes "exit")
    ∷ []
