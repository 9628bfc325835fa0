-- ===== src/Testutils/Examples.antt =====
-- The helpers with a shell that answers, and the theorems at concrete inputs.
use custom_shell.Prelude.{[], ◌∷◌, codes, ◌≡◌, refl}
use custom_shell.Python.Exec.{ok, raised, type_error, exception}
use custom_shell.Python.Exec.Triple.{Post}
use custom_shell.Pexpect.Machine.{item, Machine, new_spawn}
use custom_shell.Pexpect.Lifecycle.Examples.{machine}
use custom_shell.OutputSpec.{prompt, bgjob_regex, job_status_regex}
use custom_shell.Testutils.Jobs.{IsJobStatus, parse_job_line-IsJobStatus}
use custom_shell.Testutils.{
  expect_prompt, parse_bg_status, parse_job_line, run_builtin, assert_correct_fds,
}
use custom_shell.Testutils.Single.{SingleFails}
use custom_shell.Testutils.Parsed.{
  IsPrompted, expect_prompt-IsPrompted, IsBgStatus, parse_bg_status-IsBgStatus,
}

-- The shell reports a job, and prompts.
abbrev reporting : Machine
reporting = record machine {
  world = record machine.world {
    arrivals = item (codes "[1] 77\r\n") ∷ item (codes "<me@host dir>$ ") ∷ [];
  };
}

abbrev listing : Machine
listing = record machine {
  world = record machine.world { arrivals = item (codes "[2]  Stopped   (sleep 5)\r\n") ∷ [] };
}

reads_job : (parse_bg_status reporting).0 ≡ ok (record { job_id = codes "1"; pid = codes "77" })
unfolding parse_bg_status new_spawn
reads_job = refl

reads_status :
    (parse_job_line listing).0
    ≡ ok (record { id = codes "2"; status = codes "stopped"; command = codes "sleep 5" })
unfolding parse_job_line new_spawn
reads_status = refl

sees_prompt : (expect_prompt reporting).1.self.buffer ≡ codes " "
unfolding expect_prompt new_spawn
sees_prompt = refl

stops_job :
    (run_builtin (codes "stop") (codes "1" ∷ []) machine).1.world.written
    ≡ codes "stop 1" ∷ codes "\n" ∷ []
unfolding run_builtin new_spawn
stops_job = refl

wants_job : (run_builtin (codes "fg") [] machine).0 ≡ raised type_error
unfolding run_builtin new_spawn
wants_job = refl

accepts_standard : (assert_correct_fds (codes "2" ∷ codes "0" ∷ codes "1" ∷ []) machine).0 ≡ ok tt
unfolding assert_correct_fds new_spawn
accepts_standard = refl

refuses_leak :
    (assert_correct_fds (codes "10" ∷ codes "2" ∷ codes "0" ∷ codes "1" ∷ []) machine).0
    ≡ raised exception
unfolding assert_correct_fds new_spawn
refuses_leak = refl

expect_prompt-IsPrompted_example :
    Post
      (λ _. IsPrompted reporting)
      (SingleFails prompt reporting)
      (expect_prompt reporting).0
      (expect_prompt reporting).1
expect_prompt-IsPrompted_example = expect_prompt-IsPrompted reporting

parse_bg_status-IsBgStatus_example :
    Post
      (IsBgStatus reporting)
      (SingleFails bgjob_regex reporting)
      (parse_bg_status reporting).0
      (parse_bg_status reporting).1
parse_bg_status-IsBgStatus_example = parse_bg_status-IsBgStatus reporting

parse_job_line-IsJobStatus_example :
    Post
      (IsJobStatus listing)
      (SingleFails job_status_regex listing)
      (parse_job_line listing).0
      (parse_job_line listing).1
parse_job_line-IsJobStatus_example = parse_job_line-IsJobStatus listing
