-- ===== src/Pexpect/Lifecycle/Status.antt =====
-- What the attributes say of a child that has ended.
use custom_shell.Prelude.{ℕ, Bool, true, false, none, some, ◌≡◌, ◌⊎◌, inl, inr, refl}
use custom_shell.Python.Exec.Keeps.{Keeps-if_test}
use custom_shell.Pexpect.Machine.{Spawn, Machine}
use custom_shell.Pexpect.Kernel.{w_if_exited, w_exit_status, w_if_signaled, w_term_sig}
use custom_shell.Pexpect.Kernel.Frame.{Leaves, kernel_rules, set_self-Leaves}
use custom_shell.Pexpect.Lifecycle.{record_status, isalive, kill, terminate, wait, close, delete}
use custom_shell.Pexpect.Lifecycle.Frame.{
  isalive-Leaves, kill-Leaves, terminate-Leaves, close-Leaves, delete-Leaves,
}
use custom_shell.Pexpect.Lifecycle.Waited.{wait-Leaves}

-- One of `exitstatus` and `signalstatus` is set, as `status` says.
abbrev pub Reports : Spawn → ℕ → Type 0
Reports s status =
    (s.status ≡ some status)
    × (((w_if_exited status ≡ true)
          × (s.exitstatus ≡ some (w_exit_status status))
          × (s.signalstatus ≡ none))
        ⊎ ((w_if_signaled status ≡ true)
            × (s.exitstatus ≡ none)
            × (s.signalstatus ≡ some (w_term_sig status))))

pub record IsReported (s : Spawn) : Type 0 where
  pub ended : s.terminated ≡ true → (status : ℕ) × Reports s status

record_status-IsReported : (status : ℕ) → Leaves IsReported (record_status status)
unfolding record_status
record_status-IsReported status =
    Keeps-if_test (w_if_exited status) _ _
      (λ e.
        set_self-Leaves _ (λ s h. record { ended = λ _. (status, (refl, inl (e, refl, refl))) }))
      (λ _.
        Keeps-if_test (w_if_signaled status) _ _
          (λ e.
            set_self-Leaves _
              (λ s h. record { ended = λ _. (status, (refl, inr (e, refl, refl))) }))
          (λ _. search kernel_rules))

running-IsReported : (s : Spawn) → s.terminated ≡ false → IsReported s
running-IsReported s r = record { ended = λ e. cc }

looking-IsReported : Leaves IsReported isalive
looking-IsReported = isalive-Leaves record_status-IsReported

-- Whatever the kernel answers, and however the call ends, `isalive`, `kill`, `terminate`, `wait`,
-- `close` and `__del__` leave the attributes telling the truth about a child that is known to have
-- ended: exactly one of `exitstatus` and `signalstatus` is set, as the status that was last recorded
-- says.
pub calls-IsReported :
    (m : Machine) (sig : ℕ) (force : Bool)
    → IsReported m.self
    → IsReported (isalive m).1.self
      × IsReported (kill sig m).1.self
      × IsReported (terminate force m).1.self
      × IsReported (wait m).1.self
      × IsReported (close force m).1.self
      × IsReported (delete m).1.self
calls-IsReported m sig force h = (
  looking-IsReported.at m h,
  (kill-Leaves looking-IsReported sig).at m h,
  (terminate-Leaves looking-IsReported force).at m h,
  (wait-Leaves record_status-IsReported running-IsReported).at m h,
  (close-Leaves looking-IsReported (λ s k. record { ended = k.ended })
        (λ s k. record { ended = k.ended }) force).at
      m h,
  (delete-Leaves looking-IsReported (λ s k. record { ended = k.ended })
        (λ s k. record { ended = k.ended })).at
      m h,
)
