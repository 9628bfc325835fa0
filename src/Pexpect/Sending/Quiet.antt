-- ===== src/Pexpect/Sending/Quiet.antt =====
-- Methods that take nothing from the child, `send` among them.
use custom_shell.Prelude.{
  ℕ, Bool, List, [], ◌∷◌, ◌∙◌, refl, ◌++◌, Bytes, Option, some, if◌then◌else◌, ◌≡◌, ◌≢◌,
}
use custom_shell.Python.Exec.{Exn, os_error, pure}
use custom_shell.Python.Exec.Triple.{
  Triple, Triple-pure, Triple-raise, Triple-block, Triple-gets, Triple-modify, Triple-bind,
  Triple-if,
}
use custom_shell.Pexpect.Machine.{
  Write, accepted, stuck, World, Spawn, Machine, M, self, world, set_world,
}
use custom_shell.Pexpect.Kernel.{sleep}
use custom_shell.Pexpect.Sending.{put_text, os_write, log_send, send}

-- The buffer, and what comes of the child's text, is as in `s`.
abbrev pub Still : Machine → Machine → Type 0
Still s n =
    (n.self.buffer ≡ s.self.buffer)
    × (n.world.arrivals ≡ s.world.arrivals)
    × (n.world.reads ≡ s.world.reads)

abbrev pub NotEnd : Option Exn → Machine → Type 0
NotEnd e n = (e ≢ some Exn.eof) × (e ≢ some Exn.timeout)

-- The method takes no text, and does not raise EOF or TIMEOUT.
abbrev pub IsQuiet : {A : Type 0} → M A → Type 0
IsQuiet m = (s : Machine) → Triple (Still s) m (λ _. Still s) NotEnd

module _ (s : Machine) where
  log-Still :
      (c : Bool) (t : Bytes)
      → Triple
          (Still s)
          (if c then set_world (λ w. record w { logged = w.logged ++ t ∷ [] }) else pure tt)
          (λ _. Still s)
          NotEnd
  unfolding set_world
  log-Still c t = Triple-if c _ _ (λ _. Triple-modify _ (λ n h. h)) (λ _. Triple-pure tt (λ n h. h))

  self-Still : Triple (Still s) self (λ _. Still s) NotEnd
  unfolding self
  self-Still = Triple-gets _ (λ n h. h)

  world-Still : Triple (Still s) world (λ _. Still s) NotEnd
  unfolding world
  world-Still = Triple-gets _ (λ n h. h)

  sleep-Still : (d : ℕ) → Triple (Still s) (sleep d) (λ _. Still s) NotEnd
  unfolding sleep set_world
  sleep-Still d = Triple-modify _ (λ n h. h)

  log_send-Still : (t : Bytes) → Triple (Still s) (log_send t) (λ _. Still s) NotEnd
  unfolding log_send
  log_send-Still t =
      Triple-bind self _ self-Still
        (λ (o : Spawn). Triple-bind _ _ (log-Still o.logfile t) (λ _. log-Still o.logfile_send t))

  writes-Still :
      (f : World → World)
      → ((w : World) → ((f w).arrivals ≡ w.arrivals) × ((f w).reads ≡ w.reads))
      → Triple (Still s) (set_world f) (λ _. Still s) NotEnd
  unfolding set_world
  writes-Still f k = Triple-modify _ (λ n h. (h.0, (k n.world).0 ∙ h.1, (k n.world).1 ∙ h.2))

  put_text-Still :
      (t : Bytes) (answers : List Write)
      → Triple (Still s) (put_text t answers) (λ _. Still s) NotEnd
  unfolding put_text
  put_text-Still t [] =
      Triple-bind _ _ (writes-Still _ (λ w. (refl, refl))) (λ _. Triple-pure _ (λ n h. h))
  put_text-Still t (accepted k ∷ rest) =
      Triple-bind _ _ (writes-Still _ (λ w. (refl, refl))) (λ _. Triple-pure _ (λ n h. h))
  put_text-Still t (Write.failed errno ∷ rest) =
      Triple-bind _ _ (writes-Still _ (λ w. (refl, refl)))
        (λ _. Triple-raise (os_error errno) (λ n h. ((λ e. cc e), (λ e. cc e))))
  put_text-Still t (stuck ∷ rest) =
      Triple-bind _ _ (writes-Still _ (λ w. (refl, refl)))
        (λ _. Triple-block (λ n h. ((λ e. cc e), (λ e. cc e))))

  os_write-Still : (t : Bytes) → Triple (Still s) (os_write t) (λ _. Still s) NotEnd
  unfolding os_write
  os_write-Still t = Triple-bind world _ world-Still (λ (w : World).
      Triple-if w.fd_open _ _ (λ _. put_text-Still t w.writes)
        (λ _. Triple-raise (os_error 9) (λ n h. ((λ e. cc e), (λ e. cc e)))))

pub send-IsQuiet : (t : Bytes) → IsQuiet (send t)
unfolding send
send-IsQuiet t s = Triple-bind self _ (self-Still s) (λ (o : Spawn).
    Triple-bind _ _ (sleep-Still s o.delaybeforesend)
      (λ _. Triple-bind _ _ (log_send-Still s t) (λ _. os_write-Still s t)))
