-- ===== src/Pexpect/Expect/Account.antt =====
-- What `expect_loop` leaves, on every way out of it.
use custom_shell.Prelude.{
  ℕ, [], append-nil, Bytes, Option, none, some, length, ◌≡◌, refl, sym, ap, arith, not, ◌&&◌, subst,
}
use custom_shell.Prelude.Int.{ℤ, pos, ◌+ℤ◌}
use custom_shell.Python.Exec.{Exn, gets, ◌>>=◌}
use custom_shell.Python.Exec.Triple.{
  Triple, Triple-pure, Triple-bind, Triple-gets, Triple-from, Triple-if, Triple-modify,
  Triple-given,
}
use custom_shell.Pexpect.Machine.{World, Spawn, Machine, self, set_self, world}
use custom_shell.Pexpect.Kernel.{now}
use custom_shell.Pexpect.Kernel.Apart.{now-Triple}
use custom_shell.Pexpect.Reading.{or_default}
use custom_shell.Pexpect.Expect.{
  Searching, WindowArg, window_or_default, start_thread, seek, deadline, enough, expect_loop,
}
use custom_shell.Pexpect.Expect.Received.{Received, no_piece, Got, size}
use custom_shell.Pexpect.Expect.Outcomes.{Returns, Fails, seek-Returns}

-- Where `expect_loop` begins.
abbrev pub Base : World → Bytes → Option ℕ → Machine → Type 0
Base w buffer default m =
    (m.world ≡ w) × (m.self.buffer ≡ buffer) × (m.self.searchwindowsize ≡ default)

abbrev Begun : World → Machine → Type 0
Begun w m = Got w [] m × (size m.world ≡ size w)

module _ (w : World) (buffer : Bytes) (default : Option ℕ) (E : Option Exn → Machine → Type 0) where
  start_thread-Base : Triple (Base w buffer default) start_thread (λ _. Base w buffer default) E
  unfolding start_thread self set_self
  start_thread-Base =
      Triple-bind _ _ (Triple-gets {Q = λ _. Base w buffer default} _ (λ s h. h)) (λ s.
        Triple-if (s.drainpty && not s.thread_started) _ _ (λ _. Triple-modify _ (λ s h. h))
          (λ _. Triple-pure tt (λ s h. h)))

  begin : (m : Machine) → Base w buffer default m → Begun w m
  begin m h = (
    subst (λ (v : World). Received w [] v.arrivals v.reads) (sym h.0)
        (record {
          from_queue = [];
          from_child = [];
          merged = no_piece;
          queue = refl;
          child = refl;
        }),
    ap size h.0,
  )

  deadline-Begun :
      (limit : Option ℤ) → Triple (Base w buffer default) (deadline limit) (λ _. Begun w) E
  unfolding deadline
  deadline-Begun none = Triple-pure (pos 0) begin
  deadline-Begun (some t) = Triple-from begin (
      Triple-bind now _
        (now-Triple {Q = λ v. Received w [] v.arrivals v.reads × (size v ≡ size w)} (λ v x ts h. h))
        (λ start. Triple-pure (pos start +ℤ t) (λ s h. h)))

module _ (searcher : Searching) (timeout : Option ℤ) (arg : WindowArg) (m : Machine) where
  abbrev pub Start : Machine → Type 0
  Start = Base m.world m.self.buffer m.self.searchwindowsize

  abbrev pub chosen : Option ℕ
  chosen = window_or_default arg m.self.searchwindowsize

  self-Start :
      Triple Start self
        (λ s n.
          Start n × (s.buffer ≡ m.self.buffer) × (s.searchwindowsize ≡ m.self.searchwindowsize))
        (Fails searcher chosen m.world m.self.buffer)
  unfolding self gets
  self-Start = record { run = λ s h. (h, h.1, h.2) }

  world-Start :
      Triple Start world
        (λ w n. Start n × (w ≡ m.world))
        (Fails searcher chosen m.world m.self.buffer)
  unfolding world gets
  world-Start = record { run = λ s h. (h, h.0) }

  loop-Returns :
      (limit : Option ℤ)
      → Triple Start
          (do
            end_time ← deadline limit
            seek searcher chosen end_time
                (enough m.world)
                limit
                m.self.buffer
                (length m.self.buffer))
          (Returns searcher chosen m.world m.self.buffer)
          (Fails searcher chosen m.world m.self.buffer)
  loop-Returns limit = Triple-bind (deadline limit) _ (deadline-Begun _ _ _ _ limit) (λ end_time.
      rw append-nil at (
        Triple-from {P = Begun m.world} (λ n h. (h.0, omega (arith, h.1)))
          (seek-Returns searcher chosen m.world m.self.buffer end_time (enough m.world) limit []
            (length m.self.buffer))))

  rest-Returns :
      (s : Spawn) (w : World)
      → w ≡ m.world
      → s.buffer ≡ m.self.buffer
      → s.searchwindowsize ≡ m.self.searchwindowsize
      → Triple Start
          (do
            end_time ← deadline (or_default timeout s.timeout)
            seek searcher
                (window_or_default arg s.searchwindowsize)
                end_time
                (enough w)
                (or_default timeout s.timeout)
                s.buffer
                (length s.buffer))
          (Returns searcher chosen m.world m.self.buffer)
          (Fails searcher chosen m.world m.self.buffer)
  rest-Returns s w e f g = rw (e, f, g) (loop-Returns (or_default timeout s.timeout))

  pub expect_loop-Triple :
      Triple Start
        (expect_loop searcher timeout arg)
        (Returns searcher chosen m.world m.self.buffer)
        (Fails searcher chosen m.world m.self.buffer)
  unfolding expect_loop
  expect_loop-Triple = Triple-bind start_thread _ (start_thread-Base _ _ _ _) (λ _.
      Triple-bind self _ self-Start (λ (s : Spawn).
        Triple-given
          {F = (s.buffer ≡ m.self.buffer) × (s.searchwindowsize ≡ m.self.searchwindowsize)}
          (λ n h. (h.1, h.2))
          (λ f. Triple-bind world _ (Triple-from (λ n h. h.0) world-Start) (λ w.
            Triple-given (λ n h. h.1)
              (λ e. Triple-from (λ n h. h.0) (rest-Returns s w e f.0 f.1))))))
