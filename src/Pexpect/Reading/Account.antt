-- ===== src/Pexpect/Reading/Account.antt =====
-- Every byte that the kernel delivers is handed on once, and a read uses up an answer of `select`.
use custom_shell.Prelude.{
  ℕ, ◌<◌, Bool, true, false, List, [], ◌∷◌, ◌++◌, append_assoc, Bytes, Option, some, if◌then◌else◌,
  take, drop, length, take-append-drop, ◌≡◌, refl, sym, ap, ◌∙◌, arith,
}
use custom_shell.Prelude.Int.{ℤ, pos}
use custom_shell.Python.Exec.{Exn, os_error, pure, raise, block, gets, ◌>>=◌}
use custom_shell.Python.Exec.Triple.{
  Triple, Post, Triple-pure, Triple-raise, Triple-gets, Triple-if, Triple-from, Triple-to,
  Triple-catch, Triple-bind,
}
use custom_shell.Pexpect.Machine.{
  Read, chunk, World, Machine, Spawn, self, set_self, world, set_world,
}
use custom_shell.Pexpect.Kernel.Apart.{self-Spares}
use custom_shell.Pexpect.Reading.{
  or_default, select, put_back, take_read, os_read, end_of_file, log_read, deliver, on_read_error,
  fetch, first_look, read_nonblocking,
}
use custom_shell.Pexpect.Reading.Selected.{
  pending, Steady, Steady-refl, isalive-Steady, Calm, calm, Shorter, Selected, select-Selected,
}

module _ (w : World) where
  -- The bytes `c` are the next ones that the kernel had.
  pub record Delivered (c : Bytes) (v : World) : Type 0 where
    pub reads : pending w.reads ≡ c ++ pending v.reads
    pub arrivals : v.arrivals ≡ w.arrivals
    pub fewer : length v.selects < length w.selects

  abbrev pub Gets : Bytes → Machine → Type 0
  Gets c m = Delivered c m.world

  put_back-pending : (c : Bytes) (rest : List Read) → pending (put_back c rest) ≡ c ++ pending rest
  unfolding put_back
  put_back-pending [] rest = refl
  put_back-pending (c ∷ s) rest = refl

  abbrev use_reads : List Read → Machine → Machine
  use_reads rest s = record s { world = record s.world { reads = rest } }

  chunk-Delivered :
      (size : ℕ) (c : Bytes) (rest : List Read) (s : Machine)
      → s.world.reads ≡ chunk c ∷ rest
      → Shorter w s
      → Gets (take size c) (use_reads (put_back (drop size c) rest) s)
  chunk-Delivered size c rest s e h = record {
    reads = sym h.steady.reads ∙ ap pending e ∙ parts;
    arrivals = h.steady.arrivals;
    fewer = h.fewer;
  }
    where
      parts : c ++ pending rest ≡ take size c ++ pending (put_back (drop size c) rest)
      parts =
          rw
            (
              put_back-pending (drop size c) rest,
              sym (append_assoc (take size c) (drop size c) (pending rest)),
              take-append-drop size c,
            )
            refl

  take_read-Delivered :
      (size : ℕ) (reads : List Read) (s : Machine)
      → s.world.reads ≡ reads
      → Shorter w s
      → Post Gets (λ _. Calm w) (take_read size reads s).0 (take_read size reads s).1
  unfolding take_read set_world ◌>>=◌ pure raise block
  take_read-Delivered size [] s e h = h.steady
  take_read-Delivered size (Read.failed errno ∷ rest) s e h = record {
    reads = sym (ap pending e) ∙ h.steady.reads;
    arrivals = h.steady.arrivals;
    selects = h.steady.selects;
  }
  take_read-Delivered size (chunk c ∷ rest) s e h = chunk-Delivered size c rest s e h

  os_read-Delivered : (size : ℕ) → Triple (Shorter w) (os_read size) Gets (λ _. Calm w)
  unfolding os_read world gets ◌>>=◌
  os_read-Delivered size = record { run = λ s h. take_read-Delivered size s.world.reads s refl h }

  module _ {A : Type 0} where
    end_of_file-Calm :
        {Q : A → Machine → Type 0} → Triple (Calm w) (end_of_file {A = A}) Q (λ _. Calm w)
    unfolding end_of_file set_self ◌>>=◌ raise
    end_of_file-Calm = record { run = λ s h. h }

  logged-Delivered :
      (c : Bytes) (v : World) (l : List Bytes)
      → Delivered c v
      → Delivered c (record v { logged = l })
  logged-Delivered c v l h = record { reads = h.reads; arrivals = h.arrivals; fewer = h.fewer }

  write_if-Delivered :
      (b : Bool) (c x : Bytes)
      → Triple
          (Gets c)
          (if b then set_world (λ v. record v { logged = v.logged ++ x ∷ [] }) else pure tt)
          (λ _. Gets c)
          (λ _. Calm w)
  unfolding set_world
  write_if-Delivered b c x =
      Triple-if b _ _ (λ _. record { run = λ s h. logged-Delivered c s.world _ h })
        (λ _. Triple-pure tt (λ s h. h))

  log_read-Delivered : (c x : Bytes) → Triple (Gets c) (log_read x) (λ _. Gets c) (λ _. Calm w)
  unfolding log_read self
  log_read-Delivered c x = Triple-bind _ _ (Triple-gets _ (λ s h. h)) (λ o.
      Triple-bind _ _ (write_if-Delivered o.logfile c x)
        (λ _. write_if-Delivered o.logfile_read c x))

  nothing-Calm : (m : Machine) → Gets [] m → Calm w m
  nothing-Calm m h = record {
    reads = sym h.reads;
    arrivals = h.arrivals;
    selects = omega (arith, h.fewer);
  }

  deliver-Delivered : (c : Bytes) → Triple (Gets c) (deliver c) Gets (λ _. Calm w)
  unfolding deliver
  deliver-Delivered [] = Triple-from nothing-Calm end_of_file-Calm
  deliver-Delivered (c ∷ s) =
      Triple-bind _ _ (log_read-Delivered (c ∷ s) (c ∷ s)) (λ _. Triple-pure (c ∷ s) (λ m h. h))

  on_read_error-Calm : (e : Exn) → Triple (Calm w) (on_read_error e) Gets (λ _. Calm w)
  unfolding on_read_error
  on_read_error-Calm (os_error errno) = end_of_file-Calm
  on_read_error-Calm e = Triple-raise e (λ m h. h)

  fetch-Delivered : (r : Bool) (size : ℕ) → Triple (Selected w r) (fetch r size) Gets (λ _. Calm w)
  unfolding fetch
  fetch-Delivered true size =
      Triple-bind _ _ (Triple-catch _ _ (os_read-Delivered size) on_read_error-Calm (λ m h. h))
        deliver-Delivered
  fetch-Delivered false size =
      Triple-bind _ _ (calm w (isalive-Steady w))
        (λ alive. Triple-if alive _ _ (λ _. Triple-raise _ (λ m h. h)) (λ _. end_of_file-Calm))

  Selected-Calm : (r : Bool) (m : Machine) → Selected w r m → Calm w m
  Selected-Calm true m h = h.steady
  Selected-Calm false m h = h

  select-Calm : (limit : Option ℤ) → Triple (Calm w) (select limit) (λ _. Calm w) (λ _. Calm w)
  select-Calm limit = Triple-to (select-Selected w limit) Selected-Calm (λ e m h. h)

  first_look-Calm :
      (alive irix : Bool) → Triple (Calm w) (first_look alive irix) (λ _. Calm w) (λ _. Calm w)
  unfolding first_look
  first_look-Calm false irix =
      Triple-bind _ _ (select-Calm (some (pos 0)))
        (λ r. Triple-if r _ _ (λ _. Triple-pure tt (λ m h. h)) (λ _. end_of_file-Calm))
  first_look-Calm true true = Triple-bind _ _ (select-Calm (some (pos 2000000))) (λ r.
      Triple-if r _ _ (λ _. Triple-pure tt (λ m h. h))
        (λ _.
          Triple-bind _ _ (calm w (isalive-Steady w)) (λ alive.
            Triple-if alive _ _ (λ _. Triple-pure tt (λ m h. h)) (λ _. end_of_file-Calm))))
  first_look-Calm true false = Triple-pure tt (λ m h. h)

  pub read_nonblocking-Delivered :
      (size : ℕ) (timeout : Option ℤ)
      → Triple (Calm w) (read_nonblocking size timeout) Gets (λ _. Calm w)
  unfolding read_nonblocking
  read_nonblocking-Delivered size timeout = Triple-bind self _ (calm w self-Spares) (λ (s : Spawn).
      Triple-if s.closed _ _ (λ _. Triple-raise _ (λ m h. h))
        (λ _. Triple-bind _ _ (calm w (isalive-Steady w)) (λ alive.
          Triple-bind _ _ (first_look-Calm alive s.irix_hack) (λ _.
            Triple-bind _ _ (select-Selected w (or_default timeout s.timeout))
              (λ r. fetch-Delivered r size)))))

-- `read_nonblocking` returns the next bytes that the kernel had, or raises an exception, or does not
-- return. It takes no byte away unless it returns it, it never touches what the drain thread has
-- queued, and where it returns bytes, it has used up an answer of `select`.
pub read_nonblocking-Delivers :
    (size : ℕ) (timeout : Option ℤ) (m : Machine)
    → Post
        (λ c n. Delivered m.world c n.world)
        (λ _ n. Steady m.world n.world)
        (read_nonblocking size timeout m).0
        (read_nonblocking size timeout m).1
read_nonblocking-Delivers size timeout m =
    (read_nonblocking-Delivered m.world size timeout).run m (Steady-refl m.world)
