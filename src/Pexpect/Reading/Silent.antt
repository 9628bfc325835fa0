-- ===== src/Pexpect/Reading/Silent.antt =====
-- Reading writes nothing to the child and leaves the descriptor open or closed as it is.
use custom_shell.Prelude.{
  ℕ, Bool, true, false, List, [], ◌∷◌, ◌++◌, ◌==◌, Bytes, Option, none, some, ◌≡◌,
}
use custom_shell.Prelude.Int.{ℤ}
use custom_shell.Python.Exec.{Exn}
use custom_shell.Python.Exec.Keeps.{Keeps-bind, Keeps-if}
use custom_shell.Pexpect.Machine.{Select, ready, expired, Read, chunk, World, set_world}
use custom_shell.Pexpect.Kernel.{now, sleep}
use custom_shell.Pexpect.Kernel.Apart.{Spares, apart_rules, now-Spares, set_world-Spares}
use custom_shell.Pexpect.Lifecycle.{isalive}
use custom_shell.Pexpect.Lifecycle.Apart.{isalive-Spares}
use custom_shell.Pexpect.Reading.{
  time_left, select_loop, start_select, select, take_read, os_read, end_of_file, log_read, deliver,
  on_read_error, fetch, first_look, read_nonblocking,
}

module _ (F : Type 0) (l : List Bytes) (b : Bool) where
  -- What has been written, whether the descriptor is open, and, where `F` says so, that all is taken.
  abbrev pub Wire : World → Type 0
  Wire w = ((w.written ≡ l) × (w.fd_open ≡ b)) × (F → w.writes ≡ [])

  now-Wire : Spares Wire now
  now-Wire = now-Spares (λ w c ts h. h)

  isalive-Wire : Spares Wire isalive
  isalive-Wire = isalive-Spares (λ w ws h. h)

  pub sleep-Wire : (d : ℕ) → Spares Wire (sleep d)
  unfolding sleep
  sleep-Wire d = set_world-Spares _ (λ w h. h)

  selects-Wire : (s : List Select) → Spares Wire (set_world (λ w. record w { selects = s }))
  selects-Wire s = set_world-Spares _ (λ w h. h)

  reads-Wire : (s : List Read) → Spares Wire (set_world (λ w. record w { reads = s }))
  reads-Wire s = set_world-Spares _ (λ w h. h)

  logs-Wire : (s : Bytes) → Spares Wire (set_world (λ w. record w { logged = w.logged ++ s ∷ [] }))
  logs-Wire s = set_world-Spares _ (λ w h. h)

  pub time_left-Wire : (t : ℤ) → Spares Wire (time_left t)
  unfolding time_left
  time_left-Wire t = search (apart_rules, now-Wire)

  select_loop-Wire :
      (answers : List Select) (t : ℤ) (limit : Option ℤ) → Spares Wire (select_loop answers t limit)
  unfolding select_loop
  select_loop-Wire [] t none = search apart_rules
  select_loop-Wire [] t (some d) = search apart_rules
  select_loop-Wire (ready ∷ rest) t limit = search (apart_rules, selects-Wire)
  select_loop-Wire (expired ∷ rest) t none = select_loop-Wire rest t none
  select_loop-Wire (expired ∷ rest) t (some d) = search (apart_rules, selects-Wire)
  select_loop-Wire (Select.failed errno ∷ rest) t none =
      Keeps-bind _ _ (selects-Wire rest)
        (λ _. Keeps-if (errno == 4) _ _ (select_loop-Wire rest t none) (search apart_rules))
  select_loop-Wire (Select.failed errno ∷ rest) t (some d) =
      search (apart_rules, selects-Wire, time_left-Wire, select_loop-Wire rest t)

  start_select-Wire :
      (limit : Option ℤ) (answers : List Select) → Spares Wire (start_select limit answers)
  unfolding start_select
  start_select-Wire none answers = select_loop-Wire answers _ none
  start_select-Wire (some t) answers = search (apart_rules, now-Wire, select_loop-Wire)

  select-Wire : (limit : Option ℤ) → Spares Wire (select limit)
  unfolding select
  select-Wire limit = search (apart_rules, start_select-Wire)

  take_read-Wire : (n : ℕ) (reads : List Read) → Spares Wire (take_read n reads)
  unfolding take_read
  take_read-Wire n [] = search apart_rules
  take_read-Wire n (Read.failed errno ∷ rest) = search (apart_rules, reads-Wire)
  take_read-Wire n (chunk s ∷ rest) = search (apart_rules, reads-Wire)

  os_read-Wire : (n : ℕ) → Spares Wire (os_read n)
  unfolding os_read
  os_read-Wire n = search (apart_rules, take_read-Wire)

  end_of_file-Wire : {A : Type 0} → Spares Wire (end_of_file {A = A})
  unfolding end_of_file
  end_of_file-Wire = search apart_rules

  log_read-Wire : (s : Bytes) → Spares Wire (log_read s)
  unfolding log_read
  log_read-Wire s = search (apart_rules, logs-Wire)

  deliver-Wire : (s : Bytes) → Spares Wire (deliver s)
  unfolding deliver
  deliver-Wire [] = end_of_file-Wire
  deliver-Wire (c ∷ s) = search (apart_rules, log_read-Wire)

  on_read_error-Wire : (e : Exn) → Spares Wire (on_read_error e)
  unfolding on_read_error
  on_read_error-Wire (Exn.os_error errno) = end_of_file-Wire
  on_read_error-Wire _ = search apart_rules

  fetch-Wire : (r : Bool) (n : ℕ) → Spares Wire (fetch r n)
  unfolding fetch
  fetch-Wire true n = search (apart_rules, os_read-Wire, on_read_error-Wire, deliver-Wire)
  fetch-Wire false n = search (apart_rules, isalive-Wire, end_of_file-Wire)

  first_look-Wire : (alive irix_hack : Bool) → Spares Wire (first_look alive irix_hack)
  unfolding first_look
  first_look-Wire false irix_hack = search (apart_rules, select-Wire, end_of_file-Wire)
  first_look-Wire true true = search (apart_rules, select-Wire, isalive-Wire, end_of_file-Wire)
  first_look-Wire true false = search apart_rules

  pub read_nonblocking-Wire : (n : ℕ) (limit : Option ℤ) → Spares Wire (read_nonblocking n limit)
  unfolding read_nonblocking
  read_nonblocking-Wire n limit =
      search (apart_rules, isalive-Wire, first_look-Wire, select-Wire, fetch-Wire) depth 9
