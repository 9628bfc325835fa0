-- ===== src/Pexpect/Expect/Taken.antt =====
-- How much text a method has taken from the child, and how much is left.
use custom_shell.Prelude.{
  ℕ, ◌+◌, ◌<◌, List, [], ◌∷◌, ◌++◌, append_assoc, append-nil, Bytes, length, length-append, ◌≡◌,
  sym, ◌∙◌, ap, arith,
}
use custom_shell.Pexpect.Machine.{Read, Arrival, World, Machine}
use custom_shell.Pexpect.Reading.Selected.{pending}
use custom_shell.Pexpect.Expect.Received.{
  queued, Merged, no_piece, queue_piece, read_piece, Received, Got, nothing_yet,
}

Merged-append :
    (q p g : Bytes) {r s h : Bytes}
    → Merged q p g
    → Merged r s h
    → Merged (q ++ r) (p ++ s) (g ++ h)
Merged-append q p g a no_piece = rw (append-nil q, append-nil p, append-nil g) a
Merged-append q p g a (queue_piece {q = r} {p = s} {g = h} c b) =
    rw (← append_assoc q r c, ← append_assoc g h c) (queue_piece c (Merged-append q p g a b))
Merged-append q p g a (read_piece {q = r} {p = s} {g = h} c b) =
    rw (← append_assoc p s c, ← append_assoc g h c) (read_piece c (Merged-append q p g a b))

Merged-length : (q p g : Bytes) → Merged q p g → length g ≡ length q + length p
Merged-length q p g no_piece = omega arith
Merged-length q p g (queue_piece {q = r} {p = s} {g = h} c b) =
    omega (arith, Merged-length r s h b, length-append r c, length-append h c)
Merged-length q p g (read_piece {q = r} {p = s} {g = h} c b) =
    omega (arith, Merged-length r s h b, length-append s c, length-append h c)

-- What has come since `w`, in two parts.
pub Received-trans :
    (w v : World) (got more : Bytes) (xs : List Arrival) (rs : List Read)
    → Received w got v.arrivals v.reads
    → Received v more xs rs
    → Received w (got ++ more) xs rs
Received-trans w v got more xs rs h k = record {
  from_queue = h.from_queue ++ k.from_queue;
  from_child = h.from_child ++ k.from_child;
  merged = Merged-append h.from_queue h.from_child got h.merged k.merged;
  queue =
      h.queue
      ∙ ap (λ t. h.from_queue ++ t) k.queue
      ∙ sym (append_assoc h.from_queue k.from_queue (queued xs));
  child =
      h.child
      ∙ ap (λ t. h.from_child ++ t) k.child
      ∙ sym (append_assoc h.from_child k.from_child (pending rs));
}

-- What comes is taken from what is left.
Got-left :
    (m n : Machine) (got : Bytes)
    → Got m.world got n
    → length (queued m.world.arrivals) + length (pending m.world.reads)
      ≡ length got + (length (queued n.world.arrivals) + length (pending n.world.reads))
Got-left m n got h = omega (
  arith,
  Merged-length h.from_queue h.from_child got h.merged,
  ap length h.queue,
  ap length h.child,
  length-append h.from_queue (queued n.world.arrivals),
  length-append h.from_child (pending n.world.reads),
)

-- The bytes that are left to read.
abbrev pub bytes_left : Machine → ℕ
bytes_left m =
    length m.self.buffer + (length (queued m.world.arrivals) + length (pending m.world.reads))

-- From `m` to `n`, `taken` was taken off the front of the text that the buffer holds and that comes.
pub record Taken (m : Machine) (taken : Bytes) (n : Machine) : Type 0 where
  pub got : Bytes
  pub since : Got m.world got n
  pub text : m.self.buffer ++ got ≡ taken ++ n.self.buffer

pub Taken-nothing : (m : Machine) → Taken m [] m
Taken-nothing m = record { got = []; since = nothing_yet m; text = append-nil m.self.buffer }

pub Taken-trans : (m k n : Machine) (s t : Bytes) → Taken m s k → Taken k t n → Taken m (s ++ t) n
Taken-trans m k n s t h l = record {
  got = h.got ++ l.got;
  since = Received-trans m.world k.world h.got l.got _ _ h.since l.since;
  text =
      sym (append_assoc m.self.buffer h.got l.got)
      ∙ ap (λ u. u ++ l.got) h.text
      ∙ append_assoc s k.self.buffer l.got
      ∙ ap (λ u. s ++ u) l.text
      ∙ sym (append_assoc s t n.self.buffer);
}

-- Whoever takes a byte leaves fewer.
pub Taken-fewer :
    (c : ℕ) (s : Bytes) (m n : Machine) → Taken m (c ∷ s) n → bytes_left n < bytes_left m
Taken-fewer c s m n h = omega (
  arith,
  Got-left m n h.got h.since,
  ap length h.text,
  length-append m.self.buffer h.got,
  length-append (c ∷ s) n.self.buffer,
)
