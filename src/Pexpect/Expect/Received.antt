-- ===== src/Pexpect/Expect/Received.antt =====
-- How much of the text of the child and of the queue a method has received.
use custom_shell.Prelude.{ℕ, suc, ◌+◌, ◌≤◌, List, [], ◌∷◌, ◌++◌, Bytes, Option, length, ◌≡◌, refl}
use custom_shell.Pexpect.Machine.{Arrival, item, Read, World, Machine}
use custom_shell.Pexpect.Reading.Selected.{pending}
use custom_shell.Pexpect.Expect.{extend}

-- The bytes that the thread still hands over.
abbrev pub queued : List Arrival → Bytes
queued [] = []
queued (item c ∷ rest) = c ++ queued rest
queued (_ ∷ rest) = queued rest

-- The third text is made of pieces of the first and of the second one, each in its order.
pub data Merged : Bytes → Bytes → Bytes → Type 0 where
  no_piece : Merged [] [] []
  queue_piece : {q p g : Bytes} (c : Bytes) → Merged q p g → Merged (q ++ c) p (g ++ c)
  read_piece : {q p g : Bytes} (c : Bytes) → Merged q p g → Merged q (p ++ c) (g ++ c)

-- `got` is what has come since `w`, of which `arrivals` and `reads` are left.
pub record Received (w : World) (got : Bytes) (arrivals : List Arrival) (reads : List Read)
    : Type 0 where
  pub from_queue : Bytes
  pub from_child : Bytes
  pub merged : Merged from_queue from_child got
  pub queue : queued w.arrivals ≡ from_queue ++ queued arrivals
  pub child : pending w.reads ≡ from_child ++ pending reads

abbrev pub size : World → ℕ
size v = length v.selects + length v.arrivals

module _ (w : World) (got : Bytes) where
  abbrev pub Got : Machine → Type 0
  Got m = Received w got m.world.arrivals m.world.reads

  -- No more than `k` answers are left.
  abbrev pub Has : ℕ → Machine → Type 0
  Has k m = Got m × (size m.world ≤ k)

pub nothing_yet : (m : Machine) → Got m.world [] m
nothing_yet m = record {
  from_queue = [];
  from_child = [];
  merged = no_piece;
  queue = refl;
  child = refl;
}

-- What a `get` or a read leaves.
abbrev pub Came : World → Bytes → ℕ → Option Bytes → Machine → Type 0
Came w got k c m = Got w (extend got c) m × (suc (size m.world) ≤ k)
