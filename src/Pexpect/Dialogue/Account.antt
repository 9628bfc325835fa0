-- ===== src/Pexpect/Dialogue/Account.antt =====
-- A script hears the text of the child piece by piece, and writes exactly its lines.
use custom_shell.Prelude.{
  List, [], ◌∷◌, ◌++◌, append_assoc, Bytes, Option, ◌≡◌, refl, sym, ap, ◌∙◌, subst,
}
use custom_shell.Python.Exec.{Exn}
use custom_shell.Python.Exec.Triple.{
  Triple, Post, Triple-pure, Triple-bind, Triple-gets, Triple-at, Triple-to, Triple-from,
  Triple-given, Triple-both,
}
use custom_shell.Pexpect.Machine.{Spawn, Machine, self}
use custom_shell.Pexpect.Sending.{sendline}
use custom_shell.Pexpect.Sending.Quiet.{Still}
use custom_shell.Pexpect.Sending.Writes.{WroteAll, sendline-LineSent}
use custom_shell.Pexpect.Expect.{expect_loop}
use custom_shell.Pexpect.Expect.Taken.{Taken, Taken-trans}
use custom_shell.Pexpect.Dialogue.{Call, say, hear, Heard, text_taken, talk}
use custom_shell.Pexpect.Dialogue.Calls.{
  heard_text, IsSaid, Hears, HasTalked, Breaks, IsBroken, nothing-HasTalked, sendline-IsQuiet,
  said-HasTalked, listen-Triple, heard-HasTalked,
}

Hears-cons :
    (c : Call) (calls : List Call) (first rest : List Heard)
    → Hears (c ∷ []) first
    → Hears calls rest
    → Hears (c ∷ calls) (first ++ rest)
Hears-cons (say s) calls [] rest h k = k
Hears-cons (say s) calls (x ∷ first) rest h k = elim h [ ]
Hears-cons (hear searcher timeout arg) calls [] rest h k = elim h [ ]
Hears-cons (hear searcher timeout arg) calls (x ∷ []) rest h k = (h.0, k)
Hears-cons (hear searcher timeout arg) calls (x ∷ y ∷ first) rest h k = elim h.1 [ ]

IsSaid-cons :
    (F : Type 0) (c : Call) (calls : List Call) (first rest : List Bytes)
    → IsSaid F (c ∷ []) first
    → IsSaid F calls rest
    → IsSaid F (c ∷ calls) (first ++ rest)
IsSaid-cons F (say s) calls (t ∷ u ∷ []) rest h k = (h.0, h.1, h.2, k)
IsSaid-cons F (say s) calls (t ∷ u ∷ v ∷ more) rest h k = cc h.3
IsSaid-cons F (say s) calls (t ∷ []) rest h k = elim h [ ]
IsSaid-cons F (say s) calls [] rest h k = elim h [ ]
IsSaid-cons F (hear searcher timeout arg) calls first rest h k =
    subst (λ l. IsSaid F calls (l ++ rest)) (sym h) k

heard_text-append :
    (first rest : List Heard) → heard_text (first ++ rest) ≡ heard_text first ++ heard_text rest
heard_text-append [] rest = refl
heard_text-append (h ∷ first) rest =
    ap (λ t. h.taken ++ t) (heard_text-append first rest) ∙ sym (append_assoc h.taken _ _)

-- One call, and then others.
module _ (F : Type 0) (m k : Machine) (c : Call) (first : List Heard)
    (t : HasTalked F m (c ∷ []) first k) (calls : List Call) where
  HasTalked-cons :
      (rest : List Heard) (n : Machine)
      → HasTalked F k calls rest n
      → HasTalked F m (c ∷ calls) (first ++ rest) n
  HasTalked-cons rest n h = record {
    taken =
        subst (λ s. Taken m s n) (sym (heard_text-append first rest))
          (Taken-trans m k n (heard_text first) (heard_text rest) t.taken h.taken);
    hears = Hears-cons c calls first rest t.hears h.hears;
    lines = t.lines ++ h.lines;
    said = IsSaid-cons F c calls t.lines h.lines t.said h.said;
    wire = (
      (
        h.wire.0.0
            ∙ ap (λ l. l ++ h.lines) t.wire.0.0
            ∙ append_assoc m.world.written t.lines h.lines,
        h.wire.0.1 ∙ t.wire.0.1,
      ),
      h.wire.1,
    );
  }

module _ (F : Type 0) (m k : Machine) (c : Call) (first : List Heard)
    (t : HasTalked F m (c ∷ []) first k) (calls : List Call) where
  IsBroken-cons :
      (e : Option Exn) (n : Machine) → IsBroken F k calls e n → IsBroken F m (c ∷ calls) e n
  IsBroken-cons e n b = record {
    past = c ∷ b.past;
    next = b.next;
    future = b.future;
    whole = ap (λ l. c ∷ l) b.whole;
    heard = first ++ b.heard;
    at = b.at;
    talked = HasTalked-cons F m k c first t b.past b.heard b.at b.talked;
    breaks = b.breaks;
  }

IsBroken-first :
    (F : Type 0) (m : Machine)
    → (F → m.world.writes ≡ [])
    → (c : Call) (calls : List Call) (e : Option Exn) (n : Machine) → Breaks F m c e n
    → IsBroken F m (c ∷ calls) e n
IsBroken-first F m full c calls e n h = record {
  past = [];
  next = c;
  future = calls;
  whole = refl;
  heard = [];
  at = m;
  talked = nothing-HasTalked F m full;
  breaks = h;
}

say-Triple :
    (F : Type 0) (m : Machine)
    → (F → m.world.writes ≡ [])
    → (s : Bytes) (calls : List Call)
    → Triple
        (λ k. k ≡ m)
        (sendline s)
        (λ n k. HasTalked F m (say s ∷ []) [] k)
        (IsBroken F m (say s ∷ calls))
say-Triple F m full s calls =
    Triple-from
      (λ k e.
        subst (λ v. WroteAll F m.world.written m.world.fd_open v × Still m v) (sym e)
          (((refl, refl), full), (refl, refl, refl)))
      (Triple-to
        (Triple-both (sendline s) (sendline-LineSent F m.world.written m.world.fd_open s)
          (sendline-IsQuiet F m full s m))
        (λ n k h. said-HasTalked F m full s n k h.0 h.1)
        (λ e k h. IsBroken-first F m full (say s) calls e k h.0))

talk-Triple :
    (F : Type 0) (calls : List Call) (m : Machine)
    → (F → m.world.writes ≡ [])
    → Triple (λ k. k ≡ m) (talk calls) (HasTalked F m calls) (IsBroken F m calls)
unfolding talk self
talk-Triple F [] m full =
    Triple-pure [] (λ k e. subst (HasTalked F m [] []) (sym e) (nothing-HasTalked F m full))
talk-Triple F (say s ∷ calls) m full =
    Triple-bind (sendline s) _ (say-Triple F m full s calls) (λ _. Triple-at (λ k t.
      Triple-to (talk-Triple F calls k t.wire.1)
        (λ rest n h. HasTalked-cons F m k (say s) [] t calls rest n h)
        (λ e n b. IsBroken-cons F m k (say s) [] t calls e n b)))
talk-Triple F (hear searcher timeout arg ∷ calls) m full =
    Triple-bind (expect_loop searcher timeout arg) _
      (Triple-to (listen-Triple F m full searcher timeout arg) (λ index k h. h)
        (λ e k h. IsBroken-first F m full (hear searcher timeout arg) calls e k h))
      (λ index. Triple-at (λ k h.
        let t = heard-HasTalked F m full searcher timeout arg index k h.0 h.1 in
        Triple-bind {R = λ o n. (n ≡ k) × (o ≡ k.self)} self _
          (Triple-gets _ (λ n e. (e, ap (λ v. v.self) e)))
          (λ o.
            Triple-given {F = o ≡ k.self} (λ n e. e.1)
              (λ e.
                Triple-from (λ n z. z.0)
                  (Triple-bind (talk calls) _
                    (Triple-to (talk-Triple F calls k t.wire.1) (λ rest n x. x)
                      (λ x n b. IsBroken-cons F m k (hear searcher timeout arg) _ t calls x n b))
                    (λ rest. Triple-pure _ (λ n x.
                      subst
                        (λ (v : Spawn).
                          HasTalked F m (hear searcher timeout arg ∷ calls)
                            (record { index = index; taken = text_taken v.after v.before } ∷ rest)
                            n)
                        (sym e)
                        (HasTalked-cons F m k (hear searcher timeout arg) _ t calls rest n x))))))))

-- A script of `sendline` and `expect_loop` that returns has heard the next piece of the text in each of
-- its calls of `expect_loop`: the pieces, put together, begin the old buffer and what has come since, of
-- which the rest is in the buffer, so that nothing is heard twice or skipped. Each piece ends with what
-- the searcher of that call has found, and the index is its own; or the index is that of the EOF entry,
-- or that of the TIMEOUT entry with an empty piece. Of each line of the script a front has been
-- written, as much as `os.write` took, and behind it the newline or nothing of it, in the order of the
-- lines, and nothing else has been; where the kernel takes all that is written, each line is written whole,
-- with its newline. A script that fails, or does not return, has done its calls up to one in this way, and
-- that call fails: where it is `sendline`, it raises an `OSError` or waits for ever in
-- `os.write`, and has written nothing or a front of the line; where it is `expect_loop`, the text is
-- accounted for as in its theorem and nothing has been written.
pub talk-HasTalked :
    (calls : List Call) (m : Machine)
    → Post
        (HasTalked (m.world.writes ≡ []) m calls)
        (IsBroken (m.world.writes ≡ []) m calls)
        (talk calls m).0
        (talk calls m).1
talk-HasTalked calls m = (talk-Triple (m.world.writes ≡ []) calls m (λ f. f)).run m refl
