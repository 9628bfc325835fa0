-- ===== src/Pexpect/Dialogue/Calls.antt =====
-- What a script has done, and what a single call of it does.
use custom_shell.Prelude.{
  ℕ, ◌+◌, List, [], ◌∷◌, ◌++◌, append-nil, Bytes, Option, none, some, length, length-append, ◌≡◌,
  ◌⊎◌, inl, inr, refl, sym, ap, ◌∙◌, subst,
}
use custom_shell.Prelude.Int.{ℤ}
use custom_shell.Python.Exec.{Exn}
use custom_shell.Python.Exec.Triple.{
  Triple, Triple-pure, Triple-bind, Triple-from, Triple-both, Keeps-Triple,
}
use custom_shell.Pexpect.Machine.{matched, eof_class, Machine}
use custom_shell.Pexpect.Sending.{send, sendline}
use custom_shell.Pexpect.Sending.Quiet.{Still, IsQuiet, send-IsQuiet}
use custom_shell.Pexpect.Sending.Writes.{WroteAll, IsFront, LineFailed, LineSent}
use custom_shell.Pexpect.Expect.{Span, Searching, WindowArg, window_or_default, expect_loop}
use custom_shell.Pexpect.Expect.Received.{Got}
use custom_shell.Pexpect.Expect.Outcomes.{IsReturned, IsMatched, Returns, Fails}
use custom_shell.Pexpect.Expect.Account.{Base, expect_loop-Triple}
use custom_shell.Pexpect.Expect.Taken.{Taken, Taken-nothing}
use custom_shell.Pexpect.Expect.Silent.{expect_loop-Hushed}
use custom_shell.Pexpect.Running.Matches.{Taken-Still}
use custom_shell.Pexpect.Dialogue.{Call, say, hear, Heard, text_taken}

-- All that was taken.
abbrev pub heard_text : List Heard → Bytes
heard_text [] = []
heard_text (h ∷ rest) = h.taken ++ heard_text rest

-- What the lines of a script write: of each the line and the newline, or as much as the kernel took; all
-- of it where `F` says that the kernel takes all.
abbrev pub IsSaid : Type 0 → List Call → List Bytes → Type 0
IsSaid F [] lines = lines ≡ []
IsSaid F (say s ∷ calls) (t ∷ u ∷ lines) =
    IsFront t s × IsFront u (10 ∷ []) × (F → (t ≡ s) × (u ≡ 10 ∷ [])) × IsSaid F calls lines
IsSaid F (say s ∷ calls) _ = ⊥
IsSaid F (hear searcher timeout arg ∷ calls) lines = IsSaid F calls lines

-- The index is that of what was found at the end of the text, or of the EOF or TIMEOUT entry.
abbrev pub IsHeard : Searching → Option ℕ → Bytes → Type 0
IsHeard searcher none taken = ⊥
IsHeard searcher (some index) taken =
    ((rest : Bytes) × (freshlen : ℕ) × (window : Option ℕ) × (span : Span) × (searcher.search
          (taken ++ rest) freshlen window
        ≡ some span)
      × (span.index ≡ index)
      × (span.end ≡ length taken))
    ⊎ (searcher.eof_index ≡ some index)
    ⊎ ((searcher.timeout_index ≡ some index) × (taken ≡ []))

-- Each call of `expect_loop` has heard something of its own.
abbrev pub Hears : List Call → List Heard → Type 0
Hears [] [] = Unit
Hears (say s ∷ calls) heard = Hears calls heard
Hears (hear searcher timeout arg ∷ calls) (h ∷ heard) =
    IsHeard searcher h.index h.taken × Hears calls heard
Hears [] (h ∷ heard) = ⊥
Hears (hear searcher timeout arg ∷ calls) [] = ⊥

-- What a script has done between `m` and `n`.
pub record HasTalked (F : Type 0) (m : Machine) (calls : List Call) (heard : List Heard)
    (n : Machine) : Type 0 where
  pub taken : Taken m (heard_text heard) n
  pub hears : Hears calls heard
  pub lines : List Bytes
  pub said : IsSaid F calls lines
  pub wire : WroteAll F (m.world.written ++ lines) m.world.fd_open n

-- What a failing call leaves: nothing or a front of a line is written, and a call of `expect_loop` writes nothing
-- and accounts for the text.
abbrev pub Breaks : Type 0 → Machine → Call → Option Exn → Machine → Type 0
Breaks F k (say s) e n = LineFailed F k.world.written k.world.fd_open s e n
Breaks F k (hear searcher timeout arg) e n =
    Fails searcher (window_or_default arg k.self.searchwindowsize) k.world k.self.buffer e n
    × WroteAll F k.world.written k.world.fd_open n

-- The script has done some of its calls, and the next one has failed.
pub record IsBroken (F : Type 0) (m : Machine) (calls : List Call) (e : Option Exn) (n : Machine)
    : Type 0 where
  pub past : List Call
  pub next : Call
  pub future : List Call
  pub whole : calls ≡ past ++ next ∷ future
  pub heard : List Heard
  pub at : Machine
  pub talked : HasTalked F m past heard at
  pub breaks : Breaks F at next e n

module _ (F : Type 0) (m : Machine) (full : F → m.world.writes ≡ []) where
  pub nothing-HasTalked : HasTalked F m [] [] m
  nothing-HasTalked = record {
    taken = Taken-nothing m;
    hears = tt;
    lines = [];
    said = refl;
    wire = ((sym (append-nil m.world.written), refl), full);
  }

  -- `sendline` takes nothing.
  pub sendline-IsQuiet : (s : Bytes) → IsQuiet (sendline s)
  unfolding sendline
  sendline-IsQuiet s k = Triple-bind (send s) _ (send-IsQuiet s k) (λ n.
      Triple-bind (send (10 ∷ [])) _ (send-IsQuiet (10 ∷ []) k)
        (λ j. Triple-pure (n + j) (λ v h. h)))

  pub said-HasTalked :
      (s : Bytes) (n : ℕ) (k : Machine)
      → LineSent F m.world.written m.world.fd_open s n k
      → Still m k
      → HasTalked F m (say s ∷ []) [] k
  said-HasTalked s n k (t, u, front, newline, count, opened, all, wire) h = record {
    taken = Taken-Still m m k [] h (Taken-nothing m);
    hears = tt;
    lines = t ∷ u ∷ [];
    said = (front, newline, all, refl);
    wire = wire;
  }

  -- `got` has come, of which, behind the old buffer, the text `t` was taken.
  took :
      (k : Machine) (got t : Bytes)
      → Got m.world got k
      → m.self.buffer ++ got ≡ t ++ k.self.buffer
      → Taken m t k
  took k got t g e = record { got = got; since = g; text = e }

  module _ (searcher : Searching) where
    -- What a call that returns has heard, by the way in which it has returned.
    abbrev Returned : ℕ → Machine → Type 0
    Returned index k =
        Taken m (text_taken k.self.after k.self.before) k
        × IsHeard searcher (some index) (text_taken k.self.after k.self.before)

    matched-Returned :
        (window : Option ℕ) (index : ℕ) (got : Bytes) (k : Machine)
        → Got m.world got k
        → IsMatched searcher window index (m.self.buffer ++ got) k.self
        → Returned index k
    matched-Returned window index got k g h =
        let e =
          ap (λ a. text_taken a k.self.before) h.after
          ∙ ap (λ b. text_taken (matched h.middle) b) h.before in
        let whole = h.whole ∙ ap (λ t. t ++ k.self.buffer) (sym e) in
        (
          took k got _ g whole,
          inl (
            k.self.buffer,
            h.freshlen,
            window,
            h.span,
            subst (λ t. searcher.search t h.freshlen window ≡ some h.span) whole h.found,
            h.index,
            sym h.end ∙ sym (length-append h.front h.middle) ∙ ap length (sym e),
          ),
        )

    IsReturned-Returned :
        (window : Option ℕ) (index : ℕ) (got : Bytes) (k : Machine)
        → Got m.world got k
        → IsReturned searcher window index (m.self.buffer ++ got) k.self
        → Returned index k
    IsReturned-Returned window index got k g (inl h) = matched-Returned window index got k g h
    IsReturned-Returned window index got k g
          (inr (inl (i, (missed, buffer, before, after, place, value)))) =
        let e =
          ap (λ a. text_taken a k.self.before) after ∙ ap (λ b. text_taken eof_class b) before in
        (
          took k got _ g (
              sym (append-nil (m.self.buffer ++ got))
              ∙ ap (λ t. m.self.buffer ++ got ++ t) (sym buffer)
              ∙ ap (λ t. t ++ k.self.buffer) (sym e)),
          inr (inl i),
        )
    IsReturned-Returned window index got k g
          (inr (inr (i, (missed, buffer, before, after, place, value)))) =
        let e = ap (λ a. text_taken a k.self.before) after in
        (took k got _ g (sym buffer ∙ ap (λ t. t ++ k.self.buffer) (sym e)), inr (inr (i, e)))

  module _ (searcher : Searching) (timeout : Option ℤ) (arg : WindowArg) where
    abbrev chosen_window : Option ℕ
    chosen_window = window_or_default arg m.self.searchwindowsize

    -- `expect_loop` writes nothing.
    pub listen-Triple :
        Triple
          (λ k. k ≡ m)
          (expect_loop searcher timeout arg)
          (λ index k.
            Returns searcher chosen_window m.world m.self.buffer index k
            × WroteAll F m.world.written m.world.fd_open k)
          (λ e k. Breaks F m (hear searcher timeout arg) e k)
    listen-Triple =
        Triple-from
          (λ k e.
            subst
              (λ v.
                Base m.world m.self.buffer m.self.searchwindowsize v
                × WroteAll F m.world.written m.world.fd_open v)
              (sym e) ((refl, refl, refl), ((refl, refl), full)))
          (Triple-both (expect_loop searcher timeout arg)
            (expect_loop-Triple searcher timeout arg m)
            (Keeps-Triple
              (expect_loop-Hushed F m.world.written m.world.fd_open searcher timeout arg)))

    pub heard-HasTalked :
        (index : Option ℕ) (k : Machine)
        → Returns searcher chosen_window m.world m.self.buffer index k
        → WroteAll F m.world.written m.world.fd_open k
        → HasTalked F m
            (hear searcher timeout arg ∷ [])
            (record { index = index; taken = text_taken k.self.after k.self.before } ∷ [])
            k
    heard-HasTalked none k h w = elim h [ ]
    heard-HasTalked (some index) k (got, g, h) w =
        let (t, i) = IsReturned-Returned searcher chosen_window index got k g h in
        record {
          taken = subst (λ t. Taken m t k) (sym (append-nil _)) t;
          hears = (i, tt);
          lines = [];
          said = refl;
          wire = subst (λ l. WroteAll F l m.world.fd_open k) (sym (append-nil m.world.written)) w;
        }
