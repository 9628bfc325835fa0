-- ===== src/Scripts/Moves.antt =====
-- What a single call of a script does.
use custom_shell.Prelude.{
  ℕ, Bool, true, false, if◌then◌else◌, List, [], ◌∷◌, ◌++◌, append-nil, Bytes, Option, none, some,
  ◌≡◌, inl, inr, refl, sym, ap, ◌∙◌, subst,
}
use custom_shell.Python.Exec.{Exn, termios_error, pure, raise, gets, ◌>>=◌}
use custom_shell.Python.Exec.Triple.{
  Triple, Post, Triple-pure, Triple-bind, Triple-from, Triple-to, Triple-both,
}
use custom_shell.Python.Regex.{Regex, literal}
use custom_shell.Python.Regex.Classes.{literal-Eats}
use custom_shell.Pexpect.Machine.{Spawn, Machine, M, world}
use custom_shell.Pexpect.Expect.{Searching, WindowArg, window_of, default_window, expect_loop}
use custom_shell.Pexpect.Expect.Received.{Got}
use custom_shell.Pexpect.Expect.Outcomes.{Returns}
use custom_shell.Pexpect.Expect.Taken.{Taken, Taken-nothing}
use custom_shell.Pexpect.Patterns.{searching_string, expect, expect_exact}
use custom_shell.Pexpect.Streams.Sought.{IsSought}
use custom_shell.Pexpect.Running.Matches.{Taken-Still}
use custom_shell.Pexpect.Sending.{
  Special, undefined, char, unknown, tcgetattr, send, sendline, sendeof,
}
use custom_shell.Pexpect.Sending.Quiet.{Still, IsQuiet, send-IsQuiet}
use custom_shell.Pexpect.Sending.Writes.{WroteAll, Sent, send-Sent, sendline-LineSent}
use custom_shell.Pexpect.Dialogue.Calls.{sendline-IsQuiet, listen-Triple}
use custom_shell.OutputSpec.{prompt}
use custom_shell.Testutils.{minus_one, assert_zero, expect_line, expect_exact_line, expect_prompt}
use custom_shell.Testutils.Single.{one, IsSingle, Returns-IsSingle, assert_zero-Triple}
use custom_shell.Testutils.Texts.{sought-IsMatch, prompt_text, prompt-Eats}
use custom_shell.Scripts.{
  Move, sends, awaits_prompt, awaits_match, awaits_exact, sends_eof, make_move,
}
use custom_shell.Scripts.Exact.{exact, exact-no_eof, exact-no_timeout, matched-exact}
use custom_shell.Scripts.Passed.{
  EndsIn, IsPromptText, Hears, eof_byte, Types, EofFails, Breaks, Stops, Made,
}

module _ (F : Type 0) (m : Machine) (full : F → m.world.writes ≡ []) where
  -- A call took a text that ends with what was awaited, and wrote nothing.
  abbrev Awaited : (Bytes → Type 0) → Machine → Type 0
  Awaited P n =
      (t : Bytes) × Taken m t n × EndsIn P t × WroteAll F m.world.written m.world.fd_open n

  found-Awaited :
      (P : Bytes → Type 0) (n : Machine) (got front found : Bytes)
      → Got m.world got n
      → m.self.buffer ++ got ≡ front ++ found ++ n.self.buffer
      → P found
      → WroteAll F m.world.written m.world.fd_open n
      → Awaited P n
  found-Awaited P n got front found g e p w =
      (front ++ found, record { got = got; since = g; text = e }, (front, found, p, refl), w)

  -- The call of `expect_loop`, and the assertion on its index.
  module _ (P : Bytes → Type 0) (searcher : Searching) (arg : WindowArg) (window : Option ℕ) where
    abbrev Listened : Option ℕ → Machine → Type 0
    Listened index n = (index ≡ some 0) × Awaited P n

    Awaited-Triple :
        ((index : Option ℕ) (n : Machine)
          → Returns searcher window m.world m.self.buffer index n
          → WroteAll F m.world.written m.world.fd_open n
          → Listened index n)
        → Triple
            (λ k. k ≡ m)
            (expect_loop searcher minus_one arg)
            (λ index n.
              Returns searcher window m.world m.self.buffer index n
              × WroteAll F m.world.written m.world.fd_open n)
            (Breaks F (some searcher) window m)
        → Triple
            (λ k. k ≡ m)
            (expect_loop searcher minus_one arg >>= assert_zero)
            (λ _. Awaited P)
            (Breaks F (some searcher) window m)
    Awaited-Triple h listens =
        Triple-bind _ _ (Triple-to listens (λ index n x. h index n x.0 x.1) (λ e n b. b)) (λ index.
          Triple-to (assert_zero-Triple Listened _ (λ i n x. x.0) index) (λ u n x. x.1)
            (λ e n b. b))

  module _ (P : Bytes → Type 0) (r : Regex)
      (means : (incoming : Bytes) (s : Spawn) (h : IsSought r incoming s) → P h.middle) where
    IsSingle-Listened :
        (index : Option ℕ) (n : Machine)
        → IsSingle r m index n
        → WroteAll F m.world.written m.world.fd_open n
        → Listened P (one r) (window_of none) none index n
    IsSingle-Listened none n h w = elim h [ ]
    IsSingle-Listened (some index) n (e, (got, g, h)) w =
        (ap some e, found-Awaited P n got h.front h.middle g h.whole (means _ n.self h) w)

    expect_line-Triple :
        Triple (λ k. k ≡ m) (expect_line r) (λ _. Awaited P) (Breaks F (some (one r)) none m)
    unfolding expect_line expect
    expect_line-Triple =
        Awaited-Triple P (one r) (window_of none) none
          (λ index n x w. IsSingle-Listened index n (Returns-IsSingle r m index n x) w)
          (listen-Triple F m full (one r) minus_one (window_of none))

  module _ (s : Bytes) where
    Returns-Listened :
        (window : Option ℕ) (index : Option ℕ) (n : Machine)
        → Returns (searching_string (exact s)) window m.world m.self.buffer index n
        → WroteAll F m.world.written m.world.fd_open n
        → Listened (λ t. t ≡ s) (searching_string (exact s)) default_window window index n
    Returns-Listened window none n h w = elim h [ ]
    Returns-Listened window (some index) n (got, g, inl h) w =
        let (zeroth, text) = matched-exact s window index _ n.self h in
        (ap some zeroth, found-Awaited (λ t. t ≡ s) n got h.front h.middle g h.whole text w)
    Returns-Listened window (some index) n (got, g, inr (inl (e, h))) w =
        absurd (cc (exact-no_eof s))
    Returns-Listened window (some index) n (got, g, inr (inr (e, h))) w =
        absurd (cc (exact-no_timeout s))

    exact-Triple :
        Triple
          (λ k. k ≡ m)
          (expect_exact_line s)
          (λ _. Awaited (λ t. t ≡ s))
          (Breaks F (some (searching_string (exact s))) m.self.searchwindowsize m)
    unfolding expect_exact_line expect_exact
    exact-Triple =
        Awaited-Triple (λ t. t ≡ s) (searching_string (exact s)) default_window
          m.self.searchwindowsize (Returns-Listened m.self.searchwindowsize)
          (listen-Triple F m full (searching_string (exact s)) minus_one default_window)

  -- What only writes takes nothing.
  written-Made :
      (veof : Special) (move : Move) (n : Machine) (lines : List Bytes)
      → Hears move []
      → Types F veof move lines
      → WroteAll F (m.world.written ++ lines) m.world.fd_open n
      → Still m n
      → Made F veof m move n
  written-Made veof move n lines h t w k = record {
    text = [];
    taken = Taken-Still m m n [] k (Taken-nothing m);
    hears = h;
    lines = lines;
    typed = t;
    wire = w;
  }

  -- From `m`, what a method writes and that it takes nothing.
  quiet-Triple :
      {A : Type 0} (act : M A) (R : A → Machine → Type 0) (E : Option Exn → Machine → Type 0)
      → Triple (WroteAll F m.world.written m.world.fd_open) act R E
      → IsQuiet act
      → Triple (λ k. k ≡ m) act (λ a n. R a n × Still m n) E
  quiet-Triple act R E h q =
      Triple-from
        (λ k e.
          subst (λ v. WroteAll F m.world.written m.world.fd_open v × Still m v) (sym e)
            (((refl, refl), full), (refl, refl, refl)))
        (Triple-to (Triple-both act h (q m)) (λ a n x. x) (λ e n x. x.0))

  send-Typed :
      (veof : Special) (c : ℕ)
      → Triple
          (λ k. k ≡ m)
          (send (c ∷ []))
          (λ n k. Sent F m.world.written m.world.fd_open (c ∷ []) n k × Still m k)
          (EofFails F m)
  send-Typed veof c =
      Triple-to
        (quiet-Triple (send (c ∷ [])) _ _ (send-Sent F m.world.written m.world.fd_open (c ∷ []))
          (send-IsQuiet (c ∷ [])))
        (λ n k h. h) (λ e k h. inr h)

  same_wire : (k : Machine) → k ≡ m → EofFails F m (some termios_error) k
  same_wire k e = inl (
    refl,
    (
      (ap (λ (v : Machine). v.world.written) e, ap (λ (v : Machine). v.world.fd_open) e),
      (λ f. ap (λ (v : Machine). v.world.writes) e ∙ full f),
    ),
  )

  tcgetattr-Same :
      (veof : Special)
      → Triple (λ k. k ≡ m) (tcgetattr veof 4) (λ c k. (c ≡ eof_byte veof) × (k ≡ m)) (EofFails F m)
  unfolding tcgetattr world gets ◌>>=◌ pure raise
  tcgetattr-Same undefined = record { run = λ k e. (refl, e) }
  tcgetattr-Same (char c) = record { run = λ k e. read k e k.world.fd_open }
    where
      read :
          (k : Machine)
          → k ≡ m
          → (b : Bool)
          → Post
              (λ d n. (d ≡ c) × (n ≡ m))
              (EofFails F m)
              ((if b then pure c else raise termios_error) k).0
              ((if b then pure c else raise termios_error) k).1
      read k e true = (refl, e)
      read k e false = same_wire k e
  tcgetattr-Same unknown = record { run = λ k e. same_wire k e }

  sendeof-Triple :
      (veof : Special)
      → Triple
          (λ k. k ≡ m)
          (sendeof veof)
          (λ n k. Sent F m.world.written m.world.fd_open (eof_byte veof ∷ []) n k × Still m k)
          (EofFails F m)
  unfolding sendeof
  sendeof-Triple veof = Triple-bind (tcgetattr veof 4) _ (tcgetattr-Same veof) (λ c. record {
    run = λ k h.
        (subst
            (λ d.
              Triple (λ k. k ≡ m) (send (d ∷ []))
                (λ n k. Sent F m.world.written m.world.fd_open (eof_byte veof ∷ []) n k × Still m k)
                (EofFails F m))
            (sym h.0) (send-Typed veof (eof_byte veof))).run
          k h.1;
  })

  Awaited-Made :
      (veof : Special) (move : Move) (P : Bytes → Type 0) (n : Machine)
      → ((t : Bytes) → EndsIn P t → Hears move t)
      → Types F veof move []
      → Awaited P n
      → Made F veof m move n
  Awaited-Made veof move P n h e (t, taken, ends, w) = record {
    text = t;
    taken = taken;
    hears = h t ends;
    lines = [];
    typed = e;
    wire = subst (λ l. WroteAll F l m.world.fd_open n) (sym (append-nil m.world.written)) w;
  }

  prompt-means :
      (incoming : Bytes) (s : Spawn) (h : IsSought prompt incoming s) → IsPromptText h.middle
  prompt-means incoming s h =
      let k = sought-IsMatch prompt incoming s h in
      let (u, v, hu, hv, e) = prompt-Eats k.first k.last k.denotes in
      (u, v, hu, hv, k.eats (prompt_text u v) e)

  literal-means :
      (t incoming : Bytes) (s : Spawn) (h : IsSought (literal t) incoming s) → h.middle ≡ t
  literal-means t incoming s h =
      let k = sought-IsMatch (literal t) incoming s h in
      k.eats t (literal-Eats t k.first k.last k.denotes).eats

  pub make_move-Made :
      (veof : Special) (move : Move)
      → Triple (λ k. k ≡ m) (make_move veof move) (λ _. Made F veof m move) (Stops F veof move m)
  unfolding make_move expect_prompt
  make_move-Made veof (sends s) =
      Triple-bind (sendline s) _
        (quiet-Triple (sendline s) _ _ (sendline-LineSent F m.world.written m.world.fd_open s)
          (sendline-IsQuiet F m full s))
        (λ i. Triple-pure tt (λ n ((t, u, front, newline, count, opened, all, w), k).
          written-Made veof (sends s) n (t ∷ u ∷ []) refl (front, newline, all) w k))
  make_move-Made veof awaits_prompt =
      Triple-to (expect_line-Triple IsPromptText prompt prompt-means)
        (λ u n h. Awaited-Made veof awaits_prompt IsPromptText n (λ t k. k) refl h) (λ e n b. b)
  make_move-Made veof (awaits_match s) =
      Triple-to (expect_line-Triple (λ t. t ≡ s) (literal s) (literal-means s))
        (λ u n h. Awaited-Made veof (awaits_match s) (λ t. t ≡ s) n (λ t k. k) refl h) (λ e n b. b)
  make_move-Made veof (awaits_exact s) =
      Triple-to (exact-Triple s)
        (λ u n h. Awaited-Made veof (awaits_exact s) (λ t. t ≡ s) n (λ t k. k) refl h) (λ e n b. b)
  make_move-Made veof sends_eof = Triple-bind (sendeof veof) _ (sendeof-Triple veof) (λ i.
      Triple-pure tt (λ n ((t, front, count, opened, all, w), k).
        written-Made veof sends_eof n (t ∷ []) refl (front, all) w k))
