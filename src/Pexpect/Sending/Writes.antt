-- ===== src/Pexpect/Sending/Writes.antt =====
-- What is written to the child.
use custom_shell.Prelude.{
  ℕ, suc, ◌+◌, List, [], ◌∷◌, ◌++◌, append_assoc, append-nil, Bytes, Option, none, some, length,
  take, drop, take-append-drop, ◌≡◌, refl, Bool, true, false, if◌then◌else◌, ap, ◌∙◌, sym, ◌⊎◌, inl,
  inr, arith,
}
use custom_shell.Python.Exec.{Exn, os_error, pure, raise, block, gets, modify, ◌>>=◌}
use custom_shell.Python.Exec.Triple.{
  Triple, Post, Triple-pure, Triple-bind, Triple-if, Triple-gets, Triple-modify, Triple-to,
}
use custom_shell.Pexpect.Machine.{Write, accepted, stuck, Spawn, Machine, self, world, set_world}
use custom_shell.Pexpect.Kernel.{sleep}
use custom_shell.Pexpect.Sending.{put_text, os_write, log_send, send, sendline}

-- What was written, and whether the descriptor is open.
abbrev pub Wrote : List Bytes → Bool → Machine → Type 0
Wrote l b m = (m.world.written ≡ l) × (m.world.fd_open ≡ b)

abbrev pub IsFront : Bytes → Bytes → Type 0
IsFront t s = (rest : Bytes) × (s ≡ t ++ rest)

-- `F` says that the kernel takes all that is written.
module _ (F : Type 0) where
  abbrev pub WroteAll : List Bytes → Bool → Machine → Type 0
  WroteAll l b m = Wrote l b m × (F → m.world.writes ≡ [])

  -- Nothing was written: EBADF where the descriptor is closed, or what the kernel answers.
  abbrev pub Failed : List Bytes → Bool → Option Exn → Machine → Type 0
  Failed l b none m = (m.world.written ≡ l) × (b ≡ true) × (F → ⊥)
  Failed l b (some e) m =
      (m.world.written ≡ l)
      × ((errno : ℕ) × (e ≡ os_error errno) × (b ≡ false → errno ≡ 9))
      × (F → b ≡ false)

  -- A front of the text was written, and all of it where the kernel takes all.
  abbrev pub Sent : List Bytes → Bool → Bytes → ℕ → Machine → Type 0
  Sent l b s n m =
      (t : Bytes) × IsFront t s
      × (n ≡ length t)
      × (b ≡ true)
      × (F → t ≡ s)
      × WroteAll (l ++ t ∷ []) b m

  -- The outcome of `sendline`, where `l` was written before.
  abbrev pub LineSent : List Bytes → Bool → Bytes → ℕ → Machine → Type 0
  LineSent l b s n m =
      (t : Bytes) × (u : Bytes) × IsFront t s
      × IsFront u (10 ∷ [])
      × (n ≡ length t + length u)
      × (b ≡ true)
      × (F → (t ≡ s) × (u ≡ 10 ∷ []))
      × WroteAll (l ++ t ∷ u ∷ []) b m

  -- The first or the second `send` has failed.
  abbrev pub LineFailed : List Bytes → Bool → Bytes → Option Exn → Machine → Type 0
  LineFailed l b s e m =
      Failed l b e m
      ⊎ ((t : Bytes) × IsFront t s × (b ≡ true) × (F → t ≡ s) × Failed (l ++ t ∷ []) b e m)

  module _ (l : List Bytes) (b : Bool) where
    log_if-Wrote :
        (c : Bool) (s : Bytes)
        → Triple
            (WroteAll l b)
            (if c then set_world (λ w. record w { logged = w.logged ++ s ∷ [] }) else pure tt)
            (λ _. WroteAll l b)
            (Failed l b)
    unfolding set_world
    log_if-Wrote c s =
        Triple-if c _ _ (λ _. Triple-modify _ (λ m h. h)) (λ _. Triple-pure tt (λ m h. h))

    self-Wrote : Triple (WroteAll l b) self (λ _. WroteAll l b) (Failed l b)
    unfolding self
    self-Wrote = Triple-gets _ (λ m h. h)

    log_send-Wrote :
        (s : Bytes) → Triple (WroteAll l b) (log_send s) (λ _. WroteAll l b) (Failed l b)
    unfolding log_send
    log_send-Wrote s = Triple-bind self _ self-Wrote (λ (o : Spawn).
        Triple-bind _ _ (log_if-Wrote o.logfile s) (λ _. log_if-Wrote o.logfile_send s))

    sleep-Wrote : (d : ℕ) → Triple (WroteAll l b) (sleep d) (λ _. WroteAll l b) (Failed l b)
    unfolding sleep set_world
    sleep-Wrote d = Triple-modify _ (λ m h. h)

    put_text-Sent :
        (s : Bytes) (answers : List Write) (m : Machine)
        → m.world.writes ≡ answers
        → m.world.fd_open ≡ true
        → WroteAll l b m
        → Post (Sent l b s) (Failed l b) (put_text s answers m).0 (put_text s answers m).1
    unfolding put_text set_world modify ◌>>=◌ pure raise block
    put_text-Sent s [] m e o h = (
      s,
      ([], sym (append-nil s)),
      refl,
      sym h.0.1 ∙ o,
      (λ f. refl),
      ((ap (λ x. x ++ s ∷ []) h.0.0, h.0.1), (λ f. refl)),
    )
    put_text-Sent s (accepted n ∷ rest) m e o h = (
      take (suc n) s,
      (drop (suc n) s, sym (take-append-drop (suc n) s)),
      refl,
      sym h.0.1 ∙ o,
      (λ f. absurd (taken (sym e ∙ h.1 f))),
      ((ap (λ x. x ++ take (suc n) s ∷ []) h.0.0, h.0.1), (λ f. absurd (taken (sym e ∙ h.1 f)))),
    )
      where
        taken : (accepted n ∷ rest) ≡ [] → ⊥
        taken x = cc
    put_text-Sent s (Write.failed errno ∷ rest) m e o h = (
      h.0.0,
      (errno, refl, (λ c. absurd (not_open (sym c ∙ sym h.0.1 ∙ o)))),
      (λ f. absurd (refused (sym e ∙ h.1 f))),
    )
      where
        not_open : false ≡ true → ⊥
        not_open x = cc

        refused : (Write.failed errno ∷ rest) ≡ [] → ⊥
        refused x = cc
    put_text-Sent s (stuck ∷ rest) m e o h =
        (h.0.0, sym h.0.1 ∙ o, (λ f. absurd (never (sym e ∙ h.1 f))))
      where
        never : (stuck ∷ rest) ≡ [] → ⊥
        never x = cc

    os_write-Sent : (s : Bytes) → Triple (WroteAll l b) (os_write s) (Sent l b s) (Failed l b)
    unfolding os_write world gets ◌>>=◌ raise
    os_write-Sent s = record { run = λ m h. go m h m.world.fd_open refl }
      where
        go :
            (m : Machine)
            → WroteAll l b m
            → (o : Bool) → m.world.fd_open ≡ o
            → Post
                (Sent l b s)
                (Failed l b)
                ((if o then put_text s m.world.writes else raise (os_error 9)) m).0
                ((if o then put_text s m.world.writes else raise (os_error 9)) m).1
        go m h true e = put_text-Sent s m.world.writes m refl e h
        go m h false e = (h.0.0, (9, refl, (λ c. refl)), (λ f. sym h.0.1 ∙ e))

    pub send-Sent : (s : Bytes) → Triple (WroteAll l b) (send s) (Sent l b s) (Failed l b)
    unfolding send
    send-Sent s = Triple-bind self _ self-Wrote (λ (o : Spawn).
        Triple-bind _ _ (sleep-Wrote o.delaybeforesend)
          (λ _. Triple-bind _ _ (log_send-Wrote s) (λ _. os_write-Sent s)))

  module _ (l : List Bytes) (b : Bool) where
    newline-LineSent :
        (s t : Bytes) (n : ℕ)
        → IsFront t s
        → n ≡ length t
        → b ≡ true
        → (F → t ≡ s)
        → Triple
            (WroteAll (l ++ t ∷ []) b)
            (do k ← send (10 ∷ []); pure (n + k))
            (LineSent l b s)
            (LineFailed l b s)
    newline-LineSent s t n front count opened all =
        Triple-bind {E = LineFailed l b s} (send (10 ∷ [])) _
          (Triple-to (send-Sent (l ++ t ∷ []) b (10 ∷ [])) (λ k m h. h)
            (λ e m h. inr (t, front, opened, all, h)))
          (λ k. Triple-pure (n + k) (λ m (u, newline, rest, o, both, x). (
            t,
            u,
            front,
            newline,
            omega (arith, count, rest),
            opened,
            (λ f. (all f, both f)),
            ((x.0.0 ∙ append_assoc l (t ∷ []) (u ∷ []), x.0.1), x.1),
          )))

    pub sendline-LineSent :
        (s : Bytes) → Triple (WroteAll l b) (sendline s) (LineSent l b s) (LineFailed l b s)
    unfolding sendline
    sendline-LineSent s =
        Triple-bind {E = LineFailed l b s} (send s) _
          (Triple-to (send-Sent l b s) (λ n m h. h) (λ e m h. inl h))
          (λ n. record {
            run = λ m (t, front, count, opened, all, h).
                (newline-LineSent s t n front count opened all).run m h;
          })

-- `sendline` returns how many bytes the two calls of `os.write` have taken: a front of the line, and the
-- newline or nothing of it, written one after the other to an open descriptor. If it raises, it raises
-- an `OSError`: then nothing has been written, or the line's part but no newline; it is EBADF, with
-- nothing written, where the descriptor is closed. Where it does not return, the descriptor is open and
-- what was written is one of these. If the kernel takes all that is written, the line is
-- written whole and its newline behind it, and the call fails only for a closed descriptor.
pub sendline-Writes :
    (s : Bytes) (m : Machine)
    → Post
        (LineSent (m.world.writes ≡ []) m.world.written m.world.fd_open s)
        (LineFailed (m.world.writes ≡ []) m.world.written m.world.fd_open s)
        (sendline s m).0
        (sendline s m).1
sendline-Writes s m =
    (sendline-LineSent (m.world.writes ≡ []) m.world.written m.world.fd_open s).run m
      ((refl, refl), (λ f. f))
