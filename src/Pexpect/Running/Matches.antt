-- ===== src/Pexpect/Running/Matches.antt =====
-- One search of `run`, and its responses.
use custom_shell.Prelude.{
  ℕ, ◌<◌, false, List, [], ◌∷◌, ◌++◌, Bytes, Option, none, some, length, length-append, ◌≡◌, inl,
  inr, sym, ◌∙◌, ap, subst, arith,
}
use custom_shell.Prelude.Int.{negsuc}
use custom_shell.Python.Exec.{Exn, Outcome, ok, ◌>>=◌, continue}
use custom_shell.Python.Exec.Triple.{Triple, Post, Triple-pure, Triple-bind, Triple-from}
use custom_shell.Python.Regex.{Regex}
use custom_shell.Pexpect.Machine.{matched, Machine}
use custom_shell.Pexpect.Searcher.{Entry}
use custom_shell.Pexpect.SearcherRe.{new_searcher_re}
use custom_shell.Pexpect.Expect.{Span, Searching, window_of}
use custom_shell.Pexpect.Expect.Received.{Received}
use custom_shell.Pexpect.Expect.Outcomes.{Returns, Fails}
use custom_shell.Pexpect.Expect.Account.{expect_loop-Triple}
use custom_shell.Pexpect.Expect.Taken.{bytes_left, Taken, Taken-fewer}
use custom_shell.Pexpect.Patterns.{
  Patterns, searching_re, compile_pattern_list, expect_list, expect,
}
use custom_shell.Pexpect.Sending.Quiet.{Still, IsQuiet, send-IsQuiet}
use custom_shell.Pexpect.Running.{string, respond}

-- A string is a quiet response.
pub string-IsQuiet : (t : Bytes) → IsQuiet (respond (string t))
unfolding respond
string-IsQuiet t s = Triple-bind _ _ (send-IsQuiet t s) (λ _. Triple-pure false (λ n h. h))

pub Taken-Still : (m n k : Machine) (t : Bytes) → Still n k → Taken m t n → Taken m t k
Taken-Still m n k t (b, a, r) h = record {
  got = h.got;
  since =
      subst (λ (rs : List _). Received m.world h.got k.world.arrivals rs) (sym r)
        (subst (λ (xs : List _). Received m.world h.got xs n.world.reads) (sym a) h.since);
  text = h.text ∙ ap (λ u. t ++ u) (sym b);
}

pub Still-left : (n k : Machine) → Still n k → bytes_left k ≡ bytes_left n
Still-left n k (b, a, r) = cc

-- All patterns are expressions, and none matches an empty text.
pub record Consumes (patterns : Patterns) : Type 0 where
  pub entries : List (Entry Regex)
  pub compiles : (m : Machine) → compile_pattern_list patterns m ≡ (ok entries, m)
  pub no_eof : (searching_re (new_searcher_re entries)).eof_index ≡ none
  pub no_timeout : (searching_re (new_searcher_re entries)).timeout_index ≡ none
  pub consumes :
      (incoming : Bytes) (freshlen : ℕ) (f : Span)
      → (searching_re (new_searcher_re entries)).search incoming freshlen none ≡ some f
      → f.start < f.end

-- What one search of the run leaves.
module _ (patterns : Patterns) (law : Consumes patterns) where
  abbrev pub searcher : Searching
  searcher = searching_re (new_searcher_re law.entries)

  module _ (m : Machine) where
    abbrev pub Found : Option ℕ → Machine → Type 0
    Found = Returns searcher none m.world m.self.buffer

    abbrev pub Missed : Option Exn → Machine → Type 0
    Missed = Fails searcher none m.world m.self.buffer

    list-Found :
        Triple
          (λ n. n ≡ m)
          (expect_list law.entries (some (negsuc 0)) (window_of none))
          Found
          Missed
    unfolding expect_list
    list-Found =
        Triple-from
          (λ n e. (
            ap (λ (x : Machine). x.world) e,
            ap (λ (x : Machine). x.self.buffer) e,
            ap (λ (x : Machine). x.self.searchwindowsize) e,
          ))
          (expect_loop-Triple searcher (some (negsuc 0)) (window_of none) m)

    pub expect-Found :
        Triple (λ n. n ≡ m) (expect patterns (some (negsuc 0)) (window_of none)) Found Missed
    unfolding expect ◌>>=◌
    expect-Found = record {
      run = λ n e.
          subst
            (λ (r : Outcome (List (Entry Regex)) × Machine).
              Post Found Missed
                (continue r.0 (λ c. expect_list c (some (negsuc 0)) (window_of none)) r.1).0
                (continue r.0 (λ c. expect_list c (some (negsuc 0)) (window_of none)) r.1).1)
            (sym (law.compiles n)) (list-Found.run n e);
    }

    -- A match takes a text that is not empty.
    pub record HasPiece (n : Machine) : Type 0 where
      pub front : Bytes
      pub middle : Bytes
      pub before : n.self.before ≡ some front
      pub after : n.self.after ≡ matched middle
      pub taken : Taken m (front ++ middle) n
      pub fewer : bytes_left n < bytes_left m

    nonempty-fewer :
        (t : Bytes) (n : Machine) → 0 < length t → Taken m t n → bytes_left n < bytes_left m
    nonempty-fewer [] n l h = absurd (omega arith)
    nonempty-fewer (c ∷ t) n l h = Taken-fewer c t m n h

    pub Found-HasPiece : (index : ℕ) (n : Machine) → Found (some index) n → HasPiece n
    Found-HasPiece index n (got, g, inl h) =
        let taken : Taken m (h.front ++ h.middle) n = record {
          got = got;
          since = g;
          text = h.whole;
        } in
        record {
          front = h.front;
          middle = h.middle;
          before = h.before;
          after = h.after;
          taken = taken;
          fewer =
              nonempty-fewer (h.front ++ h.middle) n
                (omega (
                  arith,
                  law.consumes (m.self.buffer ++ got) h.freshlen h.span h.found,
                  h.start,
                  h.end,
                  length-append h.front h.middle,
                ))
                taken;
        }
    Found-HasPiece index n (got, g, inr (inl (e, h))) = absurd (cc (law.no_eof, e))
    Found-HasPiece index n (got, g, inr (inr (e, h))) = absurd (cc (law.no_timeout, e))
