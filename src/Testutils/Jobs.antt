-- ===== src/Testutils/Jobs.antt =====
-- What `parse_job_line` returns of the output of the shell.
use custom_shell.Prelude.{
  ℕ, List, [], ◌∷◌, ◌++◌, Bytes, Option, none, some, ◌≡◌, ◌≢◌, refl, sym, ◌∙◌, ap, subst,
}
use custom_shell.Python.Exec.{Outcome, ok, pure, gets, ◌>>=◌}
use custom_shell.Python.Exec.Triple.{Triple, Post, Triple-bind}
use custom_shell.Python.Regex.{group_value}
use custom_shell.Pexpect.Machine.{match_of, Machine, M, self}
use custom_shell.Pexpect.Expect.Received.{Got}
use custom_shell.Pexpect.Streams.Sought.{IsSought}
use custom_shell.OutputSpec.{job_status_regex, jobs_status_msg}
use custom_shell.Testutils.{
  minus_one, group_values, regex2tuple, expect_regex, JobStatus, status_name, to_job_status,
  parse_job_line,
}
use custom_shell.Testutils.Single.{IsSingle, SingleFails, single-IsSingle}
use custom_shell.Testutils.Texts.{sought-IsMatch, IsNumber}
use custom_shell.Testutils.Parsed.{IsCutAt, sought-IsCutAt}
use custom_shell.Testutils.JobTexts.{
  job_text, IsGap, IsWord, IsMark, job-Eats, IsNamed, status_name-IsNamed,
}

module _ (m : Machine) where
  -- A line about a job was found.
  pub record IsJobStatus (j : JobStatus) (n : Machine) : Type 0 where
    pub mark : Bytes
    pub gap : Bytes
    pub word : Bytes
    pub blanks : Bytes
    pub id_number : IsNumber j.id
    pub one_mark : IsMark mark
    pub some_gap : IsGap gap
    pub some_word : IsWord word
    pub some_blanks : IsGap blanks
    pub some_command : j.command ≢ []
    pub named : IsNamed word j.status
    pub cut : IsCutAt m (job_text j.id mark gap word blanks j.command) n

  abbrev job_values : M (List Bytes)
  job_values = do s ← self; regex2tuple s.match

  job_values-run :
      (jid word cmd : Bytes) (n : Machine)
      → n.self.match ≡ match_of ((3, cmd) ∷ (2, word) ∷ (1, jid) ∷ [])
      → job_values n ≡ (ok (jid ∷ word ∷ cmd ∷ []), n)
  unfolding self gets regex2tuple group_values group_value ◌>>=◌ pure
  job_values-run jid word cmd n e = rw e refl

  abbrev HasJobValues : List Bytes → Machine → Type 0
  HasJobValues values n =
      (jid : Bytes) × (word : Bytes) × (cmd : Bytes) × (values ≡ jid ∷ word ∷ cmd ∷ [])
      × IsJobStatus (record { id = jid; status = status_name word jobs_status_msg; command = cmd })
          n

  job_values-HasJobValues :
      (n : Machine) (got : Bytes)
      → Got m.world got n
      → IsSought job_status_regex (m.self.buffer ++ got) n.self
      → Post HasJobValues (SingleFails job_status_regex m) (job_values n).0 (job_values n).1
  job_values-HasJobValues n got g h =
      let k = sought-IsMatch job_status_regex _ n.self h in
      let p = job-Eats k.first k.last k.denotes in
      subst
        (λ (r : Outcome (List Bytes) × Machine).
          Post HasJobValues (SingleFails job_status_regex m) r.0 r.1)
        (sym (
          job_values-run p.jid p.word p.cmd n (
            h.match
            ∙ ap match_of (
                k.groups
                ∙ p.groups
                ∙ ap (λ l. (3, p.cmd) ∷ (2, p.word) ∷ (1, p.jid) ∷ l) k.fresh))))
        (
          p.jid,
          p.word,
          p.cmd,
          refl,
          record {
            mark = p.mark;
            gap = p.gap;
            word = p.word;
            blanks = p.blanks;
            id_number = p.jid_number;
            one_mark = p.one_mark;
            some_gap = p.some_gap;
            some_word = p.some_word;
            some_blanks = p.some_blanks;
            some_command = p.some_cmd;
            named = status_name-IsNamed p.word;
            cut =
                sought-IsCutAt job_status_regex m n got _ g h
                  (k.eats (job_text p.jid p.mark p.gap p.word p.blanks p.cmd) p.eats);
          },
        )

  index-HasJobValues :
      (index : Option ℕ)
      → Triple
          (IsSingle job_status_regex m index)
          job_values
          HasJobValues
          (SingleFails job_status_regex m)
  index-HasJobValues none = record { run = λ n h. elim h [ ] }
  index-HasJobValues (some index) = record {
    run = λ n h. job_values-HasJobValues n h.1.0 h.1.1 h.1.2;
  }

  three-IsJobStatus :
      (jid word cmd : Bytes) (n : Machine)
      → IsJobStatus
          (record { id = jid; status = status_name word jobs_status_msg; command = cmd })
          n
      → Post IsJobStatus
          (SingleFails job_status_regex m)
          (to_job_status (jid ∷ word ∷ cmd ∷ []) n).0
          (to_job_status (jid ∷ word ∷ cmd ∷ []) n).1
  unfolding to_job_status pure
  three-IsJobStatus jid word cmd n h = h

  to_job_status-IsJobStatus :
      (values : List Bytes)
      → Triple
          (HasJobValues values)
          (to_job_status values)
          IsJobStatus
          (SingleFails job_status_regex m)
  to_job_status-IsJobStatus values = record {
    run = λ n h.
        subst
          (λ vs.
            Post IsJobStatus (SingleFails job_status_regex m) (to_job_status vs n).0
              (to_job_status vs n).1)
          (sym h.3) (three-IsJobStatus h.0 h.1 h.2 n h.4);
  }

  -- Where `parse_job_line` returns, the text that has come holds a line `[id] word (command)`, with one
  -- byte or none behind the bracket and some blanks around the word: it is taken off the buffer with all
  -- that stands before it, which is in `before`. The id is a number, the command is not empty, and the
  -- status is `stopped` for the word `Stopped`, `running` for `Running`, and the word itself for any other.
  -- Otherwise `expect` has raised, or does not return; the three groups have always matched.
  pub parse_job_line-IsJobStatus :
      Post IsJobStatus (SingleFails job_status_regex m) (parse_job_line m).0 (parse_job_line m).1
  unfolding parse_job_line
  parse_job_line-IsJobStatus =
      (Triple-bind (expect_regex job_status_regex) _
          (Triple-bind _ _ (single-IsSingle job_status_regex minus_one m) index-HasJobValues)
          to_job_status-IsJobStatus).run
        m refl
