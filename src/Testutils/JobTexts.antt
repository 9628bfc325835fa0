-- ===== src/Testutils/JobTexts.antt =====
-- The text of a line about a job, as the expression of the output specification matches it.
use custom_shell.Prelude.{
  ℕ, true, false, [], ◌∷◌, ◌++◌, Bytes, codes, ◌≡◌, ◌≢◌, ◌⊎◌, inl, inr, refl, sym, ◌∙◌, ap,
  bytes_eq, bytes_eq_sound, bytes_eq_refl, Bool-cases,
}
use custom_shell.Python.Text.{is_space, is_digit}
use custom_shell.Python.Regex.{Cursor, byte, alt, empty}
use custom_shell.Python.Regex.Language.{Denotes}
use custom_shell.Python.Regex.Classes.{
  AllIn, Eats, Eats-trans, EatsPlain, byte-Eats, some_of-Eats, literal-Eats, group-Eats,
}
use custom_shell.OutputSpec.{is_dark, job_status_regex, jobs_status_msg}
use custom_shell.Testutils.{status_name}
use custom_shell.Testutils.Texts.{IsNumber}

-- The text of a line about a job: between the bracket and the status stand a mark, or nothing, and blanks.
abbrev pub job_text : Bytes → Bytes → Bytes → Bytes → Bytes → Bytes → Bytes
job_text jid mark gap word blanks cmd =
    codes "["
    ++ (jid
        ++ (codes "]"
            ++ (mark ++ (gap ++ (word ++ (blanks ++ (codes "(" ++ (cmd ++ codes ")\r\n"))))))))

abbrev pub IsGap : Bytes → Type 0
IsGap s = (s ≢ []) × AllIn is_space s

abbrev pub IsWord : Bytes → Type 0
IsWord s = (s ≢ []) × AllIn is_dark s

-- At most one byte.
abbrev pub IsMark : Bytes → Type 0
IsMark s = (s ≡ []) ⊎ ((b : ℕ) × (s ≡ b ∷ []))

IsMark-Eats :
    (c d : Cursor)
    → Denotes (alt (byte (λ b. true)) empty) c d
    → (s : Bytes) × IsMark s × EatsPlain c s d
IsMark-Eats c d (inl x) =
    let (b, h, one) = byte-Eats (λ b. true) c d x in (b ∷ [], inr (b, refl), one)
IsMark-Eats c d (inr x) = ([], inl refl, literal-Eats [] c d x)

-- The parts of the text that the expression has matched.
pub record JobParts (c d : Cursor) : Type 0 where
  pub jid : Bytes
  pub mark : Bytes
  pub gap : Bytes
  pub word : Bytes
  pub blanks : Bytes
  pub cmd : Bytes
  pub jid_number : IsNumber jid
  pub one_mark : IsMark mark
  pub some_gap : IsGap gap
  pub some_word : IsWord word
  pub some_blanks : IsGap blanks
  pub some_cmd : cmd ≢ []
  pub eats : Eats c (job_text jid mark gap word blanks cmd) d
  pub groups : d.groups ≡ (3, cmd) ∷ (2, word) ∷ (1, jid) ∷ c.groups

pub job-Eats : (c d : Cursor) → Denotes job_status_regex c d → JobParts c d
job-Eats c d
      (
        c1,
        p1,
        (c2, p2, (c3, p3, (c4, p4, (c5, p5, (c6, p6, (c7, p7, (c8, p8, (c9, p9, p10)))))))),
      ) =
    let h1 = literal-Eats (codes "[") c c1 p1 in
    let (jid, ne1, all1, e2, g2) = group-Eats 1 is_digit c1 c2 p2 in
    let h3 = literal-Eats (codes "]") c2 c3 p3 in
    let (mark, one, h4) = IsMark-Eats c3 c4 p4 in
    let (gap, ne5, all5, h5) = some_of-Eats is_space c4 c5 p5 in
    let (word, ne6, all6, e6, g6) = group-Eats 2 is_dark c5 c6 p6 in
    let (blanks, ne7, all7, h7) = some_of-Eats is_space c6 c7 p7 in
    let h8 = literal-Eats (codes "(") c7 c8 p8 in
    let (cmd, ne9, all9, e9, g9) = group-Eats 3 (λ b. true) c8 c9 p9 in
    let h10 = literal-Eats (codes ")\r\n") c9 d p10 in
    record {
      jid = jid;
      mark = mark;
      gap = gap;
      word = word;
      blanks = blanks;
      cmd = cmd;
      jid_number = (ne1, all1);
      one_mark = one;
      some_gap = (ne5, all5);
      some_word = (ne6, all6);
      some_blanks = (ne7, all7);
      some_cmd = ne9;
      eats = Eats-trans c c1 d _ _ h1.eats (
          Eats-trans c1 c2 d _ _ e2 (
            Eats-trans c2 c3 d _ _ h3.eats (
              Eats-trans c3 c4 d _ _ h4.eats (
                Eats-trans c4 c5 d _ _ h5.eats (
                  Eats-trans c5 c6 d _ _ e6 (
                    Eats-trans c6 c7 d _ _ h7.eats
                      (Eats-trans c7 c8 d _ _ h8.eats (Eats-trans c8 c9 d _ _ e9 h10.eats))))))));
      groups =
          h10.groups
          ∙ g9
          ∙ ap (λ g. (3, cmd) ∷ g)
              (h8.groups
                ∙ h7.groups
                ∙ g6
                ∙ ap (λ g. (2, word) ∷ g)
                    (h5.groups ∙ h4.groups ∙ h3.groups ∙ g2 ∙ ap (λ g. (1, jid) ∷ g) h1.groups));
    }

-- A status by its name, where the shell prints one of its messages.
abbrev pub IsNamed : Bytes → Bytes → Type 0
IsNamed word status =
    ((word ≡ codes "Stopped") × (status ≡ codes "stopped"))
    ⊎ ((word ≡ codes "Running") × (status ≡ codes "running"))
    ⊎ ((word ≢ codes "Stopped") × (word ≢ codes "Running") × (status ≡ word))

differs : (s t : Bytes) → bytes_eq s t ≡ false → t ≢ s
differs s t h e = cc (sym (bytes_eq_refl s) ∙ ap (bytes_eq s) (sym e) ∙ h)

pub status_name-IsNamed : (word : Bytes) → IsNamed word (status_name word jobs_status_msg)
unfolding status_name
status_name-IsNamed word = elim (Bool-cases (bytes_eq (codes "Stopped") word)) [
  | inl stopped ↦ rw stopped (inl (sym (bytes_eq_sound (codes "Stopped") word stopped), refl))
  | inr other ↦ elim (Bool-cases (bytes_eq (codes "Running") word)) [
    | inl running ↦
        rw (other, running) (inr (inl (sym (bytes_eq_sound (codes "Running") word running), refl)))
    | inr neither ↦
        rw (other, neither) (inr (inr (differs _ word other, differs _ word neither, refl)))
  ]
]
