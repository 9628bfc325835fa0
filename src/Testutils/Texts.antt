-- ===== src/Testutils/Texts.antt =====
-- The texts that the expressions of the output specification match.
use custom_shell.Prelude.{
  [], ◌∷◌, ◌++◌, append_assoc, Bytes, codes, length, drop, drop-append, ◌≡◌, ◌≢◌, refl, sym, ◌∙◌,
  ap, arith,
}
use custom_shell.Python.Text.{is_digit}
use custom_shell.Python.Regex.{Regex, Cursor}
use custom_shell.Python.Regex.Language.{Denotes, search-Matches}
use custom_shell.Python.Regex.Classes.{Eats, Eats-trans, AllIn, many-Eats, literal-Eats, group-Eats}
use custom_shell.Pexpect.Machine.{Spawn}
use custom_shell.Pexpect.Streams.Sought.{IsSought}
use custom_shell.OutputSpec.{is_other, prompt, bgjob_regex}

append-front : (s t u v : Bytes) → s ++ u ≡ t ++ v → length s ≡ length t → s ≡ t
append-front [] [] u v e l = refl
append-front [] (y ∷ t) u v e l = absurd (omega (arith, l))
append-front (x ∷ s) [] u v e l = absurd (omega (arith, l))
append-front (x ∷ s) (y ∷ t) u v e l =
    let heads : x ≡ y = ap (λ w. elim w [ [] ↦ 0 | z ∷ zs ↦ z ]) e in
    let tails : s ≡ t =
      append-front s t u v (ap (λ w. elim w [ [] ↦ [] | z ∷ zs ↦ zs ]) e) (omega (arith, l)) in
    ap (λ w. w ∷ s) heads ∙ ap (λ w. y ∷ w) tails

-- The text that was found is one that the expression matches, with its groups.
pub record IsMatch (r : Regex) (incoming : Bytes) (s : Spawn) (h : IsSought r incoming s)
    : Type 0 where
  pub first : Cursor
  pub last : Cursor
  pub denotes : Denotes r first last
  pub fresh : first.groups ≡ []
  pub groups : h.found.groups ≡ last.groups
  pub eats : (t : Bytes) → Eats first t last → h.middle ≡ t

pub sought-IsMatch :
    (r : Regex) (incoming : Bytes) (s : Spawn) (h : IsSought r incoming s) → IsMatch r incoming s h
sought-IsMatch r incoming s h =
    let k = search-Matches r incoming h.found h.search in
    let at : k.skipped ≡ length h.front = omega (arith, k.from, h.start) in
    let rest : drop k.skipped incoming ≡ h.middle ++ s.buffer =
      ap (λ i. drop i incoming) at
      ∙ ap (drop (length h.front)) (h.whole ∙ append_assoc h.front h.middle s.buffer)
      ∙ drop-append h.front (h.middle ++ s.buffer) in
    record {
      first = record { rest = drop k.skipped incoming; pos = h.found.start; groups = [] };
      last = k.last;
      denotes = k.denotes;
      fresh = refl;
      groups = k.groups;
      eats = λ t e.
          append-front h.middle t s.buffer k.last.rest (sym rest ∙ e.text)
            (omega (arith, e.pos, k.to, h.start, h.end));
    }

-- The text of a prompt.
abbrev pub prompt_text : Bytes → Bytes → Bytes
prompt_text u v = codes "<" ++ u ++ codes "@" ++ v ++ codes ">$"

pub prompt-Eats :
    (c d : Cursor)
    → Denotes prompt c d
    → (u : Bytes) × (v : Bytes) × AllIn (is_other b'@') u
      × AllIn (is_other b'>') v
      × Eats c (prompt_text u v) d
prompt-Eats c d (c1, p1, (c2, p2, (c3, p3, (c4, p4, p5)))) =
    let (u, hu, k2) = many-Eats (is_other b'@') c1 c2 p2 in
    let (v, hv, k4) = many-Eats (is_other b'>') c3 c4 p4 in
    let e1 = (literal-Eats (codes "<") c c1 p1).eats in
    let e3 = (literal-Eats (codes "@") c2 c3 p3).eats in
    let e5 = (literal-Eats (codes ">$") c4 d p5).eats in
    (
      u,
      v,
      hu,
      hv,
      Eats-trans c c4 d _ _
          (Eats-trans c c3 c4 _ _ (Eats-trans c c2 c3 _ _ (Eats-trans c c1 c2 _ _ e1 k2.eats) e3)
            k4.eats)
          e5,
    )

-- The text of a line about a background job.
abbrev pub bg_text : Bytes → Bytes → Bytes
bg_text jid pid = codes "[" ++ jid ++ codes "] " ++ pid

abbrev pub IsNumber : Bytes → Type 0
IsNumber s = (s ≢ []) × AllIn is_digit s

pub bgjob-Eats :
    (c d : Cursor)
    → Denotes bgjob_regex c d
    → (jid : Bytes) × (pid : Bytes) × IsNumber jid
      × IsNumber pid
      × Eats c (bg_text jid pid) d
      × (d.groups ≡ (2, pid) ∷ (1, jid) ∷ c.groups)
bgjob-Eats c d (c1, p1, (c2, p2, (c3, p3, p4))) =
    let h1 = literal-Eats (codes "[") c c1 p1 in
    let (jid, ne, all, e2, g2) = group-Eats 1 is_digit c1 c2 p2 in
    let h3 = literal-Eats (codes "] ") c2 c3 p3 in
    let (pid, ne', all', e4, g4) = group-Eats 2 is_digit c3 d p4 in
    (
      jid,
      pid,
      (ne, all),
      (ne', all'),
      Eats-trans c c3 d _ _ (Eats-trans c c2 c3 _ _ (Eats-trans c c1 c2 _ _ h1.eats e2) h3.eats) e4,
      g4 ∙ ap (λ g. (2, pid) ∷ g) (h3.groups ∙ g2 ∙ ap (λ g. (1, jid) ∷ g) h1.groups),
    )
