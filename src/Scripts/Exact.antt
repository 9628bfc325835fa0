-- ===== src/Scripts/Exact.antt =====
-- What `searcher_string` finds of the one text of `expect_exact`.
use custom_shell.Prelude.{
  ℕ, [], ◌∷◌, ◌++◌, append_assoc, Bytes, Option, none, length, drop, drop-append, ◌≡◌, true, inl,
  inr, refl, sym, ap, ◌∙◌, subst, arith,
}
use custom_shell.Python.Text.{starts_with}
use custom_shell.Python.Text.Places.{starts_with-whole}
use custom_shell.Pexpect.Machine.{Spawn}
use custom_shell.Pexpect.Searcher.{Searcher, Found, pattern, new_searcher, search_string}
use custom_shell.Pexpect.Searcher.Leftmost.{IsChosen, search_string-IsLeftmost}
use custom_shell.Pexpect.Expect.Outcomes.{IsMatched}
use custom_shell.Pexpect.Patterns.{to_span, no_groups, searching_string}
use custom_shell.Pexpect.Streams.Sought.{to_span-some}

-- What `searcher_string` finds is the text itself.
module _ (s : Bytes) where
  abbrev pub exact : Searcher Bytes
  exact = new_searcher (pattern s ∷ [])

  exact-only : exact.searches ≡ (0, s) ∷ []
  unfolding new_searcher
  exact-only = refl

  pub exact-no_eof : (searching_string exact).eof_index ≡ none
  unfolding searching_string new_searcher
  exact-no_eof = refl

  pub exact-no_timeout : (searching_string exact).timeout_index ≡ none
  unfolding searching_string new_searcher
  exact-no_timeout = refl

  exact-search :
      (incoming : Bytes) (freshlen : ℕ) (window : Option ℕ)
      → (searching_string exact).search incoming freshlen window
        ≡ to_span no_groups (search_string exact incoming freshlen window)
  unfolding searching_string
  exact-search incoming freshlen window = refl

  only_entry :
      (incoming : Bytes) (freshlen : ℕ) (window : Option ℕ) (f : Found Bytes)
      → IsChosen incoming freshlen window f ((0, s) ∷ [])
      → (0 ≡ f.index) × (s ≡ f.match)
  only_entry incoming freshlen window f (inl x) = x
  only_entry incoming freshlen window f (inr x) = elim x.1 [ ]

  pub matched-exact :
      (window : Option ℕ) (index : ℕ) (incoming : Bytes) (o : Spawn)
      → (h : IsMatched (searching_string exact) window index incoming o)
      → (index ≡ 0) × (h.middle ≡ s)
  matched-exact window index incoming o h =
      let (f, e, i, a, b, same) =
        to_span-some no_groups _ h.span (sym (exact-search incoming h.freshlen window) ∙ h.found) in
      let l = search_string-IsLeftmost exact incoming h.freshlen window f e in
      let (zeroth, text) =
        only_entry incoming h.freshlen window f
          (subst (λ l. IsChosen incoming h.freshlen window f l) exact-only l.first) in
      let rest : drop f.start incoming ≡ h.middle ++ o.buffer =
        ap (λ n. drop n incoming) (a ∙ sym h.start)
        ∙ ap (drop (length h.front)) (h.whole ∙ append_assoc h.front h.middle o.buffer)
        ∙ drop-append h.front (h.middle ++ o.buffer) in
      (
        sym h.index ∙ sym i ∙ sym zeroth,
        starts_with-whole s h.middle o.buffer
            (omega (arith, h.end, h.start, a, b, l.end, ap length text))
            (subst (λ t. starts_with s t ≡ true) rest
              (subst (λ t. starts_with t (drop f.start incoming) ≡ true) (sym text) l.here)),
      )
