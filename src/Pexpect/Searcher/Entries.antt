-- ===== src/Pexpect/Searcher/Entries.antt =====
-- What the constructor of a searcher keeps of the pattern list: every entry, under its index.
use custom_shell.Prelude.{
  ℕ, zero, suc, ◌+◌, List, [], ◌∷◌, Option, none, some, get_elem?, ◌≡◌, ◌≢◌, inl, refl, arith, All,
  All-append, Any, Any-append_left, Any-append_right, ap, ◌∙◌,
}
use custom_shell.Pexpect.Searcher.{
  Entry, eof, timeout, pattern, Searcher, no_patterns, sort_entry, sort_entries, new_searcher,
}

module _ {ℓ} {A : Type ℓ} (entries : List (Entry A)) where
  abbrev pub Names : ℕ → Entry A → Type ℓ
  Names i e = get_elem? entries i ≡ some e

  abbrev pub NamesAny : Option ℕ → Entry A → Type ℓ
  NamesAny none e = Unit
  NamesAny (some i) e = Names i e

  -- The searcher refers to the list: its texts and its two special indices name their entries.
  pub record IsIndexed (s : Searcher A) : Type ℓ where
    pub texts : All (λ e. Names e.0 (pattern e.1)) s.searches
    pub eof_index : NamesAny s.eof_index eof
    pub timeout_index : NamesAny s.timeout_index timeout

  abbrev Suffix : ℕ → List (Entry A) → Type ℓ
  Suffix n rest = (j : ℕ) → get_elem? entries (n + j) ≡ get_elem? rest j

  Suffix-head : (n : ℕ) (e : Entry A) (rest : List (Entry A)) → Suffix n (e ∷ rest) → Names n e
  Suffix-head n e rest h = ap (get_elem? entries) (omega arith) ∙ h 0

  Suffix-tail :
      (n : ℕ) (e : Entry A) (rest : List (Entry A)) → Suffix n (e ∷ rest) → Suffix (suc n) rest
  Suffix-tail n e rest h j = ap (get_elem? entries) (omega arith) ∙ h (suc j)

  IsIndexed-sort_entry :
      (n : ℕ) (e : Entry A) (s : Searcher A)
      → Names n e
      → IsIndexed s
      → IsIndexed (sort_entry n e s)
  unfolding sort_entry
  IsIndexed-sort_entry n eof s h x = record {
    texts = x.texts;
    eof_index = h;
    timeout_index = x.timeout_index;
  }
  IsIndexed-sort_entry n timeout s h x = record {
    texts = x.texts;
    eof_index = x.eof_index;
    timeout_index = h;
  }
  IsIndexed-sort_entry n (pattern a) s h x = record {
    texts = All-append _ s.searches ((n, a) ∷ []) x.texts (h, tt);
    eof_index = x.eof_index;
    timeout_index = x.timeout_index;
  }

  IsIndexed-sort_entries :
      (n : ℕ) (rest : List (Entry A)) (s : Searcher A)
      → Suffix n rest
      → IsIndexed s
      → IsIndexed (sort_entries n rest s)
  unfolding sort_entries
  IsIndexed-sort_entries n [] s h x = x
  IsIndexed-sort_entries n (e ∷ rest) s h x =
      IsIndexed-sort_entries (suc n) rest (sort_entry n e s) (Suffix-tail n e rest h)
        (IsIndexed-sort_entry n e s (Suffix-head n e rest h) x)

  -- What the searcher stores under an index is the entry of the pattern list there, and its indices
  -- of `EOF` and `TIMEOUT`, where it has them, are those of such entries.
  pub new_searcher-IsIndexed : IsIndexed (new_searcher entries)
  unfolding new_searcher
  new_searcher-IsIndexed =
      IsIndexed-sort_entries 0 entries no_patterns (λ j. ap (get_elem? entries) (omega arith))
        (record { texts = tt; eof_index = tt; timeout_index = tt })

-- What is never forgotten: an entry stays when later ones are sorted in.
module _ {A : Type 0} where
  abbrev pub Holds : ℕ → Entry A → Searcher A → Type 0
  Holds n eof s = s.eof_index ≢ none
  Holds n timeout s = s.timeout_index ≢ none
  Holds n (pattern a) s = Any (λ e. (e.0 ≡ n) × (e.1 ≡ a)) s.searches

  Holds-sort_entry_self : (n : ℕ) (e : Entry A) (s : Searcher A) → Holds n e (sort_entry n e s)
  unfolding sort_entry
  Holds-sort_entry_self n eof s = ground arith
  Holds-sort_entry_self n timeout s = ground arith
  Holds-sort_entry_self n (pattern a) s = Any-append_right _ s.searches _ (inl (refl, refl))

  Holds-sort_entry :
      (m n : ℕ) (d e : Entry A) (s : Searcher A) → Holds m d s → Holds m d (sort_entry n e s)
  unfolding sort_entry
  Holds-sort_entry m n eof eof s h = ground arith
  Holds-sort_entry m n timeout timeout s h = ground arith
  Holds-sort_entry m n (pattern a) (pattern b) s h = Any-append_left _ s.searches _ h
  Holds-sort_entry m n eof timeout s h = h
  Holds-sort_entry m n eof (pattern b) s h = h
  Holds-sort_entry m n timeout eof s h = h
  Holds-sort_entry m n timeout (pattern b) s h = h
  Holds-sort_entry m n (pattern a) eof s h = h
  Holds-sort_entry m n (pattern a) timeout s h = h

  Holds-sort_entries :
      (m n : ℕ) (d : Entry A) (rest : List (Entry A)) (s : Searcher A)
      → Holds m d s
      → Holds m d (sort_entries n rest s)
  unfolding sort_entries
  Holds-sort_entries m n d [] s h = h
  Holds-sort_entries m n d (e ∷ rest) s h =
      Holds-sort_entries m (suc n) d rest (sort_entry n e s) (Holds-sort_entry m n d e s h)

  sort_entries-Holds :
      (n i : ℕ) (e : Entry A) (rest : List (Entry A)) (s : Searcher A)
      → get_elem? rest i ≡ some e
      → Holds (n + i) e (sort_entries n rest s)
  unfolding sort_entries
  sort_entries-Holds n i e [] s h = cc
  sort_entries-Holds n zero e (d ∷ rest) s h =
      let same : d ≡ e = ground arith in
      let here : n ≡ n + 0 = omega arith in
      Holds-sort_entries (n + 0) (suc n) e rest (sort_entry n d s)
        (rw (← here, same) (Holds-sort_entry_self n e s))
  sort_entries-Holds n (suc i) e (d ∷ rest) s h =
      let there : suc n + i ≡ n + suc i = omega arith in
      rw (← there) (sort_entries-Holds (suc n) i e rest (sort_entry n d s) h)

-- Every entry of the pattern list is kept: a text under its index, and `EOF` and `TIMEOUT` by an
-- index.
pub new_searcher-Holds :
    {A : Type 0} (entries : List (Entry A)) (i : ℕ) (e : Entry A)
    → get_elem? entries i ≡ some e
    → Holds i e (new_searcher entries)
unfolding new_searcher
new_searcher-Holds entries i e h =
    let here : 0 + i ≡ i = omega arith in
    rw here at (sort_entries-Holds 0 i e entries no_patterns h)

-- The constructor of a searcher keeps every entry of the pattern list, a text under its index, and
-- `EOF` and `TIMEOUT` by an index; and it invents nothing: what it stores under an index is the entry
-- of the list there, and its indices of `EOF` and `TIMEOUT`, where it has them, are those of such
-- entries.
pub new_searcher-Keeps :
    {A : Type 0} (entries : List (Entry A)) (i : ℕ) (e : Entry A)
    → get_elem? entries i ≡ some e
    → Holds i e (new_searcher entries) × IsIndexed entries (new_searcher entries)
new_searcher-Keeps entries i e h =
    (new_searcher-Holds entries i e h, new_searcher-IsIndexed entries)
