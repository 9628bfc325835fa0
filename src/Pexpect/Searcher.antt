-- ===== src/Pexpect/Searcher.antt =====
-- The class `searcher_string` of pexpect-dpty/pexpect.py: plain text patterns.
pub mod Source
pub mod Leftmost
pub mod Told
pub mod Fresh
pub mod Entries
mod Examples
use custom_shell.Prelude.{
  ℕ, zero, suc, ◌+◌, ◌-◌, Bool, true, false, List, [], ◌∷◌, ◌++◌, Bytes, Option, none, some, ltb,
  ◌==◌, if◌then◌else◌, length,
}
use custom_shell.Python.Text.{find_back}

-- An entry of a pattern list: `EOF`, `TIMEOUT`, or what is searched for.
pub data Entry {ℓ} (A : Type ℓ) : Type ℓ where
  eof : Entry A
  timeout : Entry A
  pattern : A → Entry A

-- The attributes that the constructor of a searcher sets; `none` is the index -1.
pub record Searcher {ℓ} (A : Type ℓ) : Type ℓ where
  pub eof_index : Option ℕ
  pub timeout_index : Option ℕ
  pub searches : List (ℕ × A)

module _ {ℓ} {A : Type ℓ} where
  abbrev pub no_patterns : Searcher A
  no_patterns = record { eof_index = none; timeout_index = none; searches = [] }

  -- One round of the loop over `zip(range(len(strings)), strings)`.
  unfoldable pub sort_entry : ℕ → Entry A → Searcher A → Searcher A
  sort_entry n eof s = record s { eof_index = some n }
  sort_entry n timeout s = record s { timeout_index = some n }
  sort_entry n (pattern a) s = record s { searches = s.searches ++ (n, a) ∷ [] }

  unfoldable pub sort_entries : ℕ → List (Entry A) → Searcher A → Searcher A
  unfolding sort_entry
  sort_entries n [] s = s
  sort_entries n (e ∷ entries) s = sort_entries (suc n) entries (sort_entry n e s)

  -- `__init__`
  unfoldable pub new_searcher : List (Entry A) → Searcher A
  unfolding sort_entries
  new_searcher entries = sort_entries 0 entries no_patterns

-- What a successful search leaves in the searcher, with the index that it returns.
pub record Found {ℓ} (M : Type ℓ) : Type ℓ where
  pub index : ℕ
  pub start : ℕ
  pub end : ℕ
  pub match : M

-- The variables of the loop: `best_index` and `best_match` are unbound at first.
pub record Best {ℓ} (M : Type ℓ) : Type ℓ where
  pub first_match : ℕ
  pub best : Option (Found M)

-- `if n >= 0 and n < first_match`
unfoldable pub take_better : Option ℕ → ℕ → Bytes → Best Bytes → Best Bytes
take_better none index s b = b
take_better (some n) index s b =
    if ltb n b.first_match
    then record {
      first_match = n;
      best = some (record { index = index; start = n; end = n + length s; match = s });
    }
    else b

-- The distance from the end of the buffer at which the search for `s` begins.
unfoldable pub search_back : ℕ → Option ℕ → Bytes → ℕ
search_back freshlen none s = freshlen + length s
search_back freshlen (some searchwindowsize) s = searchwindowsize

unfoldable pub search_loop : List (ℕ × Bytes) → Bytes → ℕ → Option ℕ → Best Bytes → Best Bytes
unfolding take_better search_back
search_loop [] buffer freshlen window b = b
search_loop ((index, s) ∷ rest) buffer freshlen window b =
    search_loop rest buffer freshlen window
      (take_better (find_back buffer s (search_back freshlen window s)) index s b)

-- `if first_match == absurd_match: return -1`
unfoldable pub best_match {ℓ} : {M : Type ℓ} → ℕ → Best M → Option (Found M)
best_match absurd_match b = if b.first_match == absurd_match then none else b.best

-- `searcher_string.search`; `none` is the result -1.
unfoldable pub search_string : Searcher Bytes → Bytes → ℕ → Option ℕ → Option (Found Bytes)
unfolding search_loop best_match find_back
search_string searcher buffer freshlen window =
    let absurd_match = length buffer in
    best_match absurd_match (
      search_loop searcher.searches buffer freshlen window
        (record { first_match = absurd_match; best = none }))
