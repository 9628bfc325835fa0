-- ===== src/Pexpect/Which/First.antt =====
-- What `which` finds.
use custom_shell.Prelude.{
  Bool, true, false, List, [], ◌∷◌, Bytes, Option, none, some, ◌≡◌, refl, All, ◌⊎◌, inl, inr, ◌&&◌,
  Bool-cases,
}
use custom_shell.Pexpect.Which.{has_slash, pathlist, join, search, which}

module _ (executable : Bytes → Bool) (filename : Bytes) where
  abbrev pub IsRefused : Bytes → Type 0
  IsRefused path = executable (join path filename) ≡ false

  -- `g` stands in the first directory that has it.
  abbrev pub IsFirst : List Bytes → Bytes → Type 0
  IsFirst [] g = ⊥
  IsFirst (path ∷ rest) g =
      ((g ≡ join path filename) × (executable g ≡ true)) ⊎ (IsRefused path × IsFirst rest g)

  -- The outcome of a search.
  abbrev pub Outcome : List Bytes → Option Bytes → Type 0
  Outcome paths none = All IsRefused paths
  Outcome paths (some g) = IsFirst paths g

  put-Outcome :
      (path : Bytes) (rest : List Bytes) (o : Option Bytes)
      → IsRefused path
      → Outcome rest o
      → Outcome (path ∷ rest) o
  put-Outcome path rest none r h = (r, h)
  put-Outcome path rest (some g) r h = inr (r, h)

  search-Outcome : (paths : List Bytes) → Outcome paths (search executable paths filename)
  unfolding search
  search-Outcome [] = tt
  search-Outcome (path ∷ rest) = elim (Bool-cases (executable (join path filename))) [
    | inl e ↦ rw e (inl (refl, e))
    | inr e ↦ rw e (put-Outcome path rest (search executable rest filename) e (search-Outcome rest))
  ]

  -- A file name with a slash that is executable is returned as it is. Otherwise `which` returns the file
  -- in the first directory of the path list that has an executable file of that name, and `None` only
  -- if no directory has one.
  pub which-Outcome :
      (env_path : Option Bytes)
      → ((has_slash filename && executable filename ≡ true)
          × (which executable env_path filename ≡ some filename))
        ⊎ ((has_slash filename && executable filename ≡ false)
            × Outcome (pathlist env_path) (which executable env_path filename))
  unfolding which
  which-Outcome env_path = elim (Bool-cases (has_slash filename && executable filename)) [
    | inl e ↦ inl (e, rw e refl)
    | inr e ↦ inr (e, rw e (search-Outcome (pathlist env_path)))
  ]
