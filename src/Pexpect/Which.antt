-- ===== src/Pexpect/Which.antt =====
-- `which` of pexpect-dpty/pexpect.py.
pub mod First
mod Examples
use custom_shell.Prelude.{
  ℕ, Bool, true, false, List, [], ◌∷◌, ◌++◌, Bytes, codes, Option, none, some, ◌==◌, ◌||◌, ◌&&◌,
  if◌then◌else◌,
}

abbrev slash : ℕ
slash = 47

abbrev colon : ℕ
colon = 58

-- `os.path.dirname(filename) != ''`: there is a slash in it.
pub has_slash : Bytes → Bool
has_slash [] = false
has_slash (c ∷ s) = c == slash || has_slash s

-- `string.split(p, os.pathsep)`
first_part : List Bytes → ℕ → List Bytes
first_part [] c = (c ∷ []) ∷ []
first_part (s ∷ rest) c = (c ∷ s) ∷ rest

unfoldable pub split_path : Bytes → List Bytes
unfolding first_part
split_path [] = [] ∷ []
split_path (c ∷ p) = if c == colon then [] ∷ split_path p else first_part (split_path p) c

-- `os.path.join(path, filename)`
starts_absolute : Bytes → Bool
starts_absolute [] = false
starts_absolute (c ∷ s) = c == slash

ends_open : Bytes → Bool
ends_open [] = true
ends_open (c ∷ []) = c == slash
ends_open (c ∷ d ∷ s) = ends_open (d ∷ s)

unfoldable pub join : Bytes → Bytes → Bytes
unfolding starts_absolute ends_open
join path filename =
    if starts_absolute filename
    then filename
    else if ends_open path
    then path ++ filename
    else path ++ slash ∷ filename

abbrev pub defpath : Bytes
defpath = codes ":/bin:/usr/bin"

-- The directories: `PATH`, or `os.defpath` where it is missing or empty.
unfoldable pub pathlist : Option Bytes → List Bytes
unfolding split_path
pathlist none = split_path defpath
pathlist (some []) = split_path defpath
pathlist (some (c ∷ p)) = split_path (c ∷ p)

-- `executable` is `os.access(…, os.X_OK)`.
module _ (executable : Bytes → Bool) where
  search : List Bytes → Bytes → Option Bytes
  unfolding join
  search [] filename = none
  search (path ∷ rest) filename =
      if executable (join path filename) then some (join path filename) else search rest filename

  unfoldable pub which : Option Bytes → Bytes → Option Bytes
  unfolding search has_slash pathlist join
  which env_path filename =
      if (has_slash filename && executable filename)
      then some filename
      else search (pathlist env_path) filename
