-- ===== src/Pexpect/ForkPty/Balance.antt =====
-- No descriptor stays open, and no terminal is refused.
use custom_shell.Prelude.{ℕ, true, List, [], ◌∷◌, ◌++◌, append-nil, Bytes, ◌≡◌, refl, sym, ◌∙◌, ap}
use custom_shell.Prelude.Int.{ℤ, pos, negsuc}
use custom_shell.Python.Exec.{Exec, Exn, ok, pure, raise, gets, modify, catch, ◌>>=◌}
use custom_shell.Python.Exec.Keeps.{Keeps, Keeps-bind, Keeps-catch, Keeps-pure, Keeps-modify}
use custom_shell.Pexpect.ForkPty.{
  Open, opened, failed, Files, take_open, os_open, close_fd, detach, refuse, still_attached,
  require, disregard, dev_tty, make_controlling_tty,
}

-- The descriptors among what `os.open` has given.
abbrev pub descriptors : List (Bytes × ℤ) → List ℤ
descriptors [] = []
descriptors ((path, pos n) ∷ opens) = pos n ∷ descriptors opens
descriptors ((path, negsuc n) ∷ opens) = descriptors opens

-- What was opened was closed again, in the same order.
abbrev pub IsBalanced : Files → Type 0
IsBalanced f = descriptors f.opens ≡ f.closes

abbrev whole : Files → Files
whole f = f

descriptors-append :
    (xs ys : List (Bytes × ℤ)) → descriptors (xs ++ ys) ≡ descriptors xs ++ descriptors ys
descriptors-append [] ys = refl
descriptors-append ((path, pos n) ∷ xs) ys = ap (λ l. pos n ∷ l) (descriptors-append xs ys)
descriptors-append ((path, negsuc n) ∷ xs) ys = descriptors-append xs ys

opened-IsBalanced :
    (path : Bytes) (f : Files) (k : Files)
    → IsBalanced f
    → (n : ℕ) → k.opens ≡ f.opens ++ (path, pos n) ∷ []
    → k.closes ≡ f.closes ++ pos n ∷ []
    → IsBalanced k
opened-IsBalanced path f k h n o c =
    ap descriptors o
    ∙ descriptors-append f.opens ((path, pos n) ∷ [])
    ∙ ap (λ l. l ++ pos n ∷ []) h
    ∙ sym c

refused-IsBalanced :
    (path : Bytes) (f : Files) (k : Files)
    → IsBalanced f
    → (n : ℕ) → k.opens ≡ f.opens ++ (path, negsuc n) ∷ []
    → k.closes ≡ f.closes
    → IsBalanced k
refused-IsBalanced path f k h n o c =
    ap descriptors o
    ∙ descriptors-append f.opens ((path, negsuc n) ∷ [])
    ∙ append-nil (descriptors f.opens)
    ∙ h
    ∙ sym c

-- A file is opened, and what follows closes the descriptor, if it is one, and opens nothing.
module _ (path : Bytes) (act : ℤ → Exec Files (Unit {0}))
    (closes_it : (n : ℕ) (k : Files)
      → ((act (pos n) k).1.opens ≡ k.opens) × ((act (pos n) k).1.closes ≡ k.closes ++ pos n ∷ []))
    (leaves_it : (n : ℕ) (k : Files)
      → ((act (negsuc n) k).1.opens ≡ k.opens) × ((act (negsuc n) k).1.closes ≡ k.closes)) where
  abbrev after_open : ℤ → List Open → Files → Files
  after_open fd rest f = record f { answers = rest; opens = f.opens ++ (path, fd) ∷ [] }

  take_open-IsBalanced :
      (answers : List Open) (f : Files)
      → IsBalanced f
      → IsBalanced ((take_open path answers >>= act) f).1
  unfolding take_open modify raise pure ◌>>=◌
  take_open-IsBalanced [] f h = h
  take_open-IsBalanced (failed errno ∷ rest) f h = h
  take_open-IsBalanced (opened (pos n) ∷ rest) f h =
      opened-IsBalanced path f (act (pos n) (after_open (pos n) rest f)).1 h n
        (closes_it n (after_open (pos n) rest f)).0 (closes_it n (after_open (pos n) rest f)).1
  take_open-IsBalanced (opened (negsuc n) ∷ rest) f h =
      refused-IsBalanced path f (act (negsuc n) (after_open (negsuc n) rest f)).1 h n
        (leaves_it n (after_open (negsuc n) rest f)).0
        (leaves_it n (after_open (negsuc n) rest f)).1

  open-IsBalanced : Keeps whole IsBalanced (os_open path >>= act)
  unfolding os_open gets ◌>>=◌
  open-IsBalanced = record { at = λ f h. take_open-IsBalanced f.answers f h }

require-IsBalanced : (path : Bytes) → Keeps whole IsBalanced (require path)
unfolding require close_fd modify raise
require-IsBalanced path = open-IsBalanced path _ (λ n k. (refl, refl)) (λ n k. (refl, refl))

attached-IsBalanced : Keeps whole IsBalanced still_attached
unfolding still_attached close_fd modify raise pure ◌>>=◌
attached-IsBalanced = open-IsBalanced dev_tty _ (λ n k. (refl, refl)) (λ n k. (refl, refl))

detach-IsBalanced : Keeps whole IsBalanced detach
unfolding detach close_fd modify pure
detach-IsBalanced = open-IsBalanced dev_tty _ (λ n k. (refl, refl)) (λ n k. (refl, refl))

session-IsBalanced : Keeps whole IsBalanced (modify (λ f. record f { session = true }))
session-IsBalanced = Keeps-modify _ (λ f h. h)

disregard-IsBalanced : (e : Exn) → Keeps whole IsBalanced (disregard e)
unfolding disregard
disregard-IsBalanced e = Keeps-pure tt

-- `__pty_make_controlling_tty` closes every descriptor that it opens, in the same order, whatever the
-- answers are and whether it returns or raises.
pub make_controlling_tty-IsBalanced :
    (child_name : Bytes) → Keeps whole IsBalanced (make_controlling_tty child_name)
unfolding make_controlling_tty
make_controlling_tty-IsBalanced child_name = Keeps-bind detach _ detach-IsBalanced (λ _.
    Keeps-bind _ _ session-IsBalanced (λ _.
      Keeps-bind _ _ (Keeps-catch still_attached disregard attached-IsBalanced disregard-IsBalanced)
        (λ _. Keeps-bind _ _ (require-IsBalanced child_name) (λ _. require-IsBalanced dev_tty))))

attached-ok :
    (answers : List Open) (f : Files)
    → (catch (take_open dev_tty answers >>= refuse) disregard f).0 ≡ ok tt
unfolding take_open refuse close_fd disregard gets modify raise pure catch ◌>>=◌
attached-ok [] f = refl
attached-ok (failed errno ∷ rest) f = refl
attached-ok (opened (pos n) ∷ rest) f = refl
attached-ok (opened (negsuc n) ∷ rest) f = refl

-- The test for a terminal that is still attached never fails: its exception is disregarded with those
-- that it is there to catch.
pub attached-disregarded : (f : Files) → (catch still_attached disregard f).0 ≡ ok tt
unfolding still_attached os_open gets ◌>>=◌ catch
attached-disregarded f = attached-ok f.answers f
