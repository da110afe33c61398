-- ===== src/Prelude/Fixpoint.antt =====
-- Recursion on a value through calls that the value's shape does not show, such as the clauses that
-- a lookup finds in an object. The body is given the recursive function; it is local if it calls it
-- on smaller values only. Then fuel that exceeds the value's size is enough, and the function
-- satisfies the equation that the source writes.
use Prim.Native.Nat.{ℕ, zero, suc, ◌<◌}
use mathlib.Core.Path.{◌≡◌}
use native.Mathlib.Omega.{arith}

module _ {A B : Type 0} (size : A → ℕ) (fallback : B) (body : (A → B) → A → B) where
  unfoldable pub run : ℕ → A → B
  run zero a = fallback
  run (suc fuel) a = body (run fuel) a

  unfoldable pub fix : A → B
  unfolding run
  fix a = run (suc (size a)) a

  abbrev pub IsLocal : Type 0
  IsLocal =
      (rec rec' : A → B) (a : A)
      → ((b : A) → size b < size a → rec b ≡ rec' b)
      → body rec a ≡ body rec' a

  run_stable : IsLocal → (f g : ℕ) (a : A) → size a < f → size a < g → run f a ≡ run g a
  unfolding run
  run_stable local zero g a h k = elim h [ ]
  run_stable local (suc f) zero a h k = elim k [ ]
  run_stable local (suc f) (suc g) a h k =
      local (run f) (run g) a (λ b lt. run_stable local f g b (omega arith) (omega arith))

  pub fix_eq : IsLocal → (a : A) → fix a ≡ body fix a
  unfolding fix
  fix_eq local a =
      local (run (size a)) fix a
        (λ b lt. run_stable local (size a) (suc (size b)) b lt (omega arith))
