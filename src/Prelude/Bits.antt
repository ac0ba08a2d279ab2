-- ===== src/Prelude/Bits.antt =====
-- Bit operations on bytes, by tables that are computed once.
use Prim.Native.Nat.{ℕ, zero, suc, ◌<◌}
use mathlib.Core.Path.{◌≡◌}
use mathlib.Core.Logic.{◌⊎◌, inl, inr}
use mathlib.Core.Bool.{Bool, true, ◌&&◌}
use native.Mathlib.Omega.{arith}
use ferrum.Prelude.Tests.{&&_iff}

-- A test of all numbers below a bound.
abbrev pub table : ℕ → (ℕ → Bool) → Bool
table zero test = true
table (suc n) test = test n && table n test

pub table-holds : (n : ℕ) (test : ℕ → Bool) (x : ℕ) → table n test ≡ true → x < n → test x ≡ true
table-holds zero test x all below = absurd (omega arith)
table-holds (suc n) test x all below =
    let (last, rest) = (&&_iff (test n) (table n test)).0 all in
    elim (split n x below) [ inl e ↦ rw e last | inr less ↦ table-holds n test x rest less ]
  where
    split : (n x : ℕ) → x < suc n → (x ≡ n) ⊎ (x < n)
    split n x h = ground arith
