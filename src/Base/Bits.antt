-- ===== src/Base/Bits.antt =====
-- A Boolean test of the numbers of an interval, run at each of them.
use Prim.Native.Nat.{ℕ, zero, suc, ◌+◌, ◌≤◌, ◌<◌}
use mathlib.Core.Path.{◌≡◌, ap, sym, ◌∙◌}
use mathlib.Core.Logic.{◌⊎◌, inl, inr}
use mathlib.Core.Bool.{Bool, true, ◌&&◌}
use native.Mathlib.Omega.{arith}

-- `test` at `len` numbers from `start` on.
unfoldable pub holds_from : (test : ℕ → Bool) (start len : ℕ) → Bool
holds_from test start zero = true
holds_from test start (suc len) = holds_from test (suc start) len && test start

here_or_behind : (start x : ℕ) → start ≤ x → (start ≡ x) ⊎ (start < x)
here_or_behind start x lo = omega arith

pub holds_at :
    (test : ℕ → Bool) (start len x : ℕ)
    → start ≤ x
    → x < start + len
    → holds_from test start len ≡ true
    → test x ≡ true
unfolding holds_from
holds_at test start zero x lo hi run = absurd (omega arith)
holds_at test start (suc len) x lo hi run = elim (here_or_behind start x lo) [
  | inl e ↦ ap test (sym e) ∙ ground arith
  | inr more ↦ holds_at test (suc start) len x more (omega arith) (ground arith)
]
