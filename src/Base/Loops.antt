-- ===== src/Base/Loops.antt =====
-- Counted loops, with an invariant rule.
use Prim.Native.Nat.{ℕ, zero, suc, ◌+◌, ◌≤◌, ◌<◌}
use mathlib.Core.Path.{◌≡◌, subst}
use native.Mathlib.Omega.{arith}

-- `for (k = lo; k < lo + count; k++) st = round k st`.
unfoldable pub for_range {ℓ} : {S : Type ℓ} → ℕ → ℕ → (ℕ → S → S) → S → S
for_range zero lo round st = st
for_range (suc count) lo round st = for_range count (suc lo) round (round lo st)

-- The invariant rule: what each round keeps, in its range, holds at the end.
pub for_range_inv {ℓ κ} :
    {S : Type ℓ} (P : ℕ → S → Type κ) (round : ℕ → S → S) (count lo hi : ℕ) (st : S)
    → lo + count ≡ hi
    → ((k : ℕ) (t : S) → lo ≤ k → k < hi → P k t → P (suc k) (round k t))
    → P lo st
    → P hi (for_range count lo round st)
unfolding for_range
for_range_inv P round zero lo hi st e keep h = subst (λ k. P k st) (omega arith) h
for_range_inv P round (suc count) lo hi st e keep h =
    for_range_inv P round count (suc lo) hi (round lo st) (omega arith)
      (λ k t le. keep k t (omega arith)) (keep lo st (omega arith) (omega arith) h)
