-- ===== src/Pic/Tests.antt =====
-- Unmasking a concrete line.
use wig_osx.Base.{◌≡◌, true, arith}
use wig_osx.Pic.{unmask_irq}
use wig_osx.Pic.Masks.{masks_after, is_masked, unmask_irq_lem}

-- The keyboard's line 1, when all lines are masked.
unmask_irq_lem_example :
    ((unmask_irq 1 0xFF 0xFF).0 ≡ true)
    × (is_masked (masks_after (unmask_irq 1 0xFF 0xFF).1 (0xFF, 0xFF)) 1 ≡ 0)
unmask_irq_lem_example = unmask_irq_lem 1 0xFF 0xFF 1 (omega arith)
