-- ===== src/Layout/Align.antt =====
-- common/align.h.
use toshokan.Base.{ℕ, ◌*◌, ◌/◌, ◌≤◌, ◌<◌, ◌%◌, ◌+◌, ◌≡◌, arith}

-- For operands of one unsigned type: neither step leaves its range.
pub align : ℕ → ℕ → ℕ
align val align_val = val / align_val * align_val

-- The result is the multiple of `align_val` that is at most `val`, and less than one step below it.
pub align-greatest :
    (val align_val : ℕ)
    → 0 < align_val
    → (align val align_val ≤ val)
      × (val < align val align_val + align_val)
      × (align val align_val % align_val ≡ 0)
unfolding align
align-greatest val a h = (grind arith, grind arith, grind arith)
