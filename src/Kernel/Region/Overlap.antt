-- ===== src/Kernel/Region/Overlap.antt =====
-- What `overlap` decides.
use frosk_current.Prelude.{◌≤◌, ◌<◌, ◌≡◌, ◌↔◌, true, false, arith}
use frosk_current.Kernel.Region.{Region, region_lower, region_upper, overlap}

-- `overlap` holds exactly if `y` begins above the begin of `x` and below its end.
pub overlap_iff :
    (x y : Region)
    → (overlap x y ≡ true) ↔ ((region_lower x < region_lower y) × (region_lower y < region_upper x))
unfolding overlap
overlap_iff x y = (λ h. ground arith, λ h. ground arith)

-- A region that begins at or above the begin of `y` is never reported, though it may lie inside
-- `y`, or be `y` itself.
pub overlap_missed : (x y : Region) → region_lower y ≤ region_lower x → overlap x y ≡ false
unfolding overlap
overlap_missed x y h = ground arith
