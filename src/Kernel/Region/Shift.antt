-- ===== src/Kernel/Region/Shift.antt =====
-- `shift_rgn`, which moves a region to other addresses.
use frosk_current.Prelude.{
  ℕ, ◌+◌, ◌-◌, ◌^◌, ◌≤◌, ◌<◌, ◌≡◌, refl, List, [], ◌∷◌, arith, ap, ◌∙◌, true, ltb, leb, ◌&&◌, ◌||◌,
}
use mathlib.Core.List.{map}
use frosk_current.Prelude.Words.{sub64, add64}
use frosk_current.Kernel.Region.{Block, Region, in_region, has_block, shift_block, shift_rgn}

-- Every block lies above the begin of the region, and ends within the addresses, before and behind
-- the move.
abbrev pub AllAbove : List Block → (old new : ℕ) → Type 0
AllAbove [] old new = Unit
AllAbove (b ∷ bs) old new =
    (old ≤ b.virt)
    × (b.virt + b.size < 2 ^ 64)
    × (new + (b.virt - old) + b.size < 2 ^ 64)
    × AllAbove bs old new

shift_block-virt :
    (b : Block) (old new : ℕ)
    → old < 2 ^ 64
    → new < 2 ^ 64
    → old ≤ b.virt
    → new + (b.virt - old) < 2 ^ 64
    → b.virt < 2 ^ 64
    → (shift_block (sub64 old new) b).virt ≡ new + (b.virt - old)
unfolding shift_block
shift_block-virt b old new o n above fits small = ground arith

has_here :
    (v w old new offset size : ℕ)
    → v ≡ new + (w - old)
    → old ≤ w
    → w + size < 2 ^ 64
    → v + size < 2 ^ 64
    → (leb v (new + offset) && ltb (new + offset) (add64 v size))
      ≡ (leb w (old + offset) && ltb (old + offset) (add64 w size))
has_here v w old new offset size e above end end' = ground arith

has_block-shift :
    (bs : List Block) (old new offset : ℕ)
    → old < 2 ^ 64
    → new < 2 ^ 64
    → AllAbove bs old new
    → has_block (map (shift_block (sub64 old new)) bs) (new + offset) ≡ has_block bs (old + offset)
unfolding has_block shift_block
has_block-shift [] old new offset o n above = refl
has_block-shift (b ∷ bs) old new offset o n (above, end, end', rest) =
    let v = shift_block-virt b old new o n above (omega arith) (omega arith) in
    let r = has_block-shift bs old new offset o n rest in
    let here =
      has_here (sub64 b.virt (sub64 old new)) b.virt old new offset b.size v above end
        (omega (arith, v)) in
    ap (λ x. x || has_block (map (shift_block (sub64 old new)) bs) (new + offset)) here
    ∙ ap (λ x. (leb b.virt (old + offset) && ltb (old + offset) (add64 b.virt b.size)) || x) r

-- `shift_rgn` moves a region that grows up, with its blocks: at each offset the region is and has
-- memory at the new address exactly if it was and had memory at the old one. Neither place reaches
-- over the last address.
pub shift_rgn-offset :
    (r : Region) (nv offset : ℕ)
    → r.growup ≡ true
    → r.virt + r.size < 2 ^ 64
    → nv + r.size < 2 ^ 64
    → AllAbove r.blocks r.virt nv
    → (in_region (shift_rgn r nv) (nv + offset) ≡ in_region r (r.virt + offset))
      × (has_block (shift_rgn r nv).blocks (nv + offset) ≡ has_block r.blocks (r.virt + offset))
unfolding shift_rgn in_region
shift_rgn-offset r nv offset up below below' above =
    (ground arith, has_block-shift r.blocks r.virt nv offset (omega arith) (omega arith) above)
