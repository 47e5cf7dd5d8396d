-- ===== src/Prgm/Keys/Frame.antt =====
-- The frame that the shell draws around its window.
use frosk_current.Prelude.{
  ℕ, zero, suc, ◌+◌, ◌-◌, ◌%◌, ◌≤◌, ◌<◌, ◌≡◌, Bool, true, false, ◌==◌, ltb, leb, ◌&&◌, ◌||◌, not,
  if◌then◌else◌, arith, refl, ap, ◌∙◌,
}
use mathlib.Core.Path.{ap₂}
use frosk_current.Prgm.Screen.{Screen, fc_putc}
use frosk_current.Prgm.Screen.Cells.{IsSized, cell, is_among, fc_putc-IsSized, fc_putc-cell}
use frosk_current.Prgm.Keys.{box_sides, box_rows, box_screen}

-- The character of the frame at a place of a screen of `width` columns and `height` lines, 0 inside.
abbrev pub frame_char : (width height cx cy : ℕ) → ℕ
frame_char width height cx cy =
    if cy == 0
    then (if cx == 0 then 0xC9 else if cx + 1 == width then 0xBB else 0xCD)
    else if cy + 1 == height
    then (if cx == 0 then 0xC8 else if cx + 1 == width then 0xBC else 0xCD)
    else if cx == 0 || cx + 1 == width
    then 0xBA
    else 0

-- byte `b` of a cell with this character and style
abbrev pub byte_of : (ch style b : ℕ) → ℕ
byte_of ch style b = if b == 0 then ch else style % 256

is_among-one : (x y cx cy : ℕ) → is_among x y 1 cx cy ≡ (cx == x && cy == y)
is_among-one x y cx cy = ground arith

either : (p q : Bool) (v o : ℕ) → (if q then v else if p then v else o) ≡ (if p || q then v else o)
either true true v o = refl
either true false v o = refl
either false true v o = refl
either false false v o = refl

-- the same by where the place is: left, right, top and bottom
abbrev frame_of : (l r t b : Bool) → ℕ
frame_of l r t b =
    if t
    then (if l then 0xC9 else if r then 0xBB else 0xCD)
    else if b
    then (if l then 0xC8 else if r then 0xBC else 0xCD)
    else if l || r
    then 0xBA
    else 0

-- the writes of `box_screen`, the last one first
last_write :
    (l r t b : Bool) (bytes : ℕ → ℕ) (old : ℕ)
    → (l && r) ≡ false
    → (t && b) ≡ false
    → (if (t || b) && not l && not r
        then bytes 0xCD
        else if (l || r) && not t && not b
        then bytes 0xBA
        else if r && b
        then bytes 0xBC
        else if r && t
        then bytes 0xBB
        else if l && b
        then bytes 0xC8
        else if l && t
        then bytes 0xC9
        else old)
      ≡ (if frame_of l r t b == 0 then old else bytes (frame_of l r t b))
last_write true true t b bytes old h g = absurd (ground (arith, h))
last_write true false true true bytes old h g = absurd (ground (arith, g))
last_write true false true false bytes old h g = refl
last_write true false false true bytes old h g = refl
last_write true false false false bytes old h g = refl
last_write false true true true bytes old h g = absurd (ground (arith, g))
last_write false true true false bytes old h g = refl
last_write false true false true bytes old h g = refl
last_write false true false false bytes old h g = refl
last_write false false true true bytes old h g = absurd (ground (arith, g))
last_write false false true false bytes old h g = refl
last_write false false false true bytes old h g = refl
last_write false false false false bytes old h g = refl

-- strictly between the begin and the end
between :
    (p : Bool) (n c : ℕ)
    → 2 ≤ n
    → c < n
    → (p && leb 1 c && ltb c (1 + (n - 2))) ≡ (p && not (c == 0) && not (c + 1 == n))
between p n c h k = ground arith

module _ (width height : ℕ) (style : ℕ) (wide : 2 ≤ width) (high : 2 ≤ height) where
  put-cell :
      (scr : Screen) (ch x y cx cy b : ℕ)
      → IsSized scr width height
      → ch < 256
      → x < width
      → y < height
      → cx < width
      → b < 2
      → cell width (fc_putc scr ch x y style) cx cy b
        ≡ (if cx == x && cy == y then byte_of ch style b else cell width scr cx cy b)
  put-cell scr ch x y cx cy b sized small hx hy h k =
      let char : ch % 256 ≡ ch = omega arith in
      fc_putc-cell width height scr ch x y style cx cy b sized hx hy h k
      ∙ rw (is_among-one x y cx cy, char) refl

  -- two characters, one after the other, and the places that they change
  pair-cell :
      (scr : Screen) (ch x y x' y' cx cy b : ℕ)
      → IsSized scr width height
      → ch < 256
      → x < width
      → y < height
      → x' < width
      → y' < height
      → cx < width
      → b < 2
      → cell width (fc_putc (fc_putc scr ch x y style) ch x' y' style) cx cy b ≡ (
          if (cx == x && cy == y) || (cx == x' && cy == y')
          then byte_of ch style b
          else cell width scr cx cy b)
  pair-cell scr ch x y x' y' cx cy b sized small hx hy hx' hy' h k =
      let scr' = fc_putc scr ch x y style in
      put-cell scr' ch x' y' cx cy b (fc_putc-IsSized width height scr ch x y style sized) small hx'
        hy' h k
      ∙ ap (λ t. if cx == x' && cy == y' then byte_of ch style b else t)
          (put-cell scr ch x y cx cy b sized small hx hy h k)
      ∙ either (cx == x && cy == y) (cx == x' && cy == y') (byte_of ch style b)
          (cell width scr cx cy b)

  box_sides-IsSized :
      (k i : ℕ) (scr : Screen)
      → IsSized scr width height
      → IsSized (box_sides k i scr style) width height
  unfolding box_sides
  box_sides-IsSized zero i scr sized = sized
  box_sides-IsSized (suc k) i scr sized =
      box_sides-IsSized k (i + 1)
        (fc_putc (fc_putc scr 0xBA 0 i style) 0xBA (scr.width - 1) i style)
        (fc_putc-IsSized width height (fc_putc scr 0xBA 0 i style) 0xBA (scr.width - 1) i style
          (fc_putc-IsSized width height scr 0xBA 0 i style sized))

  box_sides-cell :
      (k i : ℕ) (scr : Screen) (cx cy b : ℕ)
      → IsSized scr width height
      → i + k ≤ height
      → cx < width
      → b < 2
      → cell width (box_sides k i scr style) cx cy b ≡ (
          if (cx == 0 || cx + 1 == width) && leb i cy && ltb cy (i + k)
          then byte_of 0xBA style b
          else cell width scr cx cy b)
  unfolding box_sides
  box_sides-cell zero i scr cx cy b sized few h l = ground arith
  box_sides-cell (suc k) i scr cx cy b sized few h l =
      let left = fc_putc scr 0xBA 0 i style in
      let both = fc_putc left 0xBA (width - 1) i style in
      let sized' =
        fc_putc-IsSized width height left 0xBA (width - 1) i style
          (fc_putc-IsSized width height scr 0xBA 0 i style sized) in
      let one =
        pair-cell scr 0xBA 0 i (width - 1) i cx cy b sized (omega arith) (omega arith) (omega arith)
          (omega arith) (omega arith) h l in
      ap (λ t. cell width (box_sides k (i + 1) (fc_putc left 0xBA (t - 1) i style) style) cx cy b)
        sized.wide
      ∙ box_sides-cell k (i + 1) both cx cy b sized' (omega arith) h l
      ∙ rw one (ground arith)

  box_rows-cell :
      (k i : ℕ) (scr : Screen) (cx cy b : ℕ)
      → IsSized scr width height
      → i + k ≤ width
      → cx < width
      → b < 2
      → cell width (box_rows k i scr style) cx cy b ≡ (
          if (cy == 0 || cy + 1 == height) && leb i cx && ltb cx (i + k)
          then byte_of 0xCD style b
          else cell width scr cx cy b)
  unfolding box_rows
  box_rows-cell zero i scr cx cy b sized few h l = ground arith
  box_rows-cell (suc k) i scr cx cy b sized few h l =
      let top = fc_putc scr 0xCD i 0 style in
      let both = fc_putc top 0xCD i (height - 1) style in
      let sized' =
        fc_putc-IsSized width height top 0xCD i (height - 1) style
          (fc_putc-IsSized width height scr 0xCD i 0 style sized) in
      let one =
        pair-cell scr 0xCD i 0 i (height - 1) cx cy b sized (omega arith) (omega arith)
          (omega arith) (omega arith) (omega arith) h l in
      ap (λ t. cell width (box_rows k (i + 1) (fc_putc top 0xCD i (t - 1) style) style) cx cy b)
        sized.high
      ∙ box_rows-cell k (i + 1) both cx cy b sized' (omega arith) h l
      ∙ rw one (ground arith)

  -- the corners, with the numbers for the fields
  abbrev corners : Screen → Screen
  corners scr =
      let tl = fc_putc scr 0xC9 0 0 style in
      let bl = fc_putc tl 0xC8 0 (height - 1) style in
      let tr = fc_putc bl 0xBB (width - 1) 0 style in fc_putc tr 0xBC (width - 1) (height - 1) style

  -- The frame, with the numbers for the fields.
  framed : Screen → Screen
  framed scr = box_rows (width - 2) 1 (box_sides (height - 2) 1 (corners scr) style) style

  framed-box_screen : (scr : Screen) → IsSized scr width height → box_screen scr style ≡ framed scr
  unfolding framed box_screen
  framed-box_screen scr sized =
      ap₂
        (λ w h.
          box_rows (w - 2) 1
            (box_sides (h - 2) 1
              (fc_putc
                (fc_putc (fc_putc (fc_putc scr 0xC9 0 0 style) 0xC8 0 (h - 1) style) 0xBB (w - 1) 0
                  style)
                0xBC (w - 1) (h - 1) style)
              style)
            style)
        sized.wide sized.high

  corners-IsSized : (scr : Screen) → IsSized scr width height → IsSized (corners scr) width height
  corners-IsSized scr sized =
      let tl = fc_putc scr 0xC9 0 0 style in
      let bl = fc_putc tl 0xC8 0 (height - 1) style in
      let tr = fc_putc bl 0xBB (width - 1) 0 style in
      fc_putc-IsSized width height tr 0xBC (width - 1) (height - 1) style (
        fc_putc-IsSized width height bl 0xBB (width - 1) 0 style (
          fc_putc-IsSized width height tl 0xC8 0 (height - 1) style
            (fc_putc-IsSized width height scr 0xC9 0 0 style sized)))

  corners-cell :
      (scr : Screen) (cx cy b : ℕ)
      → IsSized scr width height
      → cx < width
      → b < 2
      → cell width (corners scr) cx cy b ≡ (
          if cx + 1 == width && cy + 1 == height
          then byte_of 0xBC style b
          else if cx + 1 == width && cy == 0
          then byte_of 0xBB style b
          else if cx == 0 && cy + 1 == height
          then byte_of 0xC8 style b
          else if cx == 0 && cy == 0
          then byte_of 0xC9 style b
          else cell width scr cx cy b)
  corners-cell scr cx cy b sized h k =
      let tl = fc_putc scr 0xC9 0 0 style in
      let bl = fc_putc tl 0xC8 0 (height - 1) style in
      let tr = fc_putc bl 0xBB (width - 1) 0 style in
      let sized1 = fc_putc-IsSized width height scr 0xC9 0 0 style sized in
      let sized2 = fc_putc-IsSized width height tl 0xC8 0 (height - 1) style sized1 in
      let sized3 = fc_putc-IsSized width height bl 0xBB (width - 1) 0 style sized2 in
      let right : (cx == width - 1) ≡ (cx + 1 == width) = ground arith in
      let bottom : (cy == height - 1) ≡ (cy + 1 == height) = ground arith in
      put-cell tr 0xBC (width - 1) (height - 1) cx cy b sized3 (omega arith) (omega arith)
        (omega arith) h k
      ∙ rw
          (
            put-cell bl 0xBB (width - 1) 0 cx cy b sized2 (omega arith) (omega arith) (omega arith)
                h k,
            put-cell tl 0xC8 0 (height - 1) cx cy b sized1 (omega arith) (omega arith) (omega arith)
                h k,
            put-cell scr 0xC9 0 0 cx cy b sized (omega arith) (omega arith) (omega arith) h k,
            right,
            bottom,
          )
          refl

-- On a screen of at least two columns and lines, `box_screen` sets the cells of the frame to its
-- characters and the style, and no other cell.
pub box_screen-cell :
    (width height : ℕ) (scr : Screen) (style cx cy b : ℕ)
    → IsSized scr width height
    → 2 ≤ width
    → 2 ≤ height
    → cx < width
    → cy < height
    → b < 2
    → cell width (box_screen scr style) cx cy b ≡ (
        if frame_char width height cx cy == 0
        then cell width scr cx cy b
        else byte_of (frame_char width height cx cy) style b)
unfolding framed
box_screen-cell width height scr style cx cy b sized wide high h g k =
    let corners' = corners width height style wide high scr in
    let sized1 = corners-IsSized width height style wide high scr sized in
    let sized2 = box_sides-IsSized width height style wide high (height - 2) 1 corners' sized1 in
    ap (λ t. cell width t cx cy b) (framed-box_screen width height style wide high scr sized)
    ∙ box_rows-cell width height style wide high (width - 2) 1
        (box_sides (height - 2) 1 corners' style) cx cy b sized2 (omega arith) h k
    ∙ rw
        (
          box_sides-cell width height style wide high (height - 2) 1 corners' cx cy b sized1
              (omega arith) h k,
          corners-cell width height style wide high scr cx cy b sized h k,
          between (cy == 0 || cy + 1 == height) width cx wide h,
          between (cx == 0 || cx + 1 == width) height cy high g,
        )
        (last_write (cx == 0) (cx + 1 == width) (cy == 0) (cy + 1 == height)
          (λ c. byte_of c style b) (cell width scr cx cy b) (ground arith) (ground arith))
