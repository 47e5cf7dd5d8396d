-- ===== src/Prgm/Screen/Cells.antt =====
-- The screen of `fcurses.c` as a grid of cells of two bytes.
use native.Mathlib.Nat.{mul-le-mul_right}
use frosk_current.Prelude.{
  ℕ, ◌+◌, ◌-◌, ◌*◌, ◌%◌, ◌^◌, ◌≤◌, ◌<◌, ◌≡◌, inl, inr, Bool, true, false, ◌==◌, ltb, leb, ◌&&◌,
  if◌then◌else◌, Bool-cases, arith, refl, ap, ◌∙◌,
}
use frosk_current.Prgm.Screen.{Screen, fs_write_screen, fc_putc, fc_move_buf}

-- The file has a cell for every place of the screen.
pub record IsSized (scr : Screen) (width height : ℕ) : Type 0 where
  pub wide : scr.width ≡ width
  pub high : scr.height ≡ height
  pub whole : scr.buf_size ≡ width * height * 2
  pub file : scr.file_size ≡ width * height * 2
  pub small : width * height * 2 < 2 ^ 31

-- byte `b` of the cell in column `cx` and line `cy`
abbrev pub cell : (width : ℕ) → Screen → (cx cy b : ℕ) → ℕ
cell width scr cx cy b = scr.cells ((cx + cy * width) * 2 + b)

-- a place is on the screen
pub place_lt :
    (width height cx cy : ℕ) → cx < width → cy < height → cx + cy * width < width * height
place_lt width height cx cy h k = grind (arith, mul-le-mul_right)

-- two places are the same only if column and line are
pub place_cancel :
    (width cx cy x y : ℕ)
    → cx < width
    → x < width
    → cx + cy * width ≡ x + y * width
    → (cx ≡ x) × (cy ≡ y)
place_cancel width cx cy x y h k e =
    let below : cy < y → cy * width + width ≤ y * width = λ t. grind (arith, mul-le-mul_right) in
    let above : y < cy → y * width + width ≤ cy * width = λ t. grind (arith, mul-le-mul_right) in
    let line : cy ≡ y = ground (arith, below, above) in
    (ground (arith, line, ap (λ t. t * width) line), line)

-- what a write within the file does to a byte
fs_write_screen-cells :
    (scr : Screen) (buf : ℕ → ℕ) (addr size q : ℕ)
    → addr + size ≤ scr.file_size
    → scr.file_size < 2 ^ 31
    → (fs_write_screen scr buf addr size).cells q
      ≡ (if leb addr q && ltb q (addr + size) then buf (q - addr) else scr.cells q)
unfolding fs_write_screen
fs_write_screen-cells scr buf addr size q fits small = ground arith

pub fs_write_screen-IsSized :
    (width height : ℕ) (scr : Screen) (buf : ℕ → ℕ) (addr size : ℕ)
    → IsSized scr width height
    → IsSized (fs_write_screen scr buf addr size) width height
unfolding fs_write_screen
fs_write_screen-IsSized width height scr buf addr size sized =
    elim (Bool-cases (ltb addr scr.file_size)) [
      | inl e ↦ rw e (record {
        wide = sized.wide;
        high = sized.high;
        whole = sized.whole;
        file = sized.file;
        small = sized.small;
      })
      | inr e ↦ rw e sized
    ]

pub fc_putc-IsSized :
    (width height : ℕ) (scr : Screen) (ch x y style : ℕ)
    → IsSized scr width height
    → IsSized (fc_putc scr ch x y style) width height
unfolding fc_putc
fc_putc-IsSized width height scr ch x y style sized =
    elim (Bool-cases (leb ((x + y * scr.width) * 2) scr.buf_size)) [
      | inl e ↦ rw e (
          fs_write_screen-IsSized width height scr (λ i. if i == 0 then ch % 256 else style % 256)
            ((x + y * scr.width) * 2) 2 sized)
      | inr e ↦ rw e sized
    ]

pub fc_move_buf-IsSized :
    (width height : ℕ) (scr : Screen) (sx sy dx dy len : ℕ)
    → IsSized scr width height
    → IsSized (fc_move_buf scr sx sy dx dy len) width height
unfolding fc_move_buf
fc_move_buf-IsSized width height scr sx sy dx dy len sized =
    fs_write_screen-IsSized width height scr (λ i. scr.cells ((sx + sy * scr.width) * 2 + i))
      ((dx + dy * scr.width) * 2) (if ltb 1024 (len * 2) then 1024 else len * 2) sized

-- the place of a byte is among `len` places from `x` in line `y`
abbrev pub is_among : (x y len cx cy : ℕ) → Bool
is_among x y len cx cy = leb x cx && ltb cx (x + len) && (y == cy)

-- The bytes of these places are those of a range of the file.
is_among-bytes :
    (width x y len cx cy b : ℕ)
    → x + len ≤ width
    → cx < width
    → b < 2
    → (leb ((x + y * width) * 2) ((cx + cy * width) * 2 + b)
        && ltb ((cx + cy * width) * 2 + b) ((x + y * width) * 2 + len * 2))
      ≡ is_among x y len cx cy
is_among-bytes width x y len cx cy b fits h k =
    let same : x + y * width ≤ cx + cy * width
        → cx + cy * width < x + y * width + len
        → (cx ≡ x + ((cx + cy * width) - (x + y * width))) × (cy ≡ y) =
      λ lo hi.
        place_cancel width cx cy (x + ((cx + cy * width) - (x + y * width))) y h (omega arith)
          (omega arith) in
    elim (Bool-cases (y == cy)) [
      | inl e ↦
          let e' : y * width ≡ cy * width = ap (λ t. t * width) (ground (arith, e)) in
          ground (arith, e, e')
      | inr e ↦ ground (arith, e, same)
    ]

-- a write of `len` cells from column `x` of line `y` on
fs_write_screen-cell :
    (width height : ℕ) (scr : Screen) (buf : ℕ → ℕ) (x y len cx cy b : ℕ)
    → IsSized scr width height
    → x + len ≤ width
    → y < height
    → 0 < len
    → cx < width
    → b < 2
    → cell width (fs_write_screen scr buf ((x + y * width) * 2) (len * 2)) cx cy b
      ≡ (if is_among x y len cx cy then buf ((cx - x) * 2 + b) else cell width scr cx cy b)
fs_write_screen-cell width height scr buf x y len cx cy b sized hx hy some_places h k =
    let last = place_lt width height (x + (len - 1)) y (omega arith) hy in
    let fits : (x + y * width) * 2 + len * 2 ≤ scr.file_size =
      omega (arith, last, sized.file, some_places) in
    rw
      (
        fs_write_screen-cells scr buf ((x + y * width) * 2) (len * 2) ((cx + cy * width) * 2 + b)
            fits (omega (arith, sized.file, sized.small)),
        is_among-bytes width x y len cx cy b hx h k,
      )
      (elim (Bool-cases (is_among x y len cx cy)) [
        | inl e ↦
            let line : y * width ≡ cy * width = ap (λ t. t * width) (ground (arith, e)) in
            let byte : (cx + cy * width) * 2 + b - (x + y * width) * 2 ≡ (cx - x) * 2 + b =
              ground (arith, e, line) in
            rw e (ap buf byte)
        | inr e ↦ rw e refl
      ])

-- `fc_putc` on the screen sets one cell.
pub fc_putc-cell :
    (width height : ℕ) (scr : Screen) (ch x y style cx cy b : ℕ)
    → IsSized scr width height
    → x < width
    → y < height
    → cx < width
    → b < 2
    → cell width (fc_putc scr ch x y style) cx cy b ≡ (
        if is_among x y 1 cx cy
        then (if b == 0 then ch % 256 else style % 256)
        else cell width scr cx cy b)
unfolding fc_putc
fc_putc-cell width height scr ch x y style cx cy b sized hx hy h k =
    let place = place_lt width height x y hx hy in
    let at : (x + y * scr.width) * 2 ≡ (x + y * width) * 2 = ap (λ t. (x + y * t) * 2) sized.wide in
    let inside : leb ((x + y * width) * 2) scr.buf_size ≡ true =
      ground (arith, place, sized.whole) in
    rw (at, inside)
      (fs_write_screen-cell width height scr (λ i. if i == 0 then ch % 256 else style % 256) x y 1
          cx cy b sized (omega arith) hy (omega arith) h k
        ∙ ground arith)

-- `fc_move_buf` copies cells.
pub fc_move_buf-cell :
    (width height : ℕ) (scr : Screen) (sx sy dx dy len cx cy b : ℕ)
    → IsSized scr width height
    → dx + len ≤ width
    → dy < height
    → 0 < len
    → len ≤ 512
    → cx < width
    → b < 2
    → cell width (fc_move_buf scr sx sy dx dy len) cx cy b ≡ (
        if is_among dx dy len cx cy
        then cell width scr (sx + (cx - dx)) sy b
        else cell width scr cx cy b)
unfolding fc_move_buf
fc_move_buf-cell width height scr sx sy dx dy len cx cy b sized hx hy some_places few h k =
    let at : (dx + dy * scr.width) * 2 ≡ (dx + dy * width) * 2 =
      ap (λ t. (dx + dy * t) * 2) sized.wide in
    let from : (sx + sy * scr.width) * 2 ≡ (sx + sy * width) * 2 =
      ap (λ t. (sx + sy * t) * 2) sized.wide in
    let fits : ltb 1024 (len * 2) ≡ false = ground arith in
    let byte : (sx + sy * width) * 2 + ((cx - dx) * 2 + b) ≡ (sx + (cx - dx) + sy * width) * 2 + b =
      omega arith in
    rw (at, from, fits)
      (fs_write_screen-cell width height scr (λ i. scr.cells ((sx + sy * width) * 2 + i)) dx dy len
          cx cy b sized hx hy some_places h k
        ∙ ap (λ q. if is_among dx dy len cx cy then scr.cells q else cell width scr cx cy b) byte)
