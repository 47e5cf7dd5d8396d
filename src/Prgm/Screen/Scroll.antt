-- ===== src/Prgm/Screen/Scroll.antt =====
-- Scrolling in `fcurses.c`: the lines of a window move up by one.
use frosk_current.Prelude.{
  ℕ, zero, suc, ◌+◌, ◌-◌, ◌≤◌, ◌<◌, ◌≡◌, inl, inr, Bool, ◌==◌, ltb, leb, ◌&&◌, if◌then◌else◌,
  Bool-cases, arith, refl, ap, ◌∙◌,
}
use frosk_current.Prgm.Screen.{
  Screen, Window, fc_putc, fc_move_buf, scroll_lines, clear_line, scroll,
}
use frosk_current.Prgm.Screen.Cells.{
  IsSized, cell, is_among, fc_putc-IsSized, fc_move_buf-IsSized, fc_putc-cell, fc_move_buf-cell,
}

-- the place is in the columns from `x` and the lines from `y` on
abbrev pub is_in : (x w y h cx cy : ℕ) → Bool
is_in x w y h cx cy = leb x cx && ltb cx (x + w) && leb y cy && ltb cy (y + h)

module _ (width height x w : ℕ) (fits : x + w ≤ width) where
  -- a copy of the columns of line `sy` to line `dy`
  copy_line :
      (scr : Screen) (sy dy cx cy b : ℕ)
      → IsSized scr width height
      → dy < height
      → 0 < w
      → w ≤ 512
      → cx < width
      → b < 2
      → cell width (fc_move_buf scr x sy x dy w) cx cy b
        ≡ (if is_among x dy w cx cy then cell width scr cx sy b else cell width scr cx cy b)
  copy_line scr sy dy cx cy b sized hy wide few h k =
      fc_move_buf-cell width height scr x sy x dy w cx cy b sized fits hy wide few h k
      ∙ elim (Bool-cases (is_among x dy w cx cy)) [
        | inl e ↦
            let column : x + (cx - x) ≡ cx = ground (arith, e) in
            rw e (ap (λ t. cell width scr t sy b) column)
        | inr e ↦ rw e refl
      ]

  scroll_lines-cell :
      (k i : ℕ) (scr : Screen) (y cx cy b : ℕ)
      → IsSized scr width height
      → y + i + k ≤ height
      → 0 < i
      → 0 < w
      → w ≤ 512
      → cx < width
      → b < 2
      → cell width (scroll_lines k i scr x y w) cx cy b ≡ (
          if is_in x w (y + i) k cx (cy + 1)
          then cell width scr cx (cy + 1) b
          else cell width scr cx cy b)
  unfolding scroll_lines
  scroll_lines-cell zero i scr y cx cy b sized rows first wide few h l = ground arith
  scroll_lines-cell (suc k) i scr y cx cy b sized rows first wide few h l =
      let scr' = fc_move_buf scr x (y + i) x (y + i - 1) w in
      let sized' = fc_move_buf-IsSized width height scr x (y + i) x (y + i - 1) w sized in
      let rest =
        scroll_lines-cell k (i + 1) scr' y cx cy b sized' (omega arith) (omega arith) wide few h
          l in
      let this = copy_line scr (y + i) (y + i - 1) cx cy b sized (omega arith) wide few h l in
      let next = copy_line scr (y + i) (y + i - 1) cx (cy + 1) b sized (omega arith) wide few h l in
      let same : y + i ≡ cy + 1 → cell width scr cx (y + i) b ≡ cell width scr cx (cy + 1) b =
        λ e. ap (λ t. cell width scr cx t b) e in
      rest ∙ rw (this, next) (ground (arith, same))

  scroll_lines-IsSized :
      (k i : ℕ) (scr : Screen) (y : ℕ)
      → IsSized scr width height
      → IsSized (scroll_lines k i scr x y w) width height
  unfolding scroll_lines
  scroll_lines-IsSized zero i scr y sized = sized
  scroll_lines-IsSized (suc k) i scr y sized =
      scroll_lines-IsSized k (i + 1) (fc_move_buf scr x (y + i) x (y + i - 1) w) y
        (fc_move_buf-IsSized width height scr x (y + i) x (y + i - 1) w sized)

  clear_line-IsSized :
      (k i : ℕ) (scr : Screen) (y : ℕ)
      → IsSized scr width height
      → IsSized (clear_line k i scr x y) width height
  unfolding clear_line
  clear_line-IsSized zero i scr y sized = sized
  clear_line-IsSized (suc k) i scr y sized =
      clear_line-IsSized k (i + 1) (fc_putc scr 0 (x + i) y 0) y
        (fc_putc-IsSized width height scr 0 (x + i) y 0 sized)

  clear_line-cell :
      (k i : ℕ) (scr : Screen) (y cx cy b : ℕ)
      → IsSized scr width height
      → y < height
      → i + k ≤ w
      → cx < width
      → b < 2
      → cell width (clear_line k i scr x y) cx cy b
        ≡ (if is_among (x + i) y k cx cy then 0 else cell width scr cx cy b)
  unfolding clear_line
  clear_line-cell zero i scr y cx cy b sized hy few h l = ground arith
  clear_line-cell (suc k) i scr y cx cy b sized hy few h l =
      let sized' = fc_putc-IsSized width height scr 0 (x + i) y 0 sized in
      let rest =
        clear_line-cell k (i + 1) (fc_putc scr 0 (x + i) y 0) y cx cy b sized' hy (omega arith) h
          l in
      let this = fc_putc-cell width height scr 0 (x + i) y 0 cx cy b sized (omega arith) hy h l in
      rest ∙ rw this (ground arith)

-- the window is on the screen, and its lines fit the buffer of `fc_move_buf`
pub record IsOn (win : Window) (width height : ℕ) : Type 0 where
  pub sized : IsSized (win.scr) width height
  pub right : win.x + win.w ≤ width
  pub bottom : win.y + win.h ≤ height
  pub wide : 0 < win.w
  pub few : win.w ≤ 512
  pub high : 0 < win.h

pub scroll-IsOn :
    (width height : ℕ) (win : Window) → IsOn win width height → IsOn (scroll win) width height
unfolding scroll
scroll-IsOn width height win on = record {
  sized =
      clear_line-IsSized width height win.x win.w on.right win.w 0
        (scroll_lines (win.h - 1) 1 win.scr win.x win.y win.w) (win.y + win.h - 1)
        (scroll_lines-IsSized width height win.x win.w on.right (win.h - 1) 1 win.scr win.y
          on.sized);
  right = on.right;
  bottom = on.bottom;
  wide = on.wide;
  few = on.few;
  high = on.high;
}

-- Scrolling moves every line of the window to the one above, and clears the last one; outside the
-- window it changes nothing.
pub scroll-cell :
    (width height : ℕ) (win : Window) (cx cy b : ℕ)
    → IsOn win width height
    → cx < width
    → b < 2
    → cell width (scroll win).scr cx cy b ≡ (
        if is_in win.x win.w win.y win.h cx cy
        then (if cy + 1 == win.y + win.h then 0 else cell width win.scr cx (cy + 1) b)
        else cell width win.scr cx cy b)
unfolding scroll
scroll-cell width height win cx cy b on h l =
    let lines =
      scroll_lines-IsSized width height win.x win.w on.right (win.h - 1) 1 win.scr win.y on.sized in
    let cleared =
      clear_line-cell width height win.x win.w on.right win.w 0
        (scroll_lines (win.h - 1) 1 win.scr win.x win.y win.w) (win.y + win.h - 1) cx cy b lines
        (omega (arith, on.bottom, on.high)) (omega arith) h l in
    let moved =
      scroll_lines-cell width height win.x win.w on.right (win.h - 1) 1 win.scr win.y cx cy b
        on.sized (omega (arith, on.bottom, on.high)) (omega arith) on.wide on.few h l in
    cleared ∙ rw moved (ground (arith, on.high, on.wide))
