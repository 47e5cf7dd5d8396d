-- ===== src/Prgm/Screen.antt =====
-- `prgm/start/src/fcurses.c`: a text screen that is a file, and a window in it. Coordinates are not
-- negative.
pub mod Cells
pub mod Scroll
pub mod Local
pub mod Terminal
pub mod Typed
use frosk_current.Prelude.{
  ℕ, zero, suc, ◌+◌, ◌-◌, ◌*◌, ◌/◌, ◌%◌, ◌^◌, Bool, true, false, Option, none, some, ◌==◌, ltb, leb,
  ◌&&◌, if◌then◌else◌,
}
use frosk_current.Prelude.Words.{add64, sub64, mul64}
use frosk_current.Prelude.Memory.{Memory}

-- `fc_screen_t`, the bytes and the size of the file, and the position that was written to the file of
-- the cursor
pub record Screen : Type 0 where
  pub width : ℕ
  pub height : ℕ
  pub buf_size : ℕ
  pub cells : ℕ → ℕ
  pub file_size : ℕ
  pub cursor : ℕ × ℕ

-- `format_width[FORMAT_CHAR8_STYLE8]`
abbrev pub format_width : ℕ
format_width = 2

-- `fs_write` to a file that is only in memory, which this one is: the write ends at the end of the file.
pub fs_write_screen : Screen → (buf : ℕ → ℕ) → (addr size : ℕ) → Screen
fs_write_screen scr buf addr size =
    let size' = if ltb scr.file_size (add64 addr size) then scr.file_size - addr else size in
    let written : ℕ → ℕ =
      λ q. if leb addr q && ltb q (addr + size') then buf (q - addr) else scr.cells q in
    if ltb addr scr.file_size then record scr { cells = written } else scr

-- The file of a screen that is opened has the bytes `cells`.
pub create_cga_screen : (cells : ℕ → ℕ) → (file_size : ℕ) → Screen
create_cga_screen cells file_size = record {
  width = 80;
  height = 25;
  buf_size = 80 * 25 * 2;
  cells = cells;
  file_size = file_size;
  cursor = (0, 0);
}

abbrev pub pos_of : Screen → (x y : ℕ) → ℕ
pos_of scr x y = (x + y * scr.width) * format_width

pub fc_putc : Screen → (ch x y style : ℕ) → Screen
fc_putc scr ch x y style =
    let pos = pos_of scr x y in
    if leb pos scr.buf_size
    then fs_write_screen scr (λ i. if i == 0 then ch % 256 else style % 256) pos 2
    else scr

-- for (i = 0; i < MAX && str[i]; i++)
count_chars : ℕ → Memory → (str i : ℕ) → ℕ
count_chars zero m str i = i
count_chars (suc k) m str i = elim (m (str + i) == 0) [
  | true ↦ i
  | false ↦ count_chars k m str (i + 1)
]

-- The bound on `i` is a difference of words: it is negative if `pos` is above `buf_size`.
pub fc_puts : Screen → Memory → (str x y style : ℕ) → Screen
fc_puts scr m str x y style =
    let pos = pos_of scr x y in
    let n = count_chars 512 m str 0 in
    let i = if ltb scr.buf_size (pos + n) then sub64 scr.buf_size pos else n in
    fs_write_screen scr (λ j. if j % 2 == 0 then m (str + j / 2) else style % 256) pos (mul64 i 2)

-- The bytes that `fs_read` does not find, behind the end of the file, are those of `cells` as well.
pub fc_move_buf : Screen → (sx sy dx dy len : ℕ) → Screen
fc_move_buf scr sx sy dx dy len =
    let bytes = len * format_width in
    let size = if ltb 1024 bytes then 1024 else bytes in
    fs_write_screen scr (λ i. scr.cells (pos_of scr sx sy + i)) (pos_of scr dx dy) size

abbrev pub fc_move_cursor : Screen → (x y : ℕ) → Screen
fc_move_cursor scr x y = record scr { cursor = (x, y) }

-- `fc_window_t`
pub record Window : Type 0 where
  pub scr : Screen
  pub x : ℕ
  pub y : ℕ
  pub w : ℕ
  pub h : ℕ
  pub pt_x : ℕ
  pub pt_y : ℕ

abbrev pub create_window : Screen → (x y w h : ℕ) → Window
create_window scr x y w h = record { scr = scr; x = x; y = y; w = w; h = h; pt_x = 0; pt_y = 0 }

-- for (i = 1; i < win->h; i++), with `k` rounds left
pub scroll_lines : (k i : ℕ) → Screen → (x y w : ℕ) → Screen
scroll_lines zero i scr x y w = scr
scroll_lines (suc k) i scr x y w =
    scroll_lines k (i + 1) (fc_move_buf scr x (y + i) x (y + i - 1) w) x y w

-- for (i = 0; i < win->w; i++), with `k` rounds left, in the line `y`
pub clear_line : (k i : ℕ) → Screen → (x y : ℕ) → Screen
clear_line zero i scr x y = scr
clear_line (suc k) i scr x y = clear_line k (i + 1) (fc_putc scr 0 (x + i) y 0) x y

-- One round of the loop of `scroll_check`.
pub scroll : Window → Window
scroll win =
    let scr = scroll_lines (win.h - 1) 1 win.scr win.x win.y win.w in
    record win { scr = clear_line win.w 0 scr win.x (win.y + win.h - 1); pt_y = win.pt_y - 1 }

pub scroll_loop : ℕ → Window → Window
scroll_loop zero win = win
scroll_loop (suc k) win = elim (leb win.h win.pt_y) [
  | true ↦ scroll_loop k (scroll win)
  | false ↦ win
]

-- a new line, if the end of the line is reached
abbrev pub wrap : Window → Window
wrap win =
    if leb win.w win.pt_x then record win { pt_x = win.pt_x % win.w; pt_y = win.pt_y + 1 } else win

-- Each round takes `pt_y` down by one: there are `pt_y + 1 - h` of them, for a window with lines.
pub scroll_check : Window → Window
scroll_check win = let win' = wrap win in scroll_loop (win'.pt_y + 1 - win.h) win'

-- the character, without scrolling
abbrev pub put_char : Window → (ch style : ℕ) → Window
put_char win ch style =
    if ch == 10
    then record win { pt_x = 0; pt_y = win.pt_y + 1 }
    else if ch == 8
    then (if ltb 0 win.pt_x
        then record win {
          pt_x = win.pt_x - 1;
          scr = fc_putc win.scr 0 (win.x + (win.pt_x - 1)) (win.y + win.pt_y) style;
        }
        else win)
    else record win {
      pt_x = win.pt_x + 1;
      scr = fc_putc win.scr ch (win.x + win.pt_x) (win.y + win.pt_y) style;
    }

abbrev pub show_cursor : Window → Window
show_cursor win = record win { scr = fc_move_cursor win.scr (win.x + win.pt_x) (win.y + win.pt_y) }

pub fc_wputc : Window → (ch style : ℕ) → Window
fc_wputc win ch style = show_cursor (scroll_check (put_char win ch style))

-- `none` says that the fuel ran out before the end of the string.
pub fc_wputs : ℕ → Window → Memory → (s style : ℕ) → Option Window
fc_wputs zero win m s style = none
fc_wputs (suc f) win m s style = elim (m s == 0) [
  | true ↦ some win
  | false ↦ fc_wputs f (fc_wputc win (m s) style) m (s + 1) style
]
