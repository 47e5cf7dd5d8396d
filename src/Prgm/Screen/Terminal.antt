-- ===== src/Prgm/Screen/Terminal.antt =====
-- The window of `fcurses.c` as a terminal: a text of `w` columns and `h` lines and a place in it.
use frosk_current.Prelude.{
  ℕ, ◌+◌, ◌-◌, ◌%◌, ◌<◌, ◌≡◌, inl, inr, true, false, ◌==◌, ltb, ◌&&◌, if◌then◌else◌, Bool-cases,
  arith, refl, ap, ◌∙◌,
}
use frosk_current.Prgm.Screen.{Window, fc_putc, scroll, put_char}
use frosk_current.Prgm.Screen.Cells.{cell, fc_putc-IsSized, fc_putc-cell}
use frosk_current.Prgm.Screen.Scroll.{IsOn, scroll-IsOn, scroll-cell}

pub record Terminal : Type 0 where
  pub text : ℕ → ℕ → ℕ → ℕ
  pub col : ℕ
  pub line : ℕ

-- byte `b` at a place of the text is replaced by that of the character or the style
abbrev pub set_char : Terminal → (ch style col line : ℕ) → ℕ → ℕ → ℕ → ℕ
set_char t ch style col line i j b =
    if i == col && j == line then (if b == 0 then ch % 256 else style % 256) else t.text i j b

-- a new line, a step back, or a character and a step on
abbrev pub place_char : Terminal → (ch style : ℕ) → Terminal
place_char t ch style =
    if ch == 10
    then record t { col = 0; line = t.line + 1 }
    else if ch == 8
    then (if t.col == 0
        then t
        else record t { text = set_char t 0 style (t.col - 1) t.line; col = t.col - 1 })
    else record t { text = set_char t ch style t.col t.line; col = t.col + 1 }

-- the place behind the end of a line is the begin of the next one
abbrev pub next_line : (w : ℕ) → Terminal → Terminal
next_line w t = if t.col == w then record t { col = 0; line = t.line + 1 } else t

-- behind the last line the text moves up, and the last line is empty
abbrev pub move_up : (h : ℕ) → Terminal → Terminal
move_up h t =
    if t.line == h
    then record t { text = λ i j b. if j + 1 == h then 0 else t.text i (j + 1) b; line = h - 1 }
    else t

abbrev pub type_char : (w h : ℕ) → Terminal → (ch style : ℕ) → Terminal
type_char w h t ch style = move_up h (next_line w (place_char t ch style))

-- the window of a screen of `width` columns and `height` lines shows the terminal
pub record IsView (width height : ℕ) (win : Window) (t : Terminal) : Type 0 where
  pub on : IsOn win width height
  pub col : win.pt_x ≡ t.col
  pub line : win.pt_y ≡ t.line
  pub text :
      (i j b : ℕ)
      → i < win.w
      → j < win.h
      → b < 2
      → cell width win.scr (win.x + i) (win.y + j) b ≡ t.text i j b

module _ (width height : ℕ) (win : Window) (t : Terminal) (view : IsView width height win t) where
  -- a character that is written at a place of the window
  written-IsView :
      (ch style i j i' ti tj ti' : ℕ)
      → i < win.w
      → j < win.h
      → i ≡ ti
      → j ≡ tj
      → i' ≡ ti'
      → IsView width height
          (record win { scr = fc_putc win.scr ch (win.x + i) (win.y + j) style; pt_x = i' })
          (record t { text = set_char t ch style ti tj; col = ti' })
  written-IsView ch style i j i' ti tj ti' hi hj ei ej ei' = record {
    on = record {
      sized = fc_putc-IsSized width height win.scr ch (win.x + i) (win.y + j) style view.on.sized;
      right = view.on.right;
      bottom = view.on.bottom;
      wide = view.on.wide;
      few = view.on.few;
      high = view.on.high;
    };
    col = ei';
    line = view.line;
    text = λ k l b hk hl hb.
        let old = view.text k l b hk hl hb in
        fc_putc-cell width height win.scr ch (win.x + i) (win.y + j) style (win.x + k) (win.y + l) b
          view.on.sized (omega (arith, view.on.right)) (omega (arith, view.on.bottom))
          (omega (arith, view.on.right)) hb
        ∙ rw old (ground arith);
  }

  -- only the place changes
  pub moved-IsView :
      (i j ti tj : ℕ)
      → i ≡ ti
      → j ≡ tj
      → IsView width height (record win { pt_x = i; pt_y = j }) (record t { col = ti; line = tj })
  moved-IsView i j ti tj ei ej = record {
    on = record {
      sized = view.on.sized;
      right = view.on.right;
      bottom = view.on.bottom;
      wide = view.on.wide;
      few = view.on.few;
      high = view.on.high;
    };
    col = ei;
    line = ej;
    text = view.text;
  }

  pub put_char-IsView :
      (ch style : ℕ)
      → win.pt_x < win.w
      → win.pt_y < win.h
      → IsView width height (put_char win ch style) (place_char t ch style)
  put_char-IsView ch style hx hy = elim (Bool-cases (ch == 10)) [
    | inl e ↦ rw e (moved-IsView 0 (win.pt_y + 1) 0 (t.line + 1) refl (ap (λ c. c + 1) view.line))
    | inr e ↦ elim (Bool-cases (ch == 8)) [
      | inl e' ↦ elim (Bool-cases (t.col == 0)) [
        | inl z ↦
            let z' : ltb 0 win.pt_x ≡ false = ground (arith, z, view.col) in rw (e, e', z, z') view
        | inr z ↦
            let z' : ltb 0 win.pt_x ≡ true = ground (arith, z, view.col) in
            rw (e, e', z, z')
              (written-IsView 0 style (win.pt_x - 1) win.pt_y (win.pt_x - 1) (t.col - 1) t.line
                (t.col - 1) (omega arith) hy (ap (λ c. c - 1) view.col) view.line
                (ap (λ c. c - 1) view.col))
      ]
      | inr e' ↦
          rw (e, e')
            (written-IsView ch style win.pt_x win.pt_y (win.pt_x + 1) t.col t.line (t.col + 1) hx hy
              view.col view.line (ap (λ c. c + 1) view.col))
    ]
  ]

  pub scroll-IsView : win.pt_y ≡ win.h → IsView width height (scroll win) (move_up win.h t)
  unfolding scroll
  scroll-IsView hy =
      let e : (t.line == win.h) ≡ true = ground (arith, view.line) in
      rw e (record {
        on = scroll-IsOn width height win view.on;
        col = view.col;
        line = ap (λ c. c - 1) hy;
        text = λ i j b hi hj hb.
            let next = λ (hj' : j + 1 < win.h). view.text i (j + 1) b hi hj' hb in
            scroll-cell width height win (win.x + i) (win.y + j) b view.on
              (omega (arith, view.on.right)) hb
            ∙ ground (arith, next);
      })

-- the place is in the window
abbrev pub IsInside : Window → Type 0
IsInside win = (win.pt_x < win.w) × (win.pt_y < win.h)
