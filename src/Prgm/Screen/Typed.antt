-- ===== src/Prgm/Screen/Typed.antt =====
-- Typing in a window of `fcurses.c`: `fc_wputc` and `fc_wputs` against the terminal.
use native.Mathlib.Nat.{mod_self}
use frosk_current.Prelude.{
  ℕ, zero, suc, ◌+◌, ◌-◌, ◌%◌, ◌≤◌, ◌<◌, ◌≡◌, inl, inr, true, false, ◌==◌, ltb, leb, Bool-cases,
  arith, refl, ap, ◌∙◌,
}
use frosk_current.Prgm.Screen.{
  Window, scroll, scroll_loop, scroll_check, put_char, show_cursor, fc_wputc,
}
use mathlib.Core.Path.{subst}
use frosk_current.Prgm.Screen.Local.{put_char-Stays}
use frosk_current.Prelude.{List, [], ◌∷◌, length, Option, some}
use frosk_current.Prelude.Memory.{Memory, IsString}
use frosk_current.Prgm.Screen.{fc_wputs}
use frosk_current.Prgm.Screen.Local.{Stays, Stays-trans, fc_wputc-Stays, moved-Stays}
use frosk_current.Prgm.Screen.Terminal.{
  Terminal, place_char, next_line, move_up, type_char, IsView, IsInside, moved-IsView,
  put_char-IsView, scroll-IsView,
}

scroll-IsInside :
    (win : Window) → win.pt_x < win.w → win.pt_y ≡ win.h → 0 < win.h → IsInside (scroll win)
unfolding scroll
scroll-IsInside win hx hy high = (hx, omega arith)

-- A place below the window is brought back by scrolling.
scroll_loop-IsView :
    (width height : ℕ) (win : Window) (t : Terminal)
    → IsView width height win t
    → win.pt_x < win.w
    → win.pt_y ≤ win.h
    → IsView width height (scroll_loop (win.pt_y + 1 - win.h) win) (move_up win.h t)
      × IsInside (scroll_loop (win.pt_y + 1 - win.h) win)
unfolding scroll_loop
scroll_loop-IsView width height win t view hx hy = elim (Bool-cases (win.pt_y == win.h)) [
  | inl e ↦
      let below : win.pt_y ≡ win.h = ground (arith, e) in
      let once : win.pt_y + 1 - win.h ≡ 1 = omega (arith, below) in
      let test : leb win.h win.pt_y ≡ true = ground (arith, below) in
      rw (once, scroll_loop, test)
        (scroll-IsView width height win t view below, scroll-IsInside win hx below view.on.high)
  | inr e ↦
      let above : win.pt_y < win.h = ground (arith, e) in
      let never : win.pt_y + 1 - win.h ≡ 0 = omega (arith, above) in
      let test : (t.line == win.h) ≡ false = ground (arith, view.line, e) in
      rw (never, test) (view, (hx, above))
]

scroll_check-IsView :
    (width height : ℕ) (win : Window) (t : Terminal)
    → IsView width height win t
    → win.pt_x ≤ win.w
    → win.pt_y ≤ win.h
    → (win.pt_x ≡ win.w → win.pt_y < win.h)
    → IsView width height (scroll_check win) (move_up win.h (next_line win.w t))
      × IsInside (scroll_check win)
unfolding scroll_check
scroll_check-IsView width height win t view hx hy last = elim (Bool-cases (t.col == win.w)) [
  | inl e ↦
      let full : win.pt_x ≡ win.w = ground (arith, e, view.col) in
      let e' : leb win.w win.pt_x ≡ true = ground (arith, full) in
      let over : win.pt_x % win.w ≡ 0 = ap (λ c. c % win.w) full ∙ mod_self win.w in
      let win' = record win { pt_x = win.pt_x % win.w; pt_y = win.pt_y + 1 } in
      rw (e, e')
        (scroll_loop-IsView width height win' (record t { col = 0; line = t.line + 1 })
          (moved-IsView width height win t view (win.pt_x % win.w) (win.pt_y + 1) 0 (t.line + 1)
            over (ap (λ c. c + 1) view.line))
          (omega (arith, over, view.on.wide)) (omega (arith, last full)))
  | inr e ↦
      let e' : leb win.w win.pt_x ≡ false = ground (arith, e, view.col) in
      rw (e, e') (scroll_loop-IsView width height win t view (ground (arith, e, view.col)) hy)
]

-- The place after a character is inside the window, at the end of a line or below the last line.
put_char-bounds :
    (win : Window) (ch style : ℕ)
    → win.pt_x < win.w
    → win.pt_y < win.h
    → ((put_char win ch style).pt_x ≤ win.w)
      × ((put_char win ch style).pt_y ≤ win.h)
      × ((put_char win ch style).pt_x ≡ win.w → (put_char win ch style).pt_y < win.h)
put_char-bounds win ch style hx hy = elim (Bool-cases (ch == 10)) [
  | inl e ↦ rw e (omega arith, omega arith, λ full. omega arith)
  | inr e ↦ elim (Bool-cases (ch == 8)) [
    | inl e' ↦ elim (Bool-cases (ltb 0 win.pt_x)) [
      | inl z ↦ rw (e, e', z) (omega arith, omega arith, λ full. hy)
      | inr z ↦ rw (e, e', z) (omega arith, omega arith, λ full. hy)
    ]
    | inr e' ↦ rw (e, e') (omega arith, omega arith, λ full. hy)
  ]
]

shown-IsView :
    (width height : ℕ) (win : Window) (t : Terminal)
    → IsView width height win t
    → IsView width height (show_cursor win) t
shown-IsView width height win t view = record {
  on = record {
    sized = record {
      wide = view.on.sized.wide;
      high = view.on.sized.high;
      whole = view.on.sized.whole;
      file = view.on.sized.file;
      small = view.on.sized.small;
    };
    right = view.on.right;
    bottom = view.on.bottom;
    wide = view.on.wide;
    few = view.on.few;
    high = view.on.high;
  };
  col = view.col;
  line = view.line;
  text = view.text;
}

resized :
    (width height : ℕ) (win : Window) (t : Terminal) (w w' h h' : ℕ)
    → w' ≡ w
    → h' ≡ h
    → IsView width height win (move_up h' (next_line w' t))
    → IsView width height win (move_up h (next_line w t))
resized width height win t w w' h h' ew eh view =
    subst (λ k. IsView width height win (move_up k (next_line w t))) eh
      (subst (λ k. IsView width height win (move_up h' (next_line k t))) ew view)

-- If a window with the place inside shows a terminal, then after `fc_wputc` the place is inside, the
-- window shows the terminal after the character, and the cursor of the screen is at the place.
pub fc_wputc-IsView :
    (width height : ℕ) (win : Window) (t : Terminal) (ch style : ℕ)
    → IsView width height win t
    → IsInside win
    → IsView width height (fc_wputc win ch style) (type_char win.w win.h t ch style)
      × IsInside (fc_wputc win ch style)
      × ((fc_wputc win ch style).scr.cursor ≡ (
        (fc_wputc win ch style).x + (fc_wputc win ch style).pt_x,
        (fc_wputc win ch style).y + (fc_wputc win ch style).pt_y,
      ))
unfolding fc_wputc
fc_wputc-IsView width height win t ch style view (hx, hy) =
    let put = put_char-IsView width height win t view ch style hx hy in
    let kept = (put_char-Stays width height win view.on ch style hx hy).1 in
    let (x_bound, y_bound, last) = put_char-bounds win ch style hx hy in
    let checked =
      scroll_check-IsView width height (put_char win ch style) (place_char t ch style) put
        (rw kept.w x_bound) (rw kept.h y_bound) (rw (kept.w, kept.h) last) in
    (
      shown-IsView width height (scroll_check (put_char win ch style))
          (type_char win.w win.h t ch style)
          (resized width height (scroll_check (put_char win ch style)) (place_char t ch style) win.w
            (put_char win ch style).w win.h (put_char win ch style).h kept.w kept.h (checked.0)),
      checked.1,
      refl,
    )

-- the characters one after the other
abbrev pub type_string : (w h : ℕ) → Terminal → List ℕ → (style : ℕ) → Terminal
type_string w h t [] style = t
type_string w h t (c ∷ s) style = type_string w h (type_char w h t c style) s style

-- what `fc_wputs` leads to
abbrev pub IsTyped : (width height : ℕ) → Window → Terminal → Option Window → Type 0
IsTyped width height win t r =
    (win' : Window) × (r ≡ some win')
    × IsView width height win' t
    × IsInside win'
    × Stays width height win win'

-- what is typed in a window that is local to another one
later :
    (width height : ℕ) (win win1 : Window) (t : Terminal) (s : List ℕ) (style : ℕ)
    (r : Option Window)
    → Stays width height win win1
    → IsTyped width height win1 (type_string win1.w win1.h t s style) r
    → IsTyped width height win (type_string win.w win.h t s style) r
later width height win win1 t s style r stays (win', returns, view, inside, stays') =
    let view' : IsView width height win' (type_string win.w win.h t s style) =
      subst (λ h. IsView width height win' (type_string win.w h t s style)) (stays.1.h)
        (subst (λ w. IsView width height win' (type_string w win1.h t s style)) (stays.1.w) view) in
    (win', returns, view', inside, Stays-trans width height win win1 win' stays stays')

-- With fuel for the characters of a string, `fc_wputs` returns; the window shows the terminal after
-- all of them, its place is inside, and nothing outside of the window has changed.
pub fc_wputs-IsTyped :
    (width height f : ℕ) (win : Window) (t : Terminal) (m : Memory) (a : ℕ) (s : List ℕ) (style : ℕ)
    → IsView width height win t
    → IsInside win
    → IsString m a s
    → length s < f
    → IsTyped width height win (type_string win.w win.h t s style) (fc_wputs f win m a style)
unfolding fc_wputs
fc_wputs-IsTyped width height zero win t m a s style view inside str fuel = absurd (omega arith)
fc_wputs-IsTyped width height (suc f) win t m a [] style view inside str fuel =
    let end : (m a == 0) ≡ true = ground (arith, str) in
    rw (fc_wputs, end)
      (win, refl, view, inside, moved-Stays width height win view.on win.pt_x win.pt_y)
fc_wputs-IsTyped width height (suc f) win t m a (c ∷ s) style view (hx, hy) (here, above, byte, str)
      fuel =
    let more : (m a == 0) ≡ false = ground (arith, here, above) in
    let one = fc_wputc-IsView width height win t c style view (hx, hy) in
    let stays = fc_wputc-Stays width height win c style view.on hx hy in
    let rest =
      fc_wputs-IsTyped width height f (fc_wputc win c style) (type_char win.w win.h t c style) m
        (a + 1) s style (one.0) (one.1) str (omega arith) in
    rw (fc_wputs, more, here)
      (later width height win (fc_wputc win c style) (type_char win.w win.h t c style) s style
        (fc_wputs f (fc_wputc win c style) m (a + 1) style) stays rest)
