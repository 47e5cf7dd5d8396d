-- ===== src/Prgm/Screen/Local.antt =====
-- A window of `fcurses.c` changes nothing outside of it.
use frosk_current.Prelude.{
  ℕ, zero, suc, ◌+◌, ◌-◌, ◌%◌, ◌<◌, ◌≡◌, inl, inr, false, ◌==◌, ltb, leb, Bool-cases, arith, refl,
  ◌∙◌,
}
use frosk_current.Prgm.Screen.{
  Window, fc_putc, scroll, scroll_loop, wrap, scroll_check, put_char, show_cursor, fc_wputc,
}
use frosk_current.Prgm.Screen.Cells.{cell, fc_putc-IsSized, fc_putc-cell}
use frosk_current.Prgm.Screen.Scroll.{IsOn, is_in, scroll-IsOn, scroll-cell}

-- `new` is the window `old` on a screen that differs only inside the window
pub record IsLocal (width : ℕ) (old new : Window) : Type 0 where
  pub x : new.x ≡ old.x
  pub y : new.y ≡ old.y
  pub w : new.w ≡ old.w
  pub h : new.h ≡ old.h
  pub same :
      (cx cy b : ℕ)
      → cx < width
      → b < 2
      → is_in old.x old.w old.y old.h cx cy ≡ false
      → cell width new.scr cx cy b ≡ cell width old.scr cx cy b

-- the window stays on the screen and is local
abbrev pub Stays : (width height : ℕ) (old new : Window) → Type 0
Stays width height old new = IsOn new width height × IsLocal width old new

pub Stays-trans :
    (width height : ℕ) (a b c : Window)
    → Stays width height a b
    → Stays width height b c
    → Stays width height a c
Stays-trans width height a b c (_, ab) (on, bc) = (
  on,
  record {
    x = bc.x ∙ ab.x;
    y = bc.y ∙ ab.y;
    w = bc.w ∙ ab.w;
    h = bc.h ∙ ab.h;
    same = λ cx cy k hc hk out.
        bc.same cx cy k hc hk (rw (ab.x, ab.y, ab.w, ab.h) out) ∙ ab.same cx cy k hc hk out;
  },
)

module _ (width height : ℕ) (win : Window) (on : IsOn win width height) where
  -- only the place changes
  pub moved-Stays : (i j : ℕ) → Stays width height win (record win { pt_x = i; pt_y = j })
  moved-Stays i j = (
    record {
      sized = on.sized;
      right = on.right;
      bottom = on.bottom;
      wide = on.wide;
      few = on.few;
      high = on.high;
    },
    record { x = refl; y = refl; w = refl; h = refl; same = λ cx cy k hc hk out. refl },
  )

  written-Stays :
      (ch style i j i' : ℕ)
      → i < win.w
      → j < win.h
      → Stays width height win
          (record win { scr = fc_putc win.scr ch (win.x + i) (win.y + j) style; pt_x = i' })
  written-Stays ch style i j i' hi hj = (
    record {
      sized = fc_putc-IsSized width height win.scr ch (win.x + i) (win.y + j) style on.sized;
      right = on.right;
      bottom = on.bottom;
      wide = on.wide;
      few = on.few;
      high = on.high;
    },
    record {
      x = refl;
      y = refl;
      w = refl;
      h = refl;
      same = λ cx cy k hc hk out.
          fc_putc-cell width height win.scr ch (win.x + i) (win.y + j) style cx cy k on.sized
            (omega (arith, on.right)) (omega (arith, on.bottom)) hc hk
          ∙ ground arith;
    },
  )

  pub put_char-Stays :
      (ch style : ℕ)
      → win.pt_x < win.w
      → win.pt_y < win.h
      → Stays width height win (put_char win ch style)
  put_char-Stays ch style hx hy = elim (Bool-cases (ch == 10)) [
    | inl e ↦ rw e (moved-Stays 0 (win.pt_y + 1))
    | inr e ↦ elim (Bool-cases (ch == 8)) [
      | inl e' ↦ elim (Bool-cases (ltb 0 win.pt_x)) [
        | inl z ↦
            rw (e, e', z)
              (written-Stays 0 style (win.pt_x - 1) win.pt_y (win.pt_x - 1) (omega arith) hy)
        | inr z ↦ rw (e, e', z) (moved-Stays win.pt_x win.pt_y)
      ]
      | inr e' ↦ rw (e, e') (written-Stays ch style win.pt_x win.pt_y (win.pt_x + 1) hx hy)
    ]
  ]

  wrap-Stays : Stays width height win (wrap win)
  wrap-Stays = elim (Bool-cases (leb win.w win.pt_x)) [
    | inl e ↦ rw e (moved-Stays (win.pt_x % win.w) (win.pt_y + 1))
    | inr e ↦ rw e (moved-Stays win.pt_x win.pt_y)
  ]

  scroll-Stays : Stays width height win (scroll win)
  unfolding scroll
  scroll-Stays = (
    scroll-IsOn width height win on,
    record {
      x = refl;
      y = refl;
      w = refl;
      h = refl;
      same = λ cx cy k hc hk out. scroll-cell width height win cx cy k on hc hk ∙ rw out refl;
    },
  )

scroll_loop-Stays :
    (width height : ℕ) (k : ℕ) (win : Window)
    → IsOn win width height
    → Stays width height win (scroll_loop k win)
unfolding scroll_loop
scroll_loop-Stays width height zero win on = moved-Stays width height win on win.pt_x win.pt_y
scroll_loop-Stays width height (suc k) win on = elim (Bool-cases (leb win.h win.pt_y)) [
  | inl e ↦
      let one = scroll-Stays width height win on in
      rw (scroll_loop, e)
        (Stays-trans width height win (scroll win) (scroll_loop k (scroll win)) one
          (scroll_loop-Stays width height k (scroll win) (one.0)))
  | inr e ↦ rw (scroll_loop, e) (moved-Stays width height win on win.pt_x win.pt_y)
]

pub scroll_check-Stays :
    (width height : ℕ) (win : Window)
    → IsOn win width height
    → Stays width height win (scroll_check win)
unfolding scroll_check
scroll_check-Stays width height win on =
    let wrapped = wrap-Stays width height win on in
    let win' = wrap win in
    Stays-trans width height win win' (scroll_loop (win'.pt_y + 1 - win.h) win') wrapped
      (scroll_loop-Stays width height (win'.pt_y + 1 - win.h) win' (wrapped.0))

shown-Stays :
    (width height : ℕ) (old new : Window)
    → Stays width height old new
    → Stays width height old (show_cursor new)
shown-Stays width height old new (on, local) = (
  record {
    sized = record {
      wide = on.sized.wide;
      high = on.sized.high;
      whole = on.sized.whole;
      file = on.sized.file;
      small = on.sized.small;
    };
    right = on.right;
    bottom = on.bottom;
    wide = on.wide;
    few = on.few;
    high = on.high;
  },
  record { x = local.x; y = local.y; w = local.w; h = local.h; same = local.same },
)

-- With its place inside, a window stays where it is on the screen through `fc_wputc`, and no cell
-- outside of it changes.
pub fc_wputc-Stays :
    (width height : ℕ) (win : Window) (ch style : ℕ)
    → IsOn win width height
    → win.pt_x < win.w
    → win.pt_y < win.h
    → Stays width height win (fc_wputc win ch style)
unfolding fc_wputc
fc_wputc-Stays width height win ch style on hx hy =
    let put = put_char-Stays width height win on ch style hx hy in
    let checked = scroll_check-Stays width height (put_char win ch style) (put.0) in
    shown-Stays width height win (scroll_check (put_char win ch style)) (
      Stays-trans width height win (put_char win ch style) (scroll_check (put_char win ch style))
        put checked)
