-- ===== src/Cstd/Number/Print.antt =====
-- `utoa` writes the digits of the value.
use native.Mathlib.Nat.{
  pow-zero, pow-suc, div-lt_iff_lt-mul, div-div-eq-div-mul, mod-eq_of_lt, le-div_iff_mul-le,
  mul-div_cancel, div-eq_of_lt, add_assoc,
}
use mathlib.Core.List.{map}
use frosk_current.Prelude.{
  ℕ, zero, suc, ◌+◌, ◌*◌, ◌/◌, ◌%◌, ◌^◌, ◌<◌, ◌≤◌, ◌≡◌, Option, some, List, [], ◌∷◌, arith, ◌∙◌, ap,
  refl, ltb, sym, true,
}
use frosk_current.Prelude.Words.{mul64}
use frosk_current.Prelude.Memory.{Memory, poke, IsString}
use frosk_current.Cstd.Str.Order.{Chars}
use frosk_current.Cstd.Digits.{digits, AllBelow, pow-pos, numeral, numerals}
use frosk_current.Cstd.Number.{utoa_div, utoa_out, digit_char}

utoa_div-more :
    (f tmp div radix : ℕ)
    → 0 < tmp
    → div * radix < 2 ^ 64
    → utoa_div (suc f) tmp div radix ≡ utoa_div f (tmp / radix) (div * radix) radix
unfolding utoa_div
utoa_div-more f tmp div radix more small =
    let grown : mul64 div radix ≡ div * radix = mod-eq_of_lt small in
    let test : ltb 0 tmp ≡ true = ground arith in rw (test, utoa_div) (rw grown)

utoa_div-done : (f tmp div radix : ℕ) → tmp ≡ 0 → utoa_div (suc f) tmp div radix ≡ some div
unfolding utoa_div
utoa_div-done f tmp div radix done = ground arith

mul-le_of_div-pos : (val d : ℕ) → 0 < d → 0 < val / d → d ≤ val
mul-le_of_div-pos val d pos h = omega (arith, (le-div_iff_mul-le {x = 1} {y = val} pos).0 h)

lt-mul_of_div-zero : (val d : ℕ) → 0 < d → val / d ≡ 0 → val < d
lt-mul_of_div-zero val d pos h =
    omega (arith, (div-lt_iff_lt-mul {x = val} {y = 1} pos).0 (omega arith))

-- What the first loop leaves: the largest power of the radix that is not above the value.
pub record Weight (radix val rounds : ℕ) (r : Option ℕ) : Type 0 where
  pub k : ℕ
  pub run : r ≡ some (radix ^ k)
  pub below : radix ^ k ≤ val
  pub above : val < radix ^ suc k
  pub few : k ≤ rounds

pub utoa_div-Weight :
    (f tmp div val radix j : ℕ)
    → 2 ≤ radix
    → val < 2 ^ 64
    → div ≡ radix ^ j
    → div ≤ val
    → tmp ≡ val / (div * radix)
    → tmp < 2 ^ f
    → Weight radix val (j + f) (utoa_div (suc f) tmp div radix)
utoa_div-Weight f zero div val radix j hr hv hd le ht small =
    let pos : 0 < div * radix = grind (arith, pow-pos radix j (omega arith)) in
    record {
      k = j;
      run = rw (← hd) (utoa_div-done f 0 div radix refl);
      below = omega arith;
      above = rw pow-suc (rw (← hd) (lt-mul_of_div-zero val (div * radix) pos (sym ht)));
      few = omega arith;
    }
utoa_div-Weight zero (suc t) div val radix j hr hv hd le ht small = absurd (omega (arith, small))
utoa_div-Weight (suc f) (suc t) div val radix j hr hv hd le ht small =
    let pos : 0 < div * radix = grind (arith, pow-pos radix j (omega arith)) in
    let le' : div * radix ≤ val = mul-le_of_div-pos val (div * radix) pos (omega arith) in
    let grown : div * radix ≡ radix ^ suc j = rw pow-suc (rw (← hd)) in
    let next : suc t / radix ≡ val / (div * radix * radix) =
      rw ht (div-div-eq-div-mul val (div * radix) radix) in
    let positive : 0 < suc t = omega arith in
    let fits : div * radix < 2 ^ 64 = omega arith in
    let small' : suc t / radix < 2 ^ f =
      (div-lt_iff_lt-mul {x = suc t} {y = 2 ^ f} (omega arith)).1 (grind (arith, pow-suc 2 f)) in
    let w : Weight radix val (suc j + f) (utoa_div (suc f) (suc t / radix) (div * radix) radix) =
      utoa_div-Weight f (suc t / radix) (div * radix) val radix (suc j) hr hv grown le' next
        small' in
    record {
      k = w.k;
      run = utoa_div-more (suc f) (suc t) div radix positive fits ∙ w.run;
      below = w.below;
      above = w.above;
      few = omega (arith, w.few);
    }

-- the memory after the characters and a terminator are written from `p` on
abbrev pub write_chars : Memory → ℕ → List ℕ → Memory
write_chars m p [] = poke m p 0
write_chars m p (c ∷ cs) = write_chars (poke m p c) (p + 1) cs

abbrev pub digit_chars : ℕ → List ℕ → List ℕ
digit_chars letter_a ds = map (λ d. digit_char d letter_a) ds

utoa_out-more :
    (f : ℕ) (m : Memory) (buf i val div radix letter_a : ℕ)
    → 0 < div
    → utoa_out (suc f) m buf i val div radix letter_a
      ≡ utoa_out f
          (poke m (buf + i) (digit_char (val / div) letter_a))
          buf
          (i + 1)
          (val % div)
          (div / radix)
          radix
          letter_a
unfolding utoa_out
utoa_out-more f m buf i val div radix letter_a pos =
    let test : ltb 0 div ≡ true = ground arith in rw (test, utoa_out)

utoa_out-done :
    (f : ℕ) (m : Memory) (buf i val div radix letter_a : ℕ)
    → div ≡ 0
    → utoa_out (suc f) m buf i val div radix letter_a ≡ some (poke m (buf + i) 0)
unfolding utoa_out
utoa_out-done f m buf i val div radix letter_a none_left = ground arith

-- The second loop writes the digits below the weight of the first one.
pub utoa_out-digits :
    (k f : ℕ) (m : Memory) (buf i val div radix letter_a : ℕ)
    → 2 ≤ radix
    → div ≡ radix ^ k
    → suc k < f
    → utoa_out f m buf i val div radix letter_a
      ≡ some (write_chars m (buf + i) (digit_chars letter_a (digits radix (suc k) val)))
unfolding digits
utoa_out-digits zero zero m buf i val div radix letter_a hr hd lt = absurd (omega arith)
utoa_out-digits zero (suc zero) m buf i val div radix letter_a hr hd lt = absurd (omega arith)
utoa_out-digits zero (suc (suc f)) m buf i val div radix letter_a hr hd lt =
    utoa_out-more (suc f) m buf i val div radix letter_a (omega (arith, hd, pow-zero radix))
    ∙ utoa_out-done f _ buf (i + 1) (val % div) (div / radix) radix letter_a gone
    ∙ rw (← add_assoc buf i 1, hd)
  where
    gone : div / radix ≡ 0
    gone = div-eq_of_lt (omega (arith, hd, pow-zero radix))
utoa_out-digits (suc k) zero m buf i val div radix letter_a hr hd lt = absurd (omega arith)
utoa_out-digits (suc k) (suc f) m buf i val div radix letter_a hr hd lt =
    utoa_out-more f m buf i val div radix letter_a (rw hd (pow-pos radix (suc k) (omega arith)))
    ∙ utoa_out-digits k f _ buf (i + 1) (val % div) (div / radix) radix letter_a hr next
        (omega arith)
    ∙ rw (← add_assoc buf i 1, hd)
  where
    next : div / radix ≡ radix ^ k
    next = rw (hd, pow-suc) (mul-div_cancel (radix ^ k) (omega arith))

-- The characters that the digits of a number below the radix give are characters of a string.
digit_char-range :
    (d letter_a : ℕ)
    → d < 36
    → 65 ≤ letter_a
    → letter_a ≤ 97
    → (0 < digit_char d letter_a) × (digit_char d letter_a < 256)
unfolding digit_char
digit_char-range d letter_a lt lo hi = ground arith

pub Chars-digit_chars :
    (radix letter_a : ℕ) (ds : List ℕ)
    → radix ≤ 36
    → 65 ≤ letter_a
    → letter_a ≤ 97
    → AllBelow radix ds
    → Chars (digit_chars letter_a ds)
Chars-digit_chars radix letter_a [] hr lo hi all = tt
Chars-digit_chars radix letter_a (d ∷ ds) hr lo hi all =
    let (pos, small) = digit_char-range d letter_a (omega arith) lo hi in
    (pos, small, Chars-digit_chars radix letter_a ds hr lo hi all.1)

pub digit_char-numeral :
    (d letter_a : ℕ)
    → d < 36
    → 65 ≤ letter_a
    → letter_a ≤ 97
    → digit_char d letter_a ≡ numeral letter_a d
unfolding digit_char
digit_char-numeral d letter_a lt lo hi = ground arith

pub digit_chars-numerals :
    (radix letter_a : ℕ) (ds : List ℕ)
    → radix ≤ 36
    → 65 ≤ letter_a
    → letter_a ≤ 97
    → AllBelow radix ds
    → digit_chars letter_a ds ≡ numerals letter_a ds
digit_chars-numerals radix letter_a [] hr lo hi all = refl
digit_chars-numerals radix letter_a (d ∷ ds) hr lo hi all =
    rw (digit_char-numeral d letter_a (omega arith) lo hi)
      (ap (λ cs. numeral letter_a d ∷ cs) (digit_chars-numerals radix letter_a ds hr lo hi all.1))

pub write_chars-before :
    (m : Memory) (p : ℕ) (cs : List ℕ) (q : ℕ) → q < p → write_chars m p cs q ≡ m q
write_chars-before m p [] q lt = ground arith
write_chars-before m p (c ∷ cs) q lt = ground (arith, write_chars-before (poke m p c) (p + 1) cs q)

pub write_chars-IsString :
    (m : Memory) (p : ℕ) (cs : List ℕ) → Chars cs → IsString (write_chars m p cs) p cs
write_chars-IsString m p [] h = ground arith
write_chars-IsString m p (c ∷ cs) h = (
  write_chars-before (poke m p c) (p + 1) cs p (omega arith) ∙ ground arith,
  h.0,
  h.1,
  write_chars-IsString (poke m p c) (p + 1) cs h.2,
)
