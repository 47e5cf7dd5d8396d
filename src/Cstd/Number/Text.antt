-- ===== src/Cstd/Number/Text.antt =====
-- What `utoa` and `itoa` leave in the buffer.
use native.Mathlib.Nat.{div-lt_iff_lt-mul, le-div_iff_mul-le, pow-zero, add-zero}
use mathlib.Core.Option.{bind}
use mathlib.Core.Path.{subst}
use frosk_current.Prelude.{
  ℕ, zero, suc, ◌+◌, ◌-◌, ◌/◌, ◌^◌, ◌<◌, ◌≤◌, ◌≡◌, Option, some, List, [], ◌∷◌, arith, ap, ◌∙◌,
  refl, length, Bool-cases, inl, inr, ltb, ◌==◌, sym, false,
}
use frosk_current.Prelude.Words.{sub64}
use frosk_current.Prelude.Memory.{Memory, poke, IsString}
use frosk_current.Cstd.Digits.{
  numerals, digits, value, AllBelow, pow-pos, value-digits, digits-AllBelow, length-digits,
}
use frosk_current.Cstd.Number.{utoa_div, utoa_out, digit_char, utoa, itoa, div_fuel, out_fuel}
use frosk_current.Cstd.Number.Print.{
  Weight, utoa_div-Weight, utoa_out-digits, write_chars, write_chars-IsString, write_chars-before,
  digit_chars, Chars-digit_chars, digit_chars-numerals,
}

-- The first digit is not zero.
abbrev pub Leads : List ℕ → Type 0
Leads [] = ⊥
Leads (d ∷ ds) = 0 < d

-- At `buf` stand the digits of `val`, with no leading zero, and nothing before `buf` has changed.
pub record IsPrinted (m : Memory) (buf val radix letter_a : ℕ) (r : Option Memory) : Type 0 where
  pub ds : List ℕ
  pub after : Memory
  pub run : r ≡ some after
  pub text : IsString after buf (numerals letter_a ds)
  pub range : AllBelow radix ds
  pub means : value radix 0 ds ≡ val
  pub leads : 0 < val → Leads ds
  pub short : length ds ≤ 64
  pub before : (q : ℕ) → q < buf → after q ≡ m q

utoa-zero :
    (m : Memory) (buf radix letter_a : ℕ)
    → 2 ≤ radix
    → IsPrinted m buf 0 radix letter_a (utoa m 0 buf radix letter_a)
unfolding utoa value digit_char
utoa-zero m buf radix letter_a hr = record {
  ds = 0 ∷ [];
  after = poke (poke m buf b'0') (buf + 1) 0;
  run = refl;
  text = (ground arith, omega arith, omega arith, ground arith);
  range = omega arith;
  means = omega arith;
  leads = λ h. absurd (omega arith);
  short = omega arith;
  before = λ q lt. ground arith;
}

-- The second loop and its result, from what the first one leaves.
utoa_of_Weight :
    (m : Memory) (val buf radix letter_a : ℕ)
    → 0 < val
    → 2 ≤ radix
    → radix ≤ 36
    → 65 ≤ letter_a
    → letter_a ≤ 97
    → Weight radix val 63 (utoa_div div_fuel (val / radix) 1 radix)
    → IsPrinted m buf val radix letter_a (utoa m val buf radix letter_a)
unfolding utoa digits bind
utoa_of_Weight m val buf radix letter_a pos hr hr' lo hi w = record {
  ds = ds;
  after = after;
  run = rw test (rw (w.run, bind) out);
  text = subst (IsString after buf) (digit_chars-numerals radix letter_a ds hr' lo hi range) (
      write_chars-IsString m buf (digit_chars letter_a ds)
        (Chars-digit_chars radix letter_a ds hr' lo hi range));
  range = range;
  means = value-digits radix (suc w.k) val 0 (omega arith) w.above ∙ omega arith;
  leads = λ h.
      (le-div_iff_mul-le {x = 1} {y = val} (pow-pos radix w.k (omega arith))).1
        (omega (arith, w.below));
  short = omega (arith, length-digits radix (suc w.k) val, w.few);
  before = write_chars-before m buf (digit_chars letter_a ds);
}
  where
    ds : List ℕ
    ds = digits radix (suc w.k) val

    after : Memory
    after = write_chars m buf (digit_chars letter_a ds)

    range : AllBelow radix ds
    range = digits-AllBelow radix (suc w.k) val (omega arith) w.above

    test : (val == 0) ≡ false
    test = ground arith

    few : suc w.k < out_fuel
    few = omega (arith, w.few)

    out : utoa_out out_fuel m buf 0 val (radix ^ w.k) radix letter_a ≡ some after
    out =
        rw add-zero at
          (utoa_out-digits w.k out_fuel m buf 0 val (radix ^ w.k) radix letter_a hr refl few)

-- For every 64-bit value, radix from 2 to 36 and base letter between 'A' and 'a', `utoa` ends, and
-- the buffer then holds a string of the value's digits, '0' to '9' and letters from the base letter on: each below the radix, at most 64 of them,
-- the first one not zero unless the value is, and together they stand for the value. Nothing
-- before the buffer changes.
pub utoa-IsPrinted :
    (m : Memory) (val buf radix letter_a : ℕ)
    → val < 2 ^ 64
    → 2 ≤ radix
    → radix ≤ 36
    → 65 ≤ letter_a
    → letter_a ≤ 97
    → IsPrinted m buf val radix letter_a (utoa m val buf radix letter_a)
utoa-IsPrinted m zero buf radix letter_a hv hr hr' lo hi = utoa-zero m buf radix letter_a hr
utoa-IsPrinted m (suc v) buf radix letter_a hv hr hr' lo hi =
    utoa_of_Weight m (suc v) buf radix letter_a (omega arith) hr hr' lo hi (
      utoa_div-Weight 63 (suc v / radix) 1 (suc v) radix 0 hr hv (sym (pow-zero radix))
        (omega arith) (ap (λ t. suc v / t) (omega arith))
        ((div-lt_iff_lt-mul {x = suc v} {y = 2 ^ 63} (omega arith)).1 (omega arith)))

-- `itoa` prints a negative `long`, given by its bit pattern, as a minus sign at `buf` and the digits
-- of the absolute value behind it. That holds for the least `long` too.
pub itoa_negative :
    (m : Memory) (v buf radix letter_a : ℕ)
    → 2 ^ 63 ≤ v
    → v < 2 ^ 64
    → 2 ≤ radix
    → radix ≤ 36
    → 65 ≤ letter_a
    → letter_a ≤ 97
    → (after : Memory) × (itoa m v buf radix letter_a ≡ some after)
      × (after buf ≡ b'-')
      × IsPrinted
          (poke m buf b'-')
          (buf + 1)
          (2 ^ 64 - v)
          radix
          letter_a
          (itoa m v buf radix letter_a)
unfolding itoa
itoa_negative m v buf radix letter_a neg hv hr hr' lo hi = (
  p.after,
  rw test (rw opposite p.run),
  p.before buf (omega arith) ∙ ground arith,
  rw test (rw opposite p),
)
  where
    test : ltb v (2 ^ 63) ≡ false
    test = ground arith

    opposite : sub64 0 v ≡ 2 ^ 64 - v
    opposite = omega arith

    p :
        IsPrinted
          (poke m buf b'-')
          (buf + 1)
          (2 ^ 64 - v)
          radix
          letter_a
          (utoa (poke m buf b'-') (2 ^ 64 - v) (buf + 1) radix letter_a)
    p = utoa-IsPrinted _ (2 ^ 64 - v) (buf + 1) radix letter_a (omega arith) hr hr' lo hi

numerals-length : (letter_a : ℕ) (ds : List ℕ) → length (numerals letter_a ds) ≡ length ds
numerals-length letter_a [] = refl
numerals-length letter_a (d ∷ ds) = ap suc (numerals-length letter_a ds)

-- a call that has left a string of at most 65 characters at `buf`
abbrev pub LeavesString : (buf : ℕ) → Option Memory → Type 0
LeavesString buf r =
    (after : Memory) × (s : List ℕ) × (r ≡ some after) × IsString after buf s × (length s ≤ 65)

pub IsPrinted-LeavesString :
    (m : Memory) (buf val radix letter_a : ℕ) (r : Option Memory)
    → IsPrinted m buf val radix letter_a r
    → LeavesString buf r
IsPrinted-LeavesString m buf val radix letter_a r p = (
  p.after,
  numerals letter_a p.ds,
  p.run,
  p.text,
  omega (arith, numerals-length letter_a p.ds, p.short),
)

-- `itoa` ends for every 64-bit pattern, and leaves a string.
pub itoa-LeavesString :
    (m : Memory) (v buf radix letter_a : ℕ)
    → v < 2 ^ 64
    → 2 ≤ radix
    → radix ≤ 36
    → 65 ≤ letter_a
    → letter_a ≤ 97
    → LeavesString buf (itoa m v buf radix letter_a)
unfolding itoa
itoa-LeavesString m v buf radix letter_a hv hr hr' lo hi = elim (Bool-cases (ltb v (2 ^ 63))) [
  | inl e ↦ rw e (
      IsPrinted-LeavesString m buf v radix letter_a _
        (utoa-IsPrinted m v buf radix letter_a hv hr hr' lo hi))
  | inr e ↦
      let (_, _, _, p) = itoa_negative m v buf radix letter_a (ground (arith, e)) hv hr hr' lo hi in
      let minus : p.after buf ≡ b'-' = p.before buf (omega arith) ∙ ground arith in
      (
        p.after,
        b'-' ∷ numerals letter_a p.ds,
        p.run,
        (minus, omega arith, omega arith, p.text),
        omega (arith, numerals-length letter_a p.ds, p.short),
      )
]
