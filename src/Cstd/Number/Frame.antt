-- ===== src/Cstd/Number/Frame.antt =====
-- `utoa` and `itoa` write to the buffer only.
use mathlib.Core.Option.{some-injective, none-ne-some, bind}
use frosk_current.Prelude.{
  ℕ, zero, suc, ◌+◌, ◌/◌, ◌%◌, ◌^◌, ◌≤◌, ◌<◌, ◌≡◌, ◌⊎◌, inl, inr, Option, none, some, ◌==◌, ltb,
  Bool-cases, arith, sym, ap, ◌∙◌,
}
use frosk_current.Prelude.Words.{sub64}
use frosk_current.Prelude.Memory.{Memory, poke}
use frosk_current.Cstd.Number.{utoa_div, utoa_out, digit_char, utoa, itoa, div_fuel, out_fuel}

poke-outside :
    (m : Memory) (a q x lo n : ℕ)
    → lo ≤ a
    → a < lo + n
    → (q < lo) ⊎ (lo + n ≤ q)
    → poke m a x q ≡ m q
poke-outside m a q x lo n h k out = elim out [
  | inl e ↦ ground (arith, e)
  | inr e ↦ ground (arith, e)
]

utoa_out-outside :
    (f : ℕ) (m m' : Memory) (buf i val div radix letter_a q : ℕ)
    → utoa_out f m buf i val div radix letter_a ≡ some m'
    → (q < buf) ⊎ (buf + (i + f) ≤ q)
    → m' q ≡ m q
unfolding utoa_out
utoa_out-outside zero m m' buf i val div radix letter_a q run out = absurd (none-ne-some m' run)
utoa_out-outside (suc f) m m' buf i val div radix letter_a q run out =
    elim (Bool-cases (ltb 0 div)) [
      | inl e ↦
          let m1 = poke m (buf + i) (digit_char (val / div) letter_a) in
          let out' : (q < buf) ⊎ (buf + (i + 1 + f) ≤ q) = elim out [
            | inl h ↦ inl h
            | inr h ↦ inr (omega arith)
          ] in
          utoa_out-outside f m1 m' buf (i + 1) (val % div) (div / radix) radix letter_a q
            (rw (utoa_out, e) at run) out'
          ∙ poke-outside m (buf + i) q (digit_char (val / div) letter_a) buf (i + suc f)
              (omega arith) (omega arith) out
      | inr e ↦
          ap (λ t. t q) (sym (some-injective _ _ (rw (utoa_out, e) at run)))
          ∙ poke-outside m (buf + i) q 0 buf (i + suc f) (omega arith) (omega arith) out
    ]

bind-returns :
    (a : Option ℕ) (f : ℕ → Option Memory) (m' : Memory)
    → bind a f ≡ some m'
    → (x : ℕ) × (f x ≡ some m')
unfolding bind
bind-returns none f m' h = absurd (none-ne-some m' h)
bind-returns (some x) f m' h = (x, h)

pub utoa-outside :
    (m m' : Memory) (val buf radix letter_a q : ℕ)
    → utoa m val buf radix letter_a ≡ some m'
    → (q < buf) ⊎ (buf + 65 ≤ q)
    → m' q ≡ m q
unfolding utoa
utoa-outside m m' val buf radix letter_a q run out = elim (Bool-cases (val == 0)) [
  | inl e ↦
      ap (λ t. t q) (sym (some-injective _ _ (rw (utoa, e) at run)))
      ∙ poke-outside (poke m buf b'0') (buf + 1) q 0 buf 65 (omega arith) (omega arith) out
      ∙ poke-outside m buf q b'0' buf 65 (omega arith) (omega arith) out
  | inr e ↦
      let (div, printed) =
        bind-returns (utoa_div div_fuel (val / radix) 1 radix)
          (λ div. utoa_out out_fuel m buf 0 val div radix letter_a) m' (rw (utoa, e) at run) in
      utoa_out-outside out_fuel m m' buf 0 val div radix letter_a q printed out
]

pub itoa-outside :
    (m m' : Memory) (v buf radix letter_a q : ℕ)
    → itoa m v buf radix letter_a ≡ some m'
    → (q < buf) ⊎ (buf + 66 ≤ q)
    → m' q ≡ m q
unfolding itoa
itoa-outside m m' v buf radix letter_a q run out = elim (Bool-cases (ltb v (2 ^ 63))) [
  | inl e ↦
      utoa-outside m m' v buf radix letter_a q (rw (itoa, e) at run)
        (elim out [ inl h ↦ inl h | inr h ↦ inr (omega arith) ])
  | inr e ↦
      utoa-outside (poke m buf b'-') m' (sub64 0 v) (buf + 1) radix letter_a q (rw (itoa, e) at run)
        (elim out [ inl h ↦ inl (omega arith) | inr h ↦ inr (omega arith) ])
      ∙ poke-outside m buf q b'-' buf 66 (omega arith) (omega arith) out
]
