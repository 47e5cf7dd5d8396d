-- ===== src/Prgm/Number/Places.antt =====
-- The digits that `number_to_string` leaves, by their places.
use native.Mathlib.Nat.{pow-zero, pow-suc, div-lt_iff_lt-mul, div-add-mod, mod-lt, zero-mod}
use frosk_current.Prelude.{
  ℕ, zero, suc, ◌+◌, ◌-◌, ◌*◌, ◌/◌, ◌%◌, ◌^◌, ◌<◌, ◌≤◌, ◌≡◌, ◌⊎◌, inl, inr, true, false, Bool-cases,
  some, ◌==◌, ltb, leb, if◌then◌else◌, arith, refl, sym, ap, ◌∙◌,
}
use frosk_current.Prelude.Memory.{Memory, poke}
use frosk_current.Cstd.Digits.{numeral}
use frosk_current.Prgm.Number.{count_digits, char_of, put_digits, number_to_string}

-- the digit of `v` at a place, counted from the last one
abbrev pub digit_at : (radix v place : ℕ) → ℕ
digit_at radix v zero = v % radix
digit_at radix v (suc place) = digit_at radix (v / radix) place

-- `len` is the number of digits of `v`: as long as all but one are taken away, something is left.
abbrev pub HasDigits : (radix v len : ℕ) → Type 0
HasDigits radix v zero = v ≡ 0
HasDigits radix v (suc len) = (0 < v) × HasDigits radix (v / radix) len

put_digits-above :
    (k : ℕ) (m : Memory) (str v radix q : ℕ)
    → (q < str) ⊎ (str + k ≤ q)
    → put_digits k m str v radix q ≡ m q
unfolding put_digits
put_digits-above zero m str v radix q out = refl
put_digits-above (suc k) m str v radix q out = elim (Bool-cases (v == 0)) [
  | inl e ↦ rw (put_digits, e) refl
  | inr e ↦
      let out' : (q < str) ⊎ (str + k ≤ q) = elim out [
        | inl h ↦ inl h
        | inr h ↦ inr (omega arith)
      ] in
      let here : poke m (str + k) (char_of (v % radix) % 256) q ≡ m q = elim out [
        | inl h ↦ ground (arith, h)
        | inr h ↦ ground (arith, h)
      ] in
      rw (put_digits, e)
        (put_digits-above k (poke m (str + k) (char_of (v % radix) % 256)) str (v / radix) radix q
            out'
          ∙ here)
]

char_of-numeral :
    (v radix : ℕ) → 0 < radix → radix ≤ 36 → char_of (v % radix) % 256 ≡ numeral b'A' (v % radix)
char_of-numeral v radix positive small =
    let digit : v % radix < 36 = omega (arith, mod-lt v positive) in ground (arith, digit)

put_digits-digit_at :
    (k : ℕ) (m : Memory) (str v radix place : ℕ)
    → 0 < radix
    → radix ≤ 36
    → HasDigits radix v k
    → place < k
    → put_digits k m str v radix (str + (k - 1 - place)) ≡ numeral b'A' (digit_at radix v place)
unfolding put_digits
put_digits-digit_at zero m str v radix place positive small has lt = absurd (omega arith)
put_digits-digit_at (suc k) m str v radix zero positive small (some_left, has) lt =
    let e : (v == 0) ≡ false = ground arith in
    let at : str + (suc k - 1 - 0) ≡ str + k = omega arith in
    let m1 = poke m (str + k) (char_of (v % radix) % 256) in
    let here : m1 (str + k) ≡ char_of (v % radix) % 256 = ground arith in
    ap (λ q. put_digits (suc k) m str v radix q) at
    ∙ rw (put_digits, e)
        (put_digits-above k m1 str (v / radix) radix (str + k) (inr (omega arith))
          ∙ here
          ∙ char_of-numeral v radix positive small)
put_digits-digit_at (suc k) m str v radix (suc place) positive small (some_left, has) lt =
    let e : (v == 0) ≡ false = ground arith in
    let at : str + (suc k - 1 - suc place) ≡ str + (k - 1 - place) = omega arith in
    let m1 = poke m (str + k) (char_of (v % radix) % 256) in
    ap (λ q. put_digits (suc k) m str v radix q) at
    ∙ rw (put_digits, e)
        (put_digits-digit_at k m1 str (v / radix) radix place positive small has (omega arith))

-- With `f` rounds left for a value below `radix ^ n`, the count ends at the number of the digits.
count_digits-HasDigits :
    (f n v radix len : ℕ)
    → 2 ≤ radix
    → v < radix ^ n
    → n < f
    → (k : ℕ) × (count_digits f v radix len ≡ some (len + k)) × HasDigits radix v k × (k ≤ n)
unfolding count_digits
count_digits-HasDigits zero n v radix len big small fuel = absurd (omega arith)
count_digits-HasDigits (suc f) zero v radix len big small fuel =
    let e : ltb 0 v ≡ false = ground (arith, pow-zero radix, small) in
    (0, rw (count_digits, e) (ap some (omega arith)), omega (arith, pow-zero radix), omega arith)
count_digits-HasDigits (suc f) (suc n) v radix len big small fuel = elim (Bool-cases (ltb 0 v)) [
  | inl e ↦
      let less : v / radix < radix ^ n =
        (div-lt_iff_lt-mul (omega arith)).1 (omega (arith, pow-suc radix n)) in
      let (k, run, has, short) =
        count_digits-HasDigits f n (v / radix) radix (len + 1) big less (omega arith) in
      let sum : len + 1 + k ≡ len + suc k = omega arith in
      (suc k, rw (count_digits, e) (run ∙ ap some sum), (ground (arith, e), has), omega arith)
  | inr e ↦ (0, rw (count_digits, e) (ap some (omega arith)), ground (arith, e), omega arith)
]

-- the number that the digits at `len` places stand for
abbrev pub number_of : (radix v len : ℕ) → ℕ
number_of radix v zero = 0
number_of radix v (suc len) = v % radix + radix * number_of radix (v / radix) len

number_of-HasDigits :
    (radix v len : ℕ) → 0 < radix → HasDigits radix v len → number_of radix v len ≡ v
number_of-HasDigits radix v zero positive has = sym has
number_of-HasDigits radix v (suc len) positive (_, has) =
    ap (λ z. v % radix + radix * z) (number_of-HasDigits radix (v / radix) len positive has)
    ∙ omega (arith, div-add-mod v radix)

-- The digits of `value` stand at `str`, with a terminator, and nothing but the `max` bytes there has changed.
pub record IsNumber (m m' : Memory) (value str max radix len : ℕ) : Type 0 where
  pub digit :
      (place : ℕ)
      → place < len
      → m' (str + (len - 1 - place)) ≡ numeral b'A' (digit_at radix value place)
  pub ended : m' (str + len) ≡ 0
  pub means : number_of radix value len ≡ value
  pub outside : (q : ℕ) → (q < str) ⊎ (str + max ≤ q) → m' q ≡ m q

put_digits-IsNumber :
    (m : Memory) (value str max radix len : ℕ)
    → 0 < radix
    → radix ≤ 36
    → HasDigits radix value len
    → len < max
    → IsNumber m (poke (put_digits len m str value radix) (str + len) 0) value str max radix len
put_digits-IsNumber m value str max radix len positive small has room = record {
  digit = λ place lt.
      ground (arith, lt, put_digits-digit_at len m str value radix place positive small has lt);
  ended = ground arith;
  means = number_of-HasDigits radix value len positive has;
  outside = λ q out. elim out [
    | inl h ↦ ground (arith, h, put_digits-above len m str value radix q (inl h))
    | inr h ↦ ground (arith, h, put_digits-above len m str value radix q (inr (omega arith)))
  ];
}

-- the number of the digits that are written for a value: one for 0
abbrev pub HasLength : (radix value len : ℕ) → Type 0
HasLength radix value len = ((value ≡ 0) × (len ≡ 1)) ⊎ ((0 < value) × HasDigits radix value len)

zero-digit :
    (m : Memory) (str radix place : ℕ)
    → place < 1
    → poke (poke m str b'0') (str + 1) 0 (str + (1 - 1 - place))
      ≡ numeral b'A' (digit_at radix 0 place)
zero-digit m str radix zero lt = rw (zero-mod radix) (ground arith)
zero-digit m str radix (suc place) lt = absurd (omega arith)

zero-IsNumber :
    (m : Memory) (str max radix : ℕ)
    → 0 < radix
    → 1 < max
    → IsNumber m (poke (poke m str b'0') (str + 1) 0) 0 str max radix 1
zero-IsNumber m str max radix positive room =
    let none_left : 0 % radix ≡ 0 = zero-mod radix in
    record {
      digit = zero-digit m str radix;
      ended = ground arith;
      means = rw none_left (omega arith);
      outside = λ q out. elim out [ inl h ↦ ground (arith, h) | inr h ↦ ground (arith, h) ];
    }

-- For a value of at most `n` digits in a radix from 2 to 36, and fuel for them, `number_to_string` returns. If the
-- digits fit with a terminator it has written them, '0' to '9' and letters from 'A' on, and returns 0. Else it has written
-- nothing, and returns their number, but 2 for the value 0, where a terminator is counted.
pub number_to_string-IsNumber :
    (f n : ℕ) (m : Memory) (value str max radix : ℕ)
    → 2 ≤ radix
    → radix ≤ 36
    → value < radix ^ n
    → n < f
    → (len : ℕ) × HasLength radix value len
      × (max ≤ len
          → number_to_string f m value str max radix ≡ some (m, if value == 0 then 2 else len))
      × (len < max
          → (m' : Memory) × (number_to_string f m value str max radix ≡ some (m', 0))
            × IsNumber m m' value str max radix len)
unfolding number_to_string
number_to_string-IsNumber f n m zero str max radix big few small fuel = (
  1,
  inl (refl, refl),
  λ full. let h : ltb max 2 ≡ true = ground (arith, full) in rw h refl,
  λ room.
      let h : ltb max 2 ≡ false = ground (arith, room) in
      (
        poke (poke m str b'0') (str + 1) 0,
        rw h refl,
        zero-IsNumber m str max radix (omega arith) room,
      ),
)
number_to_string-IsNumber f n m (suc v) str max radix big few small fuel =
    let (len, run, has, _) = count_digits-HasDigits f n (suc v) radix 0 big small fuel in
    let e : (suc v == 0) ≡ false = ground arith in
    let run' : count_digits f (suc v) radix 0 ≡ some len = run ∙ ap some (omega arith) in
    (
      len,
      inr (omega arith, has),
      λ full. let h : leb max len ≡ true = ground (arith, full) in rw (e, run', h) refl,
      λ room.
          let h : leb max len ≡ false = ground (arith, room) in
          (
            poke (put_digits len m str (suc v) radix) (str + len) 0,
            rw (e, run', h) refl,
            put_digits-IsNumber m (suc v) str max radix len (omega arith) few has room,
          ),
    )
