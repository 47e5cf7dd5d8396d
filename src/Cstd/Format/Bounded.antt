-- ===== src/Cstd/Format/Bounded.antt =====
-- `vsnprintf` ends, and stays within its buffer.
use mathlib.Core.Path.{subst}
use frosk_current.Prelude.{
  ℕ, zero, suc, ◌+◌, ◌^◌, ◌≤◌, ◌<◌, ◌≡◌, inl, inr, Bool, true, false, Option, some, ◌==◌,
  if◌then◌else◌, Bool-cases, arith, sym, ap, ◌∙◌, refl,
}
use frosk_current.Prelude.Words.{add64}
use frosk_current.Prelude.Memory.{Memory}
use frosk_current.Cstd.Format.{SizeClass, get_size_class, Conversion, put_in, convert, format_loop}
use frosk_current.Cstd.Format.Frame.{IsApart, IsWithin, put_in-IsWithin, convert-IsWithin}
use frosk_current.Cstd.Format.Ends.{
  Separate, IsPlainConversion, convert-Ends, convert-no_ftoa, convert-end,
}

-- the places that `get_size_class` can give
abbrev IsPlace : (j end : ℕ) → SizeClass × ℕ → Type 0
IsPlace j end r = (j < r.1) × (r.1 ≤ end)

if-IsPlace :
    (j end : ℕ) (b : Bool) (x y : SizeClass × ℕ)
    → (b ≡ true → IsPlace j end x)
    → (b ≡ false → IsPlace j end y)
    → IsPlace j end (if b then x else y)
if-IsPlace j end true x y left right = left refl
if-IsPlace j end false x y left right = right refl

-- `get_size_class` does not go past the end of the format.
get_size_class-IsPlace :
    (m : Memory) (fmt j end : ℕ)
    → j < end
    → m (fmt + end) ≡ 0
    → IsPlace j end (get_size_class m fmt j)
unfolding get_size_class
get_size_class-IsPlace m fmt j end inside last =
    let first : (k : ℕ) → 0 < k → m (fmt + (j + 1)) ≡ k → j + 1 < end =
      λ k positive here. before_end (j + 1) k (omega arith) positive here in
    let second : (k : ℕ) → 0 < k → j + 1 < end → m (fmt + (j + 2)) ≡ k → j + 2 < end =
      λ k positive past here. before_end (j + 2) k (omega arith) positive here in
    let one : (k : ℕ) → 0 < k → (m (fmt + (j + 1)) == k) ≡ true → j + 1 < end =
      λ k positive e. first k positive (ground (arith, e)) in
    if-IsPlace j end (m (fmt + (j + 1)) == b'h') _ _
      (λ e.
        if-IsPlace j end (m (fmt + (j + 2)) == b'h') _ _
          (λ e'.
            let past = second b'h' (omega arith) (one b'h' (omega arith) e) (ground (arith, e')) in
            (omega arith, omega arith))
          (λ _. let past = one b'h' (omega arith) e in (omega arith, omega arith)))
      (λ _.
        if-IsPlace j end (m (fmt + (j + 1)) == b'l') _ _
          (λ e.
            if-IsPlace j end (m (fmt + (j + 2)) == b'l') _ _
              (λ e'.
                let past =
                  second b'l' (omega arith) (one b'l' (omega arith) e) (ground (arith, e')) in
                (omega arith, omega arith))
              (λ _. let past = one b'l' (omega arith) e in (omega arith, omega arith)))
          (λ _.
            if-IsPlace j end (m (fmt + (j + 1)) == b'j') _ _
              (λ e. let past = one b'j' (omega arith) e in (omega arith, omega arith))
              (λ _.
                if-IsPlace j end (m (fmt + (j + 1)) == b'z') _ _
                  (λ e. let past = one b'z' (omega arith) e in (omega arith, omega arith))
                  (λ _.
                    if-IsPlace j end (m (fmt + (j + 1)) == b't') _ _
                      (λ e. let past = one b't' (omega arith) e in (omega arith, omega arith))
                      (λ _.
                        if-IsPlace j end (m (fmt + (j + 1)) == b'L') _ _
                          (λ e. let past = one b'L' (omega arith) e in (omega arith, omega arith))
                          (λ _. (omega arith, omega arith)))))))
  where
    before_end : (p k : ℕ) → p ≤ end → 0 < k → m (fmt + p) ≡ k → p < end
    before_end p k le positive here = elim (Bool-cases (p == end)) [
      | inl e ↦
          let same : p ≡ end = ground (arith, e) in
          absurd (omega (arith, positive, sym here ∙ ap (λ q. m (fmt + q)) same ∙ last))
      | inr e ↦ ground (arith, e, le)
    ]

-- It reads no character behind the end.
get_size_class-same :
    (m m0 : Memory) (fmt j end : ℕ)
    → j < end
    → m0 (fmt + end) ≡ 0
    → ((k : ℕ) → k ≤ end → m (fmt + k) ≡ m0 (fmt + k))
    → get_size_class m fmt j ≡ get_size_class m0 fmt j
unfolding get_size_class
get_size_class-same m m0 fmt j end inside last same = elim (Bool-cases (j + 1 == end)) [
  | inl e ↦
      let at : j + 1 ≡ end = ground (arith, e) in
      let zero0 : m0 (fmt + (j + 1)) ≡ 0 = ap (λ q. m0 (fmt + q)) at ∙ last in
      let zero1 : m (fmt + (j + 1)) ≡ 0 = same (j + 1) (omega arith) ∙ zero0 in
      rw (get_size_class, zero0, zero1) refl
  | inr e ↦
      let inner : j + 2 ≤ end = ground (arith, e, inside) in
      rw (get_size_class, same (j + 1) (omega arith), same (j + 2) inner) refl
]

next_place :
    (back : Bool) (p j end : ℕ)
    → j < p
    → p < end
    → (j < (if back then p else p + 1)) × ((if back then p else p + 1) ≤ end)
next_place true p j end after inside = (omega arith, omega arith)
next_place false p j end after inside = (omega arith, omega arith)

-- `ftoa` that does nothing, in whose place any other can stand
abbrev no_ftoa : Memory → (n numbuf : ℕ) → Memory
no_ftoa m n numbuf = m

module _ (ftoa : Memory → (n numbuf : ℕ) → Memory) (numbuf null_text : ℕ) (args : ℕ → ℕ)
    (buf len fmt : ℕ) where
  abbrev loop : (f : ℕ) → Memory → (i j n : ℕ) → Option (Memory × ℕ)
  loop f m i j n = format_loop ftoa numbuf null_text args f m buf len fmt i j n

  loop-end : (f : ℕ) (m : Memory) (i j n : ℕ) → m (fmt + j) ≡ 0 → loop (suc f) m i j n ≡ some (m, i)
  unfolding format_loop
  loop-end f m i j n here = rw (format_loop, here) refl

  loop-plain :
      (f : ℕ) (m : Memory) (i j n : ℕ)
      → (m (fmt + j) == 0) ≡ false
      → (m (fmt + j) == b'%') ≡ false
      → loop (suc f) m i j n ≡ loop f (put_in m buf i len (m (fmt + j))) (add64 i 1) (j + 1) n
  unfolding format_loop
  loop-plain f m i j n more plain = rw (format_loop, more, plain) refl

  loop-percent :
      (f : ℕ) (m : Memory) (i j n : ℕ) (c : Conversion)
      → (m (fmt + j) == 0) ≡ false
      → (m (fmt + j) == b'%') ≡ true
      → convert ftoa f numbuf null_text args m buf i len n
          ((get_size_class m fmt j).0)
          (m (fmt + (get_size_class m fmt j).1))
        ≡ some c
      → loop (suc f) m i j n
        ≡ loop f c.memory
            (add64 c.i 1)
            (if c.back then (get_size_class m fmt j).1 else (get_size_class m fmt j).1 + 1)
            c.n
  unfolding format_loop
  loop-percent f m i j n c more percent run = rw (format_loop, more, percent, run) refl

  -- The format `m0` has `end` characters, and no conversion of a string or of a number with a fraction; the arrays have
  -- no byte in common with each other and with the format.
  module _ (m0 : Memory) (end : ℕ) (text : (k : ℕ) → k < end → (m0 (fmt + k) == 0) ≡ false)
      (last : m0 (fmt + end) ≡ 0)
      (conversions : (j : ℕ)
        → j < end
        → (m0 (fmt + j) == b'%') ≡ true
        → IsPlainConversion (m0 (fmt + (get_size_class m0 fmt j).1)))
      (far : (k : ℕ) → k ≤ end → IsApart buf len numbuf (fmt + k)) (apart : Separate buf len numbuf)
      (words : (n : ℕ) → args n < 2 ^ 64) where
    -- the format as it was
    abbrev IsKept : Memory → Type 0
    IsKept m = (k : ℕ) → k ≤ end → m (fmt + k) ≡ m0 (fmt + k)

    IsKept-IsWithin : (m m' : Memory) → IsWithin buf len numbuf m m' → IsKept m → IsKept m'
    IsKept-IsWithin m m' within kept k le = within (fmt + k) (far k le) ∙ kept k le

    -- one conversion: it ends, stays within the arrays, and goes on inside the format
    percent_step :
        (f : ℕ) (m : Memory) (i j n : ℕ)
        → IsKept m
        → j < end
        → (m0 (fmt + j) == b'%') ≡ true
        → 67 ≤ f
        → (c : Conversion) × (convert ftoa f numbuf null_text args m buf i len n
              ((get_size_class m fmt j).0)
              (m (fmt + (get_size_class m fmt j).1))
            ≡ some c)
          × IsWithin buf len numbuf m c.memory
          × (j < (if c.back then (get_size_class m fmt j).1 else (get_size_class m fmt j).1 + 1))
          × ((if c.back then (get_size_class m fmt j).1 else (get_size_class m fmt j).1 + 1) ≤ end)
    percent_step f m i j n kept inside percent enough =
        let r = get_size_class m fmt j in
        let ch = m (fmt + r.1) in
        let same = get_size_class-same m m0 fmt j end inside last kept in
        let (after, before) : IsPlace j end r =
          get_size_class-IsPlace m fmt j end inside (kept end (omega arith) ∙ last) in
        let plain : IsPlainConversion ch =
          subst IsPlainConversion (sym (kept (r.1) before ∙ ap (λ z. m0 (fmt + z.1)) same))
            (conversions j inside percent) in
        elim (Bool-cases (ch == 0)) [
          | inl e ↦
              let none_left : ch ≡ 0 = ground (arith, e) in
              (
                record { memory = put_in m buf i len b'%'; i = i; n = n; back = true },
                convert-end ftoa f numbuf null_text args m buf i len n (r.0) ch none_left,
                put_in-IsWithin buf len numbuf m i b'%',
                after,
                before,
              )
          | inr e ↦
              let inner : r.1 < end = elim (Bool-cases (r.1 == end)) [
                | inl at ↦
                    let there : r.1 ≡ end = ground (arith, at) in
                    let none_left : ch ≡ 0 =
                      ap (λ q. m (fmt + q)) there ∙ kept end (omega arith) ∙ last in
                    absurd (ground (arith, e, none_left))
                | inr at ↦ ground (arith, at, before)
              ] in
              let (c, run) =
                convert-Ends ftoa f numbuf null_text args m buf i len n (r.0) ch apart (words n)
                  plain enough in
              let run' =
                sym (
                  convert-no_ftoa ftoa no_ftoa f numbuf null_text args m buf i len n (r.0) ch
                    (plain.1))
                ∙ run in
              let within =
                convert-IsWithin buf len numbuf no_ftoa (λ m n q out. refl) null_text args f m i n
                  (r.0) ch c run' in
              let (later, still) = next_place c.back (r.1) j end after inner in
              (c, run, within, later, still)
        ]

    pub loop-IsWithin :
        (f : ℕ) (m : Memory) (i j n : ℕ)
        → IsKept m
        → j ≤ end
        → end + 68 ≤ f + j
        → (m' : Memory) × (i' : ℕ) × (loop f m i j n ≡ some (m', i')) × IsWithin buf len numbuf m m'
    loop-IsWithin zero m i j n kept inside enough = absurd (omega arith)
    loop-IsWithin (suc f) m i j n kept inside enough = elim (Bool-cases (m (fmt + j) == 0)) [
      | inl e ↦ (m, i, loop-end f m i j n (ground (arith, e)), λ q out. refl)
      | inr e ↦
          let here = kept j inside in
          let inner : j < end = elim (Bool-cases (j == end)) [
            | inl at ↦
                let there : j ≡ end = ground (arith, at) in
                absurd
                  (ground (arith, e, ap (λ q. m (fmt + q)) there ∙ kept end (omega arith) ∙ last))
            | inr at ↦ ground (arith, at, inside)
          ] in
          elim (Bool-cases (m (fmt + j) == b'%')) [
            | inl percent ↦
                let (c, run, within, later, still) =
                  percent_step f m i j n kept inner (ap (λ z. z == b'%') (sym here) ∙ percent)
                    (omega arith) in
                let (m', i', rest, onward) =
                  loop-IsWithin f c.memory (add64 c.i 1)
                    (if c.back then (get_size_class m fmt j).1 else (get_size_class m fmt j).1 + 1)
                    c.n (IsKept-IsWithin m c.memory within kept) still (omega arith) in
                (
                  m',
                  i',
                  loop-percent f m i j n c e percent run ∙ rest,
                  λ q out. onward q out ∙ within q out,
                )
            | inr plain ↦
                let m1 = put_in m buf i len (m (fmt + j)) in
                let within = put_in-IsWithin buf len numbuf m i (m (fmt + j)) in
                let (m', i', rest, onward) =
                  loop-IsWithin f m1 (add64 i 1) (j + 1) n (IsKept-IsWithin m m1 within kept)
                    (omega arith) (omega arith) in
                (m', i', loop-plain f m i j n e plain ∙ rest, λ q out. onward q out ∙ within q out)
          ]
    ]
