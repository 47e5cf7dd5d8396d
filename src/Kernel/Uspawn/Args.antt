-- ===== src/Kernel/Uspawn/Args.antt =====
-- The arguments in the memory of a new program.
use mathlib.Core.Path.{subst}
use frosk_current.Prelude.{
  sym, ℕ, zero, suc, ◌+◌, ◌-◌, ◌*◌, ◌^◌, ◌<◌, ◌≤◌, ◌≡◌, ◌⊎◌, inl, inr, false, some, List, [], ◌∷◌,
  ◌==◌, arith, refl, ap, ◌∙◌, length,
}
use frosk_current.Prelude.Memory.{Memory, poke, IsString}
use frosk_current.Prelude.Words.{add64}
use frosk_current.Cstd.Str.Copy.{strlen-IsString, IsString-frame}
use frosk_current.Kernel.Uspawn.{uspace_bot, put_bytes, put_arg, put_args, add_lengths}
use frosk_current.Kernel.Uspawn.Words.{
  get_bytes, get_bytes-same, get_bytes-put_bytes, put_bytes-outside,
}

-- an argument: its address, and its characters
pub record Argument : Type 0 where
  pub at : ℕ
  pub text : List ℕ

abbrev pub addresses : List Argument → List ℕ
addresses [] = []
addresses (x ∷ xs) = x.at ∷ addresses xs

-- the bytes of the strings
abbrev pub bytes_of : List Argument → ℕ
bytes_of [] = 0
bytes_of (x ∷ xs) = length x.text + 1 + bytes_of xs

-- The strings stand in memory, outside of the addresses from `lo` to `hi`, and are shorter than the fuel.
abbrev pub AreArguments : (fuel : ℕ) → Memory → (lo hi : ℕ) → List Argument → Type 0
AreArguments fuel m lo hi [] = 0 ≤ 0
AreArguments fuel m lo hi (x ∷ xs) =
    IsString m x.at x.text
    × ((x.at + length x.text < lo) ⊎ (hi ≤ x.at))
    × (length x.text < fuel)
    × AreArguments fuel m lo hi xs

-- The pointers from `slot` on are, in the address space of the program, those of the strings.
abbrev pub AreCopied : Memory → (tvirt slot : ℕ) → List Argument → Type 0
AreCopied m tvirt slot [] = 0 ≤ 0
AreCopied m tvirt slot (x ∷ xs) =
    (uspace_bot ≤ get_bytes 8 m slot)
    × IsString m (tvirt + (get_bytes 8 m slot - uspace_bot)) x.text
    × AreCopied m tvirt (slot + 8) xs

pub AreArguments-frame :
    (fuel : ℕ) (m m' : Memory) (lo hi : ℕ) (xs : List Argument)
    → ((q : ℕ) → (q < lo) ⊎ (hi ≤ q) → m' q ≡ m q)
    → AreArguments fuel m lo hi xs
    → AreArguments fuel m' lo hi xs
AreArguments-frame fuel m m' lo hi [] same args = omega arith
AreArguments-frame fuel m m' lo hi (x ∷ xs) same (str, out, short, args) = (
  IsString-frame m m' x.at x.text
      (λ q l h. same q (elim out [ inl e ↦ inl (omega arith) | inr e ↦ inr (omega arith) ])) str,
  out,
  short,
  AreArguments-frame fuel m m' lo hi xs same args,
)

pub put_arg-IsString :
    (f : ℕ) (m : Memory) (i s : ℕ) (xs : List ℕ)
    → IsString m s xs
    → (s + length xs < i) ⊎ (i + length xs + 1 ≤ s)
    → length xs < f
    → (m' : Memory) × (put_arg f m i s ≡ some (m', i + length xs + 1))
      × IsString m' i xs
      × ((q : ℕ) → (q < i) ⊎ (i + length xs + 1 ≤ q) → m' q ≡ m q)
unfolding put_arg
put_arg-IsString zero m i s xs str out fuel = absurd (omega arith)
put_arg-IsString (suc f) m i s [] str out fuel = (
  poke m i 0,
  rw (put_arg, str) (ap (λ k. some (poke m i 0, k)) (omega arith)),
  ground arith,
  λ q apart. elim apart [ inl h ↦ ground (arith, h) | inr h ↦ ground (arith, h) ],
)
put_arg-IsString (suc f) m i s (c ∷ xs) (here, above, byte, str) out fuel =
    let more : (m s == 0) ≡ false = ground (arith, here, above) in
    let m1 = poke m i (m s) in
    let str1 : IsString m1 (s + 1) xs =
      IsString-frame m m1 (s + 1) xs
        (λ q lo hi. elim out [
          | inl h ↦ ground (arith, lo, hi, h)
          | inr h ↦ ground (arith, lo, hi, h)
        ])
        str in
    let out1 : (s + 1 + length xs < i + 1) ⊎ (i + 1 + length xs + 1 ≤ s + 1) = elim out [
      | inl h ↦ inl (omega arith)
      | inr h ↦ inr (omega arith)
    ] in
    let (m', run, copied, frame) =
      put_arg-IsString f m1 (i + 1) (s + 1) xs str1 out1 (omega arith) in
    let sum : i + 1 + length xs + 1 ≡ i + suc (length xs) + 1 = omega arith in
    let first : m' i ≡ c = frame i (inl (omega arith)) ∙ ground (arith, here) in
    (
      m',
      rw (put_arg, more) (run ∙ ap (λ k. some (m', k)) sum),
      (first, above, byte, copied),
      λ q apart.
          frame q (elim apart [ inl h ↦ inl (omega arith) | inr h ↦ inr (omega arith) ])
          ∙ elim apart [ inl h ↦ ground (arith, h) | inr h ↦ ground (arith, h) ],
    )

pub add_lengths-bytes :
    (f : ℕ) (m : Memory) (lo hi n : ℕ) (xs : List Argument)
    → AreArguments f m lo hi xs
    → n + bytes_of xs < 2 ^ 64
    → add_lengths f m n (addresses xs) ≡ some (n + bytes_of xs)
unfolding add_lengths
add_lengths-bytes f m lo hi n [] args small = ap some (omega arith)
add_lengths-bytes f m lo hi n (x ∷ xs) (str, _, short, args) small =
    let here = strlen-IsString f m x.at x.text str short in
    let sum : add64 n (add64 (length x.text) 1) ≡ n + (length x.text + 1) = omega arith in
    let rest = add_lengths-bytes f m lo hi (n + (length x.text + 1)) xs args (omega arith) in
    let assoc : n + (length x.text + 1) + bytes_of xs ≡ n + (length x.text + 1 + bytes_of xs) =
      omega arith in
    rw (add_lengths, here, sum) (rest ∙ ap some assoc)

-- one argument: its pointer and its string
put_pointer :
    (f : ℕ) (m : Memory) (lo hi tvirt slot i : ℕ) (x : Argument)
    → AreArguments f m lo hi (x ∷ [])
    → lo ≤ slot
    → tvirt ≤ i
    → slot + 8 ≤ i
    → i + length x.text + 1 ≤ hi
    → i + uspace_bot < 2 ^ 64
    → (m' : Memory) × (put_arg f (put_bytes 8 m slot (i - tvirt + uspace_bot)) i x.at
        ≡ some (m', i + length x.text + 1))
      × (get_bytes 8 m' slot ≡ i - tvirt + uspace_bot)
      × IsString m' i x.text
      × ((q : ℕ)
          → (q < slot) ⊎ ((slot + 8 ≤ q) × (q < i)) ⊎ (i + length x.text + 1 ≤ q)
          → m' q ≡ m q)
put_pointer f m lo hi tvirt slot i x (str, out, short, _) low above room fits small =
    let v = i - tvirt + uspace_bot in
    let m1 = put_bytes 8 m slot v in
    let str1 : IsString m1 x.at x.text =
      IsString-frame m m1 x.at x.text
        (λ q l h.
          put_bytes-outside 8 m slot v q
            (elim out [ inl e ↦ inl (omega arith) | inr e ↦ inr (omega arith) ]))
        str in
    let out1 : (x.at + length x.text < i) ⊎ (i + length x.text + 1 ≤ x.at) = elim out [
      | inl e ↦ inl (omega arith)
      | inr e ↦ inr (omega arith)
    ] in
    let (m', run, copied, frame) = put_arg-IsString f m1 i x.at x.text str1 out1 short in
    (
      m',
      run,
      get_bytes-same 8 m1 m' slot (λ q l h. frame q (inl (omega arith)))
          ∙ get_bytes-put_bytes 8 m slot v (omega arith),
      copied,
      λ q apart. elim apart [
        | inl h ↦ frame q (inl (omega arith)) ∙ put_bytes-outside 8 m slot v q (inl h)
        | inr (inl (l, h)) ↦ frame q (inl h) ∙ put_bytes-outside 8 m slot v q (inr l)
        | inr (inr h) ↦ frame q (inr h) ∙ put_bytes-outside 8 m slot v q (inr (omega arith))
      ],
    )

-- `put_args` ends behind the strings, leaves pointers to them, and writes to the pointers and the strings only.
pub put_args-AreCopied :
    (f : ℕ) (m : Memory) (lo hi tvirt slot i : ℕ) (xs : List Argument)
    → AreArguments f m lo hi xs
    → lo ≤ slot
    → tvirt ≤ i
    → slot + 8 * length xs ≤ i
    → i + bytes_of xs ≤ hi
    → hi + uspace_bot < 2 ^ 64
    → (m' : Memory) × (put_args f m tvirt slot i (addresses xs) ≡ some (m', i + bytes_of xs))
      × AreCopied m' tvirt slot xs
      × ((q : ℕ)
          → (q < slot) ⊎ ((slot + 8 * length xs ≤ q) × (q < i)) ⊎ (i + bytes_of xs ≤ q)
          → m' q ≡ m q)
unfolding put_args
put_args-AreCopied f m lo hi tvirt slot i [] args low above room fits small =
    (m, ap (λ k. some (m, k)) (omega arith), omega arith, λ q apart. refl)
put_args-AreCopied f m lo hi tvirt slot i (x ∷ xs) (str, out, short, args) low above room fits
      small =
    let (m1, put, pointer, string, frame1) =
      put_pointer f m lo hi tvirt slot i x (str, out, short, omega arith) low above (omega arith)
        (omega arith) (omega arith) in
    let i1 = i + length x.text + 1 in
    let args1 =
      AreArguments-frame f m m1 lo hi xs
        (λ q far.
          frame1 q (elim far [ inl h ↦ inl (omega arith) | inr h ↦ inr (inr (omega arith)) ]))
        args in
    let (m', run, copied, frame) =
      put_args-AreCopied f m1 lo hi tvirt (slot + 8) i1 xs args1 (omega arith) (omega arith)
        (omega arith) (omega arith) small in
    let word : get_bytes 8 m' slot ≡ i - tvirt + uspace_bot =
      get_bytes-same 8 m1 m' slot (λ q l h. frame q (inl (omega arith))) ∙ pointer in
    let place : tvirt + (get_bytes 8 m' slot - uspace_bot) ≡ i = omega arith in
    let string' : IsString m' i x.text =
      IsString-frame m1 m' i x.text (λ q l h. frame q (inr (inl (omega arith, omega arith))))
        string in
    let sum : i1 + bytes_of xs ≡ i + (length x.text + 1 + bytes_of xs) = omega arith in
    (
      m',
      rw (put_args, put) (run ∙ ap (λ k. some (m', k)) sum),
      (omega arith, subst (λ a. IsString m' a x.text) (sym place) string', copied),
      λ q apart. elim apart [
        | inl h ↦ frame q (inl (omega arith)) ∙ frame1 q (inl h)
        | inr (inl (l, h)) ↦
            frame q (inr (inl (omega arith, omega arith))) ∙ frame1 q (inr (inl (omega arith, h)))
        | inr (inr h) ↦ frame q (inr (inr (omega arith))) ∙ frame1 q (inr (inr (omega arith)))
      ],
    )

pub length-addresses : (xs : List Argument) → length (addresses xs) ≡ length xs
length-addresses [] = refl
length-addresses (x ∷ xs) = ap suc (length-addresses xs)
