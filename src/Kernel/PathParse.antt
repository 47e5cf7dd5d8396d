-- ===== src/Kernel/PathParse.antt =====
-- `kernel/src/fs/parse.c`: the parts of a path. A part is its address and its length; `none` says that
-- the fuel ran out. `kalloc` always succeeds.
use frosk_current.Prelude.{
  ℕ, zero, suc, ◌+◌, ◌<◌, ◌≡◌, inl, inr, true, false, Option, none, some, List, [], ◌∷◌, ◌==◌, leb,
  ◌≤◌, ◌||◌, ◌>>=◌, arith, refl, ap, ◌∙◌, length, Bool-cases,
}
use frosk_current.Prelude.Memory.{Memory}

-- while (*path && *path != '/')
pub part_length : ℕ → Memory → (path len : ℕ) → Option ℕ
part_length zero m path len = none
part_length (suc f) m path len = elim (m path == 0 || m path == b'/') [
  | true ↦ some len
  | false ↦ part_length f m (path + 1) (len + 1)
]

pub parse_path : ℕ → Memory → (path : ℕ) → Option (List (ℕ × ℕ))
unfolding part_length
parse_path zero m path = none
parse_path (suc f) m path = elim (m path == 0) [
  | true ↦ some []
  | false ↦ part_length (suc f) m path 0 >>= λ len.
      parse_path f m (path + len) >>= λ rest. some ((path, len) ∷ rest)
]

-- from `a` on stand the characters of a name
abbrev pub Reads : Memory → (a : ℕ) → List ℕ → Type 0
Reads m a [] = Unit
Reads m a (c ∷ s) = (m a ≡ c) × ((c == 0 || c == b'/') ≡ false) × Reads m (a + 1) s

part_length-Reads :
    (f : ℕ) (m : Memory) (a len : ℕ) (s : List ℕ)
    → Reads m a s
    → (m (a + length s) == 0 || m (a + length s) == b'/') ≡ true
    → length s < f
    → part_length f m a len ≡ some (len + length s)
unfolding part_length
part_length-Reads zero m a len s reads stop fuel = absurd (omega arith)
part_length-Reads (suc f) m a len [] reads stop fuel =
    let here : (m a == 0 || m a == b'/') ≡ true =
      ap (λ q. m q == 0 || m q == b'/') (omega arith) ∙ stop in
    rw (part_length, here) (ap some (omega arith))
part_length-Reads (suc f) m a len (c ∷ s) (here, more, reads) stop fuel =
    let end : a + 1 + length s ≡ a + suc (length s) = omega arith in
    let stop' = ap (λ q. m q == 0 || m q == b'/') end ∙ stop in
    rw (part_length, here, more)
      (part_length-Reads f m (a + 1) (len + 1) s reads stop' (omega arith) ∙ ap some (omega arith))

part_length-short :
    (f : ℕ) (m : Memory) (a len : ℕ) (s : List ℕ)
    → Reads m a s
    → f ≤ length s
    → part_length f m a len ≡ none
unfolding part_length
part_length-short zero m a len s reads short = refl
part_length-short (suc f) m a len [] reads short = absurd (omega arith)
part_length-short (suc f) m a len (c ∷ s) (here, more, reads) short =
    rw (part_length, here, more) (part_length-short f m (a + 1) (len + 1) s reads (omega arith))

-- one round of the loop
parse_path-step :
    (f : ℕ) (m : Memory) (a len : ℕ)
    → (m a == 0) ≡ false
    → part_length (suc f) m a 0 ≡ some len
    → parse_path (suc f) m a ≡ (parse_path f m (a + len) >>= λ rest. some ((a, len) ∷ rest))
unfolding parse_path
parse_path-step f m a len more part = rw (parse_path, more, part) refl

-- A path of one name is parsed into the one part, with fuel for its characters.
pub parse_path-name :
    (f : ℕ) (m : Memory) (a c : ℕ) (s : List ℕ)
    → Reads m a (c ∷ s)
    → m (a + suc (length s)) ≡ 0
    → suc (length s) < f
    → parse_path f m a ≡ some ((a, suc (length s)) ∷ [])
unfolding parse_path
parse_path-name zero m a c s reads end fuel = absurd (omega arith)
parse_path-name (suc zero) m a c s reads end fuel = absurd (omega arith)
parse_path-name (suc (suc f)) m a c s reads end fuel =
    let more : (m a == 0) ≡ false = ground (arith, reads) in
    let stop : (m (a + suc (length s)) == 0 || m (a + suc (length s)) == b'/') ≡ true =
      ground (arith, end) in
    let last : (m (a + suc (length s)) == 0) ≡ true = ground (arith, end) in
    let done : parse_path (suc f) m (a + suc (length s)) ≡ some [] = rw (parse_path, last) refl in
    parse_path-step (suc f) m a (suc (length s)) more (
      part_length-Reads (suc (suc f)) m a 0 (c ∷ s) reads stop (omega arith)
      ∙ ap some (omega arith))
    ∙ rw done refl

-- At a slash each round begins a part without characters and stays where it is.
parse_path-slash : (f : ℕ) (m : Memory) (a : ℕ) → m a ≡ b'/' → parse_path f m a ≡ none
unfolding parse_path
parse_path-slash zero m a slash = refl
parse_path-slash (suc f) m a slash =
    let more : (m a == 0) ≡ false = ground (arith, slash) in
    let same : a + 0 ≡ a = omega arith in
    let stop : (m (a + 0) == 0 || m (a + 0) == b'/') ≡ true = ground (arith, ap m same, slash) in
    parse_path-step f m a 0 more (part_length-Reads (suc f) m a 0 [] tt stop (omega arith))
    ∙ rw (same, parse_path-slash f m a slash) refl

-- With a slash in it a path is never parsed: for no fuel does `parse_path` return.
pub parse_path_endless :
    (f : ℕ) (m : Memory) (a : ℕ) (s : List ℕ)
    → Reads m a s
    → m (a + length s) ≡ b'/'
    → parse_path f m a ≡ none
unfolding parse_path
parse_path_endless zero m a s reads slash = refl
parse_path_endless (suc f) m a [] reads slash =
    parse_path-slash (suc f) m a (ap m (omega arith) ∙ slash)
parse_path_endless (suc f) m a (c ∷ s) (here, more, reads) slash =
    let first : (m a == 0) ≡ false = ground (arith, here, more) in
    let stop : (m (a + suc (length s)) == 0 || m (a + suc (length s)) == b'/') ≡ true =
      ground (arith, slash) in
    elim (Bool-cases (leb (suc f) (suc (length s)))) [
      | inl short ↦
          let out =
            part_length-short (suc f) m a 0 (c ∷ s) (here, more, reads) (ground (arith, short)) in
          rw (parse_path, first, out) refl
      | inr enough ↦
          let read : part_length (suc f) m a 0 ≡ some (suc (length s)) =
            part_length-Reads (suc f) m a 0 (c ∷ s) (here, more, reads) stop
              (ground (arith, enough))
            ∙ ap some (omega arith) in
          parse_path-step f m a (suc (length s)) first read
          ∙ rw (parse_path-slash f m (a + suc (length s)) slash) refl
    ]
