-- ===== src/Kernel/Scheduler/Frame.antt =====
-- The stack that a new thread begins with.
use Prim.Native.Nat.{bit_or}
use frosk_current.Prelude.{
  ℕ, ◌+◌, ◌-◌, ◌*◌, ◌<◌, ◌≤◌, ◌≡◌, List, [], ◌∷◌, if◌then◌else◌, arith, refl, ◌∙◌, Bool, length,
}
use frosk_current.Prelude.Memory.{Memory, poke}
use frosk_current.Kernel.Interrupt.{kern_cs}
use frosk_current.Kernel.Scheduler.{push_words, push_frame, kern_ds, user_cs, user_ds, stack_top}

-- words from an address on
abbrev pub Words : Memory → ℕ → List ℕ → Type 0
Words w a [] = Unit
Words w a (x ∷ xs) = (w a ≡ x) × Words w (a + 8) xs

-- the words that stand below `top`, the first one highest
abbrev pub Pushed : Memory → (top i : ℕ) → List ℕ → Type 0
Pushed w top i [] = Unit
Pushed w top i (x ∷ xs) = (w (top - 8 * (i + 1)) ≡ x) × Pushed w top (i + 1) xs

poke-here : (w : Memory) (a q x : ℕ) → q ≡ a → poke w a x q ≡ x
poke-here w a q x h = ground (arith, h)

poke-below : (w : Memory) (a q x : ℕ) → q < a → poke w a x q ≡ w q
poke-below w a q x h = ground (arith, h)

poke-above : (w : Memory) (a q x : ℕ) → a < q → poke w a x q ≡ w q
poke-above w a q x h = ground (arith, h)

push_words-below :
    (w : Memory) (top i q : ℕ) (xs : List ℕ)
    → 8 * (i + length xs) ≤ top
    → q < top - 8 * (i + length xs)
    → push_words w top i xs q ≡ w q
unfolding push_words
push_words-below w top i q [] room h = refl
push_words-below w top i q (x ∷ xs) room h =
    push_words-below (poke w (top - 8 * (i + 1)) x) top (i + 1) q xs (omega arith) (omega arith)
    ∙ poke-below w (top - 8 * (i + 1)) q x (omega arith)

push_words-above :
    (w : Memory) (top i q : ℕ) (xs : List ℕ)
    → 8 * (i + length xs) ≤ top
    → top - 8 * i ≤ q
    → push_words w top i xs q ≡ w q
unfolding push_words
push_words-above w top i q [] room h = refl
push_words-above w top i q (x ∷ xs) room h =
    push_words-above (poke w (top - 8 * (i + 1)) x) top (i + 1) q xs (omega arith) (omega arith)
    ∙ poke-above w (top - 8 * (i + 1)) q x (omega arith)

push_words-Pushed :
    (w : Memory) (top i : ℕ) (xs : List ℕ)
    → 8 * (i + length xs) ≤ top
    → Pushed (push_words w top i xs) top i xs
unfolding push_words
push_words-Pushed w top i [] room = tt
push_words-Pushed w top i (x ∷ xs) room =
    let w1 = poke w (top - 8 * (i + 1)) x in
    (
      push_words-above w1 top (i + 1) (top - 8 * (i + 1)) xs (omega arith) (omega arith)
          ∙ poke-here w (top - 8 * (i + 1)) (top - 8 * (i + 1)) x refl,
      push_words-Pushed w1 top (i + 1) xs (omega arith),
    )

-- The words of a new thread: the mark that no context is saved, what `iretq` takes, and the words for the start,
-- the last of them lowest. The stack pointer that `iretq` takes is the address of the words behind it, where the
-- top of this page is `stack_top`.
pub record IsFrame (w : Memory) (top start : ℕ) (extv : List ℕ) (cs flags ss : ℕ) : Type 0 where
  pub frame :
      Words w
        (top - 8 * (6 + length extv))
        (1 ∷ start ∷ cs ∷ bit_or flags 0x200 ∷ (stack_top - 8 * length extv) ∷ ss ∷ [])
  pub args : Pushed w top 0 extv

Words-same :
    (w w' : Memory) (a : ℕ) (xs : List ℕ)
    → ((q : ℕ) → q < a + 8 * length xs → w' q ≡ w q)
    → Words w a xs
    → Words w' a xs
Words-same w w' a [] h words = tt
Words-same w w' a (x ∷ xs) h (here, words) =
    (h a (omega arith) ∙ here, Words-same w w' (a + 8) xs (λ q k. h q (omega arith)) words)

-- the six words
abbrev frame_words : Memory → (top z a b c d e : ℕ) → Memory
frame_words w top z a b c d e =
    let w1 = poke w (top - 8 * (6 + z)) 1 in
    let w2 = poke w1 (top - 8 * (5 + z)) a in
    let w3 = poke w2 (top - 8 * (4 + z)) b in
    let w4 = poke w3 (top - 8 * (3 + z)) c in
    let w5 = poke w4 (top - 8 * (2 + z)) d in poke w5 (top - 8 * (1 + z)) e

frame_words-Words :
    (w : Memory) (top z a b c d e : ℕ)
    → 8 * (6 + z) ≤ top
    → Words (frame_words w top z a b c d e) (top - 8 * (6 + z)) (1 ∷ a ∷ b ∷ c ∷ d ∷ e ∷ [])
frame_words-Words w top z a b c d e room = (
  ground arith,
  (ground arith, (ground arith, (ground arith, (ground arith, (ground arith, tt))))),
)

pub push_frame-IsFrame :
    (w : Memory) (top start : ℕ) (extv : List ℕ) (kthrd : Bool) (flags : ℕ)
    → 8 * (6 + length extv) ≤ top
    → IsFrame
        (push_frame w top start extv kthrd flags)
        top
        start
        extv
        (if kthrd then kern_cs else user_cs)
        flags
        (if kthrd then kern_ds else user_ds)
unfolding push_frame
push_frame-IsFrame w top start extv kthrd flags room =
    let z = length extv in
    let cs = if kthrd then kern_cs else user_cs in
    let ss = if kthrd then kern_ds else user_ds in
    let w6 = frame_words w top z start cs (bit_or flags 0x200) (stack_top - 8 * z) ss in
    let base = top - 8 * (6 + z) in
    let below : (q : ℕ) → q < top - 8 * z → push_words w6 top 0 extv q ≡ w6 q =
      λ q h. push_words-below w6 top 0 q extv (omega arith) (omega arith) in
    let words =
      frame_words-Words w top z start cs (bit_or flags 0x200) (stack_top - 8 * z) ss room in
    record {
      frame =
          Words-same w6 (push_words w6 top 0 extv) base
            (1 ∷ start ∷ cs ∷ bit_or flags 0x200 ∷ (stack_top - 8 * z) ∷ ss ∷ [])
            (λ q h. below q (omega arith)) words;
      args = push_words-Pushed w6 top 0 extv (omega arith);
    }
