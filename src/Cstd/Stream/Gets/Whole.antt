-- ===== src/Cstd/Stream/Gets/Whole.antt =====
-- The line that `fgets` reads.
use mathlib.Core.Path.{subst}
use frosk_current.Prelude.{
  ℕ, ◌+◌, ◌-◌, ◌^◌, ◌<◌, ◌≤◌, ◌≡◌, ◌⊎◌, inl, inr, some, List, [], ◌∷◌, ◌++◌, arith, refl, sym, ap,
  ◌∙◌, length, length-append,
}
use frosk_current.Prelude.Words.{sub64}
use frosk_current.Prelude.Memory.{Memory, poke}
use frosk_current.Cstd.Stream.{stdin}
use frosk_current.Cstd.Stream.Gets.{line, more, take_chars, fgets_loop, fgets}
use frosk_current.Cstd.Stream.Gets.Line.{
  edited, typed, IsPlain, Stands, Stands-poke, edited-length, edited-append, IsPlain-append,
}
use frosk_current.Cstd.Stream.Gets.Edited.{
  IsTaken, take_chars-edited, resume, take_chars-append, take_chars-newline,
}

-- The line, a newline and a terminator stand at `b`, and nothing but the `n` bytes there is changed.
pub record IsLine (m m' : Memory) (b n : ℕ) (rev : List ℕ) : Type 0 where
  pub stands : Stands m' b (b'\n' ∷ rev)
  pub terminated : m' (b + length rev + 1) ≡ 0
  pub outside : (q : ℕ) → (q < b) ⊎ (b + n ≤ q) → m' q ≡ m q

IsLine-newline :
    (m m1 : Memory) (b n : ℕ) (rev : List ℕ)
    → length rev + 2 ≤ n
    → Stands m1 b rev
    → ((q : ℕ) → (q < b) ⊎ (b + n ≤ q) → m1 q ≡ m q)
    → IsLine m (poke (poke m1 (b + length rev) b'\n') (b + length rev + 1) 0) b n rev
IsLine-newline m m1 b n rev fits stands same = record {
  stands = (
    ground arith,
    Stands-poke (poke m1 (b + length rev) b'\n') b (b + length rev + 1) 0 rev (omega arith)
        (Stands-poke m1 b (b + length rev) b'\n' rev (omega arith) stands),
  );
  terminated = ground arith;
  outside = λ q out. elim out [
    | inl h ↦ ground (arith, h, same q (inl h))
    | inr h ↦ ground (arith, h, same q (inr h))
  ];
}

fgets_loop-line :
    (cs : List ℕ) (rounds : List (List ℕ)) (m m' : Memory) (b buf max : ℕ)
    → take_chars cs m b buf max ≡ line m'
    → fgets_loop (cs ∷ rounds) m b buf max ≡ some m'
unfolding fgets_loop
fgets_loop-line cs rounds m m' b buf max run = rw (fgets_loop, run) refl

fgets_loop-more :
    (cs : List ℕ) (rounds : List (List ℕ)) (m m' : Memory) (b buf max buf' max' : ℕ)
    → take_chars cs m b buf max ≡ more m' buf' max'
    → fgets_loop (cs ∷ rounds) m b buf max ≡ fgets_loop rounds m' b buf' max'
unfolding fgets_loop
fgets_loop-more cs rounds m m' b buf max buf' max' run = rw (fgets_loop, run) refl

IsTaken-room :
    (cs : List ℕ) (m : Memory) (b buf max n : ℕ) (rev : List ℕ)
    → 0 < n
    → (t : IsTaken cs m b buf max (n - 1) rev) → t.left + length rev + 1 ≡ n
IsTaken-room cs m b buf max n rev some_room t = let h = t.sum in omega arith

IsLine-before :
    (m m1 m' : Memory) (b n : ℕ) (rev : List ℕ)
    → ((q : ℕ) → (q < b) ⊎ (b + (n - 1) ≤ q) → m1 q ≡ m q)
    → IsLine m1 m' b n rev
    → IsLine m m' b n rev
IsLine-before m m1 m' b n rev same lined = record {
  stands = lined.stands;
  terminated = lined.terminated;
  outside = λ q out.
      lined.outside q out ∙ same q (elim out [ inl h ↦ inl h | inr h ↦ inr (omega arith) ]);
}

fgets_loop-IsLine :
    (texts : List (List ℕ)) (last junk : List ℕ) (rest : List (List ℕ)) (m : Memory) (b max n : ℕ)
    (rev : List ℕ)
    → IsPlain (typed texts last)
    → Stands m b rev
    → max + length rev + 1 ≡ n
    → length rev + length (typed texts last) + 2 ≤ n
    → (m' : Memory) × (fgets_loop
          (texts ++ ((last ++ (b'\n' ∷ junk)) ∷ rest))
          m
          b
          (b + length rev)
          max
        ≡ some m')
      × IsLine m m' b n (edited rev (typed texts last))
fgets_loop-IsLine [] last junk rest m b max n rev plain stands sum fits =
    let t = take_chars-edited last m b max (n - 1) rev plain stands (omega arith) (omega arith) in
    let all = edited rev last in
    let m' = poke (poke t.memory (b + length all) b'\n') (b + length all + 1) 0 in
    let short = edited-length rev last in
    let run : take_chars (last ++ (b'\n' ∷ junk)) m b (b + length rev) max ≡ line m' =
      take_chars-append last (b'\n' ∷ junk) m b (b + length rev) max
      ∙ ap (resume (b'\n' ∷ junk) b) t.run
      ∙ take_chars-newline junk t.memory b (b + length all) t.left in
    (
      m',
      fgets_loop-line (last ++ (b'\n' ∷ junk)) rest m m' b (b + length rev) max run,
      IsLine-newline m t.memory b n all (omega arith) t.stands
          (λ q out. t.outside q (elim out [ inl h ↦ inl h | inr h ↦ inr (omega arith) ])),
    )
fgets_loop-IsLine (cs ∷ texts) last junk rest m b max n rev plain stands sum fits =
    let (first, others) = IsPlain-append cs (typed texts last) plain in
    let sizes = length-append cs (typed texts last) in
    let t = take_chars-edited cs m b max (n - 1) rev first stands (omega arith) (omega arith) in
    let short = edited-length rev cs in
    let (m', run, lined) =
      fgets_loop-IsLine texts last junk rest t.memory b t.left n (edited rev cs) others t.stands
        (IsTaken-room cs m b (b + length rev) max n (edited rev cs) (omega arith) t)
        (omega arith) in
    (
      m',
      fgets_loop-more cs (texts ++ ((last ++ (b'\n' ∷ junk)) ∷ rest)) m t.memory b (b + length rev)
            max (b + length (edited rev cs)) t.left t.run
          ∙ run,
      subst (λ z. IsLine m m' b n z) (sym (edited-append rev cs (typed texts last)))
          (IsLine-before m t.memory m' b n (edited (edited rev cs) (typed texts last)) t.outside
            lined),
    )

fgets-loop :
    (texts : List (List ℕ)) (last junk : List ℕ) (rest : List (List ℕ)) (m m' : Memory) (b max : ℕ)
    → fgets_loop (texts ++ ((last ++ (b'\n' ∷ junk)) ∷ rest)) m b (b + 0) (sub64 max 1) ≡ some m'
    → fgets stdin (texts ++ ((last ++ (b'\n' ∷ junk)) ∷ rest)) m b max ≡ some (m', b)
unfolding fgets
fgets-loop texts last junk rest m m' b max run =
    let at : b + 0 ≡ b = omega arith in
    let run' =
      ap (λ k. fgets_loop (texts ++ ((last ++ (b'\n' ∷ junk)) ∷ rest)) m b k (sub64 max 1)) (sym at)
      ∙ run in
    rw run' refl

-- Characters without a newline, received in any number of rounds with a newline in the last one, that fit with the newline
-- and the terminator, come back from `fgets` as one line, in which each backspace has rubbed out the character
-- before it; only the `max` bytes of the buffer are written.
pub fgets-IsLine :
    (texts : List (List ℕ)) (last junk : List ℕ) (rest : List (List ℕ)) (m : Memory) (b max : ℕ)
    → IsPlain (typed texts last)
    → length (typed texts last) + 2 ≤ max
    → max < 2 ^ 64
    → (m' : Memory) × (fgets stdin (texts ++ ((last ++ (b'\n' ∷ junk)) ∷ rest)) m b max
        ≡ some (m', b))
      × IsLine m m' b max (edited [] (typed texts last))
fgets-IsLine texts last junk rest m b max plain fits small =
    let room : sub64 max 1 + 0 + 1 ≡ max = omega arith in
    let (m', run, lined) =
      fgets_loop-IsLine texts last junk rest m b (sub64 max 1) max [] plain (omega arith) room
        (omega arith) in
    (m', fgets-loop texts last junk rest m m' b max run, lined)
