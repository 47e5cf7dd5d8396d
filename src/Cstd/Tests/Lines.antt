-- ===== src/Cstd/Tests/Lines.antt =====
-- A line read by `fgets`.
use frosk_current.Prelude.{ℕ, ◌≡◌, ◌++◌, some, [], ◌∷◌, List, refl, arith}
use frosk_current.Prelude.Memory.{Memory}
use frosk_current.Cstd.Stream.{stdin}
use frosk_current.Cstd.Stream.Gets.{fgets}
use frosk_current.Cstd.Stream.Gets.Whole.{IsLine, fgets-IsLine}

-- a backspace, "ab" and a backspace, then "c", a newline and another character
abbrev first_texts : List (List ℕ)
first_texts = (8 ∷ 97 ∷ 98 ∷ 8 ∷ []) ∷ []

fgets-IsLine_example :
    (m' : Memory) × (fgets stdin
        (first_texts ++ (((99 ∷ []) ++ (b'\n' ∷ 100 ∷ [])) ∷ []))
        (λ _. 7)
        50
        8
      ≡ some (m', 50))
    × IsLine (λ _. 7) m' 50 8 (99 ∷ 97 ∷ [])
fgets-IsLine_example =
    fgets-IsLine first_texts (99 ∷ []) (100 ∷ []) [] (λ _. 7) 50 8
      (refl, (refl, (refl, (refl, (refl, omega arith))))) (omega arith) (omega arith)
