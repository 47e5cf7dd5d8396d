-- ===== src/Prgm/Keys/Letters.antt =====
-- The two tables of characters against each other.
use frosk_current.Prelude.{
  ℕ, zero, suc, ◌≡◌, ◌↔◌, Bool, true, false, List, [], ◌∷◌, ◌==◌, ltb, ◌&&◌, ◌||◌, if◌then◌else◌,
  get_or, arith, refl, Bool-cases, inl, inr,
}
use frosk_current.Cstd.Ctype.{islower, toupper}
use frosk_current.Prgm.Keys.{key_char, scan_code1_to_char, scan_code1_to_char_shifted}

-- both characters are 0 or none is, and a lower case letter goes with its upper case
abbrev agrees : ℕ → ℕ → Bool
agrees c d =
    (if c == 0 then d == 0 else (if d == 0 then false else true))
    && (if islower c then d == toupper c else true)

abbrev all_agree : List ℕ → List ℕ → Bool
all_agree [] [] = true
all_agree [] (d ∷ ds) = false
all_agree (c ∷ cs) [] = false
all_agree (c ∷ cs) (d ∷ ds) = agrees c d && all_agree cs ds

agrees-get_or :
    (cs ds : List ℕ) (i : ℕ)
    → all_agree cs ds ≡ true
    → agrees (get_or cs i 0) (get_or ds i 0) ≡ true
unfolding islower
agrees-get_or [] [] i h = refl
agrees-get_or [] (d ∷ ds) i h = absurd (ground (arith, h))
agrees-get_or (c ∷ cs) [] i h = absurd (ground (arith, h))
agrees-get_or (c ∷ cs) (d ∷ ds) zero h = ground (arith, h)
agrees-get_or (c ∷ cs) (d ∷ ds) (suc i) h = agrees-get_or cs ds i (ground (arith, h))

-- What `agrees` says.
agrees_lem :
    (c d : ℕ) → agrees c d ≡ true → ((d ≡ 0) ↔ (c ≡ 0)) × (islower c ≡ true → d ≡ toupper c)
agrees_lem c d h =
    ((λ e. ground (arith, h), λ e. ground (arith, h)), λ lower. ground (arith, h, lower))

tables-agree : all_agree scan_code1_to_char scan_code1_to_char_shifted ≡ true
unfolding islower toupper
tables-agree = refl

-- For every scan code: with a shift key down it types something exactly if it does so without, and
-- where it types a lower case letter without, it types the `toupper` of it with a shift key down.
pub key_char-shift :
    (scancode : ℕ) (l r : Bool)
    → (l || r) ≡ true
    → let off = key_char (record { lshift = false; rshift = false }) scancode in
      let on = key_char (record { lshift = l; rshift = r }) scancode in
      ((on ≡ 0) ↔ (off ≡ 0)) × (islower off ≡ true → on ≡ toupper off)
unfolding islower key_char
key_char-shift scancode l r down = rw down (elim (Bool-cases (ltb scancode 88)) [
  | inl e ↦ rw e (
      agrees_lem (get_or scan_code1_to_char scancode 0)
        (get_or scan_code1_to_char_shifted scancode 0)
        (agrees-get_or scan_code1_to_char scan_code1_to_char_shifted scancode tables-agree))
  | inr e ↦ rw e ((λ h. refl, λ h. refl), λ h. ground (arith, h))
])
