-- ===== src/Cstd/Ctype/Classes.antt =====
-- How the classes of characters lie to one another.
use frosk_current.Prelude.{ℕ, ◌≤◌, ◌≡◌, false, ◌&&◌, ◌||◌, arith}
use frosk_current.Cstd.Ctype.{
  isupper, islower, isalpha, isdigit, isalnum, iscntrl, isprint, isspace, isgraph, ispunct, tolower,
  toupper,
}

-- A character is printable exactly if it is one and only one of: a letter, a digit, punctuation, or
-- the space.
pub isprint-classes :
    (c : ℕ)
    → (isprint c ≡ (isalpha c || isdigit c || ispunct c || (isprint c && isspace c)))
      × ((isalpha c && isdigit c) ≡ false)
      × ((isalnum c && ispunct c) ≡ false)
      × ((isgraph c && isspace c) ≡ false)
unfolding isprint isalpha isdigit ispunct isspace isalnum isgraph
isprint-classes c = ground arith

-- `toupper` and `tolower` each undo the other: what counts is the one applied last. `tolower` returns
-- no capital letter, `toupper` no small one, and `tolower` keeps letters and other characters apart.
pub toupper-tolower :
    (c : ℕ)
    → (toupper (tolower c) ≡ toupper c)
      × (tolower (toupper c) ≡ tolower c)
      × (isupper (tolower c) ≡ false)
      × (islower (toupper c) ≡ false)
      × (isalpha (tolower c) ≡ isalpha c)
unfolding toupper tolower isupper islower isalpha
toupper-tolower c = ground arith

-- The characters from 1 to 30 count neither as control characters nor as printable, graphical or
-- alphanumeric ones.
pub iscntrl_gap :
    (c : ℕ)
    → 1 ≤ c
    → c ≤ 30
    → (iscntrl c ≡ false) × (isprint c ≡ false) × (isgraph c ≡ false) × (isalnum c ≡ false)
unfolding iscntrl isprint isgraph isalnum
iscntrl_gap c lo hi = ground arith
