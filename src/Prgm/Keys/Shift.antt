-- ===== src/Prgm/Keys/Shift.antt =====
-- The shift keys of the shell, and the characters that it sends.
use frosk_current.Prelude.{
  ℕ, ◌+◌, ◌≡◌, inl, inr, Bool, true, false, List, [], ◌∷◌, ◌++◌, ◌==◌, leb, if◌then◌else◌,
  Bool-cases, arith, refl, ap, sym, ◌∙◌,
}
use mathlib.Core.Path.{ap₂}
use mathlib.Core.List.{append-nil, append_assoc}
use frosk_current.Prgm.Keys.{
  Shell, KeyState, lshift_code, rshift_code, release, key_char, next_keys, process_key,
}
use frosk_current.Prgm.Keys.Typed.{type_keys}

-- The newest byte of a key says whether it is down.
abbrev pub is_down : (code : ℕ) → List ℕ → Bool → Bool
is_down code [] before = before
is_down code (x ∷ xs) before =
    if x == code then true else if x == code + release then false else is_down code xs before

-- The characters of the bytes, in the order of typing: those of the keys that are pressed.
abbrev pub chars_of : List ℕ → KeyState → List ℕ
chars_of [] keys = []
chars_of (x ∷ xs) keys =
    let ch =
      if leb release x
      then 0
      else key_char
          (record {
            lshift = is_down lshift_code (x ∷ xs) keys.lshift;
            rshift = is_down rshift_code (x ∷ xs) keys.rshift;
          })
          x in
    if ch == 0 then chars_of xs keys else chars_of xs keys ++ (ch ∷ [])

process_key-keys : (x : ℕ) (s : Shell) → (process_key x s).keys ≡ next_keys x s.keys
unfolding process_key
process_key-keys x s = elim (Bool-cases (leb release x)) [
  | inl e ↦ rw e refl
  | inr e ↦ elim (Bool-cases (key_char (next_keys x s.keys) x == 0)) [
    | inl z ↦ rw (e, z) refl
    | inr z ↦ rw (e, z) refl
  ]
]

-- the character that is sent, 0 if there is none
abbrev char_of : ℕ → KeyState → ℕ
char_of x keys = if leb release x then 0 else key_char keys x

process_key-sent :
    (x : ℕ) (s : Shell)
    → (process_key x s).sent ≡ (
        if char_of x (next_keys x s.keys) == 0
        then s.sent
        else s.sent ++ (char_of x (next_keys x s.keys) ∷ []))
unfolding process_key
process_key-sent x s = elim (Bool-cases (leb release x)) [
  | inl e ↦ rw e refl
  | inr e ↦ elim (Bool-cases (key_char (next_keys x s.keys) x == 0)) [
    | inl z ↦ rw (e, z) refl
    | inr z ↦ rw (e, z) refl
  ]
]

next_keys-lshift :
    (x : ℕ) (keys : KeyState)
    → (next_keys x keys).lshift ≡ (
        if x == lshift_code
        then true
        else if x == lshift_code + release
        then false
        else keys.lshift)
unfolding next_keys
next_keys-lshift x keys = ground arith

next_keys-rshift :
    (x : ℕ) (keys : KeyState)
    → (next_keys x keys).rshift ≡ (
        if x == rshift_code
        then true
        else if x == rshift_code + release
        then false
        else keys.rshift)
unfolding next_keys
next_keys-rshift x keys = ground arith

sent-append :
    (before sent old : List ℕ) (ch : ℕ)
    → before ≡ sent ++ old
    → (if ch == 0 then before else before ++ (ch ∷ []))
      ≡ sent ++ (if ch == 0 then old else old ++ (ch ∷ []))
sent-append before sent old ch e = elim (Bool-cases (ch == 0)) [
  | inl z ↦ rw z e
  | inr z ↦ rw z (ap (λ t. t ++ (ch ∷ [])) e ∙ append_assoc sent old (ch ∷ []))
]

keys_ext : (j k : KeyState) → j.lshift ≡ k.lshift → j.rshift ≡ k.rshift → j ≡ k
keys_ext j k l r = ap₂ (λ a b. record { lshift = a; rshift = b }) l r

-- After any keys the shell takes a shift key to be down exactly if its newest byte is a press, or if
-- there is none and it was down before; and it has sent the characters of the keys to the child.
pub type_keys-sent :
    (xs : List ℕ) (s : Shell)
    → ((type_keys xs s).keys.lshift ≡ is_down lshift_code xs s.keys.lshift)
      × ((type_keys xs s).keys.rshift ≡ is_down rshift_code xs s.keys.rshift)
      × ((type_keys xs s).sent ≡ s.sent ++ chars_of xs s.keys)
type_keys-sent [] s = (refl, refl, sym (append-nil s.sent))
type_keys-sent (x ∷ xs) s =
    let (l, r, sent) = type_keys-sent xs s in
    let before = (type_keys xs s).keys in
    let keys' : KeyState = record {
      lshift = is_down lshift_code (x ∷ xs) s.keys.lshift;
      rshift = is_down rshift_code (x ∷ xs) s.keys.rshift;
    } in
    let l' : (next_keys x before).lshift ≡ keys'.lshift =
      next_keys-lshift x before
      ∙ ap (λ b. if x == lshift_code then true else if x == lshift_code + release then false else b)
          l in
    let r' : (next_keys x before).rshift ≡ keys'.rshift =
      next_keys-rshift x before
      ∙ ap (λ b. if x == rshift_code then true else if x == rshift_code + release then false else b)
          r in
    let same : next_keys x before ≡ keys' = keys_ext (next_keys x before) keys' l' r' in
    let step = process_key-keys x (type_keys xs s) ∙ same in
    (
      ap (λ k. k.lshift) step,
      ap (λ k. k.rshift) step,
      process_key-sent x (type_keys xs s)
          ∙ ap
              (λ k.
                if char_of x k == 0
                then (type_keys xs s).sent
                else (type_keys xs s).sent ++ (char_of x k ∷ []))
              same
          ∙ sent-append (type_keys xs s).sent s.sent (chars_of xs s.keys) (char_of x keys') sent,
    )
