-- ===== src/Cstd/Ctype.antt =====
-- `lib/cstd/src/ctype.c`, for the characters of an `unsigned char`; `EOF` is not modelled.
pub mod Classes
use frosk_current.Prelude.{ℕ, ◌+◌, ◌-◌, Bool, ◌==◌, leb, if◌then◌else◌, ◌&&◌, ◌||◌, not}

pub isupper : ℕ → Bool
isupper c = leb b'A' c && leb c b'Z'

unfoldable pub islower : ℕ → Bool
islower c = leb b'a' c && leb c b'z'

pub isalpha : ℕ → Bool
unfolding isupper islower
isalpha c = isupper c || islower c

pub isdigit : ℕ → Bool
isdigit c = leb b'0' c && leb c b'9'

pub isxdigit : ℕ → Bool
unfolding isdigit
isxdigit c = isdigit c || (leb b'a' c && leb c b'f') || (leb b'A' c && leb c b'F')

pub isalnum : ℕ → Bool
unfolding isalpha isdigit
isalnum c = isalpha c || isdigit c

pub iscntrl : ℕ → Bool
iscntrl c = c == 0 || c == 0x1f || c == 0x7f

pub isprint : ℕ → Bool
isprint c = leb 0x20 c && leb c 0x7e

-- the characters ' ', '\n', '\t', '\f', '\r' and '\v'
unfoldable pub isspace : ℕ → Bool
isspace c = c == 32 || c == 10 || c == 9 || c == 12 || c == 13 || c == 11

pub isgraph : ℕ → Bool
unfolding isprint isspace
isgraph c = isprint c && not (isspace c)

pub ispunct : ℕ → Bool
unfolding isgraph isalnum
ispunct c = isgraph c && not (isalnum c)

pub tolower : ℕ → ℕ
unfolding isupper
tolower c = if isupper c then c + 0x20 else c

unfoldable pub toupper : ℕ → ℕ
unfolding islower
toupper c = if islower c then c - 0x20 else c
