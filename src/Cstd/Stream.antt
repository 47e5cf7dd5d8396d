-- ===== src/Cstd/Stream.antt =====
-- The streams of `lib/cstd/src/stdio.c` on files: `fseek`, `ftell`, `feof`, `fread`, `fwrite`, `fputc` and `fputs`.
-- The system calls end in `fs_size`, `fs_read` and `fs_write` of the kernel; the messages to the parent are a list.
-- `none` is a call that does not return.
pub mod Gets
pub mod Read
pub mod Seek
use frosk_current.Prelude.{
  ℕ, zero, suc, ◌+◌, ◌-◌, ◌*◌, ◌%◌, ◌^◌, Bool, true, false, Option, none, some, List, [], ◌∷◌, ◌++◌,
  ◌==◌, ltb, leb, if◌then◌else◌, ◌>>=◌,
}
use frosk_current.Prelude.Words.{add64, mul64}
use frosk_current.Prelude.Memory.{Memory, poke}
use frosk_current.Cstd.Str.{strlen}
use frosk_current.Kernel.Device.{Device}
use frosk_current.Kernel.Files.{File, fs_size, fs_read, fs_write}

-- `stdin`, `stdout` and `stderr` are addresses, all others are structures.
pub data Stream : Type 0 where
  stdin : Stream
  stdout : Stream
  stderr : Stream
  opened : (cursor : ℕ) → File → Stream

-- `enum _seek`
pub data Whence : Type 0 where
  seek_set : Whence
  seek_cur : Whence
  seek_end : Whence

-- `offset` is the bit pattern of a `long`, which is negative from 2^63 on.
abbrev pub moved : (offset cursor size : ℕ) → Whence → ℕ
moved offset cursor size seek_set = offset
moved offset cursor size seek_cur = add64 offset cursor
moved offset cursor size seek_end = add64 offset size

abbrev pub clamp : (offset size : ℕ) → ℕ
clamp offset size = if leb (2 ^ 63) offset then 0 else if ltb size offset then size else offset

pub fseek : Stream → (offset : ℕ) → Whence → Option (ℕ × Stream)
fseek stdin offset seek = some (1, stdin)
fseek stdout offset seek = some (1, stdout)
fseek stderr offset seek = some (1, stderr)
fseek (opened cursor f) offset seek =
    fs_size f >>= λ r. some (0, opened (clamp (moved offset cursor (r.0) seek) (r.0)) (r.1))

pub ftell : Stream → ℕ
ftell stdin = 0
ftell stdout = 0
ftell stderr = 0
ftell (opened cursor f) = cursor

-- the result, and the stream, whose file can have got its size
pub feof : Stream → Option (Bool × Stream)
feof stdin = some (false, stdin)
feof stdout = some (false, stdout)
feof stderr = some (false, stderr)
feof (opened cursor f) = fs_size f >>= λ r. some (leb (r.0) cursor, opened cursor (r.1))

-- The number that is returned is that of the bytes asked for. `d`, `page_size`, `bounce` and `fuel` are
-- those of `fs_read`.
pub fread :
    (d : Device) (page_size bounce fuel : ℕ)
    → Memory
    → (buf n sz : ℕ) → Stream
    → Option (ℕ × Memory × Stream)
unfolding fseek
fread d page_size bounce fuel m buf n sz stdin = some (0, m, stdin)
fread d page_size bounce fuel m buf n sz stdout = some (0, m, stdout)
fread d page_size bounce fuel m buf n sz stderr = some (0, m, stderr)
fread d page_size bounce fuel m buf n sz (opened cursor f) =
    fs_read d page_size bounce fuel m buf cursor (mul64 n sz) f >>= λ r.
    fseek (opened cursor (r.2)) (mul64 n sz) seek_cur >>= λ s. some (mul64 n sz, r.1, s.1)

pub fwrite : Memory → (buf n sz : ℕ) → Stream → Option (ℕ × Memory × Stream)
unfolding fseek
fwrite m buf n sz stdin = some (0, m, stdin)
fwrite m buf n sz stdout = some (0, m, stdout)
fwrite m buf n sz stderr = some (0, m, stderr)
fwrite m buf n sz (opened cursor f) = fs_write m buf cursor (mul64 n sz) f >>= λ r.
    fseek (opened cursor f) (mul64 n sz) seek_cur >>= λ s. some (mul64 n sz, r.1, s.1)

-- What `fputc` and `fputs` return, memory, the stream, and the messages to the parent.
abbrev pub Put : Type 0
Put = ℕ × Memory × Stream × List (List ℕ)

-- `EOF`, the pattern of -1 in an `int`
abbrev pub eof : ℕ
eof = 2 ^ 32 - 1

-- `at` is the address of the parameter `ch`, the pattern of an `int` of which one byte is written.
pub fputc : Memory → (ch at : ℕ) → Stream → List (List ℕ) → Option Put
fputc m ch at stdin sent = some (eof, m, stdin, sent)
fputc m ch at stdout sent = some (ch, m, stdout, sent ++ ((ch % 256 ∷ []) ∷ []))
fputc m ch at stderr sent = some (ch, m, stderr, sent ++ ((ch % 256 ∷ []) ∷ []))
fputc m ch at (opened cursor f) sent = fs_write (poke m at (ch % 256)) at cursor 1 f >>= λ r.
    some (ch, r.1, opened (add64 cursor 1) f, sent)

-- the bytes from an address on
pub bytes_at : Memory → (a len : ℕ) → List ℕ
bytes_at m a zero = []
bytes_at m a (suc len) = m a ∷ bytes_at m (a + 1) len

-- `fuel` is that of `strlen`.
pub fputs : (fuel : ℕ) → Memory → (buf : ℕ) → Stream → List (List ℕ) → Option Put
unfolding bytes_at fseek
fputs fuel m buf stdin sent = some (eof, m, stdin, sent)
fputs fuel m buf stdout sent =
    strlen fuel m buf >>= λ len. some (len, m, stdout, sent ++ (bytes_at m buf len ∷ []))
fputs fuel m buf stderr sent =
    strlen fuel m buf >>= λ len. some (len, m, stderr, sent ++ (bytes_at m buf len ∷ []))
fputs fuel m buf (opened cursor f) sent = strlen fuel m buf >>= λ len.
    fs_write m buf cursor len f >>= λ r.
    fseek (opened cursor f) len seek_cur >>= λ s. some (len, r.1, s.1, sent)
