-- ===== src/Cstd/Stream/Seek.antt =====
-- Where `fseek` moves a stream.
use frosk_current.Prelude.{ℕ, ◌+◌, ◌-◌, ◌^◌, ◌≤◌, ◌<◌, ◌≡◌, some, ltb, if◌then◌else◌, arith, ap}
use frosk_current.Kernel.Files.{File, fs_size}
use frosk_current.Cstd.Stream.{opened, Whence, seek_set, seek_cur, seek_end, moved, clamp, fseek}

-- a `long` as a distance
pub data Distance : Type 0 where
  forward : ℕ → Distance
  back : ℕ → Distance

-- the bit pattern of a distance
abbrev pub pattern_of : Distance → ℕ
pattern_of (forward k) = k
pattern_of (back k) = 2 ^ 64 - k

-- where the distance is counted from
abbrev pub base : (cursor size : ℕ) → Whence → ℕ
base cursor size seek_set = 0
base cursor size seek_cur = cursor
base cursor size seek_end = size

-- the place at the distance, not before the begin and not behind the end
abbrev pub target : (from size : ℕ) → Distance → ℕ
target from size (forward k) = if ltb size (from + k) then size else from + k
target from size (back k) = from - k

-- The distance is a `long`, and the sum does not overflow.
abbrev pub IsLong : (from : ℕ) → Distance → Type 0
IsLong from (forward k) = from + k < 2 ^ 63
IsLong from (back k) = (0 < k) × (k ≤ 2 ^ 63)

clamp-target :
    (cursor size : ℕ) (whence : Whence) (by : Distance)
    → cursor ≤ size
    → size < 2 ^ 63
    → IsLong (base cursor size whence) by
    → clamp (moved (pattern_of by) cursor size whence) size
      ≡ target (base cursor size whence) size by
clamp-target cursor size seek_set (forward k) inside small long = ground arith
clamp-target cursor size seek_set (back k) inside small (some_way, long) = ground arith
clamp-target cursor size seek_cur (forward k) inside small long = ground arith
clamp-target cursor size seek_cur (back k) inside small (some_way, long) = ground arith
clamp-target cursor size seek_end (forward k) inside small long = ground arith
clamp-target cursor size seek_end (back k) inside small (some_way, long) = ground arith

-- On a file of less than 2^63 bytes, with the cursor inside, `fseek` goes to the begin, the cursor or the
-- end and from there by the offset, forward or back, and stops at the end and at the begin.
pub fseek-target :
    (cursor size : ℕ) (f f' : File) (whence : Whence) (by : Distance)
    → fs_size f ≡ some (size, f')
    → cursor ≤ size
    → size < 2 ^ 63
    → IsLong (base cursor size whence) by
    → fseek (opened cursor f) (pattern_of by) whence
      ≡ some (0, opened (target (base cursor size whence) size by) f')
unfolding fseek
fseek-target cursor size f f' whence by sized inside small long =
    rw sized
      (ap (λ c. some (0, opened c f')) (clamp-target cursor size whence by inside small long))
