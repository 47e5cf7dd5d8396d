-- ===== src/Kernel/Tests/FileReads.antt =====
-- Reads of files, by the kernel and by streams.
use frosk_current.Prelude.{◌≡◌, ◌-◌, ◌^◌, inl, inr, refl, some, none, List, [], ◌∷◌, arith}
use frosk_current.Prelude.Memory.{Memory}
use frosk_current.Kernel.Device.{Device}
use frosk_current.Kernel.Files.{DataBlock, File, size_unknown, at_most, fs_read}
use frosk_current.Kernel.Files.Blocks.{total, IsRead}
use frosk_current.Kernel.Files.Read.{IsOnDisk, fs_read-IsRead}
use frosk_current.Kernel.Files.Read.{fs_size-total}
use frosk_current.Cstd.Stream.{opened, seek_end, fseek, fread}
use frosk_current.Cstd.Stream.Seek.{back, fseek-target}
use frosk_current.Cstd.Stream.Read.{fread-IsRead}
use frosk_current.Kernel.Tests.Drivers.{disk, read, read-IsHonest}

-- six bytes, and four more
abbrev parts : List DataBlock
parts = record { lba = 2; size = 6 } ∷ record { lba = 5; size = 4 } ∷ []

abbrev file : File
file = record {
  type = 1;
  flags = 0;
  contents = 0;
  size = size_unknown;
  read_hook = none;
  write_hook = none;
  blocks = some parts;
}

file-IsOnDisk : IsOnDisk file parts
file-IsOnDisk = record {
  is_file = refl;
  not_hooked = refl;
  not_virtual = refl;
  not_present = refl;
  node = refl;
  sized = inr refl;
}

abbrev root : Device
root = record { read = some read; block_size = 4 }

abbrev zeros : Memory
zeros _ = 0

fs_read-IsRead_example :
    (m' : Memory) × (fs_read root 8 200 3 zeros 100 0 20 file
      ≡ some (at_most (total parts) 20, m', record file { size = total parts }))
    × IsRead disk 8 200 4 read read-IsHonest
        (λ m to block n. refl)
        (omega arith)
        zeros
        100
        (at_most (total parts) 20)
        parts
        m'
fs_read-IsRead_example =
    fs_read-IsRead disk 8 200 4 read read-IsHonest (λ m to block n. refl) (omega arith) 3 zeros 100
      20 file parts file-IsOnDisk (omega arith, omega arith, (omega arith, omega arith, tt))
      (omega arith) (omega arith) (omega arith) (omega arith) (inl (omega arith))

-- three bytes back from the end
fseek-target_example :
    fseek (opened 2 file) (2 ^ 64 - 3) seek_end
    ≡ some (0, opened (10 - 3) (record file { size = 10 }))
fseek-target_example =
    fseek-target 2 10 file (record file { size = 10 }) seek_end (back 3)
      (fs_size-total file parts file-IsOnDisk (omega arith)) (omega arith) (omega arith)
      (omega arith, omega arith)

-- twenty bytes are asked for, and ten are there
fread-IsRead_example :
    (m' : Memory) × (fread root 8 200 3 zeros 100 5 4 (opened 0 file)
      ≡ some (20, m', opened (at_most (total parts) 20) (record file { size = total parts })))
    × IsRead disk 8 200 4 read read-IsHonest
        (λ m to block n. refl)
        (omega arith)
        zeros
        100
        (at_most (total parts) 20)
        parts
        m'
fread-IsRead_example =
    fread-IsRead disk 8 200 4 read read-IsHonest (λ m to block n. refl) (omega arith) 3 zeros 100 5
      4 file parts file-IsOnDisk (omega arith, omega arith, (omega arith, omega arith, tt))
      (omega arith) (omega arith) (omega arith) (omega arith) (omega arith) (inl (omega arith))
