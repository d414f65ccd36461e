-- ===== src/FileFd/ReadBack.antt =====
-- What `FileFD.Write` writes into a file, `FileFD.Read` reads back.
use byte_space.Prelude.{ℕ, ◌*◌, ◌<◌, ◌≡◌, none}
use byte_space.Bytes.{Buffer}
use byte_space.Layout.{blocksize}
use byte_space.FileSystem.{FileSystem}
use byte_space.Inode.{Inode}
use byte_space.FileFd.{FileFd, counted, WriteState, ReadState, Count}
use byte_space.FileFd.Write.{IsSmallFile, file, rewritten}

-- The state that a write leaves which stays within the file.
record Kept (f : FileFd) (fs : FileSystem) (ino : Inode) (data' : Buffer) (len : ℕ) (w : WriteState)
    : Type 0 where
  count : w.count ≡ counted len none
  ino_kept : w.ino ≡ ino
  small : IsSmallFile w.fs ino
  bytes :
      (k : ℕ)
      → k < 12 * blocksize
      → file w.fs ino k ≡ rewritten (file fs ino) data' f.offset 0 len k

abbrev read_state : Buffer → ℕ → Count → ReadState
read_state buf offset count = record { buf = buf; offset = offset; count = count }
