-- ===== src/Examples/Files.antt =====
-- The reads of computer/fs_fd.go and the keystrokes of client/main.go at concrete values.
use byte_space.Prelude.{
  ℕ, ◌+◌, ◌-◌, ◌≡◌, refl, arith, false, none, some, min, leb, ltb, if◌then◌else◌, eof, [], ◌∷◌,
}
use byte_space.Bytes.{Buffer, zeroed, slice}
use byte_space.Layout.{disksize, blocksize}
use byte_space.FileSystem.{FileSystem, fresh_super_blk}
use byte_space.FileSystem.Blocks.{data_offset}
use byte_space.Inode.{Inode, empty_inode}
use byte_space.FileFd.{FileFd, counted, read}
use byte_space.FileFd.Read.{HasBlocks, filled, content, read-filled, small-HasBlocks}
use byte_space.Client.{add_byte, Loop, byte, closed, receive, on, command_loop, turn_panics}

-- A disk of full size with the letter `x` everywhere behind its superblock.
abbrev disk_of_x : FileSystem
disk_of_x = record {
  disk = record { len = disksize; byte = λ i. b'x' };
  super_blk = fresh_super_blk;
  fresh_format = false;
}

-- A file of two blocks, 4 and 5.
abbrev two_blocks : Inode
two_blocks = record empty_inode { size = 5000; direct = λ v. if leb v 0 then 4 else 5 }

abbrev blocks_of_x : ℕ → Buffer
blocks_of_x v = slice disk_of_x.disk.byte (data_offset (two_blocks.direct v)) blocksize

two_blocks-HasBlocks : HasBlocks disk_of_x two_blocks blocks_of_x
two_blocks-HasBlocks =
    small-HasBlocks disk_of_x two_blocks (record { super = refl; full = refl }) (omega arith)
      (λ v. ground arith)

abbrev open_file : FileFd
open_file = record { inode_num = 3; offset = 4090; flags = 0 }

read-filled_example : read open_file disk_of_x two_blocks zeroed 100 ≡ (
    if leb 5000 4090
    then record { buf = zeroed; offset = 4090; count = counted 0 (some eof) }
    else record {
      buf = filled zeroed (content blocks_of_x) 4090 0 (min 100 (5000 - 4090));
      offset = 4090 + min 100 (5000 - 4090);
      count = counted (min 100 (5000 - 4090)) none;
    })
read-filled_example =
    read-filled disk_of_x two_blocks blocks_of_x open_file zeroed 100 two_blocks-HasBlocks

-- A file of two blocks in twelve that differ.
abbrev twelve_blocks : Inode
twelve_blocks = record empty_inode { size = 5000; direct = λ v. if ltb v 12 then v else 0 }

abbrev alt_w : Loop
alt_w = record { keystroke = 27 ∷ b'w' ∷ []; waiting = false; sent = [] }

abbrev started : Loop
started = record { keystroke = []; waiting = false; sent = [] }

-- An arrow is one keystroke.
arrow_sent :
    command_loop (byte 27 ∷ byte b'[' ∷ byte b'A' ∷ byte b'q' ∷ []) started
    ≡ on (record started { sent = (27 ∷ b'[' ∷ b'A' ∷ []) ∷ (b'q' ∷ []) ∷ [] })
unfolding command_loop receive add_byte
arrow_sent = refl

-- A key with alt is sent only with the next key, which is lost.
alt_loses :
    command_loop (byte 27 ∷ byte b'w' ∷ byte b'a' ∷ []) started
    ≡ on (record started { sent = (27 ∷ b'w' ∷ []) ∷ [] })
unfolding command_loop receive add_byte
alt_loses = refl

-- The end of the input behind an escape is a panic.
closed_escape : command_loop (byte 27 ∷ closed ∷ []) started ≡ turn_panics
unfolding command_loop receive add_byte
closed_escape = refl
