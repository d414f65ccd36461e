-- ===== src/Layout.antt =====
-- computer/fs.go: the constants of the BS-EXTFS disk layout.
use byte_space.Prelude.{ℕ, ◌*◌}

abbrev pub latest_version : ℕ
latest_version = 11

abbrev pub inodesize : ℕ
inodesize = 0x80

abbrev pub blocksize : ℕ
blocksize = 0x1000

abbrev pub disksize : ℕ
disksize = 67108864

abbrev pub inodes : ℕ
inodes = 8064

abbrev pub blocks : ℕ
blocks = 8064 * 2

abbrev pub magiclen : ℕ
magiclen = 8

abbrev pub totalblocks : ℕ
totalblocks = 16384
