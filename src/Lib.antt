-- ===== src/Lib.antt =====
-- byte-space: virtual computers with a small filesystem, terminals and a shell.
--
-- A computer (computer/) keeps its files on a disk image. NewFileSystem formats or mounts it
-- (fs.go, fs_superblock.go); inodes stand in a table and a bitmap (fs_inode.go); Falloc
-- (fs_falloc.go) hands out data blocks from a second bitmap, directly and through three tables of
-- 1024 pointers; directories (fs_dir.go) are blocks of 64 slots; open files (fs_fd.go) read and
-- write through the pointers. A terminal (tty.go) edits lines for the programs that read it, and
-- the shell (programs/shell) has an editor of its own, with a history, on a raw terminal. The
-- editor v (programs/v) edits files on a raw terminal too. The client (client/) puts the bytes of a
-- keyboard together to the keystrokes that a terminal receives.
--
-- Files:
-- - Prelude: numbers, lists, texts, integers, and results that are a value, an error or a panic.
--   `Exec S A` is a call on the state `S`.
-- - Bytes: buffers as functions from index to byte, with encoding/binary in little endian.
-- - Disk: MemDisk, and its ReadAt, WriteAt and Truncate.
-- - Layout, SuperBlock, FileSystem (Mount, Blocks): the constants, the superblock,
--   NewFileSystem (`mount`, `format`), ReadBlock and WriteBlock.
-- - Bitmap (Bits, Search, Change, Take): setBit, clearBit, findFreeBit.
-- - Inode (Codec, Store, Boot, Bitmap): the inode, readInode, writeInode, AllocInode,
--   FreeInodeFromBitmap, and the first boot (`new_file_system`).
-- - Places: virtualToPlaceRelative and blockNumForVirtual.
-- - Falloc (View, Grow): Falloc, with `Alloc` for its local variables.
-- - Dentry (Slots, Insert, Remove): directory entries and one block of them.
-- - Directory (Entries, Insert, Remove): iterBlocks, addDentry, removeDentry and ReadEntries.
-- - Paths (Normal): Go's path.Clean, Join, Dir and Base.
-- - Tasks (Pids): computer/process.go, and the PIDs, descriptors and ioctl of computer/kernel.go.
-- - Kernel: the rest of computer/kernel.go, on a filesystem, the cached inodes and the tasks; a call
--   holds the kernel's lock to its end. Kernel/Nodes is makeInode and freeInodeTree, Kernel/Reads
--   and Kernel/Writes are the calls on files and directories, Kernel/Launch is exec and
--   Kernel/Syscall the dispatch. Kernel/Reading, Stays, Guarded, Rights, Rewrites, Permits and Readers are about
--   lookups and permissions, Kernel/Normal about normalizePath, Kernel/Users about exec. The depth
--   that freeInodeTree may recurse to stands for the program's stack.
-- - Accounts (Lines, Login, Prompts, Session): /etc/passwd and the dialogues of programs/adduser and
--   programs/login; Commands (Bits, Chmod, Ls, Letters): programs/cmds; Network (Unique): the machines and the admin
--   commands of engine/.
-- - ShellRun (Modes, Launches, Builtins, Restores): Run of programs/shell on the kernel.
-- - FileFd (Read, Write, ReadBack): FileFD.Read and FileFD.Write.
-- - Terminal: the texts and keys of the line editors; Terminal/Tty is TTY.Read, and Terminal/Shell
--   is canonicalLogic, HandleSignal and parse of the shell.
-- - Editor (Slices, Keys, Merge, Split): the keys of v, on lines that are slices of shared arrays.
--   The capacities that the Go runtime chooses are a parameter, `Caps`.
-- - Client (Bytes): commandLoop.
-- - Examples: the theorems at concrete values, and tests.
--
-- Numbers are natural numbers; the wrap-around of `uint32` sums is written out, and offsets fit
-- `int64` as the code computes them. A byte buffer is a function, so what a slice expression
-- would refuse is tested where the code can be out of range, and is a panic. Loops are recursion
-- on the number of rounds that the code bounds them with: the words and bytes of a bitmap, the 64
-- slots of a block, the blocks of a file. FileFD's loops run on fuel of the number of bytes left,
-- of which each round takes at least one. `decimal_fuel` runs on the number itself, which has no
-- more digits than that.
--
-- Not modelled: mutexes (one call runs at a time), logging, the host's file calls, sockets and
-- JSON, the kernel's sessions, network calls and first boot, what programs do when exec runs them
-- (a parameter), the choice of a machine by a client, the rest of the client,
-- and how v draws its screen.
pub mod Prelude
pub mod Bytes
pub mod Disk
pub mod Layout
pub mod Bitmap
pub mod SuperBlock
pub mod FileSystem
pub mod Inode
pub mod Tasks
pub mod Accounts
pub mod Network
pub mod Commands
pub mod Kernel
pub mod Paths
pub mod Places
pub mod Dentry
pub mod Directory
pub mod FileFd
pub mod ShellRun
pub mod Terminal
pub mod Falloc
pub mod Examples
pub mod Editor
pub mod Client
