-- ===== src/Lib.antt =====
-- vsfs, a very simple file system: the variant in shared memory and the one on a device.
--
-- The program. A file system lives in an object of shared memory, which `src/shm/shm_mkfs.c` formats:
-- a superblock, a free map of the inodes, the inodes, a free map of the data blocks and the data
-- blocks. A copy of the superblock and of the free maps is shared by the processes. A process calls
-- the functions of `src/inc/vsfsio.h`: it creates files in the one directory, opens and closes them,
-- and reads, writes and seeks. They take blocks and inodes by `src/inc/vsfs_bitmap.h`. In the variant
-- of `src/inc/vsfsio_spdk.h` the data blocks are on a device, read and written one by one through
-- `src/spdkapi/spdk.c`; an open file has its block numbers in an array. The program `src/ufs/ufs_sh.c`
-- formats such a device, mounts it, which copies the superblock, the free maps and the inodes to a shared
-- object, writes them back by its unmount (`src/ufs/vsfs_init.c`), and has a shell over the operations.
--
-- The files here and the code:
--   Word, Memory: the integer types of C and its byte operations (memcpy, memset, strcmp).
--   Layout: constants and structs of `src/inc/vsfs.h` and of `src/inc/vsfs_bitmap.h`.
--   Bitmap: the functions of `src/inc/vsfs_bitmap.h`; Bits and Search on words, FirstFree, Counts and
--     Handed on the map as a set of free numbers.
--   Blocks: `__alloc_block`; Return: `__return_block`; Print: `vsfs_print_block_nbr`; Map: the block map
--     of a file as one function; Count: how many blocks are added; Direct: the first 49; Given: which
--     blocks those are; Idle: when none is asked for.
--   State: what the operations share: the mappings, the open file table and the descriptors.
--   Directory: `vsfs_creat` and the searches for a name; Search, Creat, Added and Found state
--     their laws.
--   Session: `_find_target_in_fdtable`; Open: `vsfs_open`; Close: `vsfs_close`; Undo and Stale: one
--     after the other.
--   FileIo: Write: `__write_dblock` and `vsfs_write`; Read: `__read_dblock` and `vsfs_read`; Seek:
--     `vsfs_lseek`; Flat: the one loop that the loops of all levels come to; RoundTrip and Sequence:
--     a read after a write.
--   Stat: `vsfs_stat`.
--   Machine: the processes and their calls, one at a time; Safe, Files, Sessions and Closing show what
--     each call keeps, Reached what any sequence of calls keeps.
--   Format: `src/shm/shm_mkfs.c`; Regions: where the image has what.
--   Spdk: `read_spdk` and `write_spdk` over the commands of the SPDK library, which are the parameter
--     `Nvme`; `IsReliable` is what a device promises: commands are queued, and a sector reads as it was
--     written last. A sector has 512 bytes, as in `src/ufs/Makefile`.
--   Device: `src/inc/vsfsio_spdk.h`. Region: the data region of a device as bytes; Info:
--     `vsfs_get_inode_info`; Alloc: `__alloc_block`; Write: `__write_dblock`; Read: `__read_dblock`;
--     State and Files: `vsfs_write`, `vsfs_read` and `vsfs_lseek`; Directory: `vsfs_creat` and the
--     searches for a name; Session: `vsfs_open` and `vsfs_close`; Stat: `vsfs_stat` and
--     `vsfs_print_block_nbr`.
--   Mount: the superblock as bytes, and a shared object. Blocks: whole reads and writes of a device;
--     Init: `init_vsfs` of `src/ufs/vsfs_init.c`; Attach: `mount_vsfs` and `unmount_vsfs` of the same
--     file; Fresh and Attach/Kept: a mount after a format and after an unmount; View: the object as
--     `struct vsfs_cached_data`, words behind its end being 0; Shared: `src/shm/shm_mount.c`.
--   Shell: `src/ufs/ufs_sh.c`, the words it reads and the choice of a command; Choice: that choice as a
--     table; Commands: its commands over the operations of the device; Loop: `start_ufs`; Main: `main`
--     over the device and the shared objects by their names, and Main/Fresh its runs with `mkfs` and
--     then `mount`.
--   Examples: concrete states and runs.
--
-- The model. The data region is a memory of bytes from address 0 on; the inodes are a function from
-- their numbers, and a pointer to one is its number. A pointer to a shared object that is null or not is
-- a Boolean, and a pointer to the descriptor table is null, left over from a free, or a list. A use of a
-- null or freed pointer is the result `fault`. A width of C is a remainder, and a difference wraps. Each
-- loop is a recursion on the number of rounds that its bound leaves, which is the bound less the start,
-- so no round is missing. `shm_open` and `malloc` succeed or not as the record `Env` says, and time is a
-- number in it. Messages and the output of `SHOW_PROC` are left out.
--
-- Of `__write_dblock` on a device, whose loop has no bound but the bytes that are left, the model has
-- `nbyte / 4096 + 2` rounds, and nothing is left after them.
--
-- The shell and its `read` loop have no bound at all: the model has as many rounds as it is given, and
-- the result `busy` where they are not enough. The input is a list of bytes, read as `scanf` and
-- `getchar` read it, and `crashed` is any behaviour that C leaves undefined. What the system answers
-- to a mount is the record `Answers`, and a shared object is its size and its bytes.
--
-- A sequence of calls in `Machine` has the calls that return: a call that faults has no step.
--
-- Not modelled: of the device variant the unused `__return_block`, the arrays and buffers that are
-- never freed, the fields `l2_block` and `l3_block`, which nothing reads, the older mount in
-- `src/mount_spdk.c`, the setup of the device, and the former copies in `src/spdkapi`; of the shell
-- what it prints of the system; `src/shm/shm_unlink.c`, and the formatter in
-- `src/mkfs.vsfs.c`, which uses a field that the inode does not have any more; a shared object that is
-- shorter than its superblock says; the tests; the text of the times in `vsfs_stat`; other processes
-- between the steps of one operation.
mod Prelude
pub mod Word
pub mod Memory
pub mod Layout
pub mod Bitmap
pub mod Blocks
pub mod State
pub mod Directory
pub mod Session
pub mod FileIo
pub mod Stat
pub mod Machine
pub mod Format
pub mod Spdk
pub mod Device
pub mod Mount
pub mod Shell
pub mod Examples
