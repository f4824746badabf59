-- ===== src/Lib.antt =====
-- A model of the file system of this repository and its proofs.
--
-- The program keeps a Unix-like file system in a disk image, one file of the host. format.c writes
-- an image: a boot block, a superblock, a region of inodes and a region of data blocks of 512 bytes.
-- filesystem.c works on the image while it is mounted: it has a table of 20 open files, and its
-- operations (f_open, f_read, f_write, f_opendir, f_readdir, f_mkdir, f_remove and more) read and
-- write blocks, inodes and the superblock at their positions in the image. A shell (shell.c,
-- parser.c) calls them.
--
-- Where what is modelled:
--   Prelude, Prelude/Tests, Prelude/Lists, Prelude/Int: tests, lists and C's signed integers over
--     native numbers.
--   Memory: bytes in memory and in the image; fread and fwrite as transfers; an int as four bytes,
--     the lowest first. Memory/Transfer and Memory/Words hold the lemmas.
--   Layout: the structs and constants of filesystem.h with their bytes; Layout/RoundTrip.
--   Store: the state of filesystem.c while a disk is mounted (`FileSystem`), the monad `M` of state
--     and undefined behaviour, and C's accesses to arrays, blocks and file positions.
--   Access, Whence: the enums of filesystem.h.
--   Disk: get_data_block to get_inode of filesystem.c. Disk/Geometry says where blocks and inodes
--     lie, Disk/Blocks which of them a write changes, Disk/FreeList what the free lists are, and
--     Disk/Exhausted what happens without a free block.
--   Table: file_table with its scans, f_close, f_rewind, f_seek, f_stat, f_closedir and the helpers
--     that take and free a slot. Table/Scan and Table/Close are about them.
--   BlockMap: get_block_from_index, find_next_datablock, update_inodes_datablocks. BlockMap/Lookup
--     compares the first with `Maps`, the map that an inode stands for; BlockMap/Extend is about the
--     growth of a file.
--   Text: C strings, and the splitting of a path that f_opendir, f_open, f_mkdir and f_remove repeat.
--   Directory: f_readdir; Directory/Open: f_opendir; Directory/Make: f_mkdir. Directory/Contents and
--     Directory/Lookup compare f_readdir and f_opendir's search with the list of the entries.
--     Directory/OpenChild is about f_opendir of a directory in the root.
--     Directory/Bytes and Directory/Append are about an entry put behind the others,
--     Directory/NewInode and Directory/Start about the inode and the block of a new directory.
--   File/Open, File/Read, File/Write, File/Remove: f_open, f_read, f_write, and f_remove with f_rmdir.
--     File/Slot is about the slot that f_open takes, File/ReadBlock, File/Copies and File/Append are
--     about reading and appending in one block, File/Release about the list of free inodes.
--   Mount: the mount table, f_mount and f_unmount, with the host's files as a function of their
--     names; Mount/Formatted is about a disk that format.c wrote.
--   SequentialFile, Format: the file that format.c writes from its start to its end, and write_disk.
--     Format/Image, Format/Regions and Format/FreeLists say what stands on the disk after it.
--     Format/Check has the assertions of test_disk; Format/CheckEach, Format/Checked and
--     Format/Accepted are about them. Format/Main is main of format.c up to these calls.
--   FormatDir: write_disk of format_dir.c, which writes a test disk with a directory and a file;
--     FormatDir/Entries, FormatDir/Regions and FormatDir/Tree are about what stands on it, and
--     FormatDir/Opened about its file when it is mounted.
--   Numeral: strtoll, and parseCmd of format.c, whose tests of strtoll's outcome the shell's kill, fg
--     and bg repeat. Numeral/Decimal is about it.
--   Parser: parser.c. Parser/Line, Parser/Tokens, Parser/Jobs and Parser/Command are about a line,
--     its tokens, perform_parse and one job; Parser/Background about a line with one '&'.
--   Shell: the lists of jobs of shell.c and the handler of SIGCHLD. Shell/BuiltIns: exit, kill, jobs,
--     fg and bg. Shell/Launch: launchJob and a round of main. Shell/Login: login;
--     Shell/Start: the start of main, which Shell/Started follows on a disk that format.c wrote. Shell/Background,
--     Shell/Numbers, Shell/Kill, Shell/Resume and Shell/CommandLine are about these. Shell/Redirect: what a redirected output does to the disk; Shell/Input is about redirected
--     input. Shell/Child: launchProcess and initializeShell. Shell/Paths: the path helpers of the file
--     commands; Shell/FileCommands: mkdir, rm, rmdir, cd, pwd and ls; Shell/Show: cat and more.
--     Shell/ShowFile is about cat and more.
--     Shell/Pgids and Shell/Invariant are about the steps of a shell and its list.
--   Keeps: a rule for each way to build an operation on the mounted disk, and below it what each
--     operation and each command of the shell keeps; Keeps/Operations has them as steps, and
--     Keeps/ReadOnly the calls that only read; Keeps/Freed is about root_dir_entry once it is freed.
--   Tests: small disks, and below it the theorems at concrete inputs.
--
-- How C is read. An `int` is an element of ℤ with exact arithmetic; the model does not follow an
-- overflow, which C leaves undefined. Where C mixes an int with a sizeof, which is unsigned, the
-- int is taken to be non-negative. A position that is negative, where fseek fails and stays, or that
-- no int holds, is not followed: it is `none`. Otherwise `none` of an operation of `M` is undefined
-- behaviour: an access out of an array's bounds or
-- of a block, a NULL that is followed, a negative length. Struct sizes are those of x86-64: 24 bytes
-- for the superblock, 64 for a directory entry, 116 for an inode. A buffer is a function from
-- positions to bytes, 0 behind its end. Two fwrites of filesystem.c read past the object they are
-- given, and one reads a freed buffer; `overread` stands for what they find. In the same way `heap`
-- stands for what lies behind an object of 64 bytes of which format_dir.c writes 192. malloc is taken to
-- succeed, and what is printed is left out, but an access that printing makes is kept where it can
-- fail; the printing of a block as a string stops at its first 0, and what follows a block without one
-- is not followed. f_opendir hands out the global root_dir_entry for the root, and several callers free
-- it: `root_freed` says so, and to follow or free it again is `none`. Other objects that are freed
-- twice are not followed, but where a comment says so. A slot of the file table owns its inode, as each pointer in it does in the code.
--
-- Sizes and fuel. The quotients that the code takes in float are exact for blocks of 512 bytes and
-- disks of up to 16 MB, and are written as divisions of natural numbers. The search of a directory
-- has a round for each entry and one for its end (`entries_fuel`), f_write's loop one for each byte
-- that is left and one more, f_read's inner loop three: it reads to byte 511 of a block and stops
-- when that leaves it nothing to read. f_rmdir's helper takes its depth as an argument, since it
-- follows what stands on the disk.
--
-- perform_parse calls get_next_token once for each character of the line and once more at most; the
-- loop of put_job_in_background makes two rounds for each node; login makes a round for each line.
-- The fuel of the file commands bounds the depth of a directory below the root, and of ls the number
-- of entries; more has a round for each block of the file and one for its end.
--
-- The shell. A list of nodes is a list. What the system gives, the pids of children and their reports
-- while the shell waits, are arguments (`Answer`), and a call that reaches other processes is written
-- down (`calls`); such calls are taken to succeed. The handler of SIGCHLD runs between the other
-- steps of a shell, or while it waits for a job in the foreground. A line is a C string: a 0 in it
-- ends it. What a command with a redirected output leaves in output.txt is an argument, and the keys
-- that more waits for are taken to come.
--
-- Not modelled: shutdown, the printing functions, main of format_dir.c, the end of the shell's main
-- behind its loop, the modes of the terminal, and the test programs. The mount table has a state of
-- its own; the operations on files and directories are modelled for the time while one disk is
-- mounted. set_permissions changes a copy, and get_last_directory_entry is not called.
pub mod Prelude
pub mod Memory
pub mod Layout
pub mod Store
pub mod Disk
pub mod Access
pub mod Whence
pub mod Table
pub mod BlockMap
pub mod Text
pub mod Directory
pub mod File
pub mod SequentialFile
pub mod Numeral
pub mod Format
pub mod FormatDir
pub mod Mount
pub mod Parser
pub mod Shell
pub mod Keeps
mod Tests
