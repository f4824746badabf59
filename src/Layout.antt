-- ===== src/Layout.antt =====
-- The structs of filesystem.h that lie on the disk, and their bytes as gcc on x86-64 lays them out:
-- `superblock` is 24 bytes, `directory_entry` 64 and `inode` 116.
pub mod RoundTrip
use mathlib.Core.List.{map}
use file_system_project.Prelude.{ℕ, ◌+◌, ◌-◌, ◌*◌, List, [], ◌∷◌, ◌++◌, ltb, if◌then◌else◌, get_or}
use file_system_project.Prelude.Int.{ℤ, pos, minus_one}
use file_system_project.Memory.{
  Memory, words, byte_of, word_of_int, word_at, int_at, ints_at, bytes_at,
}

-- The `#define`s of filesystem.h.
abbrev pub block_size : ℕ
block_size = 512

abbrev pub n_dblocks : ℕ
n_dblocks = 10

abbrev pub n_iblocks : ℕ
n_iblocks = 4

abbrev pub filename_max : ℕ
filename_max = 60

abbrev pub file_table_size : ℕ
file_table_size = 20

-- SIZEOFBOOTBLOCK + SIZEOFSUPERBLOCK, where the inode region begins.
abbrev pub regions_start : ℕ
regions_start = 1024

abbrev pub sizeof_superblock : ℕ
sizeof_superblock = 24

abbrev pub sizeof_directory_entry : ℕ
sizeof_directory_entry = 64

abbrev pub sizeof_inode : ℕ
sizeof_inode = 116

-- `enum filetype`; -1 marks a free inode.
abbrev pub dir : ℤ
dir = pos 0

abbrev pub reg : ℤ
reg = pos 1

pub record Superblock : Type 0 where
  pub size : ℤ
  pub inode_offset : ℤ
  pub data_offset : ℤ
  pub free_inode : ℤ
  pub free_block : ℤ
  pub root_dir : ℤ

-- The name is the array's 60 bytes; the text is what stands before the first 0.
pub record DirectoryEntry : Type 0 where
  pub inode_index : ℤ
  pub filename : List ℕ

pub record PermissionValue : Type 0 where
  pub owner : ℕ
  pub group : ℕ
  pub others : ℕ

pub record Inode : Type 0 where
  pub disk_identifier : ℕ
  pub parent_inode_index : ℤ
  pub next_inode : ℤ
  pub size : ℤ
  pub uid : ℤ
  pub gid : ℤ
  pub ctime : ℤ
  pub mtime : ℤ
  pub atime : ℤ
  pub type : ℤ
  pub permission : PermissionValue
  pub inode_index : ℤ
  pub dblocks : List ℤ
  pub iblocks : List ℤ
  pub i2block : ℤ
  pub i3block : ℤ
  pub last_block_index : ℤ

unfoldable pub superblock_words : Superblock → List ℕ
superblock_words sp =
    word_of_int sp.size
    ∷ word_of_int sp.inode_offset
    ∷ word_of_int sp.data_offset
    ∷ word_of_int sp.free_inode
    ∷ word_of_int sp.free_block
    ∷ word_of_int sp.root_dir
    ∷ []

unfoldable pub superblock_bytes : Superblock → Memory
superblock_bytes sp = words (superblock_words sp)

unfoldable pub superblock_at : Memory → Superblock
superblock_at m = record {
  size = int_at m 0;
  inode_offset = int_at m 4;
  data_offset = int_at m 8;
  free_inode = int_at m 12;
  free_block = int_at m 16;
  root_dir = int_at m 20;
}

unfoldable pub entry_bytes : DirectoryEntry → Memory
entry_bytes e a =
    if ltb a 4 then byte_of (word_of_int e.inode_index) a else get_or e.filename (a - 4) 0

unfoldable pub entry_at : Memory → DirectoryEntry
entry_at m = record { inode_index = int_at m 0; filename = bytes_at m 4 filename_max }

-- The three `char`s and the byte of padding behind them.
unfoldable pub permission_word : PermissionValue → ℕ
permission_word p = p.owner + 256 * p.group + 65536 * p.others

abbrev pub inode_head : Inode → List ℕ
inode_head n =
    n.disk_identifier
    ∷ word_of_int n.parent_inode_index
    ∷ word_of_int n.next_inode
    ∷ word_of_int n.size
    ∷ word_of_int n.uid
    ∷ word_of_int n.gid
    ∷ word_of_int n.ctime
    ∷ word_of_int n.mtime
    ∷ word_of_int n.atime
    ∷ word_of_int n.type
    ∷ permission_word n.permission
    ∷ word_of_int n.inode_index
    ∷ []

abbrev pub inode_tail : Inode → List ℕ
inode_tail n = word_of_int n.i2block ∷ word_of_int n.i3block ∷ word_of_int n.last_block_index ∷ []

unfoldable pub inode_words : Inode → List ℕ
inode_words n =
    inode_head n ++ (map word_of_int n.dblocks ++ (map word_of_int n.iblocks ++ inode_tail n))

unfoldable pub inode_bytes : Inode → Memory
inode_bytes n = words (inode_words n)

unfoldable pub inode_at : Memory → Inode
inode_at m = record {
  disk_identifier = word_at m 0;
  parent_inode_index = int_at m 4;
  next_inode = int_at m 8;
  size = int_at m 12;
  uid = int_at m 16;
  gid = int_at m 20;
  ctime = int_at m 24;
  mtime = int_at m 28;
  atime = int_at m 32;
  type = int_at m 36;
  permission = record { owner = m 40; group = m 41; others = m 42 };
  inode_index = int_at m 44;
  dblocks = ints_at m 48 n_dblocks;
  iblocks = ints_at m 88 n_iblocks;
  i2block = int_at m 104;
  i3block = int_at m 108;
  last_block_index = int_at m 112;
}
