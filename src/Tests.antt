-- ===== src/Tests.antt =====
-- Small disks to run the model on.
mod Disk
mod Format
mod FormatDir
mod Table
mod BlockMap
mod Directory
mod File
mod Mount
mod Parser
mod Shell
mod Files
mod Show
mod Start
use mathlib.Core.Path.{subst}
use file_system_project.Text.{c_string, text_eq}
use file_system_project.Prelude.{
  ℕ, zero, suc, ◌+◌, ◌*◌, ◌-◌, ◌≤◌, ◌≡◌, ◌≢◌, ◌⊎◌, refl, true, false, none, some, [], ◌∷◌, arith,
  set, get_elem?, replicate,
}
use file_system_project.Prelude.Int.{pos, minus_one}
use file_system_project.Memory.{
  Memory, cleared, fwrite, fread, words, int_at, word_at, int_of_word, byte_of, bytes_at,
  word_of_int,
}
use file_system_project.Layout.{
  Superblock, DirectoryEntry, Inode, entry_at, entry_bytes, inode_bytes, superblock_at,
  superblock_bytes, inode_at,
}
use file_system_project.Layout.RoundTrip.{
  IsInode, IsEntry, inode_at-inode_bytes, entry_at-entry_bytes, superblock_at-superblock_bytes,
  IsSuperblock,
}
use file_system_project.Store.{FileSystem, FileTableEntry, ◌>>◌}
use file_system_project.Disk.{
  get_data_block, write_data_to_block, get_inode, update_single_inode_ondisk, request_new_block,
}
use file_system_project.Disk.Geometry.{
  IsMounted, block_of, inode_of, block_address, inode_address, with_image,
}
use file_system_project.Disk.Blocks.{
  get_data_block-write_data_to_block, get_inode-update_single_inode_ondisk,
}
use file_system_project.Disk.FreeList.{
  FreeBlocks, FreeInodes, superblock_of, request_new_block-pops,
}
use file_system_project.Table.{zero_inode, setup_file_table, f_close, f_seek, is_free, first_entry}
use file_system_project.Table.Scan.{IsFirst, NonePasses, first_entry-cases}
use file_system_project.Table.Close.{f_close_frees}
use file_system_project.BlockMap.{get_block_from_index, find_next_datablock}
use file_system_project.BlockMap.Lookup.{
  Maps, get_block_from_index-Maps, get_block_from_index-triple_faults,
}
use file_system_project.BlockMap.Extend.{with_dblock, find_next_datablock-direct}
use file_system_project.Directory.Contents.{EntryAt, slot_at}
use file_system_project.Directory.Open.{scan}
use file_system_project.Directory.Lookup.{find_named, scan-find_named}
use file_system_project.Format.{
  write_disk, formatted_superblock, formatted_inode, formatted_block, num_inodes,
  num_blocks_for_inodes, num_data_blocks,
}
use file_system_project.Format.Regions.{
  block_of-write_disk, inode_of-write_disk, superblock_of-write_disk,
}
use file_system_project.Format.FreeLists.{FreeBlocks-write_disk, FreeInodes-write_disk, numbers}

-- A disk with 12 blocks of inodes whose free blocks are 1 and 2.
abbrev pub image : Memory
image =
    fwrite (fwrite cleared (1024 + 12 * 512 + 512) (words (2 ∷ [])) 4) (1024 + 12 * 512 + 1024)
      (words (4294967295 ∷ [])) 4

abbrev pub sp : Superblock
sp = record {
  size = pos 512;
  inode_offset = pos 0;
  data_offset = pos 12;
  free_inode = pos 1;
  free_block = pos 1;
  root_dir = pos 0;
}

abbrev pub slash : DirectoryEntry
slash = record { inode_index = pos 0; filename = b'/' ∷ replicate 59 0 }

abbrev pub small_disk : FileSystem
small_disk = record {
  disk_image = image;
  superblock1 = sp;
  file_table = setup_file_table;
  table_freehead = pos 0;
  root_dir_entry = slash;
  root_freed = false;
  overread = cleared;
}

pub small_disk-IsMounted : IsMounted 12 small_disk
small_disk-IsMounted = record {
  size = refl;
  inode_offset = refl;
  data_offset = refl;
  small = omega arith;
}

pub small_disk-FreeBlocks : FreeBlocks 12 image (pos 1) (1 ∷ 2 ∷ [])
unfolding block_of block_address fread fwrite int_at word_at int_of_word words byte_of
small_disk-FreeBlocks = (refl, omega arith, (refl, omega arith, refl))

pub sp-IsSuperblock : IsSuperblock sp
sp-IsSuperblock = record {
  size = omega arith;
  inode_offset = omega arith;
  data_offset = omega arith;
  free_inode = omega arith;
  free_block = omega arith;
  root_dir = omega arith;
}

-- The inode of a file of 700 bytes in blocks 3 and 4.
abbrev pub node : Inode
node = record zero_inode {
  inode_index = pos 2;
  size = pos 700;
  type = pos 1;
  permission = record { owner = 6; group = 4; others = 4 };
  dblocks = set (set (replicate 10 (pos 0)) 0 (pos 3)) 1 (pos 4);
}

pub node-IsInode : IsInode node
node-IsInode = ground arith

pub slash-IsEntry : IsEntry slash
slash-IsEntry = record { inode_index = omega arith; length-filename = refl }

-- Slot 3 is open on the file, at byte 100.
abbrev pub open_slot : FileTableEntry
open_slot = record { free_file = false; file_inode = node; byte_offset = pos 100; access = pos 0 }

abbrev pub open_disk : FileSystem
open_disk = record small_disk { file_table = set setup_file_table 3 open_slot }

-- The root directory in slot 0, with one entry for the file `a` in its block 6.
abbrev pub entry_a : DirectoryEntry
entry_a = record { inode_index = pos 2; filename = b'a' ∷ replicate 59 0 }

abbrev pub directory_node : Inode
directory_node = record zero_inode {
  size = pos 64;
  type = pos 0;
  dblocks = set (replicate 10 (pos 0)) 0 (pos 6);
  last_block_index = pos 6;
}

abbrev pub directory_slot : FileTableEntry
directory_slot = record {
  free_file = false;
  file_inode = directory_node;
  byte_offset = pos 0;
  access = pos 0;
}

abbrev pub directory_disk : FileSystem
directory_disk = record small_disk {
  disk_image = fwrite image (1024 + 12 * 512 + 6 * 512) (entry_bytes entry_a) 64;
  file_table = set setup_file_table 0 directory_slot;
}

pub directory_disk-IsMounted : IsMounted 12 directory_disk
directory_disk-IsMounted = record {
  size = refl;
  inode_offset = refl;
  data_offset = refl;
  small = omega arith;
}

entry_a-EntryAt : EntryAt 12 directory_disk.disk_image directory_node 0 entry_a
unfolding block_of block_address fread fwrite int_at word_at int_of_word byte_of entry_at
    entry_bytes bytes_at word_of_int
entry_a-EntryAt = record { block = 6; direct = refl; small = omega arith; here = refl }

pub directory_disk-Holds :
    (k : ℕ) (e : DirectoryEntry)
    → get_elem? (entry_a ∷ []) k ≡ some e
    → EntryAt 12 directory_disk.disk_image directory_node k e
directory_disk-Holds zero e h =
    let same : entry_a ≡ e = cc in
    subst (λ x. EntryAt 12 directory_disk.disk_image directory_node 0 x) same entry_a-EntryAt
directory_disk-Holds (suc k) e h = absurd cc
