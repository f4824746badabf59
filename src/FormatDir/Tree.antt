-- ===== src/FormatDir/Tree.antt =====
-- The directories and the file on the disk that format_dir.c writes.
use file_system_project.Prelude.{
  ℕ, ◌-◌, ◌*◌, ◌/◌, ◌%◌, ◌≤◌, ◌<◌, ◌≡◌, refl, ◌∙◌, ap, some, [], ◌∷◌, arith, get_elem?, get_or,
}
use file_system_project.Prelude.Int.{pos}
use file_system_project.Memory.{Memory, fread, fwrite, cleared, bytes_at}
use file_system_project.Layout.{DirectoryEntry, Inode, dir, reg}
use file_system_project.Layout.RoundTrip.{IsEntry}
use file_system_project.Disk.Geometry.{block_of, inode_of}
use file_system_project.Directory.Contents.{Holds}
use file_system_project.Directory.Lookup.{find_named}
use file_system_project.Text.{text_eq, c_string}
use file_system_project.Format.{dot_entry, dot_dot_entry}
use file_system_project.FormatDir.{
  write_disk, formatted_inode, formatted_block, user_entry, dot_dot_behind, test_txt_behind,
  file_data, test_txt, directories,
}
use file_system_project.FormatDir.Entries.{entry_at-directories}
use file_system_project.FormatDir.Regions.{d, inodes, block_of-write_disk, inode_of-write_disk}

-- A directory of three entries in its first block.
Holds-three :
    {c : ℕ} {m : Memory} {node : Inode} (b : ℕ) (base array : Memory) (e0 e1 e2 : DirectoryEntry)
    → IsEntry e0
    → IsEntry e1
    → IsEntry e2
    → node.size ≡ pos 192
    → get_elem? node.dblocks 0 ≡ some (pos b)
    → b < 3
    → block_of c m b ≡ fread (fwrite base 0 (directories array e0 e1 e2) 192) 0 512
    → Holds c m node (e0 ∷ e1 ∷ e2 ∷ [])
Holds-three {c} {m} {node} b base array e0 e1 e2 w0 w1 w2 size direct small holds = record {
  size_eq = size;
  entry = λ k e at.
      let (lt, here) = entry_at-directories base array e0 e1 e2 w0 w1 w2 k e at in
      let first : k / 8 ≡ 0 = omega (arith, lt) in
      let place : 64 * (k % 8) ≡ 64 * k = omega (arith, lt) in
      record {
        block = b;
        direct = rw first direct;
        small = omega arith;
        here = rw (place, holds) here;
      };
}

module _ (heap : Memory) (mb : ℕ) (small : mb ≤ 16) (one : 1 ≤ mb) where
  abbrev disk : Memory
  disk = write_disk heap mb

  abbrev node : ℕ → Inode
  node = formatted_inode (inodes heap mb small one)

  IsEntry-dot_dot_behind : IsEntry (dot_dot_behind heap)
  unfolding bytes_at
  IsEntry-dot_dot_behind = record { inode_index = omega arith; length-filename = refl }

  IsEntry-test_txt_behind : IsEntry (test_txt_behind heap)
  unfolding bytes_at
  IsEntry-test_txt_behind = record { inode_index = omega arith; length-filename = refl }

  Holds-root :
      Holds (d heap mb small one) disk (node 0) (dot_entry ∷ dot_dot_entry ∷ user_entry ∷ [])
  unfolding formatted_block
  Holds-root =
      Holds-three 0 cleared cleared dot_entry dot_dot_entry user_entry
        (record { inode_index = omega arith; length-filename = refl })
        (record { inode_index = omega arith; length-filename = refl })
        (record { inode_index = omega arith; length-filename = refl }) refl refl (omega arith)
        (block_of-write_disk heap mb small one 0 (omega arith))

  Holds-user :
      Holds
        (d heap mb small one)
        disk
        (node 1)
        (dot_entry ∷ dot_dot_behind heap ∷ test_txt_behind heap ∷ [])
  unfolding formatted_block
  Holds-user =
      Holds-three 1 _ heap dot_entry (dot_dot_behind heap) (test_txt_behind heap)
        (record { inode_index = omega arith; length-filename = refl }) IsEntry-dot_dot_behind
        IsEntry-test_txt_behind refl refl (omega arith)
        (block_of-write_disk heap mb small one 1 (omega arith))

  -- The bytes of the file.
  block_of-file : (x : ℕ) → x < 18 → block_of (d heap mb small one) disk 2 x ≡ get_or file_data x 0
  unfolding formatted_block fread fwrite
  block_of-file x lt =
      ap (λ m. m x) (block_of-write_disk heap mb small one 2 (omega arith)) ∙ ground (arith, same)
    where
      same : get_or file_data (x - 0) 0 ≡ get_or file_data x 0
      same = let start : x - 0 ≡ x = omega arith in ap (λ a. get_or file_data a 0) start

  -- A disk that format_dir.c writes, of 1 to 16 MB, has a tree, whatever lies behind the object of 64
  -- bytes: inode 0 is a directory that holds ".", ".." and the entry of "user" with inode 1; inode 1 is
  -- a directory that holds ".", ".." and an entry with inode 2, which the search for "test.txt" finds;
  -- inode 2 is a file of 18 bytes in data block 2, which are the formatter's text.
  pub write_disk-tree :
      ((inode_of disk 0).type ≡ dir)
      × Holds
          (d heap mb small one)
          disk
          (inode_of disk 0)
          (dot_entry ∷ dot_dot_entry ∷ user_entry ∷ [])
      × ((inode_of disk 1).type ≡ dir)
      × Holds
          (d heap mb small one)
          disk
          (inode_of disk 1)
          (dot_entry ∷ dot_dot_behind heap ∷ test_txt_behind heap ∷ [])
      × (find_named test_txt (dot_entry ∷ dot_dot_behind heap ∷ test_txt_behind heap ∷ [])
          ≡ some (test_txt_behind heap))
      × ((inode_of disk 2).type ≡ reg)
      × ((inode_of disk 2).size ≡ pos 18)
      × (get_elem? (inode_of disk 2).dblocks 0 ≡ some (pos 2))
      × ((x : ℕ) → x < 18 → block_of (d heap mb small one) disk 2 x ≡ get_or file_data x 0)
  unfolding find_named text_eq c_string
  write_disk-tree =
      rw (at_0, at_1, at_2)
        (refl, Holds-root, refl, Holds-user, refl, refl, refl, refl, block_of-file)
    where
      at_0 : inode_of disk 0 ≡ node 0
      at_0 = inode_of-write_disk heap mb small one 0 (omega arith)

      at_1 : inode_of disk 1 ≡ node 1
      at_1 = inode_of-write_disk heap mb small one 1 (omega arith)

      at_2 : inode_of disk 2 ≡ node 2
      at_2 = inode_of-write_disk heap mb small one 2 (omega arith)
