-- ===== src/FormatDir/Opened.antt =====
-- The file of the disk that format_dir.c writes, opened and read by filesystem.c.
use file_system_project.Prelude.{
  ℕ, suc, ◌+◌, ◌-◌, ◌*◌, ◌≤◌, ◌<◌, ◌≡◌, refl, ◌∙◌, ap, inl, some, [], ◌∷◌, arith, set, get_elem?,
  true, false, get_or,
}
use file_system_project.Prelude.Int.{pos}
use file_system_project.Memory.{Memory, fwrite}
use file_system_project.Layout.{DirectoryEntry}
use file_system_project.Access
use file_system_project.Text.{Text, strtok, split_last, path_of, text_eq, c_string}
use file_system_project.Store.{FileSystem, FileTableEntry, ◌>>=◌}
use file_system_project.Disk.{get_inode, if_is_file}
use file_system_project.Disk.Geometry.{IsMounted, block_of, inode_of, get_inode-ok}
use file_system_project.Table.{
  setup_file_table, first_entry, find_next_freehead, update_freehead, get_fd_from_inode_value,
}
use file_system_project.Directory.Contents.{slot_at, f_readdir-entry}
use file_system_project.Directory.Lookup.{find_named}
use file_system_project.Directory.{f_readdir}
use file_system_project.Directory.Open.{f_opendir, free_opened, is_root}
use file_system_project.Directory.OpenChild.{at_child, directory_slot, f_opendir-child}
use file_system_project.File.Open.{find_file, entry_rounds, take_slot, open_in, f_open}
use file_system_project.File.Read.{f_read}
use file_system_project.File.ReadBlock.{f_read-in_block}
use file_system_project.BlockMap.Lookup.{direct}
use file_system_project.Format.{num_blocks_for_inodes, num_inodes, dot_entry, dot_dot_entry}
use file_system_project.FormatDir.{
  write_disk, formatted_inode, user, test_txt, user_entry, dot_dot_behind, test_txt_behind,
  file_data,
}
use file_system_project.FormatDir.Regions.{inode_of-write_disk}
use file_system_project.FormatDir.Tree.{write_disk-tree}

-- "/user/test.txt"
abbrev pub file_path : Text
file_path = path_of (user ∷ test_txt ∷ [])

-- The file open to be read in slot 2, /user in slot 1 with its entries read, and the root in slot 0.
abbrev pub with_file : FileSystem → FileSystem
with_file s = record (at_child s 1) {
  file_table =
      set (set (at_child s 1).file_table 1 (directory_slot (inode_of s.disk_image 1) 192)) 2
        (record {
          free_file = false;
          file_inode = inode_of s.disk_image 2;
          byte_offset = pos 0;
          access = Access.read;
        });
  table_freehead = pos 3;
}

module _ (heap : Memory) (mb : ℕ) (s : FileSystem) (small : mb ≤ 16) (one : 1 ≤ mb)
    (v : IsMounted (num_blocks_for_inodes mb) s) (image : s.disk_image ≡ write_disk heap mb)
    (empty : s.file_table ≡ setup_file_table) (live : s.root_freed ≡ false) where
  inode-formatted :
      (i : ℕ) → i < num_inodes mb → inode_of s.disk_image i ≡ formatted_inode (num_inodes mb) i
  inode-formatted i lt = rw image (inode_of-write_disk heap mb small one i lt)

  f_opendir-user : f_opendir (path_of (user ∷ [])) s ≡ some (some user_entry, at_child s 1)
  unfolding strtok find_named path_of text_eq c_string
  f_opendir-user =
      let (dir_0, root, dir_1, entries, found, type_2, size_2, block_2, bytes) =
        write_disk-tree heap mb small one in
      f_opendir-child v empty (omega arith) live (dot_entry ∷ dot_dot_entry ∷ user_entry ∷ [])
        (rw image root) user (path_of (user ∷ [])) user_entry 1 refl refl refl (omega arith)
        (omega arith) (ap (λ n. n.inode_index) (inode-formatted 0 (omega arith)))
        (ap (λ n. n.inode_index) (inode-formatted 1 (omega arith)))

  child-IsMounted : IsMounted (num_blocks_for_inodes mb) (at_child s 1)
  child-IsMounted = record {
    size = v.size;
    inode_offset = v.inode_offset;
    data_offset = v.data_offset;
    small = v.small;
  }

  -- The state while the entries of /user are read.
  abbrev reading : ℕ → FileSystem
  reading k = slot_at (at_child s 1) 1 (directory_slot (inode_of s.disk_image 1) 0) (64 * k)

  f_readdir-user :
      (k : ℕ) (e : DirectoryEntry)
      → get_elem? (dot_entry ∷ dot_dot_behind heap ∷ test_txt_behind heap ∷ []) k ≡ some e
      → f_readdir (pos 1) (reading k) ≡ some (some e, reading (suc k))
  unfolding setup_file_table
  f_readdir-user =
      let (dir_0, root, dir_1, entries, found, type_2, size_2, block_2, bytes) =
        write_disk-tree heap mb small one in
      f_readdir-entry child-IsMounted 1 (directory_slot (inode_of s.disk_image 1) 0)
        (directory_slot (inode_of s.disk_image 1) 0)
        (dot_entry ∷ dot_dot_behind heap ∷ test_txt_behind heap ∷ []) (rw image entries)
        (omega arith) refl

  reading-IsMounted : IsMounted (num_blocks_for_inodes mb) (reading 3)
  reading-IsMounted = record {
    size = v.size;
    inode_offset = v.inode_offset;
    data_offset = v.data_offset;
    small = v.small;
  }

  get_inode-file : get_inode (pos 2) (reading 3) ≡ some (inode_of s.disk_image 2, reading 3)
  get_inode-file = get_inode-ok reading-IsMounted 2 (omega arith)

  if_is_file-file : if_is_file (pos 2) (reading 3) ≡ some (true, reading 3)
  unfolding if_is_file
  if_is_file-file = rw (get_inode-file, ap (λ n. n.type) (inode-formatted 2 (omega arith))) refl

  find_file-test_txt : find_file 3 (pos 1) test_txt (at_child s 1) ≡ some (some (pos 2), reading 3)
  unfolding find_file setup_file_table text_eq c_string
  find_file-test_txt =
      rw
        (
          f_readdir-user 0 dot_entry refl,
          f_readdir-user 1 (dot_dot_behind heap) refl,
          f_readdir-user 2 (test_txt_behind heap) refl,
          if_is_file-file,
        )
        refl

  search_of-user :
      find_file (entry_rounds (inode_of s.disk_image 1).size) (pos 1) test_txt (at_child s 1)
      ≡ some (some (pos 2), reading 3)
  unfolding entry_rounds
  search_of-user =
      ap (λ n. find_file (entry_rounds n.size) (pos 1) test_txt (at_child s 1))
        (inode-formatted 1 (omega arith))
      ∙ find_file-test_txt

  fd_of-user : get_fd_from_inode_value (pos 1) (at_child s 1) ≡ some (pos 1, at_child s 1)
  unfolding get_fd_from_inode_value first_entry setup_file_table
  fd_of-user =
      let at_0 : (inode_of s.disk_image 0).inode_index ≡ pos 0 =
        ap (λ n. n.inode_index) (inode-formatted 0 (omega arith)) in
      let at_1 : (inode_of s.disk_image 1).inode_index ≡ pos 1 =
        ap (λ n. n.inode_index) (inode-formatted 1 (omega arith)) in
      rw (at_0, at_1) refl

  take_slot-file :
      take_slot (inode_of s.disk_image 2) Access.read (reading 3) ≡ some (pos 2, with_file s)
  unfolding take_slot update_freehead find_next_freehead first_entry setup_file_table
  take_slot-file = refl

  open_in-user :
      open_in (path_of (user ∷ [])) user_entry test_txt Access.read (at_child s 1)
      ≡ some (pos 2, with_file s)
  unfolding open_in free_opened is_root strtok path_of setup_file_table
  open_in-user = rw (fd_of-user, search_of-user, get_inode-file, take_slot-file) refl

  f_open-file : f_open file_path Access.read s ≡ some (pos 2, with_file s)
  unfolding f_open strtok split_last path_of
  f_open-file = rw (f_opendir-user, open_in-user) refl

  abbrev file_slot : FileTableEntry
  file_slot = record {
    free_file = false;
    file_inode = inode_of s.disk_image 2;
    byte_offset = pos 0;
    access = Access.read;
  }

  file-IsMounted : IsMounted (num_blocks_for_inodes mb) (with_file s)
  file-IsMounted = record {
    size = v.size;
    inode_offset = v.inode_offset;
    data_offset = v.data_offset;
    small = v.small;
  }

  -- The buffer with the start of the file's block.
  abbrev read_bytes : Memory → Memory
  read_bytes buffer =
      fwrite buffer 0 (λ j. block_of (num_blocks_for_inodes mb) s.disk_image 2 (0 + j)) 18

  read_bytes-text : (buffer : Memory) (x : ℕ) → x < 18 → read_bytes buffer x ≡ get_or file_data x 0
  unfolding fwrite
  read_bytes-text buffer x lt =
      let (dir_0, root, dir_1, entries, found, type_2, size_2, block_2, content) =
        write_disk-tree heap mb small one in
      let text : block_of (num_blocks_for_inodes mb) s.disk_image 2 x ≡ get_or file_data x 0 =
        rw image (content x lt) in
      ground (arith, place ∙ text)
    where
      place :
          block_of (num_blocks_for_inodes mb) s.disk_image 2 (0 + (x - 0))
          ≡ block_of (num_blocks_for_inodes mb) s.disk_image 2 x
      place =
          let start : 0 + (x - 0) ≡ x = omega arith in
          ap (λ a. block_of (num_blocks_for_inodes mb) s.disk_image 2 a) start

  -- On a mounted disk of 1 to 16 MB that format_dir.c wrote, with no file open: f_open of
  -- "/user/test.txt" to read it gives descriptor 2, and f_read of one item of 18 bytes from it then
  -- returns 18 and the formatter's text, "somethingsomething"; nothing on the disk has changed.
  pub f_open-f_read :
      (buffer : Memory)
      → (bytes : Memory) × ((f_open file_path Access.read >>= λ fd.
              f_read buffer (pos 18) (pos 1) fd)
            s
          ≡ some ((pos 18, bytes), with_file s))
        × ((x : ℕ) → x < 18 → bytes x ≡ get_or file_data x 0)
  unfolding setup_file_table
  f_open-f_read buffer =
      let (dir_0, root, dir_1, entries, found, type_2, size_2, block_2, content) =
        write_disk-tree heap mb small one in
      let read =
        f_read-in_block file-IsMounted (inode_of s.disk_image 2) buffer 18 1 2 0 18 2 file_slot
          (omega arith) refl refl (inl refl) refl
          (ap (λ n. n.size) (inode-formatted 2 (omega arith))) (omega arith) (omega arith)
          (omega arith) (omega arith) (omega arith) (direct (omega arith) (rw image block_2)) in
      (read_bytes buffer, rw f_open-file read, read_bytes-text buffer)
