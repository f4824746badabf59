-- ===== src/Format/Check.antt =====
-- format.c: what `main` does behind `write_disk`: `test_disk` reads the disk again and asserts what
-- the formatter wrote. Each check returns whether all of its assertions hold.
use file_system_project.Prelude.{
  ℕ, zero, suc, ◌+◌, ◌-◌, ◌*◌, ◌/◌, ◌%◌, ◌^◌, Bool, true, ◌&&◌, [], ◌∷◌, ◌==◌, if◌then◌else◌,
  get_or,
}
use file_system_project.Prelude.Int.{ℤ, pos, negsuc, minus_one, ◌==ℤ◌}
use file_system_project.Memory.{Memory, fread, bytes_at, int_at, int_of_word}
use file_system_project.Layout.{
  Inode, superblock_at, inode_at, entry_at, block_size, sizeof_inode, dir,
}
use file_system_project.Text.{Text, c_string, text_eq}
use file_system_project.Format.{boot_text, num_data_blocks, num_blocks_for_inodes}

-- The literal that the boot block is compared with.
abbrev pub boot_literal : Text
boot_literal = bytes_at boot_text 0 512

-- 512 bytes into a cleared buffer of 513.
unfoldable pub check_boot_block : Memory → Bool
check_boot_block disk = text_eq (c_string (bytes_at (fread disk 0 512) 0 513)) boot_literal

unfoldable pub check_super_block : ℕ → Memory → Bool
check_super_block data_offset disk =
    let sp = superblock_at (fread disk 512 512) in
    (sp.size ==ℤ pos block_size)
    && (sp.data_offset ==ℤ pos data_offset)
    && (sp.inode_offset ==ℤ pos 0)
    && (sp.free_block ==ℤ pos 1)
    && (sp.free_inode ==ℤ pos 1)
    && (sp.root_dir ==ℤ pos 0)

-- The assertions on every inode.
unfoldable pub check_common : ℕ → Inode → Bool
check_common i n =
    (n.disk_identifier == 0)
    && (n.i2block ==ℤ minus_one)
    && (n.i3block ==ℤ minus_one)
    && (n.inode_index ==ℤ pos i)
    && (n.permission.owner == 7)
    && (n.permission.group == 7)
    && (n.permission.others == 7)

abbrev pub no_owner_or_time : Inode → Bool
no_owner_or_time n =
    (n.uid ==ℤ pos 0)
    && (n.gid ==ℤ pos 0)
    && (n.ctime ==ℤ pos 0)
    && (n.mtime ==ℤ pos 0)
    && (n.atime ==ℤ pos 0)

unfoldable pub check_root_inode : Inode → Bool
check_root_inode n =
    (n.parent_inode_index ==ℤ pos 0)
    && (get_or n.dblocks 0 (pos 0) ==ℤ pos 0)
    && (n.next_inode ==ℤ minus_one)
    && (n.size ==ℤ pos 128)
    && no_owner_or_time n
    && (n.type ==ℤ dir)
    && (n.last_block_index ==ℤ pos 0)

unfoldable pub check_free_inode : ℕ → ℕ → Inode → Bool
check_free_inode num_inodes i n =
    (n.parent_inode_index ==ℤ minus_one)
    && (n.size ==ℤ pos 0)
    && no_owner_or_time n
    && (n.type ==ℤ minus_one)
    && (n.last_block_index ==ℤ minus_one)
    && (n.next_inode ==ℤ (if i == num_inodes - 1 then minus_one else pos (i + 1)))

unfoldable pub check_inode : ℕ → ℕ → Inode → Bool
unfolding check_common check_root_inode check_free_inode
check_inode num_inodes i n =
    check_common i n && (if i == 0 then check_root_inode n else check_free_inode num_inodes i n)

-- A check for each of the indices i, i + 1, ..., as many as the second argument says.
unfoldable pub check_each : (ℕ → Bool) → ℕ → ℕ → Bool
check_each check zero i = true
check_each check (suc n) i = check i && check_each check n (i + 1)

-- `data_offset*BLOCKSIZE/sizeof(inode)` as an `int`: the product is made unsigned by `sizeof`. A
-- negative count makes no round.
unfoldable pub inode_count : ℤ → ℕ
inode_count (pos d) = d * block_size / sizeof_inode
inode_count (negsuc d) =
    elim (int_of_word ((2 ^ 64 - (d + 1) * block_size) / sizeof_inode % 2 ^ 32)) [
      | pos n ↦ n
      | negsuc n ↦ 0
    ]

unfoldable pub check_inode_region : Memory → Bool
unfolding check_each inode_count
check_inode_region disk =
    let num_inodes = inode_count (superblock_at (fread disk 512 512)).data_offset in
    check_each
      (λ i. check_inode num_inodes i (inode_at (fread disk (1024 + i * sizeof_inode) sizeof_inode)))
      num_inodes 0

unfoldable pub check_root_block : Memory → Bool
check_root_block block =
    let dot = entry_at (fread block 0 64) in
    let dot_dot = entry_at (fread block 64 64) in
    (dot.inode_index ==ℤ pos 0)
    && (dot_dot.inode_index ==ℤ pos 0)
    && text_eq (c_string dot.filename) (b'.' ∷ [])
    && text_eq (c_string dot_dot.filename) (b'.' ∷ b'.' ∷ [])

unfoldable pub check_block : ℕ → ℕ → Memory → Bool
unfolding check_root_block
check_block num_data_blocks j block =
    if j == 0
    then check_root_block block
    else int_at block 0 ==ℤ (if j == num_data_blocks - 1 then minus_one else pos (j + 1))

unfoldable pub check_data_region : ℕ → ℕ → ℕ → Memory → Bool
unfolding check_each
check_data_region total_bytes num_blocks_for_inodes data_region_offset disk =
    let n = num_data_blocks total_bytes num_blocks_for_inodes in
    check_each
      (λ j.
        check_block n j
          (fread disk (1024 + data_region_offset * block_size + j * block_size) block_size))
      n 0

unfoldable pub test_disk : ℕ → Memory → Bool
unfolding check_boot_block check_super_block check_inode_region check_data_region
test_disk mb disk =
    let d = num_blocks_for_inodes mb in
    check_boot_block disk
    && check_super_block d disk
    && check_inode_region disk
    && check_data_region (mb * 1000000) d d disk
