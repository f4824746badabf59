-- ===== src/Disk/Exhausted.antt =====
-- `request_new_block` (filesystem.c) when no block is free.
use file_system_project.Prelude.{ℕ, ◌+◌, ◌*◌, ◌≡◌, some, arith}
use file_system_project.Prelude.Int.{ℤ, minus_one}
use file_system_project.Memory.{Memory, int_at, fread}
use file_system_project.Store.{FileSystem}
use file_system_project.Disk.{request_new_block, get_data_block}
use file_system_project.Disk.Geometry.{IsMounted}
use file_system_project.Disk.FreeList.{after_request, update_superblock_ondisk-ok}

-- The first word of the last block of inodes.
abbrev pub stray_head : ℕ → Memory → ℤ
stray_head d m = int_at (fread m (512 + d * 512) 512) 0

module _ {d : ℕ} {s : FileSystem} (v : IsMounted d s) where
  get_data_block-minus_one :
      get_data_block minus_one s ≡ some (fread s.disk_image (512 + d * 512) 512, s)
  unfolding get_data_block
  get_data_block-minus_one = ground arith

  -- On a mounted disk with no free block, `request_new_block` returns -1 and makes the first word of
  -- the last block in front of the data region the head of the free list, in memory and on the disk.
  pub request_new_block-exhausted :
      s.superblock1.free_block ≡ minus_one
      → request_new_block s ≡ some (minus_one, after_request s (stray_head d s.disk_image))
  unfolding request_new_block
  request_new_block-exhausted empty =
      let sp = record s.superblock1 { free_block = stray_head d s.disk_image } in
      ground (
        arith,
        get_data_block-minus_one,
        update_superblock_ondisk-ok sp (record s { superblock1 = sp }),
      )
