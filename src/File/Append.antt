-- ===== src/File/Append.antt =====
-- `f_write` (filesystem.c) in APPEND mode, of data that fits in the last block of the file.
use file_system_project.Prelude.{
  ℕ, ◌+◌, ◌-◌, ◌*◌, ◌/◌, ◌%◌, ◌≤◌, ◌<◌, ◌≡◌, ◌≢◌, ◌∙◌, ap, ltb, if◌then◌else◌, false, some, arith,
  get_elem?, set, set-set, get_elem?-set_self, lt-of_get_elem?,
}
use file_system_project.Prelude.Int.{ℤ, pos}
use file_system_project.Memory.{Memory, fwrite}
use file_system_project.Layout.{Inode, reg, inode_bytes}
use file_system_project.Layout.RoundTrip.{IsInode}
use file_system_project.Access
use file_system_project.Store.{FileSystem, FileTableEntry}
use file_system_project.Disk.Geometry.{
  IsMounted, IsBlock, InRegion, block_of, inode_of, block_address, inode_address, get_inode-ok,
  write_data_to_block-ok, update_single_inode_ondisk-ok,
}
use file_system_project.Disk.Blocks.{
  block_of-fwrite_self, block_of-fwrite_ne, block_of-fwrite_inode, inode_of-fwrite_self,
  inode_of-fwrite_block, inode_of-fwrite_ne,
}
use file_system_project.BlockMap.Lookup.{Maps, get_block_from_index-Maps}
use file_system_project.File.Copies.{
  in_copies, copies-at, filled-kept, filled-data, copies_of-ok, write_loop-done,
}
use file_system_project.File.Write.{
  copies, filled, fill_block, f_write, write_regular, store_slot, Writing,
}

module _ {d : ℕ} {s : FileSystem} (v : IsMounted d s) (buffer : Memory) (fd i b o k m : ℕ)
    (t : FileTableEntry) where
  abbrev node : Inode
  node = t.file_inode

  abbrev bytes_written : Memory
  bytes_written = filled (block_of d s.disk_image b) (o % 512) (copies m k buffer) (k * m)

  -- The inode and the slot after the call.
  abbrev pub longer : Inode
  longer = record node { size = pos (o + k * m) }

  abbrev image1 : Memory
  image1 = fwrite s.disk_image (block_address d b) bytes_written 512

  abbrev image2 : Memory
  image2 = fwrite image1 (inode_address i) (inode_bytes longer) 116

  abbrev pub at_position : ℤ → FileSystem
  at_position p = record s {
    disk_image = image2;
    file_table = set s.file_table fd (record t { file_inode = longer; byte_offset = p });
  }

  abbrev before_inode : ℤ → FileSystem
  before_inode p = record s {
    disk_image = image1;
    file_table = set s.file_table fd (record t { file_inode = longer; byte_offset = p });
  }

  IsMounted-before_inode : (p : ℤ) → IsMounted d (before_inode p)
  IsMounted-before_inode p = record {
    size = v.size;
    inode_offset = v.inode_offset;
    data_offset = v.data_offset;
    small = v.small;
  }

  pub IsMounted-at_position : (p : ℤ) → IsMounted d (at_position p)
  IsMounted-at_position p = record {
    size = v.size;
    inode_offset = v.inode_offset;
    data_offset = v.data_offset;
    small = v.small;
  }

  fill_block-ok :
      (p : ℕ)
      → get_elem? s.file_table fd ≡ some t
      → t.access ≡ Access.append
      → node.size ≡ pos o
      → t.byte_offset ≡ pos p
      → node.inode_index ≡ pos i
      → InRegion d i
      → IsBlock b
      → o % 512 + k * m ≤ 512
      → fill_block
          (pos fd)
          (pos b)
          (block_of d s.disk_image b)
          (copies m k buffer)
          (pos o)
          (k * m)
          (o % 512)
          s
        ≡ some (pos 1, at_position (pos (p + k * m)))
  unfolding fill_block store_slot
  fill_block-ok p at ea es ep ei hi hb fits = ground (
    arith,
    write_data_to_block-ok v b bytes_written 512 hb (omega arith),
    update_single_inode_ondisk-ok (IsMounted-before_inode (pos (p + k * m))) longer i hi,
    get_inode-ok (IsMounted-at_position (pos (p + k * m))) i hi,
  )

  abbrev rest : Writing
  rest = record {
    left = k * m - (512 - o % 512);
    total_block = pos 1;
    datatowrite_offset = if ltb (k * m) (512 - o % 512) then k * m else 512 - o % 512;
  }

  write_regular-ok :
      (p : ℕ)
      → get_elem? s.file_table fd ≡ some t
      → t.access ≡ Access.append
      → node.size ≡ pos o
      → t.byte_offset ≡ pos p
      → node.inode_index ≡ pos i
      → InRegion d i
      → IsBlock b
      → o % 512 + k * m ≤ 512
      → Maps d s.disk_image node (o / 512) b
      → write_regular buffer (pos k) (pos m) (pos fd) s
        ≡ some (pos (k * m), at_position (pos (o + k * m)))
  unfolding write_regular
  write_regular-ok p at ea es ep ei hi hb fits maps =
      let inside = lt-of_get_elem? s.file_table fd at in
      let none_left : k * m - (512 - o % 512) ≡ 0 = omega arith in
      let t1 = record t { file_inode = longer; byte_offset = pos (p + k * m) } in
      let t2 = record t { file_inode = longer; byte_offset = pos (o + k * m) } in
      ground (
        arith,
        copies_of-ok m k buffer s,
        get_block_from_index-Maps v node (o / 512) b hb maps,
        fill_block-ok p at ea es ep ei hi hb fits,
        write_loop-done (k * m) (pos fd) (copies m k buffer) (pos o) rest
            (at_position (pos (p + k * m))) none_left,
        get_elem?-set_self s.file_table fd t1 inside,
        get_elem?-set_self s.file_table fd t2 inside,
        set-set s.file_table fd t1 t2,
        get_inode-ok (IsMounted-at_position (pos (o + k * m))) i hi,
      )

  block_of-image2 :
      InRegion d i → block_of d image2 b ≡ fwrite (block_of d s.disk_image b) 0 bytes_written 512
  block_of-image2 hi =
      block_of-fwrite_inode d image1 (inode_bytes longer) i b hi
      ∙ block_of-fwrite_self d s.disk_image bytes_written b 512 (omega arith)

  byte_of-image2 : InRegion d i → (x : ℕ) → x < 512 → block_of d image2 b x ≡ bytes_written x
  unfolding fwrite
  byte_of-image2 hi x lt =
      let same : x - 0 ≡ x = omega arith in
      ap (λ m'. m' x) (block_of-image2 hi) ∙ ground (arith, same)

  -- The state after an appending write.
  pub f_write-at_position :
      (p : ℕ)
      → get_elem? s.file_table fd ≡ some t
      → t.free_file ≡ false
      → node.type ≡ reg
      → t.access ≡ Access.append
      → node.size ≡ pos o
      → t.byte_offset ≡ pos p
      → node.inode_index ≡ pos i
      → InRegion d i
      → IsBlock b
      → o % 512 + k * m ≤ 512
      → Maps d s.disk_image node (o / 512) b
      → f_write buffer (pos k) (pos m) (pos fd) s
        ≡ some (pos (k * m), at_position (pos (o + k * m)))
  unfolding f_write
  f_write-at_position p at open_file file ea es ep ei hi hb fits maps =
      ground (arith, write_regular-ok p at ea es ep ei hi hb fits maps)

  -- On a mounted disk, `f_write` of m items of k bytes to a regular file that a slot has open to
  -- append, whose data ends in block b with room for all of them: it returns k * m; the file's
  -- block has the items behind its old data, which stays; the inode, in the slot and on the disk, is
  -- k * m bytes longer and the slot's position is the new end; no other block and no other inode has
  -- changed. The inode is well formed with its new size and lies in the inode region.
  pub f_write-append :
      (p : ℕ)
      → get_elem? s.file_table fd ≡ some t
      → t.free_file ≡ false
      → node.type ≡ reg
      → t.access ≡ Access.append
      → node.size ≡ pos o
      → t.byte_offset ≡ pos p
      → node.inode_index ≡ pos i
      → InRegion d i
      → IsInode longer
      → IsBlock b
      → o % 512 + k * m ≤ 512
      → Maps d s.disk_image node (o / 512) b
      → (s' : FileSystem) × (f_write buffer (pos k) (pos m) (pos fd) s ≡ some (pos (k * m), s'))
        × ((j r : ℕ)
            → j < m
            → r < k
            → block_of d s'.disk_image b (o % 512 + (j * k + r)) ≡ buffer r)
        × ((x : ℕ) → x < o % 512 → block_of d s'.disk_image b x ≡ block_of d s.disk_image b x)
        × (inode_of s'.disk_image i ≡ longer)
        × (get_elem? s'.file_table fd
            ≡ some (record t { file_inode = longer; byte_offset = pos (o + k * m) }))
        × ((c : ℕ) → b ≢ c → block_of d s'.disk_image c ≡ block_of d s.disk_image c)
        × ((j : ℕ) → InRegion d j → i ≢ j → inode_of s'.disk_image j ≡ inode_of s.disk_image j)
  f_write-append p at open_file file ea es ep ei hi wi hb fits maps = (
    at_position (pos (o + k * m)),
    f_write-at_position p at open_file file ea es ep ei hi hb fits maps,
    (λ j r lt inside.
        let within = in_copies m j k r lt inside in
        byte_of-image2 hi (o % 512 + (j * k + r)) (omega arith)
        ∙ filled-data (block_of d s.disk_image b) (copies m k buffer) (o % 512) (k * m) (j * k + r)
            within
        ∙ copies-at m j k r buffer lt inside),
    (λ x lt.
        byte_of-image2 hi x (omega arith)
        ∙ filled-kept (block_of d s.disk_image b) (copies m k buffer) (o % 512) (k * m) x lt),
    inode_of-fwrite_self image1 longer i wi,
    get_elem?-set_self s.file_table fd
        (record t { file_inode = longer; byte_offset = pos (o + k * m) })
        (lt-of_get_elem? s.file_table fd at),
    (λ c ne.
        block_of-fwrite_inode d image1 (inode_bytes longer) i c hi
        ∙ block_of-fwrite_ne d s.disk_image bytes_written b c 512 (omega arith) ne),
    (λ j inside ne.
        inode_of-fwrite_ne image1 (inode_bytes longer) i j ne
        ∙ inode_of-fwrite_block d s.disk_image bytes_written b j 512 inside),
  )
