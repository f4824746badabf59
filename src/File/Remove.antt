-- ===== src/File/Remove.antt =====
-- `f_remove`, `f_rmdir` and its helper (filesystem.c).
use file_system_project.Prelude.{
  ℕ, zero, suc, ◌+◌, ◌/◌, Bool, true, false, Option, none, some, [], ◌∷◌, ◌++◌, if◌then◌else◌,
  replicate,
}
use file_system_project.Prelude.Int.{
  ℤ, pos, negsuc, minus_one, ◌+ℤ◌, ◌-ℤ◌, ◌*ℤ◌, div_ℤ, mod_ℤ, ◌==ℤ◌,
}
use file_system_project.Memory.{Memory, fread, fwrite, words, word_of_int}
use file_system_project.Layout.{
  Inode, DirectoryEntry, Superblock, entry_at, entry_bytes, inode_bytes, superblock_bytes,
  block_size, filename_max, regions_start, sizeof_inode, reg,
}
use file_system_project.Store.{
  M, pure, ◌>>=◌, ◌>>◌, gets, undefined, or_undefined, seek, read, write, table_entry,
  set_table_entry, set_superblock,
}
use file_system_project.Disk.{get_data_block, get_inode}
use file_system_project.Table.{already_in_table, get_inode_from_file_table_from_directory_entry}
use file_system_project.BlockMap.{get_block_from_index}
use file_system_project.Directory.{f_readdir}
use file_system_project.Directory.Open.{f_opendir, entries_fuel}
use file_system_project.Text.{
  Text, c_string, text_eq, strcpy, is_slash_or_quote, strtok, path_of, split_last,
}

-- The loop over the parent from where its slot stands; a round for each entry that is left.
unfoldable pub find_name : ℕ → ℤ → Text → M (Option DirectoryEntry)
find_name zero i filename = undefined
find_name (suc fuel) i filename =
    let rest = find_name fuel i filename in
    f_readdir i >>= λ r. elim r [
      | none ↦ pure none
      | some e ↦ if text_eq (c_string e.filename) filename then pure (some e) else rest
    ]

abbrev or_null : {A : Type 0} → Option A → M A
or_null = or_undefined

-- The position of byte `offset` of a data block, as f_remove computes it.
abbrev pub data_position : Superblock → ℤ → ℤ → ℤ
data_position sp block offset =
    pos regions_start +ℤ sp.data_offset *ℤ sp.size +ℤ block *ℤ pos block_size +ℤ offset

abbrev pub inode_position : Superblock → ℤ → ℤ
inode_position sp index =
    pos regions_start +ℤ sp.inode_offset *ℤ pos block_size +ℤ index *ℤ pos sizeof_inode

-- `data_block[0] = superblock1->free_block`.
abbrev pub link_block : Memory → ℤ → Memory
link_block m next = fwrite m 0 (words (word_of_int next ∷ [])) 4

-- The directory's last entry takes the place of the one that goes; a block that this empties
-- goes to the free list. The directory's inode shrinks by an entry.
unfoldable pub drop_entry : ℤ → DirectoryEntry → M (Unit {0})
drop_entry index directory_to_replace = do
  t ← table_entry index
  let directory_inode = t.file_inode
  sp ← gets λ s. s.superblock1
  let last_byte = directory_inode.size -ℤ pos 64
  let block_to_fetch = div_ℤ last_byte block_size
  final ← get_block_from_index block_to_fetch directory_inode
  (final_block, final_block_index) ← or_null final
  p ← seek (data_position sp final_block_index (mod_ℤ last_byte block_size))
  moved ← read p (pos 64)
  let directory_to_move = entry_at moved
  name ← or_undefined (strcpy directory_to_replace.filename (c_string directory_to_move.filename))
  let replaced : DirectoryEntry = record {
    inode_index = directory_to_move.inode_index;
    filename = name;
  }
  let offset = t.byte_offset -ℤ pos 64
  current ← get_block_from_index (div_ℤ offset block_size) directory_inode
  (_, current_block_index) ← or_null current
  q ← seek (data_position sp current_block_index (mod_ℤ offset block_size))
  write q (entry_bytes replaced) (pos 64)
  (if block_to_fetch *ℤ pos block_size ==ℤ last_byte
      then (do
        set_superblock (record sp { free_block = final_block_index })
        r ← seek (data_position sp final_block_index (pos 0))
        write r (link_block final_block sp.free_block) (pos block_size))
      else pure tt)
  let shrunk = record directory_inode { size = last_byte }
  set_table_entry index (record t { file_inode = shrunk; byte_offset = offset })
  i ← seek (inode_position sp shrunk.inode_index)
  write i (inode_bytes shrunk) (pos sizeof_inode)

-- The inode goes to the head of the list of free inodes.
unfoldable pub free_inode : Inode → M (Unit {0})
free_inode file_inode = do
  sp ← gets λ s. s.superblock1
  set_superblock (record sp { free_inode = file_inode.inode_index })
  p ← seek (inode_position sp file_inode.inode_index)
  write p (inode_bytes (record file_inode { next_inode = sp.free_inode })) (pos sizeof_inode)

-- `ceilf(file_size / 512)`.
unfoldable pub file_blocks : ℤ → ℕ
file_blocks (pos n) = (n + 511) / 512
file_blocks (negsuc n) = 0

-- The file's blocks go to the head of the free list, in order. What is written to each of them is a
-- buffer that was freed before, so its bytes are any.
unfoldable pub free_blocks : ℕ → ℤ → Inode → M (Unit {0})
free_blocks zero i file_inode = pure tt
free_blocks (suc n) i file_inode = do
  found ← get_block_from_index i file_inode
  (_, block_value) ← or_null found
  sp ← gets λ s. s.superblock1
  set_superblock (record sp { free_block = block_value })
  p ← seek (data_position sp block_value (pos 0))
  freed ← gets λ s. s.overread
  write p freed (pos block_size)
  free_blocks n (i +ℤ pos 1) file_inode

-- `fwrite(superblock1, SIZEOFSUPERBLOCK, 1, file)` reads 488 bytes past the struct.
unfoldable pub write_superblock_region : M (Unit {0})
write_superblock_region = do
  sp ← gets λ s. s.superblock1
  behind ← gets λ s. s.overread
  write 512 (fwrite behind 0 (superblock_bytes sp) 24) (pos 512)

unfoldable pub remove_found : ℤ → DirectoryEntry → M Bool
unfolding drop_entry free_inode free_blocks write_superblock_region file_blocks
remove_found index entry = do
  file_inode ← get_inode entry.inode_index
  fd ← already_in_table file_inode
  if fd ==ℤ minus_one
      then (do
        drop_entry index entry
        free_inode file_inode
        free_blocks (file_blocks file_inode.size) (pos 0) file_inode
        write_superblock_region
        pure true)
      else pure false

unfoldable pub remove_from : DirectoryEntry → Text → M Bool
unfolding find_name remove_found
remove_from d filename = do
  index ← get_inode_from_file_table_from_directory_entry d
  t ← table_entry index
  get_data_block t.file_inode.last_block_index
  entry ← find_name (entries_fuel t.file_inode.size) index filename
  elim entry [ none ↦ pure false | some e ↦ remove_found index e ]

unfoldable pub f_remove : Text → M Bool
unfolding remove_from
f_remove filepath = elim (split_last (strtok is_slash_or_quote filepath)) [
  | none ↦ undefined
  | some (parents, filename) ↦ f_opendir (path_of parents) >>= λ d. elim d [
    | none ↦ pure false
    | some parent_entry ↦ remove_from parent_entry filename
  ]
]

-- The entry behind "." and "..", in the directory's first block.
unfoldable pub get_first_direntry : Inode → M DirectoryEntry
get_first_direntry node = do
  b ← or_null (elim node.dblocks [ [] ↦ none | c ∷ _ ↦ some c ])
  block ← get_data_block b
  let third = entry_at (fread block 128 64)
  name ← or_undefined (strcpy (replicate filename_max 0) (c_string third.filename))
  pure (record { inode_index = third.inode_index; filename = name })

-- The helper goes down to the first leaf and removes that; the depth is bounded by fuel.
unfoldable pub f_rmdir_helper : ℕ → Text → Inode → M (Unit {0})
f_rmdir_helper zero filepath node = undefined
f_rmdir_helper (suc fuel) filepath node =
    let remove = f_remove filepath >> pure tt in
    let descend = get_first_direntry node >>= λ entry. get_inode entry.inode_index >>= λ new_node.
    f_rmdir_helper fuel (filepath ++ b'/' ∷ c_string entry.filename) new_node in
    if node.type ==ℤ reg then remove else if node.size ==ℤ pos 128 then remove else descend

unfoldable pub f_rmdir : ℕ → Text → M (Option DirectoryEntry)
f_rmdir fuel filepath = f_opendir filepath >>= λ start. elim start [
  | none ↦ pure none
  | some start_ent ↦ get_inode start_ent.inode_index >>= λ start_node.
      f_rmdir_helper fuel filepath start_node >> pure (some start_ent)
]
