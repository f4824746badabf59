-- ===== src/Table/Close.antt =====
-- `f_close` (filesystem.c).
use file_system_project.Prelude.{
  ℕ, ◌≤◌, ◌≡◌, ◌≢◌, refl, true, some, arith, get_elem?, set, length, get_elem?-set_self,
  get_elem?-set_ne, lt-of_get_elem?,
}
use file_system_project.Prelude.Int.{pos}
use file_system_project.Store.{FileSystem, FileTableEntry}
use file_system_project.Table.{f_close, update_freehead, find_next_freehead, first_entry, is_free}
use file_system_project.Table.Scan.{IsFirst, first_entry-some}

-- Closing descriptor fd of a full-size table succeeds. After it slot fd is free with its inode and
-- offset kept, every other slot and the disk are as before, and `table_freehead` is the first free
-- slot, which is no later than fd.
pub f_close_frees :
    (s : FileSystem) (fd : ℕ) (t : FileTableEntry)
    → length s.file_table ≡ 20
    → get_elem? s.file_table fd ≡ some t
    → (s' : FileSystem) × (f_close (pos fd) s ≡ some (true, s'))
      × (get_elem? s'.file_table fd ≡ some (record t { free_file = true }))
      × ((j : ℕ) → fd ≢ j → get_elem? s'.file_table j ≡ get_elem? s.file_table j)
      × (s'.disk_image ≡ s.disk_image)
      × ((k : ℕ) × (s'.table_freehead ≡ pos k) × (k ≤ fd) × IsFirst is_free s'.file_table k)
unfolding f_close update_freehead find_next_freehead
f_close_frees s fd t full at =
    let inside = lt-of_get_elem? s.file_table fd at in
    let table = set s.file_table fd (record t { free_file = true }) in
    let closed = get_elem?-set_self s.file_table fd (record t { free_file = true }) inside in
    let (k, found, le, first) =
      first_entry-some is_free table fd (record t { free_file = true }) closed refl in
    (
      record s { file_table = table; table_freehead = first_entry is_free table },
      ground arith,
      closed,
      (λ j ne. get_elem?-set_ne s.file_table (record t { free_file = true }) ne),
      refl,
      (k, found, le, first),
    )
