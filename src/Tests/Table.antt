-- ===== src/Tests/Table.antt =====
-- The theorems on the open-file table at concrete inputs.
use file_system_project.Prelude.{ℕ, ◌≤◌, ◌≡◌, ◌≢◌, refl, true, some, get_elem?}
use file_system_project.Prelude.Int.{pos}
use file_system_project.Store.{FileSystem}
use file_system_project.Table.{setup_file_table, f_close, is_free}
use file_system_project.Table.Scan.{IsFirst}
use file_system_project.Table.Close.{f_close_frees}
use file_system_project.Tests.{image, open_slot, open_disk}

f_close_frees_example :
    (s' : FileSystem) × (f_close (pos 3) open_disk ≡ some (true, s'))
    × (get_elem? s'.file_table 3 ≡ some (record open_slot { free_file = true }))
    × ((j : ℕ) → 3 ≢ j → get_elem? s'.file_table j ≡ get_elem? open_disk.file_table j)
    × (s'.disk_image ≡ image)
    × ((k : ℕ) × (s'.table_freehead ≡ pos k) × (k ≤ 3) × IsFirst is_free s'.file_table k)
unfolding setup_file_table
f_close_frees_example = f_close_frees open_disk 3 open_slot refl refl
