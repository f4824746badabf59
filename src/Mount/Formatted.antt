-- ===== src/Mount/Formatted.antt =====
-- Mounting a disk that format.c wrote, and unmounting it.
use file_system_project.Prelude.{
  ℕ, ◌+◌, ◌≤◌, ◌<◌, ◌≡◌, true, false, Option, some, arith, get_elem?, set, set-set,
  get_elem?-set_self, lt-of_get_elem?, Bool-cases, inl, inr, ltb, fun_ext, sym, ap, ◌∙◌, ◌-◌,
  le→not_ltb,
}
use file_system_project.Prelude.Int.{pos}
use file_system_project.Memory.{Memory, fread, fwrite, int_of_word}
use file_system_project.Layout.{Superblock, superblock_at, superblock_bytes}
use file_system_project.Layout.RoundTrip.{fread-superblock_bytes}
use file_system_project.Text.{Text}
use file_system_project.Format.{write_disk, formatted_superblock, num_blocks_for_inodes}
use file_system_project.Format.Regions.{superblock_of-write_disk}
use file_system_project.Mount.{
  HostFile, MountTableEntry, MountTable, first_free_location_in_mount, mount_at, read_superblock,
  mount_opened, f_mount, f_unmount, unmount_at, read_superblock, mount_opened,
}

-- A superblock that the file has whole does not depend on the slot's old one.
fwrite-superblock_bytes :
    (old : Superblock) (m : Memory)
    → fwrite (superblock_bytes old) 0 (λ j. m (512 + j)) 24 ≡ fread m 512 24
unfolding fwrite fread
fwrite-superblock_bytes old m = fun_ext λ x. elim (Bool-cases (ltb x 24)) [
  | inl inside ↦ let same : x - 0 ≡ x = omega arith in ground (arith, inside, same)
  | inr outside ↦ ground (arith, outside, zero_behind x outside)
]
  where
    zero_behind : (x : ℕ) → ltb x 24 ≡ false → superblock_bytes old x ≡ 0
    zero_behind x h = ap (λ b. b x) (sym (fread-superblock_bytes old)) ∙ ground (arith, h)

read_superblock-write_disk :
    (mb n : ℕ) (old : Superblock)
    → mb ≤ 16
    → 536 ≤ n
    → read_superblock (record { image = write_disk mb; length = n }) old
      ≡ formatted_superblock (num_blocks_for_inodes mb)
unfolding read_superblock
read_superblock-write_disk mb n old small whole = rw (le→not_ltb (n - 512) 24 (omega arith)) (
    ap superblock_at (fwrite-superblock_bytes old (write_disk mb))
    ∙ superblock_of-write_disk mb small)

-- The slot of a mounted disk that format.c wrote.
abbrev pub formatted_slot : Text → ℕ → MountTableEntry
formatted_slot disk_img mb = record {
  free_spot = false;
  disk_image_ptr = some disk_img;
  superblock1 = formatted_superblock (num_blocks_for_inodes mb);
}

module _ (mb : ℕ) (small : mb ≤ 16) (open_file : Text → Option HostFile) (disk_img : Text) (n : ℕ)
    (table : MountTable) where
  abbrev pub mounted : ℕ → MountTable
  mounted k = record {
    mounted_disks = set table.mounted_disks k (formatted_slot disk_img mb);
    current_mounted_disk = pos k;
  }

  -- `f_mount` of a disk that format.c writes, of at most 16 MB, with a free spot below 20 in the table and
  -- a length of 536 bytes to 2 GB: it
  -- succeeds, stores the first free index, and that slot has the formatter's superblock, which is
  -- the current disk's. `f_unmount` of that index then succeeds and frees the slot; no other slot
  -- has changed after the two.
  pub f_mount-f_unmount :
      (k : ℕ) (e : MountTableEntry)
      → open_file disk_img ≡ some (record { image = write_disk mb; length = n })
      → 536 ≤ n
      → n < 2147483648
      → first_free_location_in_mount table ≡ pos k
      → get_elem? table.mounted_disks k ≡ some e
      → k < 20
      → (f_mount open_file disk_img table ≡ some ((true, some (pos k)), mounted k))
        × (f_unmount (pos k) (mounted k)
            ≡ some (
              true,
              record (mounted k) {
                mounted_disks =
                    set table.mounted_disks k
                      (record (formatted_slot disk_img mb) { free_spot = true });
              },
            ))
  unfolding f_mount mount_opened mount_at f_unmount unmount_at int_of_word
  f_mount-f_unmount k e there lo hi free at lt =
      let inside = lt-of_get_elem? table.mounted_disks k at in
      (
        ground (arith, read_superblock-write_disk mb n e.superblock1 small lo),
        ground (
          arith,
          get_elem?-set_self table.mounted_disks k (formatted_slot disk_img mb) inside,
          set-set table.mounted_disks k (formatted_slot disk_img mb)
              (record (formatted_slot disk_img mb) { free_spot = true }),
        ),
      )
