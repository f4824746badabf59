-- ===== src/Shell/ShowFile.antt =====
-- cat and more (shell.c) on a slot with a file of less than a block, and on a file that was written.
use file_system_project.Prelude.{
  ℕ, ◌≤◌, ◌<◌, ◌≡◌, ◌∙◌, ◌-◌, ap, sym, refl, true, false, if◌then◌else◌, inl, Bool, List, [], ◌∷◌,
  some, arith, get_elem?, length,
}
use mathlib.Core.Option.{some-injective}
use native.Mathlib.Nat.{zero-add, mul-one}
use file_system_project.Prelude.Int.{pos}
use file_system_project.Memory.{Memory, cleared, fwrite}
use file_system_project.Layout.{reg}
use file_system_project.Access
use file_system_project.Store.{FileSystem, FileTableEntry}
use file_system_project.Disk.Geometry.{IsMounted, IsBlock, block_of}
use file_system_project.Table.{f_close, get_table_entry}
use file_system_project.Table.Close.{f_close_frees}
use file_system_project.BlockMap.Lookup.{Maps}
use file_system_project.File.Read.{f_read}
use file_system_project.File.ReadBlock.{f_read-in_block}
use file_system_project.Text.{Text}
use file_system_project.Shell.Show.{
  Shown, contents, sizes, heading, cat_slot, more_slot, more_pages, page_fuel,
}

-- A slot that is open to be read, at the start of a regular file of n bytes, of which block b holds
-- the first.
pub record ReadFrom (d n b fd : ℕ) (s : FileSystem) (t : FileTableEntry) : Type 0 where
  pub mounted : IsMounted d s
  pub slots : length s.file_table ≡ 20
  pub at : get_elem? s.file_table fd ≡ some t
  pub below : fd < 20
  pub taken : t.free_file ≡ false
  pub file : t.file_inode.type ≡ reg
  pub mode : t.access ≡ Access.read
  pub start : t.byte_offset ≡ pos 0
  pub size : t.file_inode.size ≡ pos n
  pub block : IsBlock b
  pub maps : Maps d s.disk_image t.file_inode 0 b

pub fwrite-cleared : (m : Memory) (n x : ℕ) → x < n → fwrite cleared 0 m n x ≡ m x
unfolding fwrite
fwrite-cleared m n x lt = let same : x - 0 ≡ x = omega arith in ground (arith, same)

module _ {d n b fd : ℕ} {s : FileSystem} {t : FileTableEntry} (v : ReadFrom d n b fd s t)
    (argument : Text) where
  abbrev pub first_bytes : Memory
  first_bytes = fwrite cleared 0 (block_of d s.disk_image b) n

  get_table_entry-ok : get_table_entry (pos fd) s ≡ some (some t, s)
  unfolding get_table_entry
  get_table_entry-ok = let at = v.at in let taken = v.taken in let below = v.below in ground arith

  f_read-all :
      0 < n → n ≤ 511 → f_read cleared (pos n) (pos 1) (pos fd) s ≡ some ((pos n, first_bytes), s)
  f_read-all lt le =
      let run =
        f_read-in_block v.mounted t.file_inode cleared n 1 fd 0 n b t v.below v.at refl (inl v.mode)
          v.start v.size lt (omega arith) (omega arith) (omega arith) v.block v.maps in
      run ∙ simp (zero-add, mul-one)

  pub cat_slot-ok :
      0 < n
      → n ≤ 511
      → (s' : FileSystem) × (f_close (pos fd) s ≡ some (true, s'))
        × (cat_slot argument (pos fd) s ≡ some (contents n first_bytes, s'))
  unfolding cat_slot
  cat_slot-ok lt le =
      let (s', closed, freed, others, disk, head) = f_close_frees s fd t v.slots v.at in
      let file = v.file in
      let size = v.size in
      (s', closed, ground (arith, get_table_entry-ok, f_read-all lt le, closed))

  abbrev pub page : Bool → List Shown
  page header =
      let shown = sizes (pos n) (pos n) ∷ contents n first_bytes ∷ [] in
      if header then heading argument ∷ shown else shown

  more_slot-ok :
      (header : Bool)
      → 0 < n
      → n ≤ 511
      → (s' : FileSystem) × (f_close (pos fd) s ≡ some (true, s'))
        × (more_slot header argument (pos fd) s ≡ some ((page header, true), s'))
  unfolding more_slot more_pages page_fuel
  more_slot-ok header lt le =
      let (s', closed, freed, others, disk, head) = f_close_frees s fd t v.slots v.at in
      let file = v.file in
      let size = v.size in
      (s', closed, ground (arith, get_table_entry-ok, f_read-all lt le, closed))

  -- On a slot that is open to be read, at the start of a regular file of n bytes, from 1 to 511, cat
  -- shows these bytes, and more shows them as one page, behind the two sizes and with the name in
  -- front if there are other files; both leave the state as f_close of the slot does.
  pub cat_more-agree :
      (header : Bool)
      → 0 < n
      → n ≤ 511
      → (s' : FileSystem) × (bytes : Memory) × (f_close (pos fd) s ≡ some (true, s'))
        × (cat_slot argument (pos fd) s ≡ some (contents n bytes, s'))
        × (more_slot header argument (pos fd) s
            ≡ some (
              (
                (let shown = sizes (pos n) (pos n) ∷ contents n bytes ∷ [] in
                    if header then heading argument ∷ shown else shown),
                true,
              ),
              s',
            ))
        × ((x : ℕ) → x < n → bytes x ≡ block_of d s.disk_image b x)
  cat_more-agree header lt le =
      let (s1, closed, shown) = cat_slot-ok lt le in
      let (s2, closed', paged) = more_slot-ok header lt le in
      let same : s1 ≡ s2 = ap (λ r. r.1) (some-injective _ _ (sym closed ∙ closed')) in
      (
        s1,
        first_bytes,
        closed,
        shown,
        paged ∙ ap (λ c. some ((page header, true), c)) (sym same),
        λ x below. fwrite-cleared _ n x below,
      )
