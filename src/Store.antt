-- ===== src/Store.antt =====
-- The state behind filesystem.c while a disk is mounted (filesystem.c:7-12), and the steps on it
-- that C's memory and stdio give: a read or write at a position, and array accesses.
use file_system_project.Prelude.{
  true, ℕ, ◌+◌, ◌*◌, Bool, Option, none, some, List, ltb, if◌then◌else◌, get_elem?, set,
}
use file_system_project.Prelude.Int.{ℤ, pos, negsuc, leb_ℤ}
use file_system_project.Memory.{Memory, fread, fwrite, int_at}
use file_system_project.Layout.{Superblock, DirectoryEntry, Inode}

-- A slot of `file_table`; it owns its copy of the inode.
pub record FileTableEntry : Type 0 where
  pub free_file : Bool
  pub file_inode : Inode
  pub byte_offset : ℤ
  pub access : ℤ

-- `disk_image` and `superblock1` are those of `current_mounted_disk`. `overread` is what memory
-- holds behind the short objects that two `fwrite`s read past their end. `root_freed` says that the
-- object behind `root_dir_entry`, which `f_opendir` hands out, has been freed.
pub record FileSystem : Type 0 where
  pub disk_image : Memory
  pub superblock1 : Superblock
  pub file_table : List FileTableEntry
  pub table_freehead : ℤ
  pub root_dir_entry : DirectoryEntry
  pub root_freed : Bool
  pub overread : Memory

-- `none` is undefined behaviour in C: an access out of an array's bounds, a NULL or a file
-- position that no `int` holds.
abbrev pub M : Type 0 → Type 0
M A = FileSystem → Option (A × FileSystem)

abbrev pub pure : {A : Type 0} → A → M A
pure a s = some (a, s)

abbrev pub undefined : {A : Type 0} → M A
undefined s = none

abbrev pub and_then : {A B : Type 0} → Option (A × FileSystem) → (A → M B) → Option (B × FileSystem)
and_then none f = none
and_then (some (a, s)) f = f a s

infixl 5 ◌>>=◌ ◌>>◌
abbrev pub ◌>>=◌ : {A B : Type 0} → M A → (A → M B) → M B
◌>>=◌ m f s = and_then (m s) f

abbrev pub ◌>>◌ : {A B : Type 0} → M A → M B → M B
m >> k = m >>= λ _. k

abbrev pub gets : {A : Type 0} → (FileSystem → A) → M A
gets f s = some (f s, s)

abbrev pub modify : (FileSystem → FileSystem) → M (Unit {0})
modify f s = some (tt, f s)

abbrev pub or_undefined : {A : Type 0} → Option A → M A
or_undefined none = undefined
or_undefined (some a) = pure a

-- `fseek` to an absolute position, which the code computes in an `int`.
abbrev pub seek : ℤ → M ℕ
seek (pos n) = if ltb n 2147483648 then pure n else undefined
seek (negsuc n) = undefined

-- `fread` of n bytes into a buffer that was cleared to n bytes.
abbrev pub read : ℕ → ℤ → M Memory
read p (pos n) s = some (fread s.disk_image p n, s)
read p (negsuc n) s = none

abbrev pub write : ℕ → Memory → ℤ → M (Unit {0})
write p b (pos n) s = some (tt, record s { disk_image = fwrite s.disk_image p b n })
write p b (negsuc n) s = none

abbrev pub set_superblock : Superblock → M (Unit {0})
set_superblock sp = modify λ s. record s { superblock1 = sp }

abbrev pub set_freehead : ℤ → M (Unit {0})
set_freehead h = modify λ s. record s { table_freehead = h }

-- An element of a C array.
abbrev pub element : {A : Type 0} → List A → ℤ → M A
element xs (pos i) = or_undefined (get_elem? xs i)
element xs (negsuc i) = undefined

-- An array after `xs[i] = v`.
abbrev pub assign : {A : Type 0} → List A → ℤ → A → M (List A)
assign xs (pos i) v = elim (get_elem? xs i) [ none ↦ undefined | some _ ↦ pure (set xs i v) ]
assign xs (negsuc i) v = undefined

-- Element i of a block that is read as an `int` array; the buffer has `superblock1->size` bytes.
abbrev pub block_element : Memory → ℤ → M ℤ
block_element m (pos i) s =
    if leb_ℤ (pos (4 * i + 4)) s.superblock1.size then some (int_at m (4 * i), s) else none
block_element m (negsuc i) s = none

-- `file_table[i]`.
abbrev pub table_entry : ℤ → M FileTableEntry
table_entry i s = element s.file_table i s

abbrev pub set_table_entry : ℤ → FileTableEntry → M (Unit {0})
set_table_entry i e = do
  table ← (λ s. assign s.file_table i e s)
  modify λ s. record s { file_table = table }

-- `root_dir_entry` is followed, and `free(root_dir_entry)`: undefined once it is freed.
unfoldable pub live_root : M (Unit {0})
live_root = gets (λ s. s.root_freed) >>= λ freed. if freed then undefined else pure tt

unfoldable pub free_root : M (Unit {0})
unfolding live_root
free_root = live_root >> modify (λ s. record s { root_freed = true })
