-- ===== src/Keeps.antt =====
-- What the operations of filesystem.c keep while a disk is mounted. There is a rule for each way to
-- build an operation. Those that write are taken with IsReady, the geometry of the disk in the
-- superblock in memory and the number of slots; those that only read with any predicate that does not
-- depend on the open-file table.
pub mod Table
pub mod BlockMap
pub mod Directory
pub mod Files
pub mod Remove
pub mod Paths
pub mod Commands
pub mod Operations
pub mod ReadOnly
pub mod Freed
use mathlib.Core.Option.{some-injective}
use mathlib.Core.Path.{subst}
use file_system_project.Prelude.{
  ℕ, ◌≡◌, refl, Bool, true, false, if◌then◌else◌, Option, none, some, List, arith, set, get_elem?,
  length, length-set, ltb, ap, sym, ◌∙◌, ◌+◌, ◌*◌,
}
use file_system_project.Prelude.Int.{ℤ, pos, negsuc, leb_ℤ}
use file_system_project.Memory.{Memory, int_at}
use file_system_project.Layout.{Superblock, DirectoryEntry}
use file_system_project.Store.{
  FileSystem, FileTableEntry, M, pure, undefined, and_then, ◌>>=◌, ◌>>◌, gets, modify, or_undefined,
  seek, read, write, set_superblock, set_freehead, element, assign, block_element, table_entry,
  set_table_entry, live_root, free_root,
}
use file_system_project.Disk.Geometry.{IsMounted}

-- d blocks of inodes, blocks of 512 bytes, and 20 slots.
pub record IsReady (d : ℕ) (s : FileSystem) : Type 0 where
  pub size : s.superblock1.size ≡ pos 512
  pub inode_offset : s.superblock1.inode_offset ≡ pos 0
  pub data_offset : s.superblock1.data_offset ≡ pos d
  pub slots : length s.file_table ≡ 20

-- Wherever the operation returns, what held before it holds.
pub record Keeps {A : Type 0} (P : FileSystem → Type 0) (m : M A) : Type 0 where
  pub after : {s s' : FileSystem} {a : A} → P s → m s ≡ some (a, s') → P s'

-- What does not depend on the contents of the slots, on `table_freehead` and on `root_dir_entry`,
-- and holds with that freed if it holds with it live.
pub record IsBesideTable (P : FileSystem → Type 0) : Type 0 where
  pub slots :
      {s : FileSystem} (table : List FileTableEntry)
      → P s
      → length table ≡ length s.file_table
      → P (record s { file_table = table })
  pub freehead : {s : FileSystem} (h : ℤ) → P s → P (record s { table_freehead = h })
  pub freed : {s : FileSystem} → P s → P (record s { root_freed = true })
  pub root : {s : FileSystem} (e : DirectoryEntry) → P s → P (record s { root_dir_entry = e })

instance pub IsReady-IsBesideTable : {d : ℕ} → IsBesideTable (IsReady d)
IsReady-IsBesideTable = record {
  slots = λ table v h. ground (arith, h);
  freehead = λ h v. ground arith;
  freed = λ v. ground arith;
  root = λ e v. ground arith;
}

-- The state of a call that returns at once, and a call that does not return.
same_state :
    {A : Type 0} (P : FileSystem → Type 0) {a b : A} {s s' : FileSystem}
    → P s
    → pure a s ≡ some (b, s')
    → P s'
same_state P v h = subst P (ap (λ r. r.1) (some-injective _ _ h)) v

never :
    {A : Type 0} (P : FileSystem → Type 0) (s : FileSystem) {b : A} {s' : FileSystem}
    → undefined s ≡ some (b, s')
    → P s'
never P s h = absurd cc

module _ {A : Type 0} {P : FileSystem → Type 0} where
  pub Keeps-pure : (a : A) → Keeps P (pure a)
  Keeps-pure a = record { after = same_state P }

  pub Keeps-undefined : Keeps {A = A} P undefined
  Keeps-undefined = record { after = λ {s} v h. never P s h }

  pub Keeps-gets : (f : FileSystem → A) → Keeps P (gets f)
  Keeps-gets f = record { after = same_state P }

  pub Keeps-or_undefined : (x : Option A) → Keeps P (or_undefined x)
  Keeps-or_undefined none = Keeps-undefined
  Keeps-or_undefined (some a) = Keeps-pure a

  pub Keeps-if : (b : Bool) (m n : M A) → Keeps P m → Keeps P n → Keeps P (if b then m else n)
  Keeps-if true m n km kn = km
  Keeps-if false m n km kn = kn

  pub Keeps-element : (xs : List A) (i : ℤ) → Keeps P (element xs i)
  Keeps-element xs (pos i) = Keeps-or_undefined (get_elem? xs i)
  Keeps-element xs (negsuc i) = Keeps-undefined

module _ {A : Type 0} {P : FileSystem → Type 0} where
  pub Keeps-assign : (xs : List A) (i : ℤ) (v : A) → Keeps P (assign xs i v)
  Keeps-assign xs (pos i) x =
      elim (get_elem? xs i)
        as (λ e. Keeps {A = List A} P (elim e [ none ↦ undefined | some _ ↦ pure (set xs i x) ])) [
          | none ↦ Keeps-undefined
          | some _ ↦ Keeps-pure (set xs i x)
        ]
  Keeps-assign xs (negsuc i) x = Keeps-undefined

module _ {A B : Type 0} where
  pub and_then-inversion :
      (r : Option (A × FileSystem)) (f : A → M B) {b : B} {s' : FileSystem}
      → and_then r f ≡ some (b, s')
      → (a : A) × (s1 : FileSystem) × (r ≡ some (a, s1)) × (f a s1 ≡ some (b, s'))
  and_then-inversion none f h = absurd cc
  and_then-inversion (some (a, s1)) f h = (a, s1, refl, h)

assigned-length :
    {A : Type 0} (xs : List A) (i : ℤ) (v : A) {ys : List A} {s s' : FileSystem}
    → assign xs i v s ≡ some (ys, s')
    → (length ys ≡ length xs) × (s' ≡ s)
assigned-length xs (pos i) v h = ground (arith, length-set xs i v)
assigned-length xs (negsuc i) v h = absurd cc

module _ {A B : Type 0} {P : FileSystem → Type 0} where
  pub Keeps-bind :
      (m : M A) (f : A → M B) → Keeps P m → ((a : A) → Keeps P (f a)) → Keeps P (m >>= f)
  Keeps-bind m f km kf = record {
    after = λ {s} v h.
        let (a, s1, first, rest) = and_then-inversion (m s) f h in
        (kf a).after (km.after v first) rest;
  }

  pub Keeps-elim :
      (x : Option A) (m : M B) (f : A → M B)
      → Keeps P m
      → ((a : A) → Keeps P (f a))
      → Keeps P (elim x [ none ↦ m | some a ↦ f a ])
  Keeps-elim none m f km kf = km
  Keeps-elim (some a) m f km kf = kf a

read_or_not :
    (P : FileSystem → Type 0) (b : Bool) (x : ℤ) {a : ℤ} {s s' : FileSystem}
    → P s
    → if◌then◌else◌ {A = Option (ℤ × FileSystem)} b (some (x, s)) none ≡ some (a, s')
    → P s'
read_or_not P true x v h = same_state P v h
read_or_not P false x {s = s} v h = never P s h

module _ {P : FileSystem → Type 0} where
  pub Keeps-seek : (p : ℤ) → Keeps P (seek p)
  Keeps-seek (pos n) = Keeps-if (ltb n 2147483648) _ _ (Keeps-pure n) Keeps-undefined
  Keeps-seek (negsuc n) = Keeps-undefined

  pub Keeps-read : (p : ℕ) (n : ℤ) → Keeps P (read p n)
  Keeps-read p (pos n) = record { after = same_state P }
  Keeps-read p (negsuc n) = Keeps-undefined

  pub Keeps-block_element : (m : Memory) (i : ℤ) → Keeps P (block_element m i)
  Keeps-block_element m (pos i) = record {
    after = λ {s} v h.
        read_or_not P (leb_ℤ (pos (4 * i + 4)) s.superblock1.size) (int_at m (4 * i)) v h;
  }
  Keeps-block_element m (negsuc i) = Keeps-undefined

  pub Keeps-table_entry : (i : ℤ) → Keeps P (table_entry i)
  Keeps-table_entry i = record {
    after = λ {s} v h. (Keeps-element {P = P} s.file_table i).after v h;
  }

module _ {P : FileSystem → Type 0} ⦃o : IsBesideTable P⦄ where
  pub Keeps-set_freehead : (h : ℤ) → Keeps P (set_freehead h)
  Keeps-set_freehead i = record { after = λ v h. same_state P (o.freehead i v) h }

  pub Keeps-root_dir_entry :
      (e : FileSystem → DirectoryEntry) → Keeps P (modify λ s. record s { root_dir_entry = e s })
  Keeps-root_dir_entry e = record { after = λ {s} v h. same_state P (o.root (e s) v) h }

  pub Keeps-live_root : Keeps P live_root
  unfolding live_root
  Keeps-live_root =
      Keeps-bind _ _ (Keeps-gets _) λ b. Keeps-if b _ _ Keeps-undefined (Keeps-pure tt)

  pub Keeps-free_root : Keeps P free_root
  unfolding free_root
  Keeps-free_root =
      Keeps-bind _ _ Keeps-live_root λ u. record { after = λ {s} v h. same_state P (o.freed v) h }

  pub Keeps-set_table_entry : (i : ℤ) (t : FileTableEntry) → Keeps P (set_table_entry i t)
  Keeps-set_table_entry i t = record {
    after = λ {s} v h.
        let (table, s1, assigned, rest) = and_then-inversion (assign s.file_table i t s) _ h in
        let (long, same) = assigned-length s.file_table i t assigned in
        same_state P
          (o.slots table (subst P (sym same) v) (long ∙ ap (λ c. length c.file_table) (sym same)))
          rest;
  }

module _ {d : ℕ} where
  pub Keeps-write : (p : ℕ) (b : Memory) (n : ℤ) → Keeps (IsReady d) (write p b n)
  Keeps-write p b (pos n) = record { after = λ v h. ground arith }
  Keeps-write p b (negsuc n) = Keeps-undefined

  pub Keeps-set_superblock :
      (sp : Superblock)
      → sp.size ≡ pos 512
      → sp.inode_offset ≡ pos 0
      → sp.data_offset ≡ pos d
      → Keeps (IsReady d) (set_superblock sp)
  Keeps-set_superblock sp size inode_offset data_offset = record { after = λ v h. ground arith }

-- What the code reads as the superblock has the geometry.
module _ {B : Type 0} {d : ℕ} where
  pub Keeps-superblock :
      (f : Superblock → M B)
      → ((sp : Superblock)
          → sp.size ≡ pos 512
          → sp.inode_offset ≡ pos 0
          → sp.data_offset ≡ pos d
          → Keeps (IsReady d) (f sp))
      → Keeps (IsReady d) (gets (λ s. s.superblock1) >>= f)
  Keeps-superblock f kf = record {
    after = λ {s} v h. (kf s.superblock1 v.size v.inode_offset v.data_offset).after v h;
  }

pub ruleset keeps_rules = (
  Keeps-pure, Keeps-undefined, Keeps-or_undefined, Keeps-if, Keeps-element, Keeps-seek, Keeps-read,
  Keeps-write, Keeps-set_superblock, Keeps-set_freehead, Keeps-block_element, Keeps-table_entry,
  Keeps-set_table_entry, Keeps-assign, Keeps-superblock, Keeps-bind, Keeps-gets,
  Keeps-root_dir_entry, Keeps-elim, Keeps-live_root, Keeps-free_root,
)
