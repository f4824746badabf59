-- ===== src/Layout/RoundTrip.antt =====
-- A struct is read back from its bytes as it was written.
use mathlib.Core.List.{map}
use mathlib.Core.Path.{ap₂}
use file_system_project.Prelude.{
  ℕ, suc, ◌+◌, ◌-◌, ◌≤◌, ◌<◌, ◌≡◌, refl, sym, ap, ◌∙◌, fun_ext, inl, inr, List, [], ◌∷◌, ◌++◌,
  arith, length, get_or, length-append, length-map, get_or-beyond, Bool-cases, ltb, le→not_ltb,
  not_ltb→le,
}
use file_system_project.Prelude.Int.{ℤ, IsInt}
use file_system_project.Memory.{
  Memory, words, word_at, int_at, bytes_at, byte_of, word_of_int, fread,
}
use file_system_project.Memory.Words.{
  bytes_of_word, word_of_int-lt, int_of_word-word_of_int, int_at-words, ints_at-words,
  word_at-words, fread-words, Stored, AllInt, Stored-map, Stored-append,
}
use file_system_project.Layout.{
  Superblock, DirectoryEntry, PermissionValue, Inode, superblock_words, superblock_bytes,
  superblock_at, entry_bytes, entry_at, inode_words, inode_bytes, inode_at, inode_head, inode_tail,
  permission_word,
}

-- Every member lies in the range of its C type.
pub record IsSuperblock (sp : Superblock) : Type 0 where
  pub size : IsInt sp.size
  pub inode_offset : IsInt sp.inode_offset
  pub data_offset : IsInt sp.data_offset
  pub free_inode : IsInt sp.free_inode
  pub free_block : IsInt sp.free_block
  pub root_dir : IsInt sp.root_dir

pub record IsPermission (p : PermissionValue) : Type 0 where
  pub owner : p.owner < 256
  pub group : p.group < 256
  pub others : p.others < 256

pub record IsInode (n : Inode) : Type 0 where
  pub disk_identifier : n.disk_identifier < 4294967296
  pub parent_inode_index : IsInt n.parent_inode_index
  pub next_inode : IsInt n.next_inode
  pub size : IsInt n.size
  pub uid : IsInt n.uid
  pub gid : IsInt n.gid
  pub ctime : IsInt n.ctime
  pub mtime : IsInt n.mtime
  pub atime : IsInt n.atime
  pub type : IsInt n.type
  pub permission : IsPermission n.permission
  pub inode_index : IsInt n.inode_index
  pub dblocks : AllInt n.dblocks
  pub iblocks : AllInt n.iblocks
  pub i2block : IsInt n.i2block
  pub i3block : IsInt n.i3block
  pub last_block_index : IsInt n.last_block_index
  pub length-dblocks : length n.dblocks ≡ 10
  pub length-iblocks : length n.iblocks ≡ 4

-- A superblock whose members are in the range of an int is read back from its 24 bytes as it was
-- written.
pub superblock_at-superblock_bytes :
    (sp : Superblock) → IsSuperblock sp → superblock_at (superblock_bytes sp) ≡ sp
unfolding superblock_at superblock_bytes superblock_words
superblock_at-superblock_bytes sp v = λ i. record {
  size = int_at-words (superblock_words sp) 0 sp.size v.size refl i;
  inode_offset = int_at-words (superblock_words sp) 1 sp.inode_offset v.inode_offset refl i;
  data_offset = int_at-words (superblock_words sp) 2 sp.data_offset v.data_offset refl i;
  free_inode = int_at-words (superblock_words sp) 3 sp.free_inode v.free_inode refl i;
  free_block = int_at-words (superblock_words sp) 4 sp.free_block v.free_block refl i;
  root_dir = int_at-words (superblock_words sp) 5 sp.root_dir v.root_dir refl i;
}

module _ (n : Inode) (v : IsInode n) where
  abbrev behind_dblocks : List ℕ
  behind_dblocks = map word_of_int n.iblocks ++ inode_tail n

  length-dblock_words : length (map word_of_int n.dblocks) ≡ 10
  length-dblock_words = length-map n.dblocks word_of_int ∙ v.length-dblocks

  length-iblock_words : length (map word_of_int n.iblocks) ≡ 4
  length-iblock_words = length-map n.iblocks word_of_int ∙ v.length-iblocks

  length-inode_words : length (inode_words n) ≡ 29
  unfolding inode_words
  length-inode_words = omega (
    arith,
    length-append (map word_of_int n.dblocks) behind_dblocks,
    length-append (map word_of_int n.iblocks) (inode_tail n),
    length-dblock_words,
    length-iblock_words,
  )

  Stored-dblocks : Stored (inode_words n) 12 n.dblocks
  unfolding inode_words
  Stored-dblocks =
      Stored-append (inode_head n) (map word_of_int n.dblocks ++ behind_dblocks) 0 12 n.dblocks refl
        (Stored-map n.dblocks behind_dblocks v.dblocks)

  Stored-iblocks : Stored (inode_words n) 22 n.iblocks
  unfolding inode_words
  Stored-iblocks =
      Stored-append (inode_head n) (map word_of_int n.dblocks ++ behind_dblocks) 10 22 n.iblocks
        refl
        (Stored-append (map word_of_int n.dblocks) behind_dblocks 0 10 n.iblocks
          (omega (arith, length-dblock_words)) (Stored-map n.iblocks (inode_tail n) v.iblocks))

  -- The three integers behind both block arrays.
  Stored-tail : Stored (inode_words n) 26 (n.i2block ∷ n.i3block ∷ n.last_block_index ∷ [])
  unfolding inode_words
  Stored-tail =
      Stored-append (inode_head n) (map word_of_int n.dblocks ++ behind_dblocks) 14 26 after refl (
        Stored-append (map word_of_int n.dblocks) behind_dblocks 4 14 after
          (omega (arith, length-dblock_words))
          (Stored-append (map word_of_int n.iblocks) (inode_tail n) 0 4 after
            (omega (arith, length-iblock_words))
            (v.i2block, refl, (v.i3block, refl, (v.last_block_index, refl, tt)))))
    where
      after : List ℤ
      after = n.i2block ∷ n.i3block ∷ n.last_block_index ∷ []

  permission_at :
      let m = inode_bytes n in
      (m 40 ≡ n.permission.owner) × (m 41 ≡ n.permission.group) × (m 42 ≡ n.permission.others)
  unfolding inode_bytes inode_words words byte_of permission_word
  permission_at = (
    omega (arith, v.permission.owner, v.permission.group, v.permission.others),
    omega (arith, v.permission.owner, v.permission.group, v.permission.others),
    omega (arith, v.permission.owner, v.permission.group, v.permission.others),
  )

  -- An inode whose members are in the range of their C types is read back from its 116 bytes as it
  -- was written.
  pub inode_at-inode_bytes : inode_at (inode_bytes n) ≡ n
  unfolding inode_at inode_bytes inode_words
  inode_at-inode_bytes = λ i. record {
    disk_identifier = word_at-words (inode_words n) 0 v.disk_identifier i;
    parent_inode_index =
        int_at-words (inode_words n) 1 n.parent_inode_index v.parent_inode_index refl i;
    next_inode = int_at-words (inode_words n) 2 n.next_inode v.next_inode refl i;
    size = int_at-words (inode_words n) 3 n.size v.size refl i;
    uid = int_at-words (inode_words n) 4 n.uid v.uid refl i;
    gid = int_at-words (inode_words n) 5 n.gid v.gid refl i;
    ctime = int_at-words (inode_words n) 6 n.ctime v.ctime refl i;
    mtime = int_at-words (inode_words n) 7 n.mtime v.mtime refl i;
    atime = int_at-words (inode_words n) 8 n.atime v.atime refl i;
    type = int_at-words (inode_words n) 9 n.type v.type refl i;
    permission = record {
      owner = permission_at.0 i;
      group = permission_at.1 i;
      others = permission_at.2 i;
    };
    inode_index = int_at-words (inode_words n) 11 n.inode_index v.inode_index refl i;
    dblocks =
        (rw v.length-dblocks at (ints_at-words (inode_words n) 12 n.dblocks Stored-dblocks)) i;
    iblocks =
        (rw v.length-iblocks at (ints_at-words (inode_words n) 22 n.iblocks Stored-iblocks)) i;
    i2block = int_at-words (inode_words n) 26 n.i2block v.i2block Stored-tail.1 i;
    i3block = int_at-words (inode_words n) 27 n.i3block v.i3block Stored-tail.2.1 i;
    last_block_index =
        int_at-words (inode_words n) 28 n.last_block_index v.last_block_index Stored-tail.2.2.1 i;
  }

  pub fread-inode_bytes : fread (inode_bytes n) 0 116 ≡ inode_bytes n
  unfolding inode_bytes
  fread-inode_bytes = fread-words (inode_words n) 116 (omega (arith, length-inode_words))

pub fread-superblock_bytes :
    (sp : Superblock) → fread (superblock_bytes sp) 0 24 ≡ superblock_bytes sp
unfolding superblock_bytes superblock_words
fread-superblock_bytes sp = fread-words (superblock_words sp) 24 (omega arith)

-- A directory entry whose name fills the array.
pub record IsEntry (e : DirectoryEntry) : Type 0 where
  pub inode_index : IsInt e.inode_index
  pub length-filename : length e.filename ≡ 60

bytes_at-list :
    (m : Memory) (a : ℕ) (bs : List ℕ)
    → ((i : ℕ) → i < length bs → m (a + i) ≡ get_or bs i 0)
    → bytes_at m a (length bs) ≡ bs
unfolding bytes_at
bytes_at-list m a [] h = refl
bytes_at-list m a (b ∷ bs) h =
    let first : m a ≡ b = ap m (omega arith) ∙ h 0 (omega arith) in
    let rest : bytes_at m (a + 1) (length bs) ≡ bs =
      bytes_at-list m (a + 1) bs λ i lt. ap m (omega arith) ∙ h (suc i) (omega arith) in
    ap₂ ◌∷◌ first rest

int_at-entry_bytes : (e : DirectoryEntry) → IsEntry e → int_at (entry_bytes e) 0 ≡ e.inode_index
unfolding int_at word_at entry_bytes
int_at-entry_bytes e v =
    rw (bytes_of_word (word_of_int e.inode_index) (word_of_int-lt e.inode_index v.inode_index))
      (int_of_word-word_of_int e.inode_index v.inode_index)

entry_bytes-filename : (e : DirectoryEntry) (i : ℕ) → entry_bytes e (4 + i) ≡ get_or e.filename i 0
unfolding entry_bytes
entry_bytes-filename e i =
    rw (le→not_ltb (4 + i) 4 (omega arith)) (ap (λ k. get_or e.filename k 0) (omega arith))

entry_bytes-beyond : (e : DirectoryEntry) (k : ℕ) → IsEntry e → 64 ≤ k → entry_bytes e k ≡ 0
unfolding entry_bytes
entry_bytes-beyond e k v h =
    rw (le→not_ltb k 4 (omega arith))
      (get_or-beyond e.filename (k - 4) 0 (omega (arith, v.length-filename)))

-- A directory entry with an index in the range of an int and an array of 60 characters is read back
-- from its 64 bytes as it was written.
pub entry_at-entry_bytes : (e : DirectoryEntry) → IsEntry e → entry_at (entry_bytes e) ≡ e
unfolding entry_at
entry_at-entry_bytes e v = λ i. record {
  inode_index = int_at-entry_bytes e v i;
  filename = (rw v.length-filename at name) i;
}
  where
    name : bytes_at (entry_bytes e) 4 (length e.filename) ≡ e.filename
    name = bytes_at-list (entry_bytes e) 4 e.filename (λ j _. entry_bytes-filename e j)

pub fread-entry_bytes :
    (e : DirectoryEntry) → IsEntry e → fread (entry_bytes e) 0 64 ≡ entry_bytes e
unfolding fread
fread-entry_bytes e v = fun_ext λ k. elim (Bool-cases (ltb k 64)) [
  | inl inside ↦ rw inside (ap (entry_bytes e) (omega arith))
  | inr outside ↦ rw outside (sym (entry_bytes-beyond e k v (not_ltb→le k 64 outside)))
]
