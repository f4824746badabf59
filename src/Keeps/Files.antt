-- ===== src/Keeps/Files.antt =====
-- f_open, f_read and f_write keep what Keeps says.
use file_system_project.Prelude.{ℕ, zero, suc, Bool, Option, none, some, if◌then◌else◌}
use file_system_project.Prelude.Int.{ℤ, pos, negsuc, minus_one, ◌*ℤ◌, mod_ℤ}
use file_system_project.Memory.{Memory}
use file_system_project.Layout.{Inode, DirectoryEntry, block_size}
use file_system_project.Store.{FileSystem, M, FileTableEntry, pure, ◌>>=◌}
use file_system_project.Access
use file_system_project.Text.{Text, strtok, is_slash, path_of, split_last}
use file_system_project.File.Open.{
  take_slot, find_file, start_file, create_file, entry_rounds, open_in, f_open,
}
use file_system_project.File.Read.{Reading, read_blocks, read_times, f_read}
use file_system_project.File.Write.{
  Writing, copies_of, store_slot, write_block, write_loop, fill_block, write_regular, f_write,
}
use file_system_project.Keeps.{
  IsReady, IsReady-IsBesideTable, IsBesideTable, Keeps, keeps_rules, Keeps-pure, Keeps-undefined,
  Keeps-bind, Keeps-if, Keeps-elim, Keeps-table_entry, Keeps-set_table_entry,
}
use file_system_project.Keeps.Table.{
  table_rules, Keeps-get_inode, Keeps-get_fd_from_inode_value, Keeps-if_is_file,
}
use file_system_project.Keeps.BlockMap.{Keeps-find_next_datablock, Keeps-get_block_from_index}
use file_system_project.Keeps.Directory.{
  Keeps-nat, Keeps-f_readdir, Keeps-f_opendir, Keeps-free_opened, Keeps-named_entry,
  Keeps-append_entry_new_block, Keeps-append_entry_last_block,
}

module _ {P : FileSystem → Type 0} ⦃o : IsBesideTable P⦄ where
  pub Keeps-take_slot : (node : Inode) (access : ℤ) → Keeps P (take_slot node access)
  unfolding take_slot
  Keeps-take_slot node access = search table_rules depth 16

  Keeps-find_file : (rounds : ℕ) (fd : ℤ) (name : Text) → Keeps P (find_file rounds fd name)
  unfolding find_file
  Keeps-find_file zero fd name = Keeps-pure none
  Keeps-find_file (suc rounds) fd name = Keeps-bind _ _ (Keeps-f_readdir fd) λ r.
      Keeps-elim r _ _ (Keeps-pure none) λ e.
        Keeps-if _ _ _
          (Keeps-bind _ _ (Keeps-if_is_file e.inode_index)
            λ b. Keeps-if b _ _ (Keeps-pure (some e.inode_index)) (Keeps-find_file rounds fd name))
          (Keeps-find_file rounds fd name)

module _ {d : ℕ} where
  Keeps-start_file : (i parent access : ℤ) → Keeps (IsReady d) (start_file i parent access)
  unfolding start_file
  Keeps-start_file i parent access = search table_rules depth 40

  Keeps-start_if_written :
      (m : M (Option Inode)) (same : Bool) (i access : ℤ)
      → Keeps (IsReady d) m
      → Keeps (IsReady d) (
          m >>= λ written. elim written [
            | none ↦ pure minus_one
            | some node ↦ if same then start_file i node.inode_index access else pure minus_one
          ])
  Keeps-start_if_written m same i access km = Keeps-bind _ _ km λ written.
      Keeps-elim written _ _ (Keeps-pure minus_one) λ node.
        Keeps-if same _ _ (Keeps-start_file i node.inode_index access) (Keeps-pure minus_one)

  Keeps-create_file :
      (fd : ℤ) (name : Text) (access : ℤ) → Keeps (IsReady d) (create_file fd name access)
  unfolding create_file
  Keeps-create_file fd name access =
      search
        (
          Keeps-start_if_written, table_rules, Keeps-named_entry, Keeps-append_entry_new_block,
          Keeps-append_entry_last_block,
        )
        depth 40

  Keeps-open_in :
      (path : Text) (e : DirectoryEntry) (name : Text) (access : ℤ)
      → Keeps (IsReady d) (open_in path e name access)
  unfolding open_in
  Keeps-open_in path e name access =
      Keeps-bind _ _ (Keeps-get_fd_from_inode_value e.inode_index) λ fd.
        Keeps-bind _ _ (Keeps-table_entry fd) λ t. Keeps-bind _ _ (Keeps-set_table_entry fd _) λ _.
          Keeps-bind _ _ (Keeps-find_file (entry_rounds t.file_inode.size) fd name) λ found.
            Keeps-elim found _ _
              (Keeps-if _ _ _ (Keeps-bind _ _ (Keeps-free_opened path) λ _. Keeps-pure minus_one)
                (Keeps-create_file fd name access))
              λ i. Keeps-bind _ _ (Keeps-get_inode i) λ node.
                Keeps-bind _ _ (Keeps-take_slot node access)
                  λ fd. Keeps-bind _ _ (Keeps-free_opened path) λ _. Keeps-pure fd

module _ {P : FileSystem → Type 0} ⦃o : IsBesideTable P⦄ where
  Keeps-open_in-read :
      (path : Text) (e : DirectoryEntry) (name : Text) → Keeps P (open_in path e name Access.read)
  unfolding open_in
  Keeps-open_in-read path e name =
      Keeps-bind _ _ (Keeps-get_fd_from_inode_value e.inode_index) λ fd.
        Keeps-bind _ _ (Keeps-table_entry fd) λ t. Keeps-bind _ _ (Keeps-set_table_entry fd _) λ _.
          Keeps-bind _ _ (Keeps-find_file (entry_rounds t.file_inode.size) fd name) λ found.
            Keeps-elim found _ _ (Keeps-bind _ _ (Keeps-free_opened path) λ _. Keeps-pure minus_one)
              λ i. Keeps-bind _ _ (Keeps-get_inode i) λ node.
                Keeps-bind _ _ (Keeps-take_slot node Access.read)
                  λ fd. Keeps-bind _ _ (Keeps-free_opened path) λ _. Keeps-pure fd

  -- A file that is not there is not made when it is opened to be read.
  pub Keeps-f_open-read : (filepath : Text) → Keeps P (f_open filepath Access.read)
  unfolding f_open
  Keeps-f_open-read filepath =
      Keeps-elim (split_last (strtok is_slash filepath)) _ _ Keeps-undefined λ p.
        Keeps-bind _ _ (Keeps-f_opendir (path_of p.0)) λ found.
          Keeps-elim found _ _ (Keeps-pure _) λ parent. Keeps-open_in-read (path_of p.0) parent p.1

module _ {d : ℕ} where
  pub Keeps-f_open : (filepath : Text) (access : ℤ) → Keeps (IsReady d) (f_open filepath access)
  unfolding f_open
  Keeps-f_open filepath access =
      Keeps-elim (split_last (strtok is_slash filepath)) _ _ Keeps-undefined λ p.
        Keeps-bind _ _ (Keeps-f_opendir (path_of p.0)) λ found.
          Keeps-elim found _ _ (Keeps-pure _)
            λ parent. Keeps-open_in (path_of p.0) parent p.1 access

module _ {P : FileSystem → Type 0} ⦃o : IsBesideTable P⦄ where
  Keeps-read_blocks :
      (fuel : ℕ) (node : Inode) (n : ℤ) (r : Reading) → Keeps P (read_blocks fuel node n r)
  unfolding read_blocks
  Keeps-read_blocks zero node n r = Keeps-undefined
  Keeps-read_blocks (suc fuel) node n r =
      Keeps-if _ _ _
        (Keeps-bind _ _ (Keeps-get_block_from_index r.block_to_read node) λ found.
          Keeps-elim found _ _ Keeps-undefined λ p.
            Keeps-bind _ _ (Keeps-nat r.block_offset)
              λ _. Keeps-bind _ _ (Keeps-nat _) λ count. Keeps-read_blocks fuel node _ _)
        (Keeps-pure r)

  Keeps-read_times : (n : ℕ) (node : Inode) (o : ℤ) (r : Reading) → Keeps P (read_times n node o r)
  unfolding read_times
  Keeps-read_times zero node o r = Keeps-pure r
  Keeps-read_times (suc n) node o r =
      let r1 = record r { block_offset = mod_ℤ o block_size } in
      Keeps-bind _ _ (Keeps-read_blocks 3 node r1.size r1) λ r'. Keeps-read_times n node o r'

  pub Keeps-f_read :
      (buffer : Memory) (size n_times fd : ℤ) → Keeps P (f_read buffer size n_times fd)
  unfolding f_read
  Keeps-f_read buffer size n_times fd = search (table_rules, Keeps-nat, Keeps-read_times) depth 30

  Keeps-copies_of : (n k : ℤ) (buffer : Memory) → Keeps P (copies_of n k buffer)
  Keeps-copies_of (pos zero) k buffer = search keeps_rules
  Keeps-copies_of (pos (suc n)) k buffer = search (keeps_rules, Keeps-nat)
  Keeps-copies_of (negsuc n) k buffer = search keeps_rules

module _ {d : ℕ} where
  Keeps-store_slot : (fd : ℤ) (t : FileTableEntry) → Keeps (IsReady d) (store_slot fd t)
  unfolding store_slot
  Keeps-store_slot fd t = search table_rules depth 12

  Keeps-write_block :
      (fd : ℤ) (m : Memory) (old : ℤ) (w : Writing) → Keeps (IsReady d) (write_block fd m old w)
  unfolding write_block
  Keeps-write_block fd m old w =
      search (table_rules, Keeps-find_next_datablock, Keeps-store_slot) depth 30

  Keeps-write_loop :
      (fuel : ℕ) (fd : ℤ) (m : Memory) (old : ℤ) (w : Writing)
      → Keeps (IsReady d) (write_loop fuel fd m old w)
  unfolding write_loop
  Keeps-write_loop zero fd m old w = Keeps-undefined
  Keeps-write_loop (suc fuel) fd m old w =
      search (table_rules, Keeps-write_block, Keeps-write_loop fuel fd) depth 20

  Keeps-fill_block :
      (fd index : ℤ) (last_block m : Memory) (old : ℤ) (total offset : ℕ)
      → Keeps (IsReady d) (fill_block fd index last_block m old total offset)
  unfolding fill_block
  Keeps-fill_block fd index last_block m old total offset =
      search (table_rules, Keeps-find_next_datablock, Keeps-store_slot) depth 40

  Keeps-write_regular :
      (buffer : Memory) (size n fd : ℤ) → Keeps (IsReady d) (write_regular buffer size n fd)
  unfolding write_regular
  Keeps-write_regular buffer size n fd = Keeps-bind _ _ (Keeps-nat (size *ℤ n)) λ total.
      Keeps-bind _ _ (Keeps-copies_of n size buffer) λ m. Keeps-bind _ _ (Keeps-table_entry fd) λ t.
        Keeps-bind _ _ (Keeps-get_block_from_index _ t.file_inode) λ found.
          Keeps-elim found _ _ Keeps-undefined
            λ p. search (table_rules, Keeps-nat, Keeps-fill_block, Keeps-write_loop) depth 40

  pub Keeps-f_write :
      (buffer : Memory) (size n fd : ℤ) → Keeps (IsReady d) (f_write buffer size n fd)
  unfolding f_write
  Keeps-f_write buffer size n fd = search (table_rules, Keeps-write_regular) depth 20
