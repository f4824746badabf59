-- ===== src/Directory/OpenChild.antt =====
-- f_opendir (filesystem.c) of a directory in the root, with no file open.
use file_system_project.Prelude.{
  Bool-cases, inl, inr, ℕ, ◌<◌, ◌≡◌, refl, ◌∙◌, false, some, List, [], ◌∷◌, arith, set, length,
}
use file_system_project.Prelude.Int.{pos, ◌==ℤ◌}
use file_system_project.Layout.{Inode, DirectoryEntry}
use file_system_project.Access
use file_system_project.Text.{Text, strtok, is_slash_or_quote}
use file_system_project.Store.{FileSystem, FileTableEntry, ◌>>=◌, live_root}
use file_system_project.Disk.Geometry.{IsMounted, InRegion, inode_of, get_inode-ok}
use file_system_project.Table.{
  setup_file_table, first_entry, find_next_freehead, update_freehead, already_in_table,
}
use file_system_project.Directory.Contents.{Holds}
use file_system_project.Directory.Lookup.{find_named, position_after, scan-find_named}
use file_system_project.Directory.Open.{
  open_root, leave, enter, walk, scan, is_root, follow_opened, f_opendir,
}

-- A slot that f_opendir opens on a directory.
abbrev pub directory_slot : Inode → ℕ → FileTableEntry
directory_slot node o = record {
  free_file = false;
  file_inode = node;
  byte_offset = pos o;
  access = Access.read_and_write;
}

abbrev pub root_name : DirectoryEntry → DirectoryEntry
root_name e = record { inode_index = pos 0; filename = set (set e.filename 0 b'/') 1 0 }

-- The state with the root's directory in slot 0, at a position, and no other slot taken.
abbrev pub at_root : FileSystem → ℕ → FileSystem
at_root s o = record s {
  file_table = set setup_file_table 0 (directory_slot (inode_of s.disk_image 0) o);
  table_freehead = pos 1;
  root_dir_entry = root_name s.root_dir_entry;
}

-- And with the directory of inode k in slot 1.
abbrev pub at_child : FileSystem → ℕ → FileSystem
at_child s k = record s {
  file_table =
      set (set setup_file_table 0 (directory_slot (inode_of s.disk_image 0) 0)) 1
        (directory_slot (inode_of s.disk_image k) 0);
  table_freehead = pos 2;
  root_dir_entry = root_name s.root_dir_entry;
}

live_root-live : (s : FileSystem) → s.root_freed ≡ false → live_root s ≡ some (tt, s)
unfolding live_root
live_root-live s live = rw live refl

module _ {d : ℕ} {s : FileSystem} (v : IsMounted d s) (empty : s.file_table ≡ setup_file_table)
    (inside : InRegion d 0) (live : s.root_freed ≡ false) where
  IsMounted-at_root : IsMounted d (at_root s 0)
  IsMounted-at_root = record {
    size = v.size;
    inode_offset = v.inode_offset;
    data_offset = v.data_offset;
    small = v.small;
  }

  follow_opened-live : (path : Text) → follow_opened path (at_root s 0) ≡ some (tt, at_root s 0)
  unfolding follow_opened
  follow_opened-live path = elim (Bool-cases (is_root path)) [
    | inl root ↦ rw root (live_root-live (at_root s 0) live)
    | inr below ↦ rw below refl
  ]

  -- The walk starts at the root.
  pub f_opendir-at_root :
      (path : Text)
      → f_opendir path s
        ≡ walk (strtok is_slash_or_quote path) (pos 0) (root_name s.root_dir_entry) (at_root s 0)
  unfolding f_opendir open_root update_freehead find_next_freehead first_entry setup_file_table
  f_opendir-at_root path =
      rw
        (
          get_inode-ok v 0 inside,
          empty,
          live_root-live
              (record s {
                file_table = set setup_file_table 0 (directory_slot (inode_of s.disk_image 0) 0);
              })
              live,
          follow_opened-live path,
        )
        refl

  leave-at_root : (o : ℕ) → leave (pos 0) (at_root s o) ≡ some (tt, at_root s o)
  unfolding leave update_freehead find_next_freehead first_entry setup_file_table
  leave-at_root o = refl

  module _ (e : DirectoryEntry) (k : ℕ) (index : e.inode_index ≡ pos k) (other : 0 < k)
      (in_region : InRegion d k) (root_index : (inode_of s.disk_image 0).inode_index ≡ pos 0)
      (child_index : (inode_of s.disk_image k).inode_index ≡ pos k) where
    not_open : (pos 0 ==ℤ pos k) ≡ false
    not_open = ground arith

    enter-at_root : (enter e >>= λ j. walk [] j e) (at_root s 0) ≡ some (some e, at_child s k)
    unfolding enter walk already_in_table update_freehead find_next_freehead first_entry
        setup_file_table
    enter-at_root =
        rw (index, get_inode-ok IsMounted-at_root k in_region, child_index, root_index, not_open)
          refl

  module _ (es : List DirectoryEntry) (h : Holds d s.disk_image (inode_of s.disk_image 0) es)
      (token : Text) where
    scan-at_root :
        scan (pos 0) token (at_root s 0)
        ≡ some (find_named token es, at_root s (position_after (find_named token es) (length es)))
    unfolding setup_file_table
    scan-at_root =
        scan-find_named IsMounted-at_root 0 (directory_slot (inode_of s.disk_image 0) 0) token es h
          (omega arith) refl

    pub f_opendir-child :
        (path : Text) (e : DirectoryEntry) (k : ℕ)
        → strtok is_slash_or_quote path ≡ token ∷ []
        → find_named token es ≡ some e
        → e.inode_index ≡ pos k
        → 0 < k
        → InRegion d k
        → (inode_of s.disk_image 0).inode_index ≡ pos 0
        → (inode_of s.disk_image k).inode_index ≡ pos k
        → f_opendir path s ≡ some (some e, at_child s k)
    unfolding walk
    f_opendir-child path e k one_name found index other in_region root_index child_index =
        f_opendir-at_root path
        ∙ rw (one_name, scan-at_root, found, leave-at_root 0)
            (enter-at_root e k index other in_region root_index child_index)
