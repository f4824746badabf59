-- ===== src/Tests/Files.antt =====
-- The file commands run on a small disk.
use mathlib.Core.Option
use file_system_project.Keeps.ReadOnly
use file_system_project.Keeps.ReadOnly.{Looks}
use file_system_project.Keeps.Freed.{cd_builtin-free_root}
use file_system_project.Prelude.Int.{pos}
use file_system_project.Prelude.{ℕ}
use file_system_project.Prelude.{true, ◌≡◌, refl, none, some, [], ◌∷◌, Option, List, ◌+◌, ◌*◌}
use file_system_project.Store.{live_root, free_root, FileSystem, M, ◌>>=◌, ◌>>◌}
use file_system_project.Format.{formatted_inode}
use file_system_project.Shell.FileCommands.{Line, pwd_builtin}
use file_system_project.Text.{Text}
use file_system_project.Shell.Paths.{followed}
use file_system_project.Tests.{slash, small_disk, image}
use file_system_project.Memory.{
  fread, fwrite, word_at, byte_of, word_of_int, int_of_word, int_at, ints_at, bytes_at, words,
}
use file_system_project.Layout.{
  DirectoryEntry, entry_bytes, entry_at, inode_words, inode_bytes, inode_at,
}
use file_system_project.Disk.{
  get_data_block, write_data_to_block, update_superblock_ondisk, get_inode,
  update_single_inode_ondisk,
}
use file_system_project.Table.{
  setup_file_table, first_entry, find_next_freehead, already_in_table, get_fd_from_inode_value,
  get_table_entry, update_freehead, f_rewind, addto_file_table,
}
use file_system_project.Directory.{indirect_copy, near_entry, advance, read_entry, f_readdir}
use file_system_project.Directory.Open.{follow_opened, free_opened, is_root, f_opendir}
use file_system_project.Directory.Make.{make_directory, f_mkdir}
use file_system_project.Text.{c_string, text_eq, strcpy, strtok, path_of, split_last}
use file_system_project.Format.{formatted_block}
use file_system_project.Shell.Paths.{
  goto_absolute, inode_of_slot, get_parentdir_name, enter_found, search_entries, goto_token,
  goto_tokens, goto_destination, convert_absolute,
}
use file_system_project.Shell.FileCommands.{goto_root, mkdir_builtin, cd_builtin, ls_builtin}

-- Inodes 0 and 1 and block 0, the root directory, are those of a formatted disk.
abbrev formatted : FileSystem
formatted = record small_disk {
  disk_image =
      fwrite
        (fwrite (fwrite image 1024 (inode_bytes (formatted_inode 52 0)) 116) 1140
          (inode_bytes (formatted_inode 52 1)) 116)
        (1024 + 12 * 512) (formatted_block 1940 0) 512;
}

-- `mkdir a` and `ls -F` in the root.
abbrev made_and_listed : M (Option (List Line))
made_and_listed = do
  f_opendir (b'/' ∷ [])
  mkdir_builtin 5 ([] ∷ (b'a' ∷ []) ∷ []) slash
  ls_builtin 5 ([] ∷ (b'-' ∷ b'F' ∷ []) ∷ []) slash

made_and_listed_lines :
    Option.map (λ r. r.0) (made_and_listed formatted)
    ≡ some (some (Line.name_with_slash (b'a' ∷ []) ∷ []))
unfolding live_root follow_opened is_root fread fwrite word_at byte_of word_of_int int_of_word
    int_at ints_at bytes_at words entry_bytes entry_at inode_words inode_bytes inode_at
    get_data_block write_data_to_block update_superblock_ondisk get_inode update_single_inode_ondisk
    setup_file_table first_entry find_next_freehead already_in_table get_fd_from_inode_value
    get_table_entry update_freehead f_rewind addto_file_table indirect_copy near_entry advance
    read_entry f_readdir f_opendir make_directory f_mkdir c_string text_eq strcpy strtok path_of
    split_last inode_of_slot goto_tokens goto_destination convert_absolute mkdir_builtin ls_builtin
made_and_listed_lines = refl

-- `cd` in the root.
abbrev entered_root : M (Option DirectoryEntry)
entered_root = cd_builtin 5 ([] ∷ []) slash

entered_root_freed : Option.map (λ r. r.1.root_freed) (entered_root formatted) ≡ some true
unfolding live_root free_root free_opened goto_root goto_absolute follow_opened is_root pwd_builtin
    fread fwrite word_at byte_of word_of_int int_of_word int_at ints_at bytes_at words entry_bytes
    entry_at inode_words inode_bytes inode_at get_data_block write_data_to_block
    update_superblock_ondisk get_inode update_single_inode_ondisk setup_file_table first_entry
    find_next_freehead already_in_table get_fd_from_inode_value get_table_entry update_freehead
    f_rewind addto_file_table indirect_copy near_entry advance read_entry f_readdir f_opendir
    make_directory f_mkdir c_string text_eq strcpy strtok path_of split_last formatted_block
    inode_of_slot get_parentdir_name enter_found search_entries goto_token goto_tokens
    goto_destination convert_absolute mkdir_builtin cd_builtin
entered_root_freed = refl

-- The states behind that `cd`, and behind f_rewind of the root.
abbrev root_entered : FileSystem
root_entered = elim (entered_root formatted) [ none ↦ formatted | some r ↦ r.1 ]

abbrev entered : Option DirectoryEntry
entered = elim (entered_root formatted) [ none ↦ none | some r ↦ r.0 ]

root_entered_lem : entered_root formatted ≡ some (entered, root_entered)
unfolding live_root free_root free_opened goto_root goto_absolute follow_opened is_root pwd_builtin
    fread fwrite word_at byte_of word_of_int int_of_word int_at ints_at bytes_at words entry_bytes
    entry_at inode_words inode_bytes inode_at get_data_block write_data_to_block
    update_superblock_ondisk get_inode update_single_inode_ondisk setup_file_table first_entry
    find_next_freehead already_in_table get_fd_from_inode_value get_table_entry update_freehead
    f_rewind addto_file_table indirect_copy near_entry advance read_entry f_readdir f_opendir
    make_directory f_mkdir c_string text_eq strcpy strtok path_of split_last formatted_block
    inode_of_slot get_parentdir_name enter_found search_entries goto_token goto_tokens
    goto_destination convert_absolute mkdir_builtin cd_builtin
root_entered_lem = refl

abbrev root_rewound : FileSystem
root_rewound = elim (f_rewind (pos 0) root_entered) [ none ↦ formatted | some r ↦ r.1 ]

root_rewound-Looks : Looks root_entered root_rewound
unfolding live_root free_root free_opened goto_root goto_absolute follow_opened is_root pwd_builtin
    fread fwrite word_at byte_of word_of_int int_of_word int_at ints_at bytes_at words entry_bytes
    entry_at inode_words inode_bytes inode_at get_data_block write_data_to_block
    update_superblock_ondisk get_inode update_single_inode_ondisk setup_file_table first_entry
    find_next_freehead already_in_table get_fd_from_inode_value get_table_entry update_freehead
    f_rewind addto_file_table indirect_copy near_entry advance read_entry f_readdir f_opendir
    make_directory f_mkdir c_string text_eq strcpy strtok path_of split_last formatted_block
    inode_of_slot get_parentdir_name enter_found search_entries goto_token goto_tokens
    goto_destination convert_absolute mkdir_builtin cd_builtin
root_rewound-Looks = ReadOnly.next ReadOnly.here (ReadOnly.rewind_file (pos 0) refl)

cd_builtin-free_root_example :
    (root_rewound.root_freed ≡ true)
    × ((path : Text) → is_root path ≡ true → f_opendir path root_rewound ≡ none)
    × ((fuel : ℕ) (command : Text) (pwd : DirectoryEntry)
        → cd_builtin fuel (command ∷ []) pwd root_rewound ≡ none)
cd_builtin-free_root_example =
    cd_builtin-free_root formatted 5 [] slash root_entered_lem root_rewound-Looks

-- `mkdir a`, `cd a` and `pwd`.
abbrev made_and_entered : M (Option Text)
made_and_entered = do
  f_opendir (b'/' ∷ [])
  mkdir_builtin 5 ([] ∷ (b'a' ∷ []) ∷ []) slash
  d ← cd_builtin 5 ([] ∷ (b'a' ∷ []) ∷ []) slash
  e ← followed d
  pwd_builtin 5 e

-- The inode that `addto_file_table` has freed is read.
pwd_in_a : made_and_entered formatted ≡ none
unfolding live_root follow_opened is_root pwd_builtin fread fwrite word_at byte_of word_of_int
    int_of_word int_at ints_at bytes_at words entry_bytes entry_at inode_words inode_bytes inode_at
    get_data_block write_data_to_block update_superblock_ondisk get_inode update_single_inode_ondisk
    setup_file_table first_entry find_next_freehead already_in_table get_fd_from_inode_value
    get_table_entry update_freehead f_rewind addto_file_table indirect_copy near_entry advance
    read_entry f_readdir f_opendir make_directory f_mkdir c_string text_eq strcpy strtok path_of
    split_last formatted_block inode_of_slot get_parentdir_name enter_found search_entries
    goto_token goto_tokens goto_destination convert_absolute mkdir_builtin cd_builtin
pwd_in_a = refl
