-- ===== src/Keeps/Freed.antt =====
-- root_dir_entry once it is freed: cd and f_opendir on the root.
use mathlib.Core.Option.{some-injective}
use file_system_project.Prelude.{ℕ, ◌≡◌, refl, ap, sym, true, Option, none, some, [], ◌∷◌}
use file_system_project.Layout.{DirectoryEntry}
use file_system_project.Text.{Text, strtok, c_string}
use file_system_project.Access
use file_system_project.Store.{
  FileSystem, M, pure, and_then, ◌>>=◌, gets, modify, live_root, free_root,
}
use file_system_project.Disk.{get_inode}
use file_system_project.Table.{update_freehead, addto_file_table}
use file_system_project.Directory.Open.{
  open_root, walk, is_root, follow_opened, free_opened, f_opendir,
}
use file_system_project.Directory.Make.{named_entry}
use file_system_project.Shell.Paths.{goto_absolute, goto_destination}
use file_system_project.Shell.FileCommands.{goto_root, cd_builtin}
use file_system_project.Keeps.{Keeps, Keeps-pure, Keeps-elim, IsBesideTable, and_then-inversion}
use file_system_project.Keeps.Table.{Keeps-update_freehead}
use file_system_project.Keeps.Directory.{Keeps-open_root, Keeps-named_entry}
use file_system_project.Keeps.ReadOnly.{Looks, Looks-keeps}

-- root_dir_entry is freed.
record IsFreed (s : FileSystem) : Type 0 where
  freed : s.root_freed ≡ true

instance IsFreed-IsBesideTable : IsBesideTable IsFreed
IsFreed-IsBesideTable = record {
  slots = λ table v h. record { freed = v.freed };
  freehead = λ h v. record { freed = v.freed };
  freed = λ v. record { freed = refl };
  root = λ e v. record { freed = v.freed };
}

-- Undefined wherever root_dir_entry is freed.
record Fails {A : Type 0} (m : M A) : Type 0 where
  undefined_at : {s : FileSystem} → IsFreed s → m s ≡ none

module _ {A B : Type 0} where
  Fails-first : (m : M A) (f : A → M B) → Fails m → Fails (m >>= f)
  Fails-first m f fm = record { undefined_at = λ v. ap (λ r. and_then r f) (fm.undefined_at v) }

  fails_after :
      (r : Option (A × FileSystem)) (f : A → M B)
      → ((a : A) (s' : FileSystem) → r ≡ some (a, s') → f a s' ≡ none)
      → and_then r f ≡ none
  fails_after none f h = refl
  fails_after (some (a, s')) f h = h a s' refl

  Fails-bind : (m : M A) (f : A → M B) → Keeps IsFreed m → ((a : A) → Fails (f a)) → Fails (m >>= f)
  Fails-bind m f km ff = record {
    undefined_at = λ {s} v. fails_after (m s) f λ a s' e. (ff a).undefined_at (km.after v e);
  }

Fails-live_root : Fails live_root
unfolding live_root
Fails-live_root = record { undefined_at = λ v. rw v.freed refl }

Fails-follow_opened : (path : Text) → is_root path ≡ true → Fails (follow_opened path)
unfolding follow_opened
Fails-follow_opened path root = rw root Fails-live_root

Fails-f_opendir : (path : Text) → is_root path ≡ true → Fails (f_opendir path)
unfolding f_opendir
Fails-f_opendir path root =
    Fails-bind _ _ Keeps-open_root
      λ _. Fails-bind _ _ Keeps-update_freehead λ _. Fails-first _ _ (Fails-follow_opened path root)

abbrev slash : Text
slash = b'/' ∷ []

slash-is_root : is_root slash ≡ true
unfolding is_root strtok
slash-is_root = refl

Fails-cd_builtin :
    (fuel : ℕ) (command : Text) (pwd : DirectoryEntry) → Fails (cd_builtin fuel (command ∷ []) pwd)
unfolding cd_builtin goto_root goto_destination goto_absolute
Fails-cd_builtin fuel command pwd = Fails-first _ _ (
    Fails-bind _ _ (Keeps-named_entry pwd.inode_index (c_string pwd.filename))
      λ _. Fails-first _ _ (Fails-f_opendir slash slash-is_root))

-- Wherever the operation returns, root_dir_entry is freed.
record Frees {A : Type 0} (m : M A) : Type 0 where
  freed_after : {s s' : FileSystem} {a : A} → m s ≡ some (a, s') → IsFreed s'

module _ {A B : Type 0} where
  Frees-then : (m : M A) (f : A → M B) → ((a : A) → Frees (f a)) → Frees (m >>= f)
  Frees-then m f ff = record {
    freed_after =
        λ {s} h. let (a, s1, first, rest) = and_then-inversion (m s) f h in (ff a).freed_after rest;
  }

  Frees-first :
      (m : M A) (f : A → M B) → Frees m → ((a : A) → Keeps IsFreed (f a)) → Frees (m >>= f)
  Frees-first m f fm kf = record {
    freed_after = λ {s} h.
        let (a, s1, first, rest) = and_then-inversion (m s) f h in
        (kf a).after (fm.freed_after first) rest;
  }

Frees-free_root : Frees free_root
unfolding free_root
Frees-free_root =
    Frees-then live_root (λ _. modify (λ s. record s { root_freed = true }))
      λ _. record {
        freed_after =
            λ {s} h. record { freed = sym (ap (λ r. r.1.root_freed) (some-injective _ _ h)) };
      }

Frees-free_opened : (path : Text) → is_root path ≡ true → Frees (free_opened path)
unfolding free_opened
Frees-free_opened path root = rw root Frees-free_root

-- The operation gives no NULL.
record GivesEntry (m : M (Option DirectoryEntry)) : Type 0 where
  entry :
      {s s' : FileSystem} {r : Option DirectoryEntry}
      → m s ≡ some (r, s')
      → (e : DirectoryEntry) × (r ≡ some e)

GivesEntry-then :
    {A : Type 0} (m : M A) (f : A → M (Option DirectoryEntry))
    → ((a : A) → GivesEntry (f a))
    → GivesEntry (m >>= f)
GivesEntry-then m f gf = record {
  entry = λ {s} h. let (a, s1, first, rest) = and_then-inversion (m s) f h in (gf a).entry rest;
}

GivesEntry-f_opendir : GivesEntry (f_opendir slash)
unfolding f_opendir walk strtok
GivesEntry-f_opendir =
    let walked : DirectoryEntry → M (Option DirectoryEntry) =
      λ root. update_freehead >>= λ _. pure (some root) in
    let found : M (Option DirectoryEntry) = gets (λ s. s.root_dir_entry) >>= walked in
    let followed : M (Option DirectoryEntry) = follow_opened slash >>= λ _. found in
    let refreshed : M (Option DirectoryEntry) = update_freehead >>= λ _. followed in
    GivesEntry-then open_root (λ _. refreshed)
      λ _.
        GivesEntry-then update_freehead (λ _. followed)
          λ _.
            GivesEntry-then (follow_opened slash) (λ _. found)
              λ _. GivesEntry-then (gets (λ s. s.root_dir_entry)) walked λ root.
                GivesEntry-then update_freehead (λ _. pure (some root))
                  λ _. record {
                    entry = λ {s} h. (root, sym (ap (λ r. r.0) (some-injective _ _ h)));
                  }

module _ {B : Type 0} (missing : M B) (f : DirectoryEntry → M B)
    (ff : (e : DirectoryEntry) → Frees (f e)) where
  Frees-some :
      (r : Option DirectoryEntry) {e : DirectoryEntry}
      → r ≡ some e
      → Frees (elim r [ none ↦ missing | some e' ↦ f e' ])
  Frees-some none h = absurd cc
  Frees-some (some e) h = ff e

  Frees-entry :
      (m : M (Option DirectoryEntry))
      → GivesEntry m
      → Frees (m >>= λ r. elim r [ none ↦ missing | some e ↦ f e ])
  Frees-entry m gm = record {
    freed_after = λ {s} h.
        let (r, s1, first, rest) = and_then-inversion (m s) _ h in
        let (e, is_entry) = gm.entry first in (Frees-some r is_entry).freed_after rest;
  }

Frees-goto_absolute : Frees (goto_absolute slash)
unfolding goto_absolute
Frees-goto_absolute =
    Frees-entry (pure none) _
      (λ e. Frees-then (named_entry e.inode_index (c_string e.filename)) _ λ d.
        Frees-then (get_inode e.inode_index) _ λ node.
          Frees-then (addto_file_table node Access.append) _ λ fd.
            Frees-first (free_opened slash) _ (Frees-free_opened slash slash-is_root)
              λ u. Keeps-pure (some d))
      (f_opendir slash) GivesEntry-f_opendir

Frees-cd_builtin :
    (fuel : ℕ) (command : Text) (pwd : DirectoryEntry) → Frees (cd_builtin fuel (command ∷ []) pwd)
unfolding cd_builtin goto_root goto_destination
Frees-cd_builtin fuel command pwd =
    Frees-first _ _
      (Frees-then (named_entry pwd.inode_index (c_string pwd.filename)) _ λ d. Frees-goto_absolute)
      λ r. Keeps-elim r _ _ (Keeps-pure (some pwd)) λ e. Keeps-pure (some e)

-- If cd without an argument returns, root_dir_entry is freed, and it stays so whatever calls run and
-- return then, in any order and with any arguments, of f_open with the access READ, f_close, f_rewind,
-- f_seek, f_read, f_opendir, f_readdir, f_closedir and the commands cd, pwd, ls, cat and more: from
-- there f_opendir of a path with no name in it, such as `/`, is undefined, and so is one more cd
-- without an argument.
pub cd_builtin-free_root :
    {s1 s2 : FileSystem} {d : Option DirectoryEntry} (s : FileSystem) (fuel : ℕ) (command : Text)
    (pwd : DirectoryEntry)
    → cd_builtin fuel (command ∷ []) pwd s ≡ some (d, s1)
    → Looks s1 s2
    → (s2.root_freed ≡ true)
      × ((path : Text) → is_root path ≡ true → f_opendir path s2 ≡ none)
      × ((fuel' : ℕ) (command' : Text) (pwd' : DirectoryEntry)
          → cd_builtin fuel' (command' ∷ []) pwd' s2 ≡ none)
cd_builtin-free_root s fuel command pwd first looks =
    let freed = Looks-keeps IsFreed ((Frees-cd_builtin fuel command pwd).freed_after first) looks in
    (
      freed.freed,
      λ path root. (Fails-f_opendir path root).undefined_at freed,
      λ fuel' command' pwd'. (Fails-cd_builtin fuel' command' pwd').undefined_at freed,
    )
