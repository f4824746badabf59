-- ===== src/Access.antt =====
-- `enum access` of filesystem.h, the mode that a slot of the file table was opened with.
use file_system_project.Prelude.Int.{ℤ, pos}

abbrev pub read : ℤ
read = pos 0

abbrev pub write : ℤ
write = pos 1

abbrev pub read_and_write : ℤ
read_and_write = pos 2

abbrev pub append : ℤ
append = pos 3
