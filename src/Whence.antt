-- ===== src/Whence.antt =====
-- `enum whence` of filesystem.h, what an offset of `f_seek` counts from.
use file_system_project.Prelude.Int.{ℤ, pos}

abbrev pub seek_set : ℤ
seek_set = pos 0

abbrev pub seek_cur : ℤ
seek_cur = pos 1

abbrev pub seek_end : ℤ
seek_end = pos 2
