-- ===== src/Memory.antt =====
-- The bytes that the C code moves about: the disk image behind `disk_image_ptr` and the buffers
-- that `malloc` and `memset` make (filesystem.c, format.c). Both are a byte for each address; an
-- image is 0 past its end, as is a cleared buffer that a short `fread` leaves alone.
pub mod Transfer
pub mod Words
use file_system_project.Prelude.{
  ℕ, zero, suc, ◌+◌, ◌-◌, ◌*◌, ◌/◌, ◌%◌, ◌^◌, Bool, ◌&&◌, List, [], ◌∷◌, ltb, leb, if◌then◌else◌,
  get_or,
}
use file_system_project.Prelude.Int.{ℤ, pos, negsuc}

abbrev pub Memory : Type 0
Memory = ℕ → ℕ

-- A buffer after `memset(buffer, 0, n)`.
abbrev pub cleared : Memory
cleared _ = 0

-- `fread(buffer, n, 1, file)` at position `offset`, into a cleared buffer.
unfoldable pub fread : Memory → ℕ → ℕ → Memory
fread file offset n k = if ltb k n then file (offset + k) else 0

-- `fwrite(buffer, n, 1, file)` at position `offset`; also `memcpy(target + offset, source, n)`.
unfoldable pub fwrite : Memory → ℕ → Memory → ℕ → Memory
fwrite file offset buffer n a =
    if leb offset a && ltb a (offset + n) then buffer (a - offset) else file a

-- A 32-bit word, the low byte first, as x86-64 stores it.
unfoldable pub word_at : Memory → ℕ → ℕ
word_at m a = m a + 256 * m (a + 1) + 65536 * m (a + 2) + 16777216 * m (a + 3)

-- Byte `j` of a word.
unfoldable pub byte_of : ℕ → ℕ → ℕ
byte_of w j = w / 256 ^ j % 256

-- The two's complement of an `int`, and back.
unfoldable pub word_of_int : ℤ → ℕ
word_of_int (pos n) = n
word_of_int (negsuc n) = 4294967295 - n

unfoldable pub int_of_word : ℕ → ℤ
int_of_word w = if ltb w 2147483648 then pos w else negsuc (4294967295 - w)

unfoldable pub int_at : Memory → ℕ → ℤ
int_at m a = int_of_word (word_at m a)

-- An `int` array of n elements at an address.
unfoldable pub ints_at : Memory → ℕ → ℕ → List ℤ
ints_at m a zero = []
ints_at m a (suc n) = int_at m a ∷ ints_at m (a + 4) n

-- A `char` array of n elements at an address.
unfoldable pub bytes_at : Memory → ℕ → ℕ → List ℕ
bytes_at m a zero = []
bytes_at m a (suc n) = m a ∷ bytes_at m (a + 1) n

-- A struct whose members are these words, in order.
unfoldable pub words : List ℕ → Memory
words ws a = byte_of (get_or ws (a / 4) 0) (a % 4)
