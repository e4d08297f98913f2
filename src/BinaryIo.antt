-- ===== src/BinaryIo.antt =====
-- src/util/binary_io.h: integers in byte buffers, on a host of either byte order.
-- A span is the list of its bytes. A template parameter `T` is the width of `T` in bytes.
pub mod Bytes
pub mod BigEndian
mod Tests
use nasdaq_moldudp64_feed_si.Prelude.{
  ℕ, zero, suc, ◌%◌, ◌/◌, ◌+◌, ◌*◌, ◌<◌, List, [], ◌∷◌, reverse, length, take, drop, splice,
  add_size,
}

-- `std::endian::native`
pub data Endian : Type 0 where
  little big : Endian

abbrev pub IsByte : ℕ → Type 0
IsByte b = b < 256

-- The `width` low bytes of `v`, lowest first, and the number that such bytes make.
unfoldable pub le_bytes : ℕ → ℕ → List ℕ
le_bytes zero v = []
le_bytes (suc width) v = v % 256 ∷ le_bytes width (v / 256)

unfoldable pub le_value : List ℕ → ℕ
le_value [] = 0
le_value (b ∷ bs) = b + 256 * le_value bs

-- What `memcpy` copies out of and into an unsigned integer object.
unfoldable pub object_bytes : Endian → ℕ → ℕ → List ℕ
object_bytes little width v = le_bytes width v
object_bytes big width v = reverse (le_bytes width v)

unfoldable pub object_value : Endian → List ℕ → ℕ
object_value little bytes = le_value bytes
object_value big bytes = le_value (reverse bytes)

-- `std::byteswap`
unfoldable pub byteswap : ℕ → ℕ → ℕ
byteswap width v = le_value (reverse (le_bytes width v))

unfoldable pub to_be : Endian → ℕ → ℕ → ℕ
to_be big width value = value
to_be little width value = byteswap width value

-- The value and the position past it.
unfoldable pub read : Endian → ℕ → List ℕ → ℕ → ℕ × ℕ
unfolding object_value
read host width buf pos = (object_value host (take width (drop pos buf)), add_size pos width)

-- Both overloads of `write` copy bytes: those of an integer, and those of a byte range.
unfoldable pub write_bytes : List ℕ → ℕ → List ℕ → List ℕ × ℕ
write_bytes buf pos bytes = (splice buf pos bytes, add_size pos (length bytes))

unfoldable pub write : Endian → ℕ → List ℕ → ℕ → ℕ → List ℕ × ℕ
unfolding object_bytes write_bytes
write host width buf pos value = write_bytes buf pos (object_bytes host width value)

unfoldable pub read_at : Endian → ℕ → List ℕ → ℕ → ℕ
unfolding read
read_at host width buf offset = (read host width buf offset).0

unfoldable pub write_at : Endian → ℕ → List ℕ → ℕ → ℕ → List ℕ
unfolding write
write_at host width buf offset value = (write host width buf offset value).0

unfoldable pub write_bytes_at : List ℕ → ℕ → List ℕ → List ℕ
unfolding write_bytes
write_bytes_at buf offset bytes = (write_bytes buf offset bytes).0

unfoldable pub read_be : Endian → ℕ → List ℕ → ℕ → ℕ × ℕ
unfolding read to_be byteswap
read_be host width buf pos =
    let (value, pos') = read host width buf pos in (to_be host width value, pos')

unfoldable pub write_be : Endian → ℕ → List ℕ → ℕ → ℕ → List ℕ × ℕ
unfolding write to_be byteswap
write_be host width buf pos value = write host width buf pos (to_be host width value)

unfoldable pub read_at_be : Endian → ℕ → List ℕ → ℕ → ℕ
unfolding read_at to_be byteswap
read_at_be host width buf offset = to_be host width (read_at host width buf offset)

unfoldable pub write_at_be : Endian → ℕ → List ℕ → ℕ → ℕ → List ℕ
unfolding write_at to_be byteswap
write_at_be host width buf offset value = write_at host width buf offset (to_be host width value)
