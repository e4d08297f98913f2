-- ===== src/BinaryIo/Tests.antt =====
-- Tests of src/util/binary_io.h.
use nasdaq_moldudp64_feed_si.Prelude.{◌≡◌, refl, [], ◌∷◌, arith}
use nasdaq_moldudp64_feed_si.BinaryIo.{
  little, big, byteswap, le_bytes, le_value, object_value, object_bytes, to_be, read, read_be,
  write_be, write, write_bytes, read_at_be, write_at_be,
}
use nasdaq_moldudp64_feed_si.BinaryIo.BigEndian.{read_at_be-write_at_be}

read_be-runs : read_be little 2 (9 ∷ 1 ∷ 2 ∷ []) 1 ≡ (258, 3)
unfolding read_be read object_value le_value to_be byteswap le_bytes
read_be-runs = refl

write_be-runs : write_be little 2 (9 ∷ 9 ∷ 9 ∷ []) 1 258 ≡ (9 ∷ 1 ∷ 2 ∷ [], 3)
unfolding write_be write write_bytes object_bytes to_be byteswap le_bytes le_value
write_be-runs = refl

read_at_be-write_at_be_example :
    read_at_be big 2 (write_at_be little 2 (9 ∷ 9 ∷ 9 ∷ []) 1 258) 1 ≡ 258
read_at_be-write_at_be_example =
    read_at_be-write_at_be little big 2 (9 ∷ 9 ∷ 9 ∷ []) 1 258 (omega arith) (omega arith)
      (omega arith)
