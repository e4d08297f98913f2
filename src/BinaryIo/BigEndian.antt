-- ===== src/BinaryIo/BigEndian.antt =====
-- The `_be` functions read and write the bytes of the wire, whatever the host's byte order.
use nasdaq_moldudp64_feed_si.Prelude.{
  ℕ, zero, suc, ◌+◌, ◌^◌, ◌≤◌, ◌<◌, ◌≡◌, refl, sym, ap, ◌∙◌, subst, List, [], ◌∷◌, ◌++◌, overwrite,
  length-splice, reverse, length, take, drop, splice, add_size, All, All-take, All-drop,
  length-take, length-drop, length-reverse, splice-append, arith,
}
use nasdaq_moldudp64_feed_si.BinaryIo.{
  Endian, little, big, IsByte, le_bytes, le_value, object_bytes, object_value, byteswap, to_be,
  read, write, read_at, write_at, write_bytes, read_be, read_at_be, write_at_be,
}
use nasdaq_moldudp64_feed_si.BinaryIo.Bytes.{
  be_value, be_bytes, be_bytes-IsByte, le_bytes-le_value, le_value-reverse, be_value-be_bytes,
  length-be_bytes, length-le_bytes, le_bytes-IsByte, reverse-IsByte,
}

-- An integer loaded from memory and passed through `to_be` is what its bytes make, highest first.
to_be-object_value :
    (host : Endian) (bs : List ℕ)
    → All IsByte bs
    → to_be host (length bs) (object_value host bs) ≡ be_value bs
unfolding to_be object_value byteswap
to_be-object_value little bs h =
    ap (λ x. le_value (reverse x)) (le_bytes-le_value bs h) ∙ le_value-reverse bs
to_be-object_value big bs h = le_value-reverse bs

-- An integer passed through `to_be` and stored is its bytes, highest first.
object_bytes-to_be : (host : Endian) (w v : ℕ) → object_bytes host w (to_be host w v) ≡ be_bytes w v
unfolding to_be object_bytes byteswap be_bytes
object_bytes-to_be little w v =
    ap (λ n. le_bytes n (le_value (reverse (le_bytes w v)))) (sym width)
    ∙ le_bytes-le_value (reverse (le_bytes w v)) (reverse-IsByte _ (le_bytes-IsByte w v))
  where
    width : length (reverse (le_bytes w v)) ≡ w
    width = length-reverse (le_bytes w v) ∙ length-le_bytes w v
object_bytes-to_be big w v = refl

length-field :
    (w pos : ℕ) (buf : List ℕ) → pos + w ≤ length buf → length (take w (drop pos buf)) ≡ w
length-field w pos buf h = omega (arith, length-take w (drop pos buf), length-drop pos buf)

-- On either host, `read_be` of `w` bytes that lie within a buffer of bytes gives the number that
-- they make with the highest byte first, and the position `w` further on.
pub read_be_lem :
    (host : Endian) (w : ℕ) (buf : List ℕ) (pos : ℕ)
    → All IsByte buf
    → pos + w ≤ length buf
    → read_be host w buf pos ≡ (be_value (take w (drop pos buf)), add_size pos w)
unfolding read_be read
read_be_lem host w buf pos bytes h =
    ap (λ v. (v, add_size pos w))
      (subst
        (λ n.
          to_be host n (object_value host (take w (drop pos buf)))
          ≡ be_value (take w (drop pos buf)))
        (length-field w pos buf h)
        (to_be-object_value host (take w (drop pos buf))
          (All-take IsByte w (drop pos buf) (All-drop IsByte pos buf bytes))))

pub read_at_be_lem :
    (host : Endian) (w : ℕ) (buf : List ℕ) (pos : ℕ)
    → All IsByte buf
    → pos + w ≤ length buf
    → read_at_be host w buf pos ≡ be_value (take w (drop pos buf))
unfolding read_at_be read_at read_be
read_at_be_lem host w buf pos bytes h = ap (λ p. p.0) (read_be_lem host w buf pos bytes h)

-- On either host, `write_at_be` stores the `w` bytes of the value, highest first.
pub write_at_be_lem :
    (host : Endian) (w : ℕ) (buf : List ℕ) (offset v : ℕ)
    → write_at_be host w buf offset v ≡ splice buf offset (be_bytes w v)
unfolding write_at_be write_at write write_bytes
write_at_be_lem host w buf offset v = ap (splice buf offset) (object_bytes-to_be host w v)

-- Written over a field of its width, a value replaces that field and nothing else.
pub write_at_be_field :
    (host : Endian) (w : ℕ) (a b c : List ℕ) (v offset : ℕ)
    → length b ≡ w
    → length a ≡ offset
    → write_at_be host w (a ++ (b ++ c)) offset v ≡ a ++ (be_bytes w v ++ c)
write_at_be_field host w a b c v offset h e =
    write_at_be_lem host w (a ++ (b ++ c)) offset v
    ∙ ap (λ o. splice (a ++ (b ++ c)) o (be_bytes w v)) (sym e)
    ∙ splice-append a b c (be_bytes w v) (length-be_bytes w v ∙ sym h)

overwrite-IsByte :
    (buf ds : List ℕ) → All IsByte buf → All IsByte ds → All IsByte (overwrite buf ds)
overwrite-IsByte [] ds hb hd = tt
overwrite-IsByte (b ∷ buf) [] hb hd = hb
overwrite-IsByte (b ∷ buf) (d ∷ ds) hb hd = (hd.0, overwrite-IsByte buf ds hb.1 hd.1)

splice-IsByte :
    (buf : List ℕ) (i : ℕ) (ds : List ℕ)
    → All IsByte buf
    → All IsByte ds
    → All IsByte (splice buf i ds)
splice-IsByte buf zero ds hb hd = overwrite-IsByte buf ds hb hd
splice-IsByte [] (suc i) ds hb hd = tt
splice-IsByte (b ∷ buf) (suc i) ds hb hd = (hb.0, splice-IsByte buf i ds hb.1 hd)

take-overwrite :
    (buf ds : List ℕ) → length ds ≤ length buf → take (length ds) (overwrite buf ds) ≡ ds
take-overwrite buf [] h = refl
take-overwrite [] (d ∷ ds) h = absurd (omega arith)
take-overwrite (b ∷ buf) (d ∷ ds) h = ap (λ l. d ∷ l) (take-overwrite buf ds (omega arith))

field-splice :
    (buf : List ℕ) (i : ℕ) (ds : List ℕ)
    → i + length ds ≤ length buf
    → take (length ds) (drop i (splice buf i ds)) ≡ ds
field-splice buf zero ds h = take-overwrite buf ds (omega arith)
field-splice [] (suc i) ds h = absurd (omega arith)
field-splice (b ∷ buf) (suc i) ds h = field-splice buf i ds (omega arith)

-- A value of `w` bytes that `write_at_be` stores inside a buffer on one host is the value that
-- `read_at_be` loads from the same offset on any host, of the same byte order or not.
pub read_at_be-write_at_be :
    (writer reader : Endian) (w : ℕ) (buf : List ℕ) (offset v : ℕ)
    → All IsByte buf
    → offset + w ≤ length buf
    → v < 256 ^ w
    → read_at_be reader w (write_at_be writer w buf offset v) offset ≡ v
read_at_be-write_at_be writer reader w buf offset v bytes inside small =
    ap (λ b. read_at_be reader w b offset) (write_at_be_lem writer w buf offset v)
    ∙ read_at_be_lem reader w (splice buf offset (be_bytes w v)) offset
        (splice-IsByte buf offset (be_bytes w v) bytes (be_bytes-IsByte w v))
        (omega (arith, length-splice buf offset (be_bytes w v)))
    ∙ ap be_value stored
    ∙ be_value-be_bytes w v small
  where
    stored : take w (drop offset (splice buf offset (be_bytes w v))) ≡ be_bytes w v
    stored =
        subst (λ n. take n (drop offset (splice buf offset (be_bytes w v))) ≡ be_bytes w v)
          (length-be_bytes w v)
          (field-splice buf offset (be_bytes w v) (omega (arith, length-be_bytes w v)))
