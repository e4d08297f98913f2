-- ===== src/Itch/Tests.antt =====
-- Tests of src/itch/timestamp.cpp.
use nasdaq_moldudp64_feed_si.Prelude.{◌≡◌, ◌<◌, ◌^◌, refl, arith}
use nasdaq_moldudp64_feed_si.BinaryIo.{little, object_value, le_value, byteswap, le_bytes}
use nasdaq_moldudp64_feed_si.BinaryIo.Bytes.{be_value}
use nasdaq_moldudp64_feed_si.Itch.{extract_timestamp}
use nasdaq_moldudp64_feed_si.Itch.Timestamp.{timestamp_field, extract_timestamp_lem}
use nasdaq_moldudp64_feed_si.Examples.{stamped}

extract_timestamp-runs : extract_timestamp little (stamped 7) ≡ 7
unfolding extract_timestamp object_value le_value byteswap le_bytes
extract_timestamp-runs = refl

extract_timestamp_lem_example :
    (extract_timestamp little (stamped 7) ≡ be_value (timestamp_field (stamped 7)))
    × (extract_timestamp little (stamped 7) < 2 ^ 48)
extract_timestamp_lem_example = extract_timestamp_lem (stamped 7) (omega arith) (omega arith)
