-- ===== src/ZstringView/Tests.antt =====
-- Tests of include/imr/util/zstring_view.h.
use nasdaq_moldudp64_feed_si.Prelude.{◌≡◌, refl, ◌↔◌, [], ◌∷◌, get_elem?, none, some, All}
use nasdaq_moldudp64_feed_si.ZstringView.{of_c_str, of_string, c_str, sv, size}
use nasdaq_moldudp64_feed_si.ZstringView.Termination.{c_text, IsNonzero, from_string, c_str-reads}

-- What stands behind the NUL of a C string does not count.
of_c_str-runs :
    of_c_str (49 ∷ 50 ∷ 0 ∷ 51 ∷ [])
    ≡ some (record { memory = 49 ∷ 50 ∷ 0 ∷ 51 ∷ []; length_of_view = 2 })
unfolding of_c_str
of_c_str-runs = refl

of_c_str-endless : of_c_str (49 ∷ []) ≡ none
unfolding of_c_str
of_c_str-endless = refl

-- A `std::string` may have a NUL inside.
c_str-reads_example :
    let z = of_string (49 ∷ 0 ∷ 50 ∷ []) in
    (get_elem? (c_str z) (size z) ≡ some 0)
    × (c_text (c_str z) ≡ c_text (sv z))
    × ((c_text (c_str z) ≡ sv z) ↔ All IsNonzero (sv z))
c_str-reads_example = c_str-reads (from_string (49 ∷ 0 ∷ 50 ∷ []))
