-- ===== src/ZstringView/Termination.antt =====
-- What a C function reads from a `zstring_view`.
use mathlib.Core.Option.{map, map-eq-some_iff, some_inj}
use nasdaq_moldudp64_feed_si.Prelude.{
  ℕ, suc, ◌<◌, ◌≡◌, refl, sym, ap, ap₂, ◌∙◌, subst, ◌↔◌, List, [], ◌∷◌, ◌++◌, length, take,
  get_elem?, some, ◌==◌, if◌then◌else◌, take-length, get_elem?-behind, All, arith, Bool-cases, inl,
  inr,
}
use nasdaq_moldudp64_feed_si.ZstringView.{strlen, ZstringView, of_c_str, of_string, c_str, sv, size}

-- A C function reads up to the first NUL.
abbrev pub c_text : List ℕ → List ℕ
c_text [] = []
c_text (c ∷ cs) = let rest = c_text cs in if c == 0 then [] else c ∷ rest

abbrev pub IsNonzero : ℕ → Type 0
IsNonzero c = 0 < c

-- The constructors.
pub data Built : ZstringView → Type 0 where
  from_c_str : (str : List ℕ) {z : ZstringView} → of_c_str str ≡ some z → Built z
  from_string : (str : List ℕ) → Built (of_string str)

record Shape (z : ZstringView) : Type 0 where
  text : List ℕ
  rest : List ℕ
  memory : z.memory ≡ text ++ (0 ∷ rest)
  counted : z.length_of_view ≡ length text

strlen-Shape :
    (str : List ℕ) (n : ℕ)
    → strlen str ≡ some n
    → Shape (record { memory = str; length_of_view = n })
unfolding strlen
strlen-Shape [] n e = cc
strlen-Shape (c ∷ cs) n e = elim (Bool-cases (c == 0)) [
  | inl nul ↦ record {
    text = [];
    rest = cs;
    memory = ap (λ b. b ∷ cs) (ground (arith, nul));
    counted = sym (some_inj.0 (ap (λ t. if t then some 0 else map suc (strlen cs)) (sym nul) ∙ e));
  }
  | inr other ↦
      let (m, found, next) =
        (map-eq-some_iff suc (strlen cs)).0
          (ap (λ t. if t then some 0 else map suc (strlen cs)) (sym other) ∙ e) in
      let r = strlen-Shape cs m found in
      record {
        text = c ∷ r.text;
        rest = r.rest;
        memory = ap (λ l. c ∷ l) r.memory;
        counted = sym next ∙ ap suc r.counted;
      }
]

c_text-append : (s rest : List ℕ) → c_text (s ++ (0 ∷ rest)) ≡ c_text s
c_text-append [] rest = refl
c_text-append (c ∷ s) rest = ap (λ l. if c == 0 then [] else c ∷ l) (c_text-append s rest)

c_text_whole : (s : List ℕ) → All IsNonzero s → c_text s ≡ s
c_text_whole [] h = refl
c_text_whole (c ∷ s) h = ground (arith, h.0, c_text_whole s h.1)

c_text-IsNonzero : (s : List ℕ) → All IsNonzero (c_text s)
c_text-IsNonzero [] = tt
c_text-IsNonzero (c ∷ s) = elim (Bool-cases (c == 0)) [
  | inl zero_byte ↦ rw zero_byte tt
  | inr other ↦ rw other (ground arith, c_text-IsNonzero s)
]

Built-Shape : {z : ZstringView} → Built z → Shape z
unfolding of_c_str of_string
Built-Shape (from_c_str str e) =
    let (n, found, same) = (map-eq-some_iff _ (strlen str)).0 e in
    subst Shape same (strlen-Shape str n found)
Built-Shape (from_string str) = record { text = str; rest = []; memory = refl; counted = refl }

-- However a `zstring_view` was constructed, a NUL stands behind the characters of its view. So a C
-- function that is given `c_str()` reads the view up to its first NUL, and the whole view exactly
-- if there is none in it.
pub c_str-reads :
    {z : ZstringView}
    → Built z
    → (get_elem? (c_str z) (size z) ≡ some 0)
      × (c_text (c_str z) ≡ c_text (sv z))
      × ((c_text (c_str z) ≡ sv z) ↔ All IsNonzero (sv z))
c_str-reads {z} built = (
  ap₂ get_elem? shape.memory shape.counted ∙ get_elem?-behind shape.text shape.rest 0,
  reads,
  (λ e. subst (All IsNonzero) e (c_text-IsNonzero (c_str z)), λ h. reads ∙ c_text_whole (sv z) h),
)
  where
    shape : Shape z
    shape = Built-Shape built

    view : sv z ≡ shape.text
    view = ap₂ take shape.counted shape.memory ∙ take-length shape.text (0 ∷ shape.rest)

    reads : c_text (c_str z) ≡ c_text (sv z)
    reads = ap c_text shape.memory ∙ c_text-append shape.text shape.rest ∙ ap c_text (sym view)
