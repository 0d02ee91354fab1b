-- ===== src/Http/Canonical.antt =====
-- Header names are compared without regard to capitals, and the values of one name are joined.
use tamer.Prelude.{
  ℕ, ◌<◌, ◌≡◌, ◌↔◌, refl, sym, ap₂, ◌⊎◌, inl, inr, true, List, [], ◌∷◌, ◌++◌, arith, if◌then◌else◌,
  Bool-cases,
}
use mathlib.Core.List.{append_assoc, append-nil}
use tamer.Http.{
  Header, lower, canonicalize, equals_loop, is_canonical, header_loop, canonical_header,
}

-- no capital letter
abbrev pub AllLower : List ℕ → Type 0
AllLower [] = Unit
AllLower (c ∷ s) = ((c < 65) ⊎ (90 < c)) × AllLower s

-- For a name without capitals, `is_canonical` is equality with the name in small letters.
pub is_canonical_lem :
    (name value s : List ℕ)
    → AllLower s
    → (is_canonical (record { name = name; value = value }) s ≡ true) ↔ (canonicalize name ≡ s)
unfolding is_canonical equals_loop canonicalize
is_canonical_lem [] value [] v = (λ e. refl, λ e. refl)
is_canonical_lem [] value (y ∷ s) v = (λ e. ground arith, λ e. ground arith)
is_canonical_lem (x ∷ name) value [] v = (λ e. ground arith, λ e. ground arith)
is_canonical_lem (x ∷ name) value (y ∷ s) v =
    let rest = is_canonical_lem name value s v.1 in
    (
      λ e. ap₂ (λ c t. c ∷ t) (ground arith) (rest.0 (ground arith)),
      λ e.
          let head : lower x ≡ y = ground arith in
          let tail : is_canonical (record { name = name; value = value }) s ≡ true =
            rest.1 (ground arith) in
          ground arith,
    )

-- the values of the headers with that name, in order
unfoldable pub values_of : List Header → List ℕ → List (List ℕ)
values_of [] s = []
values_of (h ∷ hs) s =
    let rest = values_of hs s in if is_canonical h s then h.value ∷ rest else rest

-- with ", " in front of each
abbrev behind : List (List ℕ) → List ℕ
behind [] = []
behind (v ∷ vs) = 44 ∷ 32 ∷ v ++ behind vs

-- with ", " between any two
abbrev pub joined : List (List ℕ) → List ℕ
joined [] = []
joined (v ∷ vs) = v ++ behind vs

header_loop_any :
    (hs : List Header) (s result : List ℕ)
    → header_loop hs s result true ≡ result ++ behind (values_of hs s)
unfolding header_loop values_of
header_loop_any [] s result = sym (append-nil result)
header_loop_any (h ∷ hs) s result = elim (Bool-cases (is_canonical h s)) [
  | inl found ↦ ground (
    arith,
    header_loop_any hs s (result ++ (44 ∷ 32 ∷ h.value)),
    append_assoc result (44 ∷ 32 ∷ h.value) (behind (values_of hs s)),
  )
  | inr other ↦ ground (arith, header_loop_any hs s result)
]

-- `canonical_header` is the values of all headers of that name, in order, with ", " between them.
pub canonical_header_lem :
    (hs : List Header) (s : List ℕ) → canonical_header hs s ≡ joined (values_of hs s)
unfolding canonical_header header_loop values_of
canonical_header_lem [] s = refl
canonical_header_lem (h ∷ hs) s = elim (Bool-cases (is_canonical h s)) [
  | inl found ↦ ground (arith, header_loop_any hs s h.value)
  | inr other ↦ ground (arith, canonical_header_lem hs s)
]
