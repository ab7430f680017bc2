-- ===== src/Modcod/Lookup.antt =====
-- `dvbs2x_vlsnr_get_modcod_by_name` against the canonical names and the legacy names.
use Prim.Native.String.{String}
use text.Mathlib.TextEquality.{eq_iff}
use text.Mathlib.Text.{◌==◌ as str_eq}
use mathlib.Core.Path.{subst}
use open_vlsnr.Prelude.{
  ℕ, zero, suc, ◌+◌, ◌<◌, ◌≡◌, refl, sym, ap, ◌∙◌, ◌⊎◌, inl, inr, ◌||◌, some, List, [], ◌∷◌, arith,
  true, false, ltb, get_elem?, get_elem?-lt-length, AllFrom-get_elem?, Bool-cases, Option-cases,
}
use open_vlsnr.Types.{Modcod}
use open_vlsnr.Modcod.{
  modcod_table, modcod_names, legacy_names, get_modcod, get_modcod_name, get_modcod_by_name,
  find_canonical, find_legacy,
}
use open_vlsnr.Modcod.Consistency.{Entry, table-Entry, get_modcod-IsConsistent}

in_range : (i : ℕ) → i < 9 → (ltb (suc i) 1 || ltb 9 (suc i)) ≡ false
in_range i h = ground arith

out_of_range : (i : ℕ) → 9 < i → (ltb i 1 || ltb 9 i) ≡ true
out_of_range i h = ground arith

get_modcod-suc : (i : ℕ) → i < 9 → get_modcod (suc i) ≡ get_elem? modcod_table i
unfolding get_modcod
get_modcod-suc i h = rw (in_range i h) (ap (get_elem? modcod_table) (omega arith))

get_modcod_name-suc : (i : ℕ) → i < 9 → get_modcod_name (suc i) ≡ get_elem? modcod_names i
unfolding get_modcod_name
get_modcod_name-suc i h = rw (in_range i h) (ap (get_elem? modcod_names) (omega arith))

-- The name that the library gives for an index leads back to the entry of that index; a name
-- that it does not give, for an index out of range, leads to none.
pub get_modcod_by_name-get_modcod_name :
    (i : ℕ) → get_modcod_by_name (get_modcod_name i) ≡ get_modcod i
unfolding get_modcod_by_name get_modcod_name get_modcod find_canonical find_legacy
get_modcod_by_name-get_modcod_name zero = refl
get_modcod_by_name-get_modcod_name (suc zero) = refl
get_modcod_by_name-get_modcod_name (suc (suc zero)) = refl
get_modcod_by_name-get_modcod_name (suc (suc (suc zero))) = refl
get_modcod_by_name-get_modcod_name (suc (suc (suc (suc zero)))) = refl
get_modcod_by_name-get_modcod_name (suc (suc (suc (suc (suc zero))))) = refl
get_modcod_by_name-get_modcod_name (suc (suc (suc (suc (suc (suc zero)))))) = refl
get_modcod_by_name-get_modcod_name (suc (suc (suc (suc (suc (suc (suc zero))))))) = refl
get_modcod_by_name-get_modcod_name (suc (suc (suc (suc (suc (suc (suc (suc zero)))))))) = refl
get_modcod_by_name-get_modcod_name (suc (suc (suc (suc (suc (suc (suc (suc (suc zero))))))))) = refl
get_modcod_by_name-get_modcod_name (suc (suc (suc (suc (suc (suc (suc (suc (suc (suc n)))))))))) =
    rw (out_of_range (suc (suc (suc (suc (suc (suc (suc (suc (suc (suc n)))))))))) (omega arith))

-- The pair stands in the list.
abbrev pub Listed : String → ℕ → List (String × ℕ) → Type 0
Listed s i [] = ⊥
Listed s i ((n, k) ∷ rest) = ((s ≡ n) × (i ≡ k)) ⊎ Listed s i rest

find_canonical-get_elem? :
    (s : String) (ns : List String) (mcs : List Modcod) {mc : Modcod}
    → find_canonical s ns mcs ≡ some mc
    → (i : ℕ) × (get_elem? ns i ≡ some s) × (get_elem? mcs i ≡ some mc)
unfolding find_canonical
find_canonical-get_elem? s [] mcs e = cc
find_canonical-get_elem? s (n ∷ ns) [] e = cc
find_canonical-get_elem? s (n ∷ ns) (m ∷ mcs) e = elim (Bool-cases (str_eq s n)) [
  | inl same ↦ (0, ground (arith, eq_iff s n), ground arith)
  | inr differs ↦
      let (i, named, found) = find_canonical-get_elem? s ns mcs (rw differs at e) in
      (suc i, named, found)
]

find_legacy-Listed :
    (s : String) (l : List (String × ℕ)) {mc : Modcod}
    → find_legacy s l ≡ some mc
    → (i : ℕ) × Listed s i l × (get_modcod i ≡ some mc)
unfolding find_legacy
find_legacy-Listed s [] e = cc
find_legacy-Listed s ((n, k) ∷ rest) e = elim (Bool-cases (str_eq s n)) [
  | inl same ↦ (k, inl ((eq_iff s n).0 same, refl), rw same at e)
  | inr differs ↦
      let (i, listed, found) = find_legacy-Listed s rest (rw differs at e) in (i, inr listed, found)
]

-- The entry of the index `i` goes by the name `s`: canonical, or one of the legacy names.
abbrev pub Names : String → ℕ → Type 0
Names s i = (get_modcod_name i ≡ some s) ⊎ Listed s i legacy_names

canonical_sound :
    (s : String) {mc : Modcod}
    → find_canonical s modcod_names modcod_table ≡ some mc
    → (get_modcod mc.index ≡ some mc) × Names s mc.index
canonical_sound s {mc} e =
    let (i, named, found) = find_canonical-get_elem? s modcod_names modcod_table e in
    let entry : Entry (1 + i) mc = AllFrom-get_elem? Entry 1 modcod_table i table-Entry found in
    let low : i < 9 = get_elem?-lt-length modcod_table i found in
    let at : mc.index ≡ suc i = omega arith in
    (
      ap get_modcod at ∙ get_modcod-suc i low ∙ found,
      inl (ap get_modcod_name at ∙ get_modcod_name-suc i low ∙ named),
    )

legacy_sound :
    (s : String) {mc : Modcod}
    → find_legacy s legacy_names ≡ some mc
    → (get_modcod mc.index ≡ some mc) × Names s mc.index
legacy_sound s {mc} e =
    let (i, listed, found) = find_legacy-Listed s legacy_names e in
    let at : mc.index ≡ i = (get_modcod-IsConsistent i found).2 in
    (ap get_modcod at ∙ found, inr (subst (λ k. Listed s k legacy_names) (sym at) listed))

-- Whatever name is looked up, the answer is the table's entry of its own index, and the name is
-- the canonical name of that index or a legacy name listed with it.
pub get_modcod_by_name_sound :
    (s : String) {mc : Modcod}
    → get_modcod_by_name (some s) ≡ some mc
    → (get_modcod mc.index ≡ some mc) × Names s mc.index
unfolding get_modcod_by_name
get_modcod_by_name_sound s e = elim (Option-cases (find_canonical s modcod_names modcod_table)) [
  | inl missing ↦ legacy_sound s (rw (missing, get_modcod_by_name) at e)
  | inr (mc', found) ↦ canonical_sound s (found ∙ (rw (found, get_modcod_by_name) at e))
]
