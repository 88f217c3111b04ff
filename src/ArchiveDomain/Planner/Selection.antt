-- ===== src/ArchiveDomain/Planner/Selection.antt =====
-- `parse_datasets`: a selection is of some datasets, each once.
use oci_iot_samples.Base.{
  String, ◌≡◌, ◌≢◌, inl, inr, refl, Bool, true, false, not, Option, none, some, List, [], ◌∷◌,
  subst, arith, truthy, contains, select, eq_iff, Bool-cases,
}
use oci_iot_samples.Base.Exec.{ok}
use oci_iot_samples.ArchiveDomain.Models.{valid_datasets}
use oci_iot_samples.ArchiveDomain.Planner.{
  parse_datasets, choose_datasets, selected_items, sorted_set, insert_sorted,
}

abbrev pub Distinct : List String → Type 0
Distinct [] = Unit
Distinct (x ∷ xs) = (contains x xs ≡ false) × Distinct xs

abbrev pub IsSelection : List String → Type 0
IsSelection selected = (selected ≢ []) × Distinct selected

insert_sorted-nonempty : (s : String) (ts : List String) → insert_sorted s ts ≢ []
unfolding insert_sorted
insert_sorted-nonempty s [] h = cc
insert_sorted-nonempty s (t ∷ ts) h = ground arith

-- Whichever tests the valid names pass.
chosen-Distinct : (p : String → Bool) → Distinct (select p valid_datasets)
unfolding select contains
chosen-Distinct p = ground arith

chosen-nonempty :
    (s : String) (ss : List String)
    → contains s valid_datasets ≡ true
    → select (λ d. contains d (s ∷ ss)) valid_datasets ≢ []
unfolding select contains
chosen-nonempty s ss h e = ground (
  arith,
  eq_iff s "raw",
  eq_iff s "historized",
  eq_iff s "rejected",
  eq_iff "raw" s,
  eq_iff "historized" s,
  eq_iff "rejected" s,
)

unknown-first :
    (s : String) (ss : List String)
    → sorted_set (select (λ item. not (contains item valid_datasets)) (s ∷ ss)) ≡ []
    → contains s valid_datasets ≡ true
unfolding select sorted_set
unknown-first s ss h = elim (Bool-cases (contains s valid_datasets)) [
  | inl known ↦ known
  | inr unknown ↦ absurd (
      insert_sorted-nonempty s (sorted_set (select (λ item. not (contains item valid_datasets)) ss))
        (rw unknown at h))
]

choose_datasets-parts :
    (s : String) (ss selected : List String)
    → choose_datasets (s ∷ ss) ≡ ok selected
    → (sorted_set (select (λ item. not (contains item valid_datasets)) (s ∷ ss)) ≡ [])
      × (select (λ d. contains d (s ∷ ss)) valid_datasets ≡ selected)
unfolding choose_datasets
choose_datasets-parts s ss selected h = ground arith

choose_datasets-IsSelection :
    (items selected : List String) → choose_datasets items ≡ ok selected → IsSelection selected
unfolding choose_datasets
choose_datasets-IsSelection [] selected h = cc
choose_datasets-IsSelection (s ∷ ss) selected h =
    let (all_known, chosen) = choose_datasets-parts s ss selected h in
    subst IsSelection chosen (
      chosen-nonempty s ss (unknown-first s ss all_known),
      chosen-Distinct (λ d. contains d (s ∷ ss)),
    )

valid-IsSelection : IsSelection valid_datasets
unfolding contains
valid-IsSelection = ((λ h. cc), (refl, (refl, (refl, tt))))

all_chosen : {selected : List String} → ok valid_datasets ≡ ok selected → valid_datasets ≡ selected
all_chosen h = cc (h)

pub parse_datasets-IsSelection :
    (value : Option String) (selected : List String)
    → parse_datasets value ≡ ok selected
    → IsSelection selected
unfolding parse_datasets
parse_datasets-IsSelection none selected h = subst IsSelection (all_chosen h) valid-IsSelection
parse_datasets-IsSelection (some value) selected h = elim (Bool-cases (truthy value)) [
  | inl full ↦ choose_datasets-IsSelection (selected_items value) selected (rw full at h)
  | inr empty ↦ let e = rw empty at h in subst IsSelection (all_chosen e) valid-IsSelection
]
