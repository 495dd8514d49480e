-- ===== src/Extraction/Service/Statuses.antt =====
-- What the terminal status says of the entries.
use zip_extraction.Common.{
  ◌+◌, ◌≤◌, ◌≡◌, ◌≢◌, ◌⊎◌, refl, true, false, List, [], ◌∷◌, arith, All, length, Bool-cases, inl,
  inr,
}
use zip_extraction.Extraction.Types.{Status, success, partial_failed, failed, EntryOutcome}
use zip_extraction.Extraction.Service.{is_uploaded, count_uploaded, count_failed, compute_status}

abbrev pub Uploaded : EntryOutcome → Type 0
Uploaded e = is_uploaded e ≡ true

abbrev pub NotUploaded : EntryOutcome → Type 0
NotUploaded e = is_uploaded e ≡ false

-- The status is SUCCESS where each entry is uploaded, FAILED where there are entries and none is,
-- and PARTIAL_FAILED in between.
abbrev pub IsStatusOf : Status → List EntryOutcome → Type 0
IsStatusOf success entries = All Uploaded entries
IsStatusOf partial_failed entries = (¬ All Uploaded entries) × (¬ All NotUploaded entries)
IsStatusOf failed entries = All NotUploaded entries × (entries ≢ [])

counts :
    (entries : List EntryOutcome) → count_uploaded entries + count_failed entries ≡ length entries
unfolding count_uploaded count_failed
counts [] = omega arith
counts (e ∷ rest) = elim (Bool-cases (is_uploaded e)) [
  | inl u ↦ rw u (omega (arith, counts rest))
  | inr u ↦ rw u (omega (arith, counts rest))
]

All-Uploaded : (entries : List EntryOutcome) → count_failed entries ≡ 0 → All Uploaded entries
unfolding count_failed
All-Uploaded [] h = tt
All-Uploaded (e ∷ rest) h = elim (Bool-cases (is_uploaded e)) [
  | inl u ↦ (u, All-Uploaded rest (ground arith))
  | inr u ↦ absurd (ground arith)
]

All-NotUploaded :
    (entries : List EntryOutcome) → count_uploaded entries ≡ 0 → All NotUploaded entries
unfolding count_uploaded
All-NotUploaded [] h = tt
All-NotUploaded (e ∷ rest) h = elim (Bool-cases (is_uploaded e)) [
  | inl u ↦ absurd (ground arith)
  | inr u ↦ (u, All-NotUploaded rest (ground arith))
]

none_failed : (entries : List EntryOutcome) → All Uploaded entries → count_failed entries ≡ 0
unfolding count_failed
none_failed [] h = refl
none_failed (e ∷ rest) h = rw (h.0, none_failed rest h.1) refl

none_uploaded : (entries : List EntryOutcome) → All NotUploaded entries → count_uploaded entries ≡ 0
unfolding count_uploaded
none_uploaded [] h = refl
none_uploaded (e ∷ rest) h = rw (h.0, none_uploaded rest h.1) refl

status_cases :
    (entries : List EntryOutcome)
    → ((compute_status entries ≡ success) × (count_failed entries ≡ 0))
      ⊎ (((compute_status entries ≡ partial_failed)
            × ((1 ≤ count_failed entries) × (1 ≤ count_uploaded entries)))
          ⊎ ((compute_status entries ≡ failed)
              × ((count_uploaded entries ≡ 0) × (1 ≤ length entries))))
unfolding compute_status
status_cases entries = let n = counts entries in ground arith

nonempty : (entries : List EntryOutcome) → 1 ≤ length entries → entries ≢ []
nonempty [] h = absurd (omega (arith, h))
nonempty (e ∷ rest) h = λ p. ground arith

-- The status that computeStatus gives is the status of the entries.
pub compute_status-IsStatusOf :
    (entries : List EntryOutcome) → IsStatusOf (compute_status entries) entries
compute_status-IsStatusOf entries = elim (status_cases entries) [
  | inl (s, f) ↦ rw s (All-Uploaded entries f)
  | inr (inl (s, (f, u))) ↦ rw s (
    λ all. omega (arith, f, none_failed entries all),
    λ all. omega (arith, u, none_uploaded entries all),
  )
  | inr (inr (s, (u, l))) ↦ rw s (All-NotUploaded entries u, nonempty entries l)
]
