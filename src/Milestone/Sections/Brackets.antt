-- ===== src/Milestone/Sections/Brackets.antt =====
-- findSectionsInFile accepts exactly the files whose section marks alternate.
use ci_infra_gardener.Prelude.{
  ℕ, suc, ◌≡◌, refl, ◌↔◌, Bool, true, false, ◌||◌, List, [], ◌∷◌, arith, Text, ltb, ok,
}
use ci_infra_gardener.Milestone.Sections.{
  Marker, start_marker, end_marker, no_marker, marker, scan_sections, find_sections_in_file,
}

-- The marks of a file, in order.
pub marks : Text → List Text → List Marker
marks identifier [] = []
marks identifier (line ∷ lines) = elim (marker identifier line) [
  | no_marker ↦ marks identifier lines
  | m ↦ m ∷ marks identifier lines
]

-- Sections that are not nested, each with a start and an end.
pub data Alternates : List Marker → Type 0 where
  finished : Alternates []
  section : {ms : List Marker} → Alternates ms → Alternates (start_marker ∷ end_marker ∷ ms)

-- The same, decided from within a section (`true`) or outside one.
alternates : Bool → List Marker → Bool
alternates false [] = true
alternates false (start_marker ∷ ms) = alternates true ms
alternates false (_ ∷ ms) = false
alternates true (end_marker ∷ ms) = alternates false ms
alternates true _ = false

alternates_sound : (ms : List Marker) → alternates false ms ≡ true → Alternates ms
unfolding alternates
alternates_sound [] h = finished
alternates_sound (start_marker ∷ end_marker ∷ ms) h = section (alternates_sound ms h)
alternates_sound (start_marker ∷ []) h = cc
alternates_sound (start_marker ∷ start_marker ∷ ms) h = cc
alternates_sound (start_marker ∷ no_marker ∷ ms) h = cc
alternates_sound (end_marker ∷ ms) h = cc
alternates_sound (no_marker ∷ ms) h = cc

alternates_complete : {ms : List Marker} → Alternates ms → alternates false ms ≡ true
unfolding alternates
alternates_complete finished = refl
alternates_complete (section a) = alternates_complete a

abbrev pub is_nonempty : List Marker → Bool
is_nonempty [] = false
is_nonempty (m ∷ ms) = true

mutual
  unfolding scan_sections marks alternates

  -- With as many starts as ends behind it, and with one start more.
  scan_outside :
      (identifier : Text) (lines : List Text) (k n : ℕ) (b : Bool)
      → (scan_sections identifier lines k k n ≡ ok b) ↔ (
          (alternates false (marks identifier lines) ≡ true)
          × (b ≡ (ltb 0 k || is_nonempty (marks identifier lines))))
  scan_outside identifier [] k n b = (λ h. ground arith, λ h. ground arith)
  scan_outside identifier (line ∷ lines) k n b =
      let inside = scan_inside identifier lines k (suc n) b in
      let outside = scan_outside identifier lines k (suc n) b in
      (λ h. ground (arith, inside, outside), λ h. ground (arith, inside, outside))

  scan_inside :
      (identifier : Text) (lines : List Text) (k n : ℕ) (b : Bool)
      → (scan_sections identifier lines (suc k) k n ≡ ok b)
        ↔ ((alternates true (marks identifier lines) ≡ true) × (b ≡ true))
  scan_inside identifier [] k n b = (λ h. ground arith, λ h. ground arith)
  scan_inside identifier (line ∷ lines) k n b =
      let inside = scan_inside identifier lines k (suc n) b in
      let outside = scan_outside identifier lines (suc k) (suc n) b in
      (λ h. ground (arith, inside, outside), λ h. ground (arith, inside, outside))

-- findSectionsInFile returns a value, and no error, exactly when the file's marks form sections, each a
-- start followed by an end and none within another; the value says whether there is a section.
pub find_sections_iff :
    (identifier : Text) (lines : List Text) (b : Bool)
    → (find_sections_in_file identifier lines ≡ ok b)
      ↔ (Alternates (marks identifier lines) × (b ≡ is_nonempty (marks identifier lines)))
unfolding find_sections_in_file
find_sections_iff identifier lines b =
    let scanned = scan_outside identifier lines 0 0 b in
    (
      λ h. (alternates_sound _ (scanned.0 h).0, (scanned.0 h).1),
      λ h. scanned.1 (alternates_complete h.0, h.1),
    )
