-- ===== src/Milestone/Scanning.antt =====
-- Lines of a file as bufio.Scanner yields them, up to one that reaches its limit of 64 KiB, and the text that
-- handleMilestoneSection of prow/cmd/milestone-activator/activator.go writes for its lines.
use mathlib.Core.List.{append_assoc}
use ci_infra_gardener.Prelude.{
  ℕ, ◌<◌, length, ltb, true, ◌≡◌, ◌≢◌, refl, ap, ap₂, ◌∙◌, List, [], ◌∷◌, ◌++◌, arith, Text, join,
  split_byte, All, eqb, if◌then◌else◌, map,
}

abbrev pub newline : Text
newline = b'\n' ∷ []

-- dropCR of bufio.ScanLines: a carriage return at the end goes.
unfoldable pub drop_cr : Text → Text
drop_cr [] = []
drop_cr (c ∷ s) = elim s [ [] ↦ if eqb c b'\r' then [] else c ∷ [] | _ ↦ c ∷ drop_cr s ]

-- What follows the last newline is a line only if it is not empty.
unfoldable pub drop_last_empty : Text → List Text → List Text
drop_last_empty [] [] = []
drop_last_empty line [] = line ∷ []
drop_last_empty line (next ∷ rest) = line ∷ drop_last_empty next rest

-- bufio.MaxScanTokenSize
abbrev pub max_token_size : ℕ
max_token_size = 65536

-- The scanner stops at a line that fills its buffer. Its error is not asked for.
unfoldable pub until_too_long : List Text → List Text
until_too_long [] = []
until_too_long (line ∷ lines) =
    let rest = until_too_long lines in if ltb (length line) max_token_size then line ∷ rest else []

unfoldable pub scan_lines : Text → List Text
unfolding drop_last_empty until_too_long
scan_lines content =
    let (first, others) = split_byte b'\n' content in
    map drop_cr (until_too_long (drop_last_empty first others))

-- strings.Join(newLines, "\n") + "\n"
unfoldable pub print_lines : List Text → Text
unfolding join
print_lines lines = join lines newline ++ newline

-- A line that a scanner can yield.
abbrev pub IsLine : Text → Type 0
IsLine line = All (λ c. c ≢ b'\n') line × (drop_cr line ≡ line) × (length line < max_token_size)

split-line :
    (line rest : Text)
    → All (λ c. c ≢ b'\n') line
    → split_byte b'\n' (line ++ b'\n' ∷ rest)
      ≡ (line, (split_byte b'\n' rest).0 ∷ (split_byte b'\n' rest).1)
unfolding split_byte
split-line [] rest h = refl
split-line (c ∷ line) rest h = ground (arith, split-line line rest h.1, h.0)

split-print_lines :
    (line : Text) (lines : List Text)
    → All IsLine (line ∷ lines)
    → split_byte b'\n' (print_lines (line ∷ lines)) ≡ (line, lines ++ [] ∷ [])
unfolding print_lines
split-print_lines line [] h = split-line line [] h.0.0 ∙ (unfold split_byte in refl)
split-print_lines line (next ∷ lines) h =
    let e : (line ++ (newline ++ join (next ∷ lines) newline)) ++ newline
        ≡ line ++ (b'\n' ∷ print_lines (next ∷ lines)) =
      append_assoc line (newline ++ join (next ∷ lines) newline) newline in
    rw e (
      rw (split-line line (print_lines (next ∷ lines)) h.0.0)
        (rw (split-print_lines next lines h.1)))

drop_last-append :
    (line : Text) (lines : List Text) → drop_last_empty line (lines ++ [] ∷ []) ≡ line ∷ lines
unfolding drop_last_empty
drop_last-append [] [] = refl
drop_last-append (c ∷ line) [] = refl
drop_last-append [] (next ∷ lines) = ap (λ (ls : List Text). [] ∷ ls) (drop_last-append next lines)
drop_last-append (c ∷ line) (next ∷ lines) =
    ap (λ (ls : List Text). (c ∷ line) ∷ ls) (drop_last-append next lines)

map-drop_cr : (lines : List Text) → All IsLine lines → map drop_cr lines ≡ lines
map-drop_cr [] h = refl
map-drop_cr (line ∷ lines) h =
    ap₂ (λ (l : Text) (ls : List Text). l ∷ ls) h.0.1 (map-drop_cr lines h.1)

until_too_long-IsLine : (lines : List Text) → All IsLine lines → until_too_long lines ≡ lines
unfolding until_too_long
until_too_long-IsLine [] h = refl
until_too_long-IsLine (line ∷ lines) h =
    let fits : ltb (length line) max_token_size ≡ true = ground (arith, h.0.2) in
    rw fits (ap (λ (ls : List Text). line ∷ ls) (until_too_long-IsLine lines h.1))

-- What is written for one or more lines is scanned as these lines again, if no line holds a newline,
-- ends in a carriage return or has 65536 bytes or more.
pub scan-print_lines :
    (line : Text) (lines : List Text)
    → All IsLine (line ∷ lines)
    → scan_lines (print_lines (line ∷ lines)) ≡ line ∷ lines
unfolding scan_lines
scan-print_lines line lines h = rw (split-print_lines line lines h) (
    rw (drop_last-append line lines)
      (rw (until_too_long-IsLine (line ∷ lines) h) (map-drop_cr (line ∷ lines) h)))
