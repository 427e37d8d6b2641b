-- ===== src/Milestone/Choosing.antt =====
-- getOpenMilestone of prow/cmd/milestone-activator/activator.go: the open milestone of a pattern.
use ci_infra_gardener.Prelude.{
  ◌≡◌, ◌≢◌, refl, Bool, ◌&&◌, not, List, [], ◌∷◌, arith, Text, ◌==◌, ==_iff, All, if◌then◌else◌,
  Option, none, some,
}
use ci_infra_gardener.Github.{open_state}

pub record Milestone : Type 0 where
  pub title : Text
  pub state : Text

-- The loop, with the title found so far; `none` is the error that there is more than one.
unfoldable pub choose_milestone : (matches : Text → Bool) → Text → List Milestone → Option Text
choose_milestone matches milestone_title [] = some milestone_title
choose_milestone matches milestone_title (m ∷ ms) =
    let skipped = choose_milestone matches milestone_title ms in
    let found = choose_milestone matches m.title ms in
    if not (m.state == open_state)
    then skipped
    else if not (matches m.title)
    then skipped
    else if not (milestone_title == [])
    then none
    else found

-- The titles of the open milestones of the pattern.
pub open_titles : (matches : Text → Bool) → List Milestone → List Text
open_titles matches [] = []
open_titles matches (m ∷ ms) =
    let rest = open_titles matches ms in
    if m.state == open_state && matches m.title then m.title ∷ rest else rest

abbrev pub the_only : List Text → Option Text
the_only [] = some []
the_only (t ∷ []) = some t
the_only (t ∷ u ∷ ts) = none

abbrev or_none : List Text → Text → Option Text
or_none [] t = some t
or_none (u ∷ us) t = none

choose_with_title :
    (matches : Text → Bool) (t : Text) (ms : List Milestone)
    → t ≢ []
    → choose_milestone matches t ms ≡ or_none (open_titles matches ms) t
unfolding choose_milestone open_titles
choose_with_title matches t [] h = refl
choose_with_title matches t (m ∷ ms) h =
    ground (arith, ==_iff t [], choose_with_title matches t ms h)

-- Where milestones have titles, the choice is the empty title if no milestone of the pattern is open,
-- the title of the only one, and an error if there are more.
pub choose_milestone_lem :
    (matches : Text → Bool) (ms : List Milestone)
    → All (λ m. m.title ≢ []) ms
    → choose_milestone matches [] ms ≡ the_only (open_titles matches ms)
unfolding choose_milestone open_titles
choose_milestone_lem matches [] h = refl
choose_milestone_lem matches (m ∷ ms) h = ground (
  arith,
  choose_milestone_lem matches ms h.1,
  choose_with_title matches m.title ms h.0,
  ==_iff [] [],
)
