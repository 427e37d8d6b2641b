-- ===== src/Milestone/Files/Writing.antt =====
-- What updating files writes, prow/cmd/milestone-activator/activator.go.
use ci_infra_gardener.Prelude.{
  ◌≡◌, ◌≢◌, refl, sym, ap, ◌∙◌, ◌⊎◌, inl, inr, Bool, true, false, ◌||◌, List, [], ◌∷◌, arith, Text,
  Trace, Result, ok, Result-cases, Bool-cases,
}
use ci_infra_gardener.Milestone.Sections.{
  initial_rewrite, find_sections_in_file, rewrite_lines, Rewrite,
}
use ci_infra_gardener.Milestone.Scanning.{print_lines}
use ci_infra_gardener.Milestone.Files.{
  Files, Call, wrote, ActivatorError, scan_file, write_changes, handle_milestone_section,
  update_file, update_files,
}

-- The recorded writes of a run over some files, behind earlier calls.
abbrev pub writes : List (Text × Text) → List Call → List Call
writes [] calls = calls
writes ((path, content) ∷ ws) calls = writes ws (wrote path content ∷ calls)

module _ {W E : Type 0} (files : Files W E) where
  -- Handling a file records no call and reports no change, or records one write of the file.
  abbrev pub Outcome : Text → Trace W Call → Result (ActivatorError E) Bool → Trace W Call → Type 0
  Outcome path s result s' =
      ((s'.calls ≡ s.calls) × (result ≢ ok true))
      ⊎ ((content : Text) × (s'.calls ≡ wrote path content ∷ s.calls) × (result ≢ ok false))

  write_changes-Outcome :
      (path : Text) (r : Rewrite) (s : Trace W Call)
      → Outcome path s (write_changes files path r s).0 (write_changes files path r s).1
  unfolding write_changes
  write_changes-Outcome path r s = elim (Bool-cases r.changes) [
    | inl some_changes ↦
        inr (print_lines r.new_lines, ground (arith, some_changes), ground (arith, some_changes))
    | inr none ↦ inl (ground (arith, none), ground (arith, none))
  ]

  calls-scan_file : (path : Text) (s : Trace W Call) → (scan_file files path s).1.calls ≡ s.calls
  unfolding scan_file
  calls-scan_file path s = ground arith

  handle-Outcome :
      (path section_identifier milestone : Text) (s : Trace W Call)
      → let (result, s') = handle_milestone_section files path section_identifier milestone s in
        Outcome path s result s'
  unfolding handle_milestone_section
  handle-Outcome path section_identifier milestone s =
      let f = scan_file files path s in
      let same = calls-scan_file path s in
      elim (Result-cases f.0) [
        | inr (e, bad) ↦ inl (ground (arith, bad, same), ground (arith, bad))
        | inl (lines, good) ↦
            elim (Result-cases (rewrite_lines section_identifier milestone initial_rewrite lines)) [
              | inr (e, bad) ↦ inl (ground (arith, good, bad, same), ground (arith, good, bad))
              | inl (r, done) ↦ elim (write_changes-Outcome path r f.1) [
                | inl (kept, unchanged) ↦
                    inl (
                      ground (arith, good, done, kept, same),
                      ground (arith, good, done, unchanged),
                    )
                | inr (content, written, changed) ↦ inr (
                  content,
                  ground (arith, good, done, written, same),
                  ground (arith, good, done, changed),
                )
              ]
            ]
      ]

  update_file-Outcome :
      (path section_identifier milestone : Text) (s : Trace W Call)
      → let (result, s') = update_file files path section_identifier milestone s in
        Outcome path s result s'
  unfolding update_file
  update_file-Outcome path section_identifier milestone s =
      let f = scan_file files path s in
      let same = calls-scan_file path s in
      elim (Result-cases f.0) [
        | inr (e, bad) ↦ inl (ground (arith, bad, same), ground (arith, bad))
        | inl (lines, good) ↦ elim (Result-cases (find_sections_in_file section_identifier lines)) [
          | inr (e, bad) ↦ inl (ground (arith, good, bad, same), ground (arith, good, bad))
          | inl (false, without) ↦
              inl (ground (arith, good, without, same), ground (arith, good, without))
          | inl (true, with_sections) ↦
              elim (handle-Outcome path section_identifier milestone f.1) [
                | inl (kept, unchanged) ↦ inl (
                  ground (arith, good, with_sections, kept, same),
                  ground (arith, good, with_sections, unchanged),
                )
                | inr (content, written, changed) ↦ inr (
                  content,
                  ground (arith, good, with_sections, written, same),
                  ground (arith, good, with_sections, changed),
                )
              ]
        ]
      ]

  -- Updating files only writes files. When it succeeds, it reports a change, or was told of one,
  -- exactly if it has written a file.
  pub update_files_lem :
      (changes : Bool) (paths : List Text) (section_identifier milestone : Text) (s : Trace W Call)
      → let (result, s') = update_files files changes paths section_identifier milestone s in
        (ws : List (Text × Text)) × (s'.calls ≡ writes ws s.calls)
        × (result ≡ ok true → (changes ≡ true) ⊎ (ws ≢ []))
        × (result ≡ ok false → (changes ≡ false) × (ws ≡ []))
  unfolding update_files
  update_files_lem changes [] section_identifier milestone s =
      ([], refl, λ h. ground arith, λ h. (ground arith, refl))
  update_files_lem changes (path ∷ paths) section_identifier milestone s =
      let u = update_file files path section_identifier milestone s in
      let outcome = update_file-Outcome path section_identifier milestone s in
      elim (Result-cases u.0) [
        | inr (e, bad) ↦ elim outcome [
          | inl (kept, _) ↦
              ([], ground (arith, bad, kept), λ h. ground (arith, bad), λ h. ground (arith, bad))
          | inr (content, written, _) ↦ (
            (path, content) ∷ [],
            ground (arith, bad, written),
            λ h. ground (arith, bad),
            λ h. ground (arith, bad),
          )
        ]
        | inl (b, good) ↦
            let (ws, calls, changed, unchanged) =
              update_files_lem (changes || b) paths section_identifier milestone u.1 in
            let step : (update_files files changes (path ∷ paths) section_identifier milestone
                  s).1.calls
                ≡ (update_files files (changes || b) paths section_identifier milestone
                    u.1).1.calls =
              ground (arith, good) in
            let out : (update_files files changes (path ∷ paths) section_identifier milestone s).0
                ≡ (update_files files (changes || b) paths section_identifier milestone u.1).0 =
              ground (arith, good) in
            elim outcome [
              | inl (kept, no_change) ↦ (
                ws,
                step ∙ calls ∙ ap (writes ws) kept,
                λ h. ground (arith, good, no_change, changed (sym out ∙ h)),
                λ h. ground (arith, unchanged (sym out ∙ h)),
              )
              | inr (content, written, change) ↦ (
                (path, content) ∷ ws,
                step ∙ calls ∙ ap (writes ws) written,
                λ h. inr (λ e. cc),
                λ h. ground (arith, good, change, unchanged (sym out ∙ h)),
              )
            ]
      ]
