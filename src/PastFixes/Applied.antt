-- ===== src/PastFixes/Applied.antt =====
-- src/dbwiki/past_fixes.py: `apply` on a page and a log that it wrote.
use logbook.Prelude.{
  ℕ, String, ◌≡◌, refl, sym, ap, ◌∙◌, inl, inr, true, false, Option, some, List, Bool-cases, eq_iff,
  ◌==◌, arith,
}
use logbook.Pagetext.{page_lines}
use logbook.PastFixes.Verdicts.{PastFix}
use logbook.PastFixes.Splice.{splice_section}
use logbook.PastFixes.Extents.{NoSection}
use logbook.PastFixes.Again.{splice_section-again}
use logbook.PastFixes.Apply.{Applied, body_of, apply}

module _ (action_cell : PastFix → String) (wait : ℕ) (today rel_page : String)
    (fixes : List PastFix) where
  abbrev next : String → String
  next text = splice_section text (body_of action_cell wait fixes)

  abbrev run : String → Option String → Applied
  run text log = apply action_cell wait today rel_page text log fixes

  apply-page : (text : String) (log : Option String) → (run text log).page ≡ next text
  unfolding apply
  apply-page text log = elim (Bool-cases (next text == text)) [
    | inl same ↦ rw same (sym (ground (arith, eq_iff (next text) text)))
    | inr other ↦ rw other refl
  ]

  apply-same :
      (text : String) (log : Option String)
      → next text ≡ text
      → run text log ≡ record { page = text; log = log; changed = false }
  unfolding apply
  apply-same text log e =
      let same : (next text == text) ≡ true = ground (arith, eq_iff (next text) text) in
      rw same refl

  settled :
      (text body : String)
      → body_of action_cell wait fixes ≡ some body
      → NoSection (page_lines body)
      → next (next text) ≡ next text
  settled text body e free =
      ap (λ b. splice_section (splice_section text b) b) e
      ∙ splice_section-again text body free
      ∙ ap (splice_section text) (sym e)

  -- Applying a history of at least one fix, whose text starts no section, to a page: a second
  -- application changes neither the page nor the log, and says so.
  pub apply-again :
      (text body : String) (log : Option String)
      → body_of action_cell wait fixes ≡ some body
      → NoSection (page_lines body)
      → let done = run text log in
        run done.page done.log ≡ record { page = done.page; log = done.log; changed = false }
  apply-again text body log e free =
      let done = run text log in
      apply-same done.page done.log
        (ap next (apply-page text log) ∙ settled text body e free ∙ sym (apply-page text log))
