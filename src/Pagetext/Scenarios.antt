-- ===== src/Pagetext/Scenarios.antt =====
-- src/dbwiki/pagetext.py on an index page with a placeholder, and on a log that does not exist yet.
use logbook.Prelude.{
  String, List, [], ◌∷◌, ◌≡◌, ◌⊎◌, false, refl, true, contains, every, nonempty, strip, lstrip,
}
use logbook.Pagetext.{
  join_lines, page_lines, section_append, section_remove_line, section_drop_if_empty,
}
use logbook.Pagetext.Again.{IsLine}
use logbook.Pagetext.Places.{IsInside, IsNew, section_append-IsPlaced}

abbrev index : String
index = "# Index\n\n## Open incidents\n\n(none yet)\n\n## Errors\n\n- [[errors/ORA-1]]\n"

abbrev bullet : String
bullet = "- [[incidents/a]] — listener down"

placeholder_goes :
    section_append index "Open incidents" bullet ""
    ≡ "# Index\n\n## Open incidents\n\n- [[incidents/a]] — listener down\n\n## Errors\n\n- [[errors/ORA-1]]\n"
unfolding section_append strip lstrip
placeholder_goes = refl

other_case :
    section_append index "open INCIDENTS" bullet ""
    ≡ section_append index "Open incidents" bullet ""
unfolding section_append strip lstrip
other_case = refl

emptied :
    section_drop_if_empty (section_remove_line index "Errors" "- [[errors/ORA-1").0 "Errors"
    ≡ "# Index\n\n## Open incidents\n\n(none yet)\n"
unfolding section_drop_if_empty section_remove_line strip lstrip
emptied = refl

bullet-IsLine : IsLine bullet
unfolding every nonempty
bullet-IsLine = (refl, refl)

abbrev table_head : List String
table_head = "| day | db |" ∷ "|---|---|" ∷ []

section_append-IsPlaced_example :
    let page = section_append index "Reviews" bullet (join_lines table_head) in
    (contains bullet index ≡ true → page ≡ index)
    × (contains bullet index ≡ false
        → IsInside "Reviews" bullet (page_lines index) (page_lines page)
          ⊎ IsNew "Reviews" bullet table_head (page_lines index) (page_lines page))
    × (section_append page "Reviews" bullet (join_lines table_head) ≡ page)
unfolding every nonempty
section_append-IsPlaced_example =
    section_append-IsPlaced index "Reviews" bullet table_head bullet-IsLine refl
      ((refl, refl), ((refl, refl), tt))
