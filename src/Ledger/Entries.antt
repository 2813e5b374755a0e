-- ===== src/Ledger/Entries.antt =====
-- src/dbwiki/state.py: the entries of the ingest ledger.
use logbook.Prelude.{
  String, ◌≡◌, refl, sym, ap, ◌∙◌, Bool, true, false, Option, none, some, [], ◌∷◌, ◌==◌, eq_refl,
  if◌then◌else◌,
}
use logbook.Prelude.Dict.{Dict, get, get-put}
use logbook.Ledger.{Entry, entry_or_empty, updated, merge_ledger_entry}

-- The patch's value, or the other one where the patch has none.
abbrev pub else_from : Option String → Option String → Option String
else_from none old = old
else_from (some value) old = some value

else_from-if :
    (b : Bool) (value : String) (rest old : Option String)
    → else_from (if b then some value else rest) old
      ≡ (if b then some value else else_from rest old)
else_from-if true value rest old = refl
else_from-if false value rest old = refl

get-updated :
    (entry patch : Entry) (field : String)
    → get (updated entry patch) field ≡ else_from (get patch field) (get entry field)
unfolding updated get
get-updated entry [] field = refl
get-updated entry ((f, value) ∷ patch) field =
    get-put (updated entry patch) f field value
    ∙ ap (λ o. if f == field then some value else o) (get-updated entry patch field)
    ∙ sym (else_from-if (f == field) value (get patch field) (get entry field))

-- After a merge the digest's entry has the patch's value of a field where the patch names it and its old one
-- where not, and the entries of all other digests are as they were.
pub merge_ledger_entry-fields :
    (led : Dict Entry) (digest_rel : String) (patch : Entry) (field other : String)
    → (digest_rel == other) ≡ false
    → (get (entry_or_empty (get (merge_ledger_entry led digest_rel patch) digest_rel)) field
        ≡ else_from (get patch field) (get (entry_or_empty (get led digest_rel)) field))
      × (get (merge_ledger_entry led digest_rel patch) other ≡ get led other)
unfolding merge_ledger_entry
merge_ledger_entry-fields led digest_rel patch field other apart =
    let merged = updated (entry_or_empty (get led digest_rel)) patch in
    (
      ap (λ o. get (entry_or_empty o) field)
            (get-put led digest_rel digest_rel merged ∙ here merged)
          ∙ get-updated (entry_or_empty (get led digest_rel)) patch field,
      get-put led digest_rel other merged ∙ there merged,
    )
  where
    here :
        (merged : Entry)
        → (if digest_rel == digest_rel then some merged else get led digest_rel) ≡ some merged
    here merged = rw (eq_refl digest_rel) refl

    there :
        (merged : Entry)
        → (if digest_rel == other then some merged else get led other) ≡ get led other
    there merged = rw apart refl
