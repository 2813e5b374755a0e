-- ===== src/Lifecycle/Build/Effects.antt =====
-- src/dbwiki/lifecycle.py: what one `build` does to each page.
use logbook.Prelude.{
  String, ◌≡◌, refl, ap, subst, ◌∙◌, Bool, true, false, some, ◌==◌, Bool-cases, inl, inr,
  if◌then◌else◌, eq_iff,
}
use logbook.Prelude.Dict.{Dict}
use logbook.Incident.{Incident, incident_path}
use logbook.Lifecycle.{Command, merges, Merge, ok}
use logbook.Lifecycle.Build.{with_kept, page_at}
use logbook.Lifecycle.Build.Steps.{Steps, Kept, with_kept-Kept, with_kept-other, page_at-put}

pub if_true : {A : Type 0} (b : Bool) (x y : A) → b ≡ true → (if b then x else y) ≡ x
if_true b x y h = rw h refl

pub if_false : {A : Type 0} (b : Bool) (x y : A) → b ≡ false → (if b then x else y) ≡ y
if_false b x y h = rw h refl

module _ (tree : Dict Incident) (path : String) (c : Command) (actor at : String)
    (after : Dict Incident) where
  -- The page of `q` is left alone, is the one that the command acts on, or is the one that a merge keeps.
  pub data Effect (s : Steps tree path c actor at after) (q : String) : Type 0 where
    untouched : page_at after q ≡ page_at tree q → Effect s q
    acted : path ≡ q → page_at after q ≡ some (record (s.page) { path = q }) → Effect s q
    absorbed :
        (m : Merge)
        → c ≡ merges m
        → (k : Kept tree s.before m actor at s.rest) → incident_path m.into ≡ q
        → page_at after q ≡ some (record (k.page) { path = q })
        → Effect s q

  pub acted_page :
      (s : Steps tree path c actor at after) (q : String)
      → path ≡ q
      → page_at after q ≡ some (record (s.page) { path = q })
  acted_page s q here =
      ap (λ t. page_at t q) s.result
      ∙ page_at-put s.rest path q s.page
      ∙ if_true _ _ _ ((eq_iff path q).1 here)

  pub build-Effect : (s : Steps tree path c actor at after) (q : String) → Effect s q
  build-Effect s q =
      let look = ap (λ t. page_at t q) s.result ∙ page_at-put s.rest path q s.page in
      elim (Bool-cases (path == q)) [
        | inl same ↦ acted ((eq_iff path q).0 same) (look ∙ if_true _ _ _ same)
        | inr other ↦
            let look_rest = look ∙ if_false _ _ _ other in
            elim (with_kept-other tree s.before c actor at s.rest s.kept) [
              | inl still ↦ untouched (look_rest ∙ ap (λ t. page_at t q) still)
              | inr (m, merging) ↦
                  let k =
                    with_kept-Kept tree s.before m actor at s.rest (
                      subst (λ c. with_kept tree s.before c actor at ≡ ok s.rest) merging s.kept) in
                  let look_kept =
                    look_rest
                    ∙ ap (λ t. page_at t q) k.result
                    ∙ page_at-put tree (incident_path m.into) q k.page in
                  elim (Bool-cases (incident_path m.into == q)) [
                    | inl kept ↦
                        absorbed m merging k ((eq_iff _ _).0 kept) (look_kept ∙ if_true _ _ _ kept)
                    | inr third ↦ untouched (look_kept ∙ if_false _ _ _ third)
                  ]
            ]
      ]
