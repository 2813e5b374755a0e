-- ===== src/Trigger/Outcomes.antt =====
-- src/dbwiki/trigger.py: the outcomes of `decide`, and their reasons.
use logbook.Prelude.{
  String, ◌≡◌, ◌≢◌, ◌↔◌, refl, ◌⊎◌, inl, inr, Bool, true, false, ◌||◌, Option, List, [], ◌∷◌, ◌++◌,
  map, filter, any, arith, Bool-cases, if◌then◌else◌,
}
use logbook.Trigger.{
  Outcome, wake, Digest, Delta, Group, LedgerEntry, decide, already_ingested, content_unchanged,
  or_no_entry, routine_outcome, routine_reasons, notable_reasons, groups_of, is_among,
  delta_reason_types, reason, of_delta, of_group, TriggerDecision,
}

-- Whatever holds of the three decisions that are built holds of the one that is made.
decide-cases :
    (P : TriggerDecision → Type 0) (a b : Bool) (x y z : TriggerDecision)
    → (a ≡ true → P x)
    → (b ≡ true → P y)
    → (a ≡ false → b ≡ false → P z)
    → P (if a then x else if b then y else z)
decide-cases P true b x y z hx hy hz = hx refl
decide-cases P false true x y z hx hy hz = hy refl
decide-cases P false false x y z hx hy hz = hz refl refl

-- The window was ingested before, or its content was.
abbrev pub is_done : Option LedgerEntry → String → String → Bool
is_done entry window_to hash =
    already_ingested (or_no_entry entry) window_to || content_unchanged (or_no_entry entry) hash

abbrev WakesWhen : Bool → Bool → Outcome → Type 0
WakesWhen finished asked o = (o ≡ wake) ↔ ((finished ≡ false) × (asked ≡ true))

-- What a notable digest has: a delta of a reason type or a notable group.
unfoldable pub has_evidence : Digest → Bool
unfolding groups_of
has_evidence d =
    any (λ x. is_among x.type delta_reason_types) d.deltas || any (λ g. true) (groups_of d.sources)

append_left : {A : Type 0} (xs ys : List A) → xs ≢ [] → (xs ++ ys) ≢ []
append_left [] ys h e = h refl
append_left (x ∷ xs) ys h e = cc

append_right : {A : Type 0} (xs ys : List A) → ys ≢ [] → (xs ++ ys) ≢ []
append_right [] ys h e = h e
append_right (x ∷ xs) ys h e = cc

from_delta :
    (deltas : List Delta)
    → any (λ x. is_among x.type delta_reason_types) deltas ≡ true
    → map
        (λ x. reason x.type (of_delta x))
        (filter (λ x. is_among x.type delta_reason_types) deltas)
      ≢ []
unfolding filter
from_delta [] h = λ e. cc
from_delta (x ∷ deltas) h = elim (Bool-cases (is_among x.type delta_reason_types)) [
  | inl holds ↦ rw holds (λ e. cc)
  | inr fails ↦ rw fails (from_delta deltas (ground (arith, h, fails)))
]

from_group :
    (groups : List Group)
    → any (λ g. true) groups ≡ true
    → map (λ g. reason "notable_class" (of_group g)) groups ≢ []
from_group [] h e = cc
from_group (g ∷ groups) h e = cc

or_split : (a b : Bool) → (a || b) ≡ true → (a ≡ true) ⊎ (b ≡ true)
or_split true b h = inl refl
or_split false b h = inr h

notable_reasons_lem : (d : Digest) → has_evidence d ≡ true → notable_reasons d ≢ []
unfolding has_evidence notable_reasons
notable_reasons_lem d h = elim (or_split _ _ h) [
  | inl delta ↦ append_left _ _ (from_delta d.deltas delta)
  | inr group ↦ append_right _ _ (from_group (groups_of d.sources) group)
]

routine_reasons_lem :
    (d : Digest) (consolidation manual : Bool)
    → (d.notable ≡ true → has_evidence d ≡ true)
    → routine_reasons d (routine_outcome d.notable manual consolidation) manual ≢ []
unfolding routine_reasons routine_outcome
routine_reasons_lem d consolidation manual h = elim (Bool-cases d.notable) [
  | inl notable ↦ rw notable (append_left _ _ (append_left _ _ (notable_reasons_lem d (h notable))))
  | inr routine ↦ rw routine (elim (Bool-cases manual) [
    | inl asked ↦ rw asked (λ e. cc)
    | inr unasked ↦ rw unasked (elim (Bool-cases consolidation) [
      | inl tick ↦ rw tick (λ e. cc)
      | inr none_asked ↦ rw none_asked (λ e. cc)
    ])
  ])
]

-- Every decision gives a reason, provided that a digest marked notable has a delta of a reason type or a
-- notable group.
pub decide-reasons :
    (d : Digest) (hash : String) (entry : Option LedgerEntry) (window_to : String)
    (consolidation manual : Bool)
    → (d.notable ≡ true → has_evidence d ≡ true)
    → (decide d hash entry window_to consolidation manual).reasons ≢ []
unfolding decide
decide-reasons d hash entry window_to consolidation manual h =
    decide-cases (λ t. t.reasons ≢ []) (already_ingested (or_no_entry entry) window_to)
      (content_unchanged (or_no_entry entry) hash) _ _ _ (λ a e. cc) (λ b e. cc)
      (λ a b. routine_reasons_lem d consolidation manual h)
