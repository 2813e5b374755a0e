-- ===== src/Queue/Actions/Reclaim.antt =====
-- src/dbwiki/queue.py: `reclaim_stale`, claim by claim.
use logbook.Prelude.{
  ℕ, ◌+◌, ◌≤◌, ◌<◌, arith, Option-cases, ltb, String, ◌≡◌, refl, sym, ap, subst, ◌∙◌, ◌⊎◌, inl, inr,
  Bool, true, false, none, some, List, [], ◌∷◌, Memᴰ, All, All-map, All-mem, false≢true, ◌==◌,
  eq_iff, eq_refl, Bool-cases, if◌then◌else◌,
}
use logbook.Prelude.Dict.{Dict, get, get-put, get-remove, Distinct}
use logbook.Queue.Records.{
  Request, RequestFile, request, Wiki, Named, read_records, max_request_attempts,
}
use logbook.Queue.Select.Oldest.{mem-read_records, get_of_read}
use logbook.Queue.Actions.{count_attempt, give_back, Clock, is_stale, reclaim_each}

abbrev given_back : Request → Bool × Request
given_back rec = count_attempt max_request_attempts "stale_claim" rec

-- The record has left `claimed/`, one attempt older, for `failed/` or for `pending/`.
abbrev pub IsReturned : String → Request → Wiki → Type 0
IsReturned name rec w =
    (get w.claimed name ≡ none)
    × ((if (given_back rec).0 then get w.failed name else get w.pending name)
        ≡ some (request (given_back rec).1))

give_back-IsReturned :
    (name : String) (rec : Request) (w : Wiki)
    → IsReturned name rec (give_back name (given_back rec) w)
unfolding give_back
give_back-IsReturned name rec w = go (given_back rec)
  where
    go :
        (counted : Bool × Request)
        → (get (give_back name counted w).claimed name ≡ none)
          × ((if counted.0
                then get (give_back name counted w).failed name
                else get (give_back name counted w).pending name)
              ≡ some (request counted.1))
    go (true, r) = (rw (get-remove, eq_refl), rw (get-put, eq_refl))
    go (false, r) = (rw (get-remove, eq_refl), rw (get-put, eq_refl))

-- Giving another file back changes nothing for this one.
give_back_ne :
    (other name : String) (counted : Bool × Request) (w : Wiki)
    → (other == name) ≡ false
    → (get (give_back other counted w).claimed name ≡ get w.claimed name)
      × (get (give_back other counted w).failed name ≡ get w.failed name)
      × (get (give_back other counted w).pending name ≡ get w.pending name)
unfolding give_back
give_back_ne other name (true, r) w ne = (rw (get-remove, ne), rw (get-put, ne), refl)
give_back_ne other name (false, r) w ne = (rw (get-remove, ne), refl, rw (get-put, ne))

give_back_ne-IsReturned :
    (other name : String) (counted : Bool × Request) (rec : Request) (w : Wiki)
    → (other == name) ≡ false
    → IsReturned name rec w
    → IsReturned name rec (give_back other counted w)
give_back_ne-IsReturned other name counted rec w ne h =
    let (c, f, p) = give_back_ne other name counted w ne in (c ∙ h.0, rw (f, p) h.1)

-- Every record that the loop reads under the name is the one in the file.
abbrev Agrees : String → Request → List Named → Type 0
Agrees name rec es = All (λ e. (e.0 == name) ≡ true → e.1 ≡ rec) es

module _ (c : Clock) (name : String) (rec : Request) where
  -- A record that differs in staleness stands under another name.
  other_name :
      (n : String) (r : Request)
      → ((n == name) ≡ true → r ≡ rec)
      → is_stale c rec ≡ false
      → is_stale c r ≡ true
      → (n == name) ≡ false
  other_name n r agrees fresh old = elim (Bool-cases (n == name)) [
    | inl same ↦ absurd (false≢true (sym fresh ∙ (ap (is_stale c) (sym (agrees same)) ∙ old)))
    | inr other ↦ other
  ]

  fresh_stays :
      (es : List Named) (w : Wiki)
      → Agrees name rec es
      → is_stale c rec ≡ false
      → get (reclaim_each c es w).0.claimed name ≡ get w.claimed name
  unfolding reclaim_each
  fresh_stays [] w h fresh = refl
  fresh_stays ((n, r) ∷ es) w h fresh = elim (Bool-cases (is_stale c r)) [
    | inl old ↦ rw old (
        fresh_stays es _ h.1 fresh
        ∙ (give_back_ne n name (given_back r) w (other_name n r h.0 fresh old)).0)
    | inr young ↦ rw young (fresh_stays es w h.1 fresh)
  ]

  -- One step of the loop keeps a file that has been returned where it is.
  IsReturned-stays :
      (es : List Named) (w : Wiki)
      → Agrees name rec es
      → IsReturned name rec w
      → IsReturned name rec (reclaim_each c es w).0
  unfolding reclaim_each
  IsReturned-stays [] w h back = back
  IsReturned-stays ((n, r) ∷ es) w h back = elim (Bool-cases (is_stale c r)) [
    | inl old ↦ rw old (IsReturned-stays es _ h.1 (again (Bool-cases (n == name))))
    | inr young ↦ rw young (IsReturned-stays es w h.1 back)
  ]
    where
      again :
          ((n == name) ≡ true) ⊎ ((n == name) ≡ false)
          → IsReturned name rec (give_back n (given_back r) w)
      again (inl same) =
          subst (λ x. IsReturned name rec (give_back n (given_back x) w)) (sym (h.0 same))
            (subst (λ k. IsReturned name rec (give_back k (given_back rec) w))
              (sym ((eq_iff n name).0 same)) (give_back-IsReturned name rec w))
      again (inr other) = give_back_ne-IsReturned n name (given_back r) rec w other back

  stale_returns :
      (es : List Named) (w : Wiki)
      → Agrees name rec es
      → is_stale c rec ≡ true
      → Memᴰ (name, rec) es
      → IsReturned name rec (reclaim_each c es w).0
  unfolding reclaim_each
  stale_returns [] w h old m = elim m [ ]
  stale_returns (e ∷ es) w h old (Memᴰ.head same) =
      subst (λ x. IsReturned name rec (reclaim_each c (x ∷ es) w).0) same
        (rw old (IsReturned-stays es _ h.1 (give_back-IsReturned name rec w)))
  stale_returns ((n, r) ∷ es) w h old (Memᴰ.tail m) =
      stale_returns es (if is_stale c r then give_back n (given_back r) w else w) h.1 old m

read-Agrees :
    (dir : Dict RequestFile) (name : String) (rec : Request)
    → Distinct dir
    → get dir name ≡ some (request rec)
    → Agrees name rec (read_records dir)
read-Agrees dir name rec distinct at =
    All-map
      (λ e m same.
        let here : get dir name ≡ some (request e.1) =
          subst (λ n. get dir n ≡ some (request e.1)) ((eq_iff e.0 name).0 same)
            (get_of_read dir e.0 e.1 distinct m) in
        cc (at, here))
      (read_records dir) (All-mem (read_records dir))

-- By whether the claim is stale: it is returned, or stays in `claimed/` as it is.
abbrev pub AfterReclaim : Bool → String → Request → Wiki → Type 0
AfterReclaim true name rec w = IsReturned name rec w
AfterReclaim false name rec w = get w.claimed name ≡ some (request rec)

reclaim_lem :
    (c : Clock) (w : Wiki) (name : String) (rec : Request)
    → Distinct w.claimed
    → get w.claimed name ≡ some (request rec)
    → AfterReclaim (is_stale c rec) name rec (reclaim_each c (read_records w.claimed) w).0
reclaim_lem c w name rec distinct at = elim (Bool-cases (is_stale c rec)) [
  | inl old ↦ rw old (
      stale_returns c name rec (read_records w.claimed) w agrees old
        (mem-read_records w.claimed name rec at))
  | inr fresh ↦ rw fresh (fresh_stays c name rec (read_records w.claimed) w agrees fresh ∙ at)
]
  where
    agrees : Agrees name rec (read_records w.claimed)
    agrees = read-Agrees w.claimed name rec distinct at

-- The stamp parses, and more than the stale time has passed since.
abbrev pub IsOverdue : Clock → Request → Type 0
IsOverdue c rec =
    (stamp : String) × (at : ℕ) × (rec.claimed_at ≡ some stamp)
    × (c.seconds_of stamp ≡ some at)
    × (at + c.stale_after < c.now)

-- One attempt more, for `failed/` with the category at the limit and else for `pending/` without a stamp.
abbrev pub IsGivenBack : String → Request → Wiki → Type 0
IsGivenBack name rec w =
    (get w.claimed name ≡ none)
    × (max_request_attempts ≤ rec.attempts + 1
        → get w.failed name
          ≡ some (
              request
                (record rec { attempts = rec.attempts + 1; error_category = some "stale_claim" })))
    × (rec.attempts + 1 < max_request_attempts
        → get w.pending name
          ≡ some (
              request
                (record rec { attempts = rec.attempts + 1; claimed_by = none; claimed_at = none })))

stale-IsOverdue : (c : Clock) (rec : Request) → is_stale c rec ≡ true → IsOverdue c rec
unfolding is_stale
stale-IsOverdue c rec h = elim (Option-cases rec.claimed_at) [
  | inl e ↦ absurd (false≢true (rw (is_stale, e) at h))
  | inr (stamp, e) ↦ elim (Option-cases (c.seconds_of stamp)) [
    | inl k ↦ absurd (false≢true (rw (is_stale, e, k) at h))
    | inr (at, k) ↦
        let late : ltb (at + c.stale_after) c.now ≡ true = rw (is_stale, e, k) at h in
        (stamp, at, e, k, ground arith)
  ]
]

overdue-stale : (c : Clock) (rec : Request) → IsOverdue c rec → is_stale c rec ≡ true
unfolding is_stale
overdue-stale c rec (stamp, at, e, k, late) = rw (is_stale, e, k) (ground arith)

returned-IsGivenBack :
    (name : String) (rec : Request) (w : Wiki) → IsReturned name rec w → IsGivenBack name rec w
unfolding count_attempt
returned-IsGivenBack name rec w (gone, there) = (gone, λ h. ground arith, λ h. ground arith)

-- `reclaim_stale` gives a claim back exactly when it is overdue: its stamp parses to a time that lies more than
-- the stale time before now. It then leaves `claimed/` with one attempt more, for `failed/` when that uses its
-- attempts up, with the category set, and else for `pending/` without its stamp. A claim that is not overdue
-- stays as it is.
pub reclaim_exact :
    (c : Clock) (w : Wiki) (name : String) (rec : Request)
    → Distinct w.claimed
    → get w.claimed name ≡ some (request rec)
    → let w' = (reclaim_each c (read_records w.claimed) w).0 in
      (IsOverdue c rec → IsGivenBack name rec w')
      × ((¬ IsOverdue c rec) → get w'.claimed name ≡ some (request rec))
reclaim_exact c w name rec distinct at =
    let after = reclaim_lem c w name rec distinct at in
    let w' = (reclaim_each c (read_records w.claimed) w).0 in
    elim (Bool-cases (is_stale c rec)) [
      | inl old ↦ (
        λ late.
            returned-IsGivenBack name rec w' (subst (λ b. AfterReclaim b name rec w') old after),
        λ fresh. absurd (fresh (stale-IsOverdue c rec old)),
      )
      | inr young ↦ (
        λ late. absurd (false≢true (sym young ∙ overdue-stale c rec late)),
        λ fresh. subst (λ b. AfterReclaim b name rec w') young after,
      )
    ]
