-- ===== src/Lifecycle/Build/Steps.antt =====
-- src/dbwiki/lifecycle.py: what a `build` that succeeds has passed, and what its record says.
use logbook.Prelude.{
  unix_breaks, String, ◌≡◌, refl, sym, ap, ◌∙◌, Bool, true, false, not, Option, none, some, ◌==◌,
  Bool-cases, Option-cases, strip, inl, inr, ◌⊎◌, if◌then◌else◌, arith, eq_iff,
}
use logbook.Prelude.Dict.{Dict, get, put, get-put}
use logbook.Incident.{Status, ActionRecord, Incident, is_active, incident_path}
use logbook.Incident.Record.{new_record, evidence_refs, is_record}
use logbook.Lifecycle.{
  Command, records, starts, extends, resolves, reopens, merges, Merge, kind_of, next_status, Result,
  ok, err, Refusal, ◌>>=◌, ◌>>◌, refuse_if, or_raise, window_after,
}
use logbook.Lifecycle.Build.{
  build, action_of, draft_of, written, with_kept, merged_into, kept_record, is_some, page_at,
  read_as, append_action,
}

pub ok-bind :
    {A B : Type 0} (m : Result A) (f : A → Result B) (b : B)
    → (m >>= f) ≡ ok b
    → (a : A) × (m ≡ ok a) × (f a ≡ ok b)
ok-bind (err e) f b h = cc
ok-bind (ok a) f b h = (a, refl, h)

pub ok-refuse :
    {B : Type 0} (test : Bool) (e : Refusal) (n : Result B) (b : B)
    → (refuse_if test e >> n) ≡ ok b
    → (test ≡ false) × (n ≡ ok b)
ok-refuse true e n b h = cc
ok-refuse false e n b h = (refl, h)

pub ok-raise : {A : Type 0} (o : Option A) (e : Refusal) (a : A) → or_raise o e ≡ ok a → o ≡ some a
ok-raise none e a h = cc
ok-raise (some x) e a h = cc

pub ok-injective : {A : Type 0} {a b : A} → ok a ≡ ok b → a ≡ b
ok-injective h = cc

pub is_some-false : {A : Type 0} (o : Option A) → is_some o ≡ false → o ≡ none
is_some-false none h = refl
is_some-false (some a) h = cc

-- What the constructor of a record leaves alone.
pub record IsSame (d r : ActionRecord) : Type 0 where
  pub at : r.at ≡ d.at
  pub kind : r.kind ≡ d.kind
  pub actor : r.actor ≡ d.actor
  pub status_after : r.status_after ≡ d.status_after
  pub window : r.window ≡ d.window

pub new_record-IsSame : (d r : ActionRecord) → new_record d ≡ some r → IsSame d r
unfolding new_record
new_record-IsSame d r h = elim (Option-cases (evidence_refs d.evidence)) [
  | inl bad ↦ ground arith
  | inr (refs, good) ↦ elim (Bool-cases (is_record d (strip (unix_breaks d.notes)))) [
    | inr bad ↦ ground arith
    | inl fine ↦ record {
      at = ground arith;
      kind = ground arith;
      actor = ground arith;
      status_after = ground arith;
      window = ground arith;
    }
  ]
]

draft_of-fields :
    (c : Command) (actor at : String) (status : Status)
    → let d = draft_of c actor at status in
      (d.at ≡ at) × (d.kind ≡ kind_of c) × (d.actor ≡ actor) × (d.status_after ≡ status)
unfolding draft_of
draft_of-fields (records c) actor at status = (refl, refl, refl, refl)
draft_of-fields (starts c) actor at status = (refl, refl, refl, refl)
draft_of-fields (extends c) actor at status = (refl, refl, refl, refl)
draft_of-fields (resolves c) actor at status = (refl, refl, refl, refl)
draft_of-fields (reopens c) actor at status = (refl, refl, refl, refl)
draft_of-fields (merges c) actor at status = (refl, refl, refl, refl)

pub action_of-IsSame :
    (i : Incident) (c : Command) (actor at : String) (status : Status) (r : ActionRecord)
    → action_of i c actor at status ≡ ok r
    → (r.at ≡ at)
      × (r.kind ≡ kind_of c)
      × (r.actor ≡ actor)
      × (r.status_after ≡ status)
      × (window_after i c at ≡ ok r.window)
unfolding action_of
action_of-IsSame i c actor at status r h =
    let s = ok-bind (window_after i c at) _ r h in
    let same =
      new_record-IsSame (record (draft_of c actor at status) { window = s.0 }) r
        (ok-raise _ _ r s.2) in
    let fields = draft_of-fields c actor at status in
    (
      same.at ∙ fields.0,
      same.kind ∙ fields.1,
      same.actor ∙ fields.2,
      same.status_after ∙ fields.3,
      s.1 ∙ ap ok (sym same.window),
    )

-- What a `build` that succeeds has found and made.
pub record Steps (tree : Dict Incident) (path : String) (c : Command) (actor at : String)
    (after : Dict Incident) : Type 0 where
  pub before : Incident
  pub status : Status
  pub made : ActionRecord
  pub page : Incident
  pub rest : Dict Incident
  pub found : page_at tree path ≡ some before
  pub known : before.unknown_status ≡ none
  pub legal : next_status before.status c ≡ some status
  pub recorded : action_of before c actor at status ≡ ok made
  pub wrote : written before made at ≡ ok page
  pub kept : with_kept tree before c actor at ≡ ok rest
  pub result : after ≡ put rest path page

pub build-Steps :
    (tree : Dict Incident) (path : String) (c : Command) (actor at : String) (after : Dict Incident)
    → build tree path c actor at ≡ ok after
    → Steps tree path c actor at after
unfolding build
build-Steps tree path c actor at after h =
    let s = ok-bind (or_raise (page_at tree path) _) _ after h in
    let known = ok-refuse _ _ _ after s.2 in
    let next = ok-bind (or_raise (next_status s.0.status c) _) _ after known.1 in
    let made = ok-bind (action_of s.0 c actor at next.0) _ after next.2 in
    let page = ok-bind (written s.0 made.0 at) _ after made.2 in
    let rest = ok-bind (with_kept tree s.0 c actor at) _ after page.2 in
    record {
      before = s.0;
      status = next.0;
      made = made.0;
      page = page.0;
      rest = rest.0;
      found = ok-raise _ _ _ s.1;
      known = is_some-false _ known.0;
      legal = ok-raise _ _ _ next.1;
      recorded = made.1;
      wrote = page.1;
      kept = rest.1;
      result = sym (ok-injective rest.2);
    }

pub record Written (i : Incident) (r : ActionRecord) (at : String) (page : Incident) : Type 0 where
  pub status : page.status ≡ r.status_after
  pub window : page.monitoring_window ≡ r.window
  pub updated : page.updated ≡ at
  pub known : page.unknown_status ≡ i.unknown_status
  pub db : page.db ≡ i.db
  pub path : page.path ≡ i.path
  pub actions : append_action r i.actions ≡ ok page.actions

pub written-Written :
    (i : Incident) (r : ActionRecord) (at : String) (page : Incident)
    → written i r at ≡ ok page
    → Written i r at page
unfolding written
written-Written i r at page h =
    let s = ok-bind (append_action r i.actions) _ page h in
    let e = ok-injective s.2 in
    record {
      status = sym (ap (λ p. p.status) e);
      window = sym (ap (λ p. p.monitoring_window) e);
      updated = sym (ap (λ p. p.updated) e);
      known = sym (ap (λ p. p.unknown_status) e);
      db = sym (ap (λ p. p.db) e);
      path = sym (ap (λ p. p.path) e);
      actions = s.1 ∙ ap (λ p. ok p.actions) e;
    }

-- What a merge that succeeds has found and made on the page that it keeps.
pub record Kept (tree : Dict Incident) (dropped : Incident) (m : Merge) (actor at : String)
    (rest : Dict Incident) : Type 0 where
  pub before : Incident
  pub made : ActionRecord
  pub page : Incident
  pub found : page_at tree (incident_path m.into) ≡ some before
  pub other : (incident_path m.into == dropped.path) ≡ false
  pub same_db : before.db ≡ dropped.db
  pub known : before.unknown_status ≡ none
  pub active : is_active before.status ≡ true
  pub same : IsSame (kept_record before dropped actor at) made
  pub wrote : written before made at ≡ ok page
  pub result : rest ≡ put tree (incident_path m.into) page

not-false : (b : Bool) → not b ≡ false → b ≡ true
not-false true h = refl
not-false false h = cc

pub with_kept-Kept :
    (tree : Dict Incident) (i : Incident) (m : Merge) (actor at : String) (rest : Dict Incident)
    → with_kept tree i (merges m) actor at ≡ ok rest
    → Kept tree i m actor at rest
unfolding with_kept merged_into
with_kept-Kept tree i m actor at rest h =
    let whole = ok-bind (merged_into tree i m actor at) _ rest h in
    let other = ok-refuse _ _ _ whole.0 whole.1 in
    let s = ok-bind (or_raise (page_at tree (incident_path m.into)) _) _ whole.0 other.1 in
    let db = ok-refuse _ _ _ whole.0 s.2 in
    let known = ok-refuse _ _ _ whole.0 db.1 in
    let active = ok-refuse _ _ _ whole.0 known.1 in
    let made = ok-bind (or_raise (new_record (kept_record s.0 i actor at)) _) _ whole.0 active.1 in
    record {
      before = s.0;
      made = made.0;
      page = whole.0;
      found = ok-raise _ _ _ s.1;
      other = other.0;
      same_db = (eq_iff _ _).0 (not-false _ db.0);
      known = is_some-false _ known.0;
      active = not-false _ active.0;
      same = new_record-IsSame _ _ (ok-raise _ _ _ made.1);
      wrote = made.2;
      result = sym (ok-injective whole.2);
    }

pub with_kept-other :
    (tree : Dict Incident) (i : Incident) (c : Command) (actor at : String) (rest : Dict Incident)
    → with_kept tree i c actor at ≡ ok rest
    → (rest ≡ tree) ⊎ ((m : Merge) × (c ≡ merges m))
unfolding with_kept
with_kept-other tree i (records c) actor at rest h = inl (sym (ok-injective h))
with_kept-other tree i (starts c) actor at rest h = inl (sym (ok-injective h))
with_kept-other tree i (extends c) actor at rest h = inl (sym (ok-injective h))
with_kept-other tree i (resolves c) actor at rest h = inl (sym (ok-injective h))
with_kept-other tree i (reopens c) actor at rest h = inl (sym (ok-injective h))
with_kept-other tree i (merges c) actor at rest h = inr (c, refl)

read_as-if :
    (q : String) (b : Bool) (i : Incident) (o : Option Incident)
    → read_as q (if b then some i else o)
      ≡ (if b then some (record i { path = q }) else read_as q o)
read_as-if q true i o = refl
read_as-if q false i o = refl

pub page_at-put :
    (tree : Dict Incident) (path q : String) (page : Incident)
    → page_at (put tree path page) q
      ≡ (if path == q then some (record page { path = q }) else page_at tree q)
unfolding page_at
page_at-put tree path q page =
    ap (read_as q) (get-put tree path q page) ∙ read_as-if q (path == q) page (get tree q)
