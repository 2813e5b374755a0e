-- ===== src/Lifecycle/Build/Windows.antt =====
-- src/dbwiki/lifecycle.py: the monitoring windows of the pages.
use logbook.Prelude.{
  String, ◌≡◌, refl, sym, ap, subst, Bool, true, false, not, ◌||◌, Option, none, some, List, [],
  ◌∷◌, inl, inr, arith, text_leb, text_ltb, Bool-cases, Option-cases, eq_iff, All, ◌==◌,
}
use logbook.Prelude.Dict.{Dict, get}
use logbook.Incident.{
  Status, open_status, monitoring, resolved, extend_monitoring, MonitoringWindow, RecoverySignal,
  Incident, ActionRecord,
}
use logbook.Validate.{is_instant}
use logbook.Lifecycle.{
  Command, records, starts, extends, resolves, reopens, merges, kind_of, Result, ok, err,
  window_after, new_window, extended, is_replay, action_malformed,
}
use logbook.Lifecycle.Table.{Step, keeps, watches, pushes, closes, folds, comes_back}
use logbook.Lifecycle.Build.{build, page_at}
use logbook.Lifecycle.Build.Steps.{ok-bind, ok-refuse, ok-injective}
use logbook.Lifecycle.Build.Statuses.{build-IsMove}

-- A window that ends behind its start while the incident is watched, and none else.
unfoldable pub watched : Status → Option MonitoringWindow → Bool
watched open_status none = true
watched resolved none = true
watched monitoring (some w) = text_ltb w.start w.until
watched s w = false

pub IsWatched : Dict Incident → Type 0
IsWatched tree =
    (q : String) (i : Incident)
    → page_at tree q ≡ some i
    → watched i.status i.monitoring_window ≡ true

same_page : {a b : Incident} → some a ≡ some b → a ≡ b
same_page h = cc

-- Each entry well watched makes the whole so.
pub All-IsWatched :
    (tree : Dict Incident)
    → All (λ e. watched e.1.status e.1.monitoring_window ≡ true) tree
    → IsWatched tree
unfolding IsWatched page_at get
All-IsWatched [] h q i at = cc
All-IsWatched ((k, p) ∷ tree) h q i at = elim (Bool-cases (k == q)) [
  | inl same ↦
      let here : some (record p { path = q }) ≡ some i = rw same at at in
      subst (λ j. watched j.status j.monitoring_window ≡ true) (same_page here) h.0
  | inr other ↦ All-IsWatched tree h.1 q i (rw other at at)
]

pub record IsWindow (signal : RecoverySignal) (start until : String) (w : MonitoringWindow)
    : Type 0 where
  pub signal_kept : w.signal ≡ signal
  pub start_kept : w.start ≡ start
  pub until_set : w.until ≡ until
  pub ordered : text_ltb w.start w.until ≡ true

new_window-IsWindow :
    (signal : RecoverySignal) (start until : String) (w : MonitoringWindow)
    → new_window signal start until ≡ ok w
    → IsWindow signal start until w
unfolding new_window text_ltb
new_window-IsWindow signal start until w h =
    let a = ok-refuse (not (is_instant start)) action_malformed _ w h in
    let b = ok-refuse (not (is_instant until)) action_malformed _ w a.1 in
    let d = ok-refuse (text_leb until start) action_malformed _ w b.1 in
    let e = ok-injective d.1 in
    subst (IsWindow signal start until) e
      (record { signal_kept = refl; start_kept = refl; until_set = refl; ordered = ap not d.0 })

-- What an extension that is accepted has made of the window `w`.
pub record IsExtension (w : MonitoringWindow) (done : List ActionRecord) (until at : String)
    (v : MonitoringWindow) : Type 0 where
  pub window : IsWindow w.signal w.start until v
  pub later_than_now : text_ltb at until ≡ true
  pub not_earlier : text_ltb until w.until ≡ false
  pub same_only_again : until ≡ w.until → is_replay at done ≡ true

or_false : (a b : Bool) → (a || b) ≡ false → (a ≡ false) × (b ≡ false)
or_false a b h = (ground arith, ground arith)

-- An `ExtendMonitoring` that `_window_after` takes keeps the signal and the start, ends later than now and
-- not before the window did, and ends when the window did only if the page records this very extension.
pub extended-IsExtension :
    (w : MonitoringWindow) (done : List ActionRecord) (until at : String)
    (v : Option MonitoringWindow)
    → extended (some w) done until at ≡ ok v
    → (u : MonitoringWindow) × (v ≡ some u) × IsExtension w done until at u
unfolding extended text_ltb
extended-IsExtension w done until at v h =
    let a = ok-refuse _ _ _ v h in
    let b = ok-refuse _ _ _ v a.1 in
    let d = ok-bind (new_window w.signal w.start until) _ v b.1 in
    let tests = or_false _ _ a.0 in
    (
      d.0,
      sym (ok-injective d.2),
      record {
        window = new_window-IsWindow w.signal w.start until d.0 d.1;
        later_than_now = ap not b.0;
        not_earlier = tests.0;
        same_only_again = λ e. ground (arith, tests.1, (eq_iff until w.until).1 e);
      },
    )

extended-status : {s t : Status} → Step s extend_monitoring t → t ≡ monitoring
extended-status pushes = refl

extended-watched :
    (o : Option MonitoringWindow) (done : List ActionRecord) (until at : String)
    (v : Option MonitoringWindow)
    → extended o done until at ≡ ok v
    → watched monitoring v ≡ true
unfolding watched extended
extended-watched none done until at v h = cc
extended-watched (some w) done until at v h =
    let e = extended-IsExtension w done until at v h in
    subst (λ v. watched monitoring v ≡ true) (sym e.1) e.2.window.ordered

-- `window_after` on each command from each status that the table lets it have.
Step-watched :
    (i : Incident) (c : Command) (at : String) (t : Status) (v : Option MonitoringWindow)
    → watched i.status i.monitoring_window ≡ true
    → Step i.status (kind_of c) t
    → window_after i c at ≡ ok v
    → watched t v ≡ true
unfolding watched window_after kind_of
Step-watched i (records c) at _ v h (keeps _) w =
    subst (λ v. watched i.status v ≡ true) (ok-injective w) h
Step-watched i (starts c) at _ v h (watches _ active) w =
    let s = ok-bind (new_window c.signal at c.until) _ v w in
    subst (λ v. watched monitoring v ≡ true) (ok-injective s.2)
      (new_window-IsWindow c.signal at c.until s.0 s.1).ordered
Step-watched i (extends c) at t v h step w =
    subst (λ t. watched t v ≡ true) (sym (extended-status step))
      (extended-watched i.monitoring_window i.actions c.until at v w)
Step-watched i (resolves c) at _ v h (closes _ active) w =
    subst (λ v. watched resolved v ≡ true) (ok-injective w) refl
Step-watched i (reopens c) at _ v h comes_back w =
    subst (λ v. watched open_status v ≡ true) (ok-injective w) refl
Step-watched i (merges c) at _ v h (folds _ active) w =
    subst (λ v. watched resolved v ≡ true) (ok-injective w) refl

-- Commands that arrive one by one; a refused one leaves the pages as they are.
pub record Attempt : Type 0 where
  pub path : String
  pub command : Command
  pub actor : String
  pub at : String

abbrev pub settled : Dict Incident → Result (Dict Incident) → Dict Incident
settled tree (ok after) = after
settled tree (err e) = tree

unfoldable pub attempt : Dict Incident → Attempt → Dict Incident
unfolding build
attempt tree a = settled tree (build tree a.path a.command a.actor a.at)

unfoldable pub attempts : Dict Incident → List Attempt → Dict Incident
unfolding attempt
attempts tree [] = tree
attempts tree (a ∷ more) = attempts (attempt tree a) more

build-IsWatched :
    (tree : Dict Incident) (path : String) (c : Command) (actor at : String) (after : Dict Incident)
    → IsWatched tree
    → build tree path c actor at ≡ ok after
    → IsWatched after
unfolding IsWatched
build-IsWatched tree path c actor at after w h q j now =
    let m = build-IsMove tree path c actor at after h q in
    elim (Option-cases (page_at tree q)) [
      | inl absent ↦ cc (now, m.creates_none absent)
      | inr (i, was) ↦ elim (m.moves i j was now) [
        | inl (status, window) ↦ rw (status, window) (w q i was)
        | inr (here, step, window) ↦
            Step-watched i c at j.status j.monitoring_window (w q i was) step window
      ]
    ]

attempt-IsWatched :
    (tree : Dict Incident) (a : Attempt) → IsWatched tree → IsWatched (attempt tree a)
unfolding attempt
attempt-IsWatched tree a w = go (build tree a.path a.command a.actor a.at) refl
  where
    go :
        (r : Result (Dict Incident))
        → build tree a.path a.command a.actor a.at ≡ r
        → IsWatched (settled tree r)
    go (ok after) taken = build-IsWatched tree a.path a.command a.actor a.at after w taken
    go (err e) refused = w

-- Whatever commands arrive, taken or refused, on pages each of which is either monitored with a window
-- that ends behind its start, or is open or resolved without a window: every page stays so.
pub attempts-IsWatched :
    (tree : Dict Incident) (more : List Attempt) → IsWatched tree → IsWatched (attempts tree more)
unfolding attempts
attempts-IsWatched tree [] w = w
attempts-IsWatched tree (a ∷ more) w =
    attempts-IsWatched (attempt tree a) more (attempt-IsWatched tree a w)
