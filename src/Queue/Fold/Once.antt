-- ===== src/Queue/Fold/Once.antt =====
-- src/dbwiki/queue.py: the event ids in the agent-run log around `fold_results`.
use logbook.Prelude.{
  ℕ, zero, suc, ◌-◌, String, ◌≡◌, refl, sym, ap, subst, ◌∙◌, ◌⊎◌, inl, inr, Bool, true, false,
  Option, none, some, List, [], ◌∷◌, ◌++◌, ◌==◌, length, drop, All, All-append, All-map, eq_iff,
  arith, leb, sorted, sorted-All, Bool-cases, false≢true, if◌then◌else◌,
}
use logbook.Prelude.Dict.{Dict}
use logbook.Queue.Records.{Event, ResultFile, unreadable, no_object, event}
use logbook.Queue.Repo.{Repo}
use logbook.Queue.Fold.{
  id_of, add_id, known_ids, append_agent_run_event, FoldEnv, Folding, is_known, fold_event,
  drop_file, fold_file, fold_files, end_fold, file_le, start_fold, fold_results, max_agent_events,
}

-- Two events with one id.
abbrev clash : Option String → Option String → Bool
clash (some a) (some b) = a == b
clash a b = false

-- No id stands twice in the log; events without an id are not counted.
abbrev pub IdsOnce : List Event → Type 0
IdsOnce [] = Unit
IdsOnce (e ∷ log) = All (λ x. clash (id_of e) (id_of x) ≡ false) log × IdsOnce log

IdsOnce-append :
    (log : List Event) (e : Event)
    → All (λ x. clash (id_of x) (id_of e) ≡ false) log
    → IdsOnce log
    → IdsOnce (log ++ e ∷ [])
IdsOnce-append [] e h once = (tt, tt)
IdsOnce-append (x ∷ log) e h once =
    (All-append _ log (e ∷ []) once.0 (h.0, tt), IdsOnce-append log e h.1 once.1)

IdsOnce-drop : (n : ℕ) (log : List Event) → IdsOnce log → IdsOnce (drop n log)
IdsOnce-drop zero log h = h
IdsOnce-drop (suc n) [] h = tt
IdsOnce-drop (suc n) (e ∷ log) h = IdsOnce-drop n log h.1

All-drop : (P : Event → Type 0) (n : ℕ) (log : List Event) → All P log → All P (drop n log)
All-drop P zero log h = h
All-drop P (suc n) [] h = tt
All-drop P (suc n) (e ∷ log) h = All-drop P n log h.1

-- The event's id, if it has one, is among the known ones.
abbrev IsNoted : List String → Event → Type 0
IsNoted known e = (id_of e ≡ none) ⊎ (is_known (id_of e) known ≡ true)

record Inv (log : List Event) (known : List String) : Type 0 where
  once : IdsOnce log
  noted : All (IsNoted known) log

-- An event with a new id clashes with none that is noted.
no_clash :
    (known : List String) (e x : Event)
    → is_known (id_of e) known ≡ false
    → IsNoted known x
    → clash (id_of x) (id_of e) ≡ false
no_clash known e x new noted = go (id_of e) (id_of x) new noted
  where
    go :
        (a b : Option String)
        → is_known a known ≡ false
        → (b ≡ none) ⊎ (is_known b known ≡ true)
        → clash b a ≡ false
    go a none new h = refl
    go none (some b) new h = refl
    go (some a) (some b) new (inl h) = cc
    go (some a) (some b) new (inr h) = elim (Bool-cases (b == a)) [
      | inl same ↦ absurd (
          false≢true
            (sym new ∙ (ap (λ t. is_known (some t) known) (sym ((eq_iff b a).0 same)) ∙ h)))
      | inr other ↦ other
    ]

IsNoted-more :
    (known : List String) (o : Option String) (x : Event)
    → IsNoted known x
    → IsNoted (add_id o known) x
IsNoted-more known none x h = h
IsNoted-more known (some id) x (inl h) = inl h
IsNoted-more known (some id) x (inr h) = inr (go (id_of x) h)
  where
    go : (b : Option String) → is_known b known ≡ true → is_known b (id ∷ known) ≡ true
    go none h = h
    go (some b) h = ground arith

IsNoted-self : (known : List String) (e : Event) → IsNoted (add_id (id_of e) known) e
IsNoted-self known e = go (id_of e)
  where
    go : (o : Option String) → (o ≡ none) ⊎ (is_known o (add_id o known) ≡ true)
    go none = inl refl
    go (some id) = inr (ground (arith, eq_iff id id))

append-Inv :
    (log : List Event) (known : List String) (e : Event)
    → is_known (id_of e) known ≡ false
    → Inv log known
    → Inv (log ++ e ∷ []) (add_id (id_of e) known)
append-Inv log known e new h = record {
  once = IdsOnce-append log e (All-map (λ x. no_clash known e x new) log h.noted) h.once;
  noted =
      All-append _ log (e ∷ []) (All-map (IsNoted-more known (id_of e)) log h.noted)
        (IsNoted-self known e, tt);
}

trim-Inv : (log : List Event) (known : List String) (n : ℕ) → Inv log known → Inv (drop n log) known
trim-Inv log known n h = record {
  once = IdsOnce-drop n log h.once;
  noted = All-drop (IsNoted known) n log h.noted;
}

append_event-Inv :
    (recorded : Event → Bool) (log : List Event) (known : List String) (e : Event)
    → is_known (id_of e) known ≡ false
    → Inv log known
    → Inv (append_agent_run_event recorded log e) (add_id (id_of e) known)
unfolding append_agent_run_event
append_event-Inv recorded log known e new h = go (recorded e) (leb _ _)
  where
    trimmed : Inv (log ++ e ∷ []) (add_id (id_of e) known)
    trimmed = append-Inv log known e new h

    go :
        (written fits : Bool)
        → Inv
            (if written
              then (if fits
                  then log ++ e ∷ []
                  else drop (length (log ++ e ∷ []) - max_agent_events) (log ++ e ∷ []))
              else log)
            (add_id (id_of e) known)
    go true true = trimmed
    go true false = trim-Inv _ _ (length (log ++ e ∷ []) - max_agent_events) trimmed
    go false fits = record {
      once = h.once;
      noted = All-map (IsNoted-more known (id_of e)) log h.noted;
    }

fold_event-Inv :
    (env : FoldEnv) (e : Event) (s : Folding)
    → Inv s.log s.known
    → Inv (fold_event env e s).log (fold_event env e s).known
unfolding fold_event
fold_event-Inv env e s h = elim (Bool-cases (is_known (id_of e) s.known)) [
  | inl old ↦ rw old h
  | inr new ↦ rw new (append_event-Inv env.recorded s.log s.known e new h)
]

fold_file-Inv :
    (env : FoldEnv) (tracked : Dict ResultFile) (f : String × ResultFile) (s : Folding)
    → Inv s.log s.known
    → Inv (fold_file env tracked f s).1.log (fold_file env tracked f s).1.known
unfolding fold_file drop_file
fold_file-Inv env tracked (name, unreadable) s h = h
fold_file-Inv env tracked (name, no_object) s h = h
fold_file-Inv env tracked (name, event e) s h = elim (Bool-cases (env.removes name)) [
  | inl gone ↦ rw gone (fold_event-Inv env e s h)
  | inr raised ↦ rw raised (fold_event-Inv env e s h)
]

fold_files-Inv :
    (env : FoldEnv) (tracked : Dict ResultFile) (fs : List (String × ResultFile)) (s : Folding)
    → Inv s.log s.known
    → Inv (fold_files env tracked fs s).1.log (fold_files env tracked fs s).1.known
unfolding fold_files
fold_files-Inv env tracked [] s h = h
fold_files-Inv env tracked (f ∷ fs) s h =
    let next = fold_file-Inv env tracked f s h in
    elim (Bool-cases (fold_file env tracked f s).0) [
      | inl on ↦ rw on (fold_files-Inv env tracked fs _ next)
      | inr stopped ↦ rw stopped next
    ]

IsNoted-known : (log : List Event) → All (IsNoted (known_ids log)) log
unfolding known_ids
IsNoted-known [] = tt
IsNoted-known (e ∷ log) = (
  IsNoted-self (known_ids log) e,
  All-map (IsNoted-more (known_ids log) (id_of e)) log (IsNoted-known log),
)

end_fold_log :
    (env : FoldEnv) (r : Repo) (b : Bool) (s : Folding) → (end_fold env r (b, s)).log ≡ s.log
unfolding end_fold
end_fold_log env r false s = refl
end_fold_log env r true s = ground arith

-- If no event id stands twice in the agent-run log, none does after `fold_results`, whatever the
-- result files hold, whichever of them were folded before, and whether the fold ends or raises
-- half-way.
pub fold-IdsOnce :
    (env : FoldEnv) (r : Repo) (log : List Event)
    → IdsOnce log
    → IdsOnce (fold_results env r log).log
unfolding fold_results start_fold
fold-IdsOnce env r log once =
    let end = fold_files env r.head.results (sorted file_le r.tree.results) (start_fold r log) in
    subst IdsOnce (sym (end_fold_log env r end.0 end.1))
      (fold_files-Inv env r.head.results (sorted file_le r.tree.results) (start_fold r log)
        (record { once = once; noted = IsNoted-known log })).once

-- The file holds no event, or one that is in the log already.
abbrev IsOld : List String → String × ResultFile → Type 0
IsOld known (name, unreadable) = Unit
IsOld known (name, no_object) = Unit
IsOld known (name, event e) = is_known (id_of e) known ≡ true

record Untouched (log : List Event) (known : List String) (s : Folding) : Type 0 where
  same_log : s.log ≡ log
  same_known : s.known ≡ known
  none_folded : s.folded ≡ 0

old_files :
    (env : FoldEnv) (tracked : Dict ResultFile) (fs : List (String × ResultFile)) (log : List Event)
    (known : List String) (s : Folding)
    → All (IsOld known) fs
    → Untouched log known s
    → Untouched log known (fold_files env tracked fs s).1
unfolding fold_files fold_file fold_event drop_file
old_files env tracked [] log known s h u = u
old_files env tracked ((name, unreadable) ∷ fs) log known s h u =
    old_files env tracked fs log known s h.1 u
old_files env tracked ((name, no_object) ∷ fs) log known s h u =
    old_files env tracked fs log known s h.1 u
old_files env tracked ((name, event e) ∷ fs) log known s h u =
    let old : is_known (id_of e) s.known ≡ true = rw u.same_known h.0 in
    elim (Bool-cases (env.removes name)) [
      | inl gone ↦
          rw (old, gone)
            (old_files env tracked fs log known (drop_file tracked name s) h.1 (record {
              same_log = u.same_log;
              same_known = u.same_known;
              none_folded = u.none_folded;
            }))
      | inr raised ↦ rw (old, raised) u
    ]

-- The events of the given files are all in the log.
abbrev pub AllOld : List Event → Dict ResultFile → Type 0
AllOld log results = All (IsOld (known_ids log)) results

-- When every event of `queue/results/` has an id that the log already holds, as after a replay of
-- the wiki's history, `fold_results` records nothing.
pub fold_replay :
    (env : FoldEnv) (r : Repo) (log : List Event)
    → AllOld log r.tree.results
    → (fold_results env r log).log ≡ log
unfolding fold_results start_fold
fold_replay env r log old =
    let end = fold_files env r.head.results (sorted file_le r.tree.results) (start_fold r log) in
    end_fold_log env r end.0 end.1
    ∙ (old_files env r.head.results (sorted file_le r.tree.results) log (known_ids log)
        (start_fold r log) (sorted-All file_le (IsOld (known_ids log)) r.tree.results old)
        (record { same_log = refl; same_known = refl; none_folded = refl })).same_log
