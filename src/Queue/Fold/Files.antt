-- ===== src/Queue/Fold/Files.antt =====
-- src/dbwiki/queue.py: the result files around `fold_results`.
use logbook.Prelude.{
  ℕ, String, ◌≡◌, sym, ap, ◌∙◌, inl, inr, Bool, true, false, none, some, List, [], ◌∷◌, Memᴰ,
  eq_iff, arith, sorted, mem-sorted, Bool-cases, false≢true,
}
use logbook.Prelude.Dict.{Dict, mem_of_get, get, get-remove}
use logbook.Queue.Records.{Event, ResultFile, unreadable, no_object, event}
use logbook.Queue.Repo.{Repo, ok}
use logbook.Queue.Fold.{
  FoldEnv, Folding, fold_event, drop_file, fold_file, fold_files, end_fold, file_le, start_fold,
  fold_results,
}

results-fold_event :
    (env : FoldEnv) (e : Event) (s : Folding) → (fold_event env e s).results ≡ s.results
unfolding fold_event
results-fold_event env e s = ground arith

gone_after :
    (env : FoldEnv) (tracked : Dict ResultFile) (f : String × ResultFile) (s : Folding)
    (name : String)
    → get s.results name ≡ none
    → get (fold_file env tracked f s).1.results name ≡ none
unfolding fold_file drop_file
gone_after env tracked (n, unreadable) s name gone = gone
gone_after env tracked (n, no_object) s name gone = gone
gone_after env tracked (n, event e) s name gone =
    ground (arith, results-fold_event env e s, get-remove s.results n name)

-- If the loop goes on after an event file, the file is away.
event_goes :
    (env : FoldEnv) (tracked : Dict ResultFile) (name : String) (e : Event)
    (f : String × ResultFile) (s : Folding)
    → f ≡ (name, event e)
    → (fold_file env tracked f s).0 ≡ true
    → get (fold_file env tracked f s).1.results name ≡ none
unfolding fold_file drop_file
event_goes env tracked name e (n, unreadable) s same on = cc
event_goes env tracked name e (n, no_object) s same on = cc
event_goes env tracked name e (n, event e') s same on =
    ground (arith, results-fold_event env e' s, get-remove s.results n name, eq_iff n name)

-- Once away, a file stays away for the rest of the loop.
gone_stays :
    (env : FoldEnv) (tracked : Dict ResultFile) (fs : List (String × ResultFile)) (s : Folding)
    (name : String)
    → get s.results name ≡ none
    → get (fold_files env tracked fs s).1.results name ≡ none
unfolding fold_files
gone_stays env tracked [] s name gone = gone
gone_stays env tracked (f ∷ fs) s name gone =
    let next = gone_after env tracked f s name gone in
    elim (Bool-cases (fold_file env tracked f s).0) [
      | inl on ↦ rw on (gone_stays env tracked fs _ name next)
      | inr stopped ↦ rw stopped next
    ]

-- A loop that ends has taken every event file away.
events_gone :
    (env : FoldEnv) (tracked : Dict ResultFile) (fs : List (String × ResultFile)) (s : Folding)
    (name : String) (e : Event)
    → Memᴰ (name, event e) fs
    → (fold_files env tracked fs s).0 ≡ true
    → get (fold_files env tracked fs s).1.results name ≡ none
unfolding fold_files
events_gone env tracked [] s name e m ends = elim m [ ]
events_gone env tracked (f ∷ fs) s name e (Memᴰ.head same) ends =
    elim (Bool-cases (fold_file env tracked f s).0) [
      | inl on ↦
          rw on (gone_stays env tracked fs _ name (event_goes env tracked name e f s (sym same) on))
      | inr stopped ↦ absurd (false≢true (rw stopped at ends))
    ]
events_gone env tracked (f ∷ fs) s name e (Memᴰ.tail m) ends =
    elim (Bool-cases (fold_file env tracked f s).0) [
      | inl on ↦ rw on (events_gone env tracked fs _ name e m (rw on at ends))
      | inr stopped ↦ absurd (false≢true (rw stopped at ends))
    ]

end_fold_ok :
    (env : FoldEnv) (r : Repo) (end : Bool × Folding) (n : ℕ)
    → (end_fold env r end).answer ≡ ok n
    → (end.0 ≡ true) × ((end_fold env r end).repo.tree.results ≡ end.1.results) × (n ≡ end.1.folded)
unfolding end_fold
end_fold_ok env r (false, s) n e = cc
end_fold_ok env r (true, s) n e = ground arith

-- A fold that ends has taken every file that holds an event out of `queue/results/`.
pub fold_takes_events :
    (env : FoldEnv) (r : Repo) (log : List Event) (n : ℕ) (name : String) (e : Event)
    → (fold_results env r log).answer ≡ ok n
    → get r.tree.results name ≡ some (event e)
    → get (fold_results env r log).repo.tree.results name ≡ none
unfolding fold_results
fold_takes_events env r log n name e ends at =
    let (on, same, count) = end_fold_ok env r end n ends in
    ap (λ d. get d name) same
    ∙ events_gone env r.head.results files (start_fold r log) name e
        (mem-sorted file_le (name, event e) r.tree.results
          (mem_of_get r.tree.results name (event e) at))
        on
  where
    files : List (String × ResultFile)
    files = sorted file_le r.tree.results

    end : Bool × Folding
    end = fold_files env r.head.results files (start_fold r log)
