-- ===== src/Queue/Actions/Supersede.antt =====
-- src/dbwiki/queue.py: the files that `enqueue_request` and `claim` move.
use logbook.Prelude.{
  String, ◌≡◌, ◌≢◌, refl, sym, ap, ◌∙◌, inl, inr, Bool, true, false, false≢true, not, ◌&&◌, ◌||◌,
  none, some, List, [], ◌∷◌, Memᴰ, map, filter, any, ◌==◌, eq_iff, eq_refl, arith, Bool-cases,
  if◌then◌else◌,
}
use logbook.Prelude.Dict.{Dict, get, put, remove, get-put, get-remove, Distinct}
use logbook.Queue.Records.{Request, RequestFile, request, Wiki, Named, read_records}
use logbook.Queue.Select.{supersede_targets, Pick}
use logbook.Queue.Select.Oldest.{mem-read_records, get_of_read}
use logbook.Queue.Actions.{
  remove_all, Order, file_name, new_request, enqueue_tree, claimed_rec, claim_tree,
}

get-remove_all-none :
    (names : List String) (d : Dict RequestFile) (name : String)
    → get d name ≡ none
    → get (remove_all d names) name ≡ none
unfolding remove_all
get-remove_all-none [] d name e = e
get-remove_all-none (n ∷ names) d name e =
    get-remove_all-none names (remove d n) name (ground (arith, get-remove d n name))

get-remove_all_mem :
    (names : List String) (d : Dict RequestFile) (name : String)
    → Memᴰ name names
    → get (remove_all d names) name ≡ none
unfolding remove_all
get-remove_all_mem [] d name m = elim m [ ]
get-remove_all_mem (n ∷ names) d name (Memᴰ.head e) =
    get-remove_all-none names (remove d n) name (rw (get-remove, e, eq_refl))
get-remove_all_mem (n ∷ names) d name (Memᴰ.tail m) = get-remove_all_mem names (remove d n) name m

get-remove_all_ne :
    (names : List String) (d : Dict RequestFile) (name : String)
    → ¬ Memᴰ name names
    → get (remove_all d names) name ≡ get d name
unfolding remove_all
get-remove_all_ne [] d name m = refl
get-remove_all_ne (n ∷ names) d name m =
    get-remove_all_ne names (remove d n) name (λ k. m (Memᴰ.tail k))
    ∙ ground (arith, get-remove d n name, eq_iff n name, λ (e : name ≡ n). m (Memᴰ.head e))

-- The record is of the given kind and day, and its file is not the one to keep.
abbrev targeted : String → String → String → Named → Bool
targeted kind day keep e = e.1.kind == kind && e.1.day == day && not (e.0 == keep)

mem-filter_map :
    (p : Named → Bool) (e : Named) (es : List Named)
    → Memᴰ e es
    → p e ≡ true
    → Memᴰ e.0 (map (λ x. x.0) (filter p es))
unfolding filter
mem-filter_map p e [] m h = elim m [ ]
mem-filter_map p e (x ∷ es) (Memᴰ.head same) h = rw (← same, h) (Memᴰ.head refl)
mem-filter_map p e (x ∷ es) (Memᴰ.tail m) h = elim (Bool-cases (p x)) [
  | inl passes ↦ rw passes (Memᴰ.tail (mem-filter_map p e es m h))
  | inr fails ↦ rw fails (mem-filter_map p e es m h)
]

mem_of_filter-map :
    (p : Named → Bool) (name : String) (es : List Named)
    → Memᴰ name (map (λ x. x.0) (filter p es))
    → (rec : Request) × Memᴰ (name, rec) es × (p (name, rec) ≡ true)
unfolding filter
mem_of_filter-map p name [] m = elim m [ ]
mem_of_filter-map p name (x ∷ es) m = elim (Bool-cases (p x)) [
  | inl passes ↦ here passes (rw passes at m) (mem_of_filter-map p name es)
  | inr fails ↦
      let (rec, k, h) = mem_of_filter-map p name es (rw fails at m) in (rec, Memᴰ.tail k, h)
]
  where
    here :
        p x ≡ true
        → Memᴰ name (x.0 ∷ map (λ x. x.0) (filter p es))
        → (Memᴰ name (map (λ x. x.0) (filter p es))
            → (rec : Request) × Memᴰ (name, rec) es × (p (name, rec) ≡ true))
        → (rec : Request) × Memᴰ (name, rec) (x ∷ es) × (p (name, rec) ≡ true)
    here passes (Memᴰ.head e) ih = (x.1, Memᴰ.head (λ i. (e i, x.1)), rw e passes)
    here passes (Memᴰ.tail k) ih = let (rec, l, h) = ih k in (rec, Memᴰ.tail l, h)

kept_ne_target :
    (kind day keep name : String) (rec : Request)
    → targeted kind day keep (name, rec) ≡ true
    → name ≢ keep
kept_ne_target kind day keep name rec h e = ground (arith, eq_iff name keep)

targeted_iff :
    (kind day keep name : String) (rec : Request)
    → name ≢ keep
    → targeted kind day keep (name, rec) ≡ (rec.kind == kind && rec.day == day)
targeted_iff kind day keep name rec ne = ground (arith, eq_iff name keep)

read_unique :
    (dir : Dict RequestFile) (name : String) (a b : Request)
    → Distinct dir
    → get dir name ≡ some (request a)
    → Memᴰ (name, b) (read_records dir)
    → b ≡ a
read_unique dir name a b h at m = cc (at, get_of_read dir name b h m)

module _ (now : String) (o : Order) (w : Wiki) where
  abbrev among_targets : Named → Bool
  among_targets = targeted o.kind o.day (file_name o)

  abbrev targets : List String
  targets = map (λ e. e.0) (filter among_targets (read_records w.pending))

  abbrev written : Dict RequestFile
  written = put w.pending (file_name o) (request (new_request now o))

  enqueued_stands :
      get (enqueue_tree now o w).pending (file_name o) ≡ some (request (new_request now o))
  unfolding enqueue_tree supersede_targets
  enqueued_stands =
      get-remove_all_ne targets written (file_name o) (λ m.
        let (r, k, h) = mem_of_filter-map among_targets (file_name o) (read_records w.pending) m in
        kept_ne_target o.kind o.day (file_name o) (file_name o) r h refl)
      ∙ rw (get-put, eq_refl)

  enqueued_other :
      (name : String) (rec : Request)
      → Distinct w.pending
      → get w.pending name ≡ some (request rec)
      → name ≢ file_name o
      → get (enqueue_tree now o w).pending name
        ≡ (if rec.kind == o.kind && rec.day == o.day then none else some (request rec))
  unfolding enqueue_tree supersede_targets
  enqueued_other name rec distinct at ne =
      elim (Bool-cases (rec.kind == o.kind && rec.day == o.day)) [
        | inl same ↦ rw same (
            get-remove_all_mem targets written name (
              mem-filter_map among_targets (name, rec) (read_records w.pending)
                (mem-read_records w.pending name rec at) (is_target ∙ same)))
        | inr other ↦
            rw other (get-remove_all_ne targets written name (λ m. spared other m) ∙ unwritten)
      ]
    where
      is_target : among_targets (name, rec) ≡ (rec.kind == o.kind && rec.day == o.day)
      is_target = targeted_iff o.kind o.day (file_name o) name rec ne

      spared : (rec.kind == o.kind && rec.day == o.day) ≡ false → ¬ Memᴰ name targets
      spared other m =
          let (r, k, h) = mem_of_filter-map among_targets name (read_records w.pending) m in
          let same : r ≡ rec = read_unique w.pending name rec r distinct at k in
          false≢true
            (sym other ∙ (sym is_target ∙ (ap (λ x. among_targets (name, x)) (sym same) ∙ h)))

      unwritten : get written name ≡ some (request rec)
      unwritten = ground (
        arith,
        get-put w.pending (file_name o) name (request (new_request now o)),
        eq_iff (file_name o) name,
        λ (e : file_name o ≡ name). ne (sym e),
      )

  -- After `enqueue_request` the new request stands in `pending/` under its name, whatever waited there. Of a
  -- directory with one file for each name, every other request of the same kind and day, of whatever age, is
  -- gone, and every request of another kind or day is as it was.
  pub enqueue-supersedes :
      Distinct w.pending
      → (get (enqueue_tree now o w).pending (file_name o) ≡ some (request (new_request now o)))
        × ((name : String) (rec : Request)
            → get w.pending name ≡ some (request rec)
            → name ≢ file_name o
            → get (enqueue_tree now o w).pending name
              ≡ (if rec.kind == o.kind && rec.day == o.day then none else some (request rec)))
  enqueue-supersedes distinct =
      (enqueued_stands, λ name rec at ne. enqueued_other name rec distinct at ne)

get-remove_all :
    (names : List String) (d : Dict RequestFile) (name : String)
    → get (remove_all d names) name ≡ (if any (λ n. n == name) names then none else get d name)
unfolding remove_all
get-remove_all [] d name = refl
get-remove_all (n ∷ names) d name =
    ground (arith, get-remove_all names (remove d n) name, get-remove d n name)

-- A claim takes the picked file and the older ones out of `pending/`, puts the stamped record into
-- `claimed/` under the picked name, and leaves every other file of the two directories alone, and
-- all of the other directories and pages.
pub claim-moves :
    (by now : String) (p : Pick) (w : Wiki) (name : String)
    → let w' = claim_tree by now p w in
      (get w'.pending name
        ≡ (if p.name == name || any (λ n. n == name) p.older then none else get w.pending name))
      × (get w'.claimed name ≡ (
          if p.name == name
          then some (request (record p.rec { claimed_by = some by; claimed_at = some now }))
          else get w.claimed name))
      × (w'.failed ≡ w.failed)
      × (w'.results ≡ w.results)
      × (w'.pages ≡ w.pages)
unfolding claim_tree claimed_rec
claim-moves by now p w name = (
  ground (
    arith,
    get-remove_all p.older (remove w.pending p.name) name,
    get-remove w.pending p.name name,
  ),
  get-put w.claimed p.name name _,
  refl,
  refl,
  refl,
)
