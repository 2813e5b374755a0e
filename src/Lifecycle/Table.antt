-- ===== src/Lifecycle/Table.antt =====
-- src/dbwiki/lifecycle.py: `TRANSITIONS` as a relation.
use logbook.Prelude.{
  ◌≡◌, ◌↔◌, refl, sym, subst, ◌∙◌, inl, inr, Bool, true, false, ◌||◌, Option, none, some, List, [],
  ◌∷◌, any, Bool-cases, Option-cases,
}
use logbook.Validate.{passes}
use logbook.Incident.{
  Status, open_status, monitoring, resolved, ActionKind, record_action, start_monitoring,
  extend_monitoring, resolve, reopen, merge, is_active, same_kind,
}
use logbook.Lifecycle.{
  Command, records, starts, extends, resolves, reopens, merges, kind_of, next_status, allowed,
}

-- The steps of an incident's status, one constructor for each reason.
pub data Step : Status → ActionKind → Status → Type 0 where
  keeps : (s : Status) → Step s record_action s
  watches : (s : Status) → is_active s ≡ true → Step s start_monitoring monitoring
  pushes : Step monitoring extend_monitoring monitoring
  closes : (s : Status) → is_active s ≡ true → Step s resolve resolved
  folds : (s : Status) → is_active s ≡ true → Step s merge resolved
  comes_back : Step resolved reopen open_status

some_eq : {A : Type 0} {a b : A} → some a ≡ some b → a ≡ b
some_eq h = cc

Step-of : (s : Status) (c : Command) (t : Status) → next_status s c ≡ some t → Step s (kind_of c) t
unfolding next_status is_active
Step-of open_status (records c) t h =
    subst (Step open_status record_action) (some_eq h) (keeps open_status)
Step-of monitoring (records c) t h =
    subst (Step monitoring record_action) (some_eq h) (keeps monitoring)
Step-of resolved (records c) t h = subst (Step resolved record_action) (some_eq h) (keeps resolved)
Step-of open_status (starts c) t h =
    subst (Step open_status start_monitoring) (some_eq h) (watches open_status refl)
Step-of monitoring (starts c) t h =
    subst (Step monitoring start_monitoring) (some_eq h) (watches monitoring refl)
Step-of resolved (starts c) t h = cc
Step-of open_status (extends c) t h = cc
Step-of monitoring (extends c) t h = subst (Step monitoring extend_monitoring) (some_eq h) pushes
Step-of resolved (extends c) t h = cc
Step-of open_status (resolves c) t h =
    subst (Step open_status resolve) (some_eq h) (closes open_status refl)
Step-of monitoring (resolves c) t h =
    subst (Step monitoring resolve) (some_eq h) (closes monitoring refl)
Step-of resolved (resolves c) t h = cc
Step-of open_status (reopens c) t h = cc
Step-of monitoring (reopens c) t h = cc
Step-of resolved (reopens c) t h = subst (Step resolved reopen) (some_eq h) comes_back
Step-of open_status (merges c) t h =
    subst (Step open_status merge) (some_eq h) (folds open_status refl)
Step-of monitoring (merges c) t h =
    subst (Step monitoring merge) (some_eq h) (folds monitoring refl)
Step-of resolved (merges c) t h = cc

to_step : (s : Status) (c : Command) (t : Status) → Step s (kind_of c) t → next_status s c ≡ some t
unfolding next_status is_active
to_step _ (records c) _ (keeps open_status) = refl
to_step _ (records c) _ (keeps monitoring) = refl
to_step _ (records c) _ (keeps resolved) = refl
to_step _ (starts c) _ (watches open_status h) = refl
to_step _ (starts c) _ (watches monitoring h) = refl
to_step _ (starts c) _ (watches resolved h) = cc
to_step _ (extends c) _ pushes = refl
to_step _ (resolves c) _ (closes open_status h) = refl
to_step _ (resolves c) _ (closes monitoring h) = refl
to_step _ (resolves c) _ (closes resolved h) = cc
to_step _ (reopens c) _ comes_back = refl
to_step _ (merges c) _ (folds open_status h) = refl
to_step _ (merges c) _ (folds monitoring h) = refl
to_step _ (merges c) _ (folds resolved h) = cc

-- `next_status` gives exactly the steps of `Step`: a command is refused with a `TransitionError` when no
-- constructor has its kind from that status, and else the status after it is the constructor's.
pub next_status-Step :
    (s : Status) (c : Command) (t : Status) → (next_status s c ≡ some t) ↔ Step s (kind_of c) t
next_status-Step s c t = (Step-of s c t, to_step s c t)

-- A command's type is among `allowed s` exactly when `next_status s` has a status for it.
pub allowed-next_status :
    (s : Status) (c : Command) → any (same_kind (kind_of c)) (allowed s) ≡ passes (next_status s c)
unfolding allowed next_status same_kind
allowed-next_status open_status (records c) = refl
allowed-next_status open_status (starts c) = refl
allowed-next_status open_status (extends c) = refl
allowed-next_status open_status (resolves c) = refl
allowed-next_status open_status (reopens c) = refl
allowed-next_status open_status (merges c) = refl
allowed-next_status monitoring (records c) = refl
allowed-next_status monitoring (starts c) = refl
allowed-next_status monitoring (extends c) = refl
allowed-next_status monitoring (resolves c) = refl
allowed-next_status monitoring (reopens c) = refl
allowed-next_status monitoring (merges c) = refl
allowed-next_status resolved (records c) = refl
allowed-next_status resolved (starts c) = refl
allowed-next_status resolved (extends c) = refl
allowed-next_status resolved (resolves c) = refl
allowed-next_status resolved (reopens c) = refl
allowed-next_status resolved (merges c) = refl

-- A sequence of commands on one page.
unfoldable pub run : Status → List Command → Option Status
unfolding next_status
run s [] = some s
run s (c ∷ cs) = elim (next_status s c) [ none ↦ none | some t ↦ run t cs ]

unfoldable pub closes_page : Command → Bool
unfolding same_kind
closes_page c = same_kind (kind_of c) resolve || same_kind (kind_of c) merge

run-next :
    (s : Status) (c : Command) (cs : List Command) (t : Status)
    → next_status s c ≡ some t
    → run s (c ∷ cs) ≡ run t cs
unfolding run
run-next s c cs t next = rw next refl

run-refused :
    (s : Status) (c : Command) (cs : List Command) → next_status s c ≡ none → run s (c ∷ cs) ≡ none
unfolding run
run-refused s c cs refused = rw refused refl

stays_active :
    (s : Status) (k : ActionKind) (t : Status)
    → Step s k t
    → is_active s ≡ true
    → (same_kind k resolve || same_kind k merge) ≡ false
    → is_active t ≡ true
unfolding is_active same_kind
stays_active s _ _ (keeps _) active other = active
stays_active s _ _ (watches _ h) active other = refl
stays_active _ _ _ pushes active other = refl
stays_active s _ _ (closes _ h) active other = cc
stays_active s _ _ (folds _ h) active other = cc
stays_active _ _ _ comes_back active other = refl

-- A page that was active and is resolved behind a sequence of commands has had a `Resolve` or a `Merge`
-- among them: no other command closes an incident.
pub run-closes :
    (s : Status) (cs : List Command)
    → is_active s ≡ true
    → run s cs ≡ some resolved
    → any closes_page cs ≡ true
unfolding run closes_page is_active
run-closes s [] active h =
    subst (λ t. is_active t ≡ true → false ≡ true) (sym (some_eq h)) (λ e. e) active
run-closes s (c ∷ cs) active h = elim (Option-cases (next_status s c)) [
  | inl refused ↦ cc (h, run-refused s c cs refused)
  | inr (t, next) ↦ elim (Bool-cases (closes_page c)) [
    | inl closing ↦ rw closing refl
    | inr other ↦ rw other (
        run-closes t cs (stays_active s _ t (Step-of s c t next) active other)
          (sym (run-next s c cs t next) ∙ h))
  ]
]
