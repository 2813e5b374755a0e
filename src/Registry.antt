-- ===== src/Registry.antt =====
-- src/dbwiki/state.py, `Registry`: what was seen of a database, by source and by day. The order of
-- `instant_key` and the type of seconds and rates with its `>` are arguments.
pub mod Notes
pub mod Windows
pub mod Days
pub mod Anomalies
mod Scenarios
use logbook.Prelude.{
  ℕ, zero, suc, ◌-◌, String, ◌≡◌, Bool, true, false, not, ◌&&◌, Option, none, some, List, [], ◌∷◌,
  ◌++◌, map, filter, any, ◌==◌, text_leb, text_ltb, sorted, length, drop, take, leb, nonempty,
  if◌then◌else◌,
}
use logbook.Prelude.Dict.{Dict, get, put, remove}

-- `instant_key(s) < instant_key(t)`: a strict order of the keys, which texts may share.
pub record Instants : Type 0 where
  pub before : String → String → Bool
  pub irreflexive : (s : String) → before s s ≡ false
  pub asymmetric : (s t : String) → before s t ≡ true → before t s ≡ false
  pub not_transitive :
      (s t u : String) → before s t ≡ false → before t u ≡ false → before s u ≡ false

pub record Seen : Type 0 where
  pub first_seen : String
  pub last_seen : String

abbrev pub or_empty {ℓ} : {V : Type ℓ} → Option (Dict V) → Dict V
or_empty none = []
or_empty (some d) = d

abbrev pub is_key {ℓ} : {V : Type ℓ} → Option V → Bool
is_key none = false
is_key (some v) = true

module _ (order : Instants) where
  -- The entry behind one more event.
  unfoldable pub widened : Option Seen → String → Seen
  widened none ts = record { first_seen = ts; last_seen = ts }
  widened (some cur) ts = record {
    first_seen = if order.before ts cur.first_seen then ts else cur.first_seen;
    last_seen = if order.before cur.last_seen ts then ts else cur.last_seen;
  }

  -- `_note`
  unfoldable pub note : Dict Seen → String → String → Dict Seen
  unfolding widened nonempty
  note d key ts = if nonempty key then put d key (widened (get d key) ts) else d

  -- `note_code`
  unfoldable pub note_code : Dict (Dict Seen) → String → String → String → Dict (Dict Seen)
  unfolding note
  note_code codes source code ts =
      if nonempty code then put codes source (note (or_empty (get codes source)) code ts) else codes

  abbrev pub in_window : String → String → Seen → Bool
  in_window t0 t1 v = not (order.before v.first_seen t0) && order.before v.first_seen t1

  unfoldable pub new_in_window : Dict Seen → String → String → List String
  unfolding filter sorted
  new_in_window d t0 t1 = sorted text_leb (map (λ e. e.0) (filter (λ e. in_window t0 t1 e.1) d))

  unfoldable pub new_codes_in_window :
      Dict (Dict Seen) → Dict Seen → String → String → String → List String
  unfolding new_in_window filter
  new_codes_in_window codes legacy source t0 t1 =
      filter (λ c. not (is_key (get legacy c))) (new_in_window (or_empty (get codes source)) t0 t1)

-- A day's counts of one source. An entry of an older file has no `seconds`.
pub record Counts (F : Type 0) : Type 0 where
  pub total : ℕ
  pub counters : Dict ℕ
  pub seconds : Option F

-- Seconds, rates and their `>`; none of them is a NaN.
pub record Amounts (F : Type 0) : Type 0 where
  pub exceeds : F → F → Bool
  pub full_day : F
  pub irreflexive : (x : F) → exceeds x x ≡ false
  pub asymmetric : (x y : F) → exceeds x y ≡ true → exceeds y x ≡ false
  pub not_transitive : (x y z : F) → exceeds x y ≡ false → exceeds y z ≡ false → exceeds x z ≡ false

abbrev pub Anomaly : Type 0 → Type 0
Anomaly F = String × F

module _ {F : Type 0} (amounts : Amounts F) where
  -- `cur.get("seconds", 86400.0)`
  abbrev pub seconds_of : Counts F → F
  seconds_of c = elim c.seconds [ none ↦ amounts.full_day | some s ↦ s ]

  -- `self.daily_counts.get(day, {}).get(source)`
  unfoldable pub counts_of : Dict (Dict (Counts F)) → String → String → Option (Counts F)
  counts_of daily day source = get (or_empty (get daily day)) source

  abbrev pub is_longer : Option (Counts F) → F → Bool
  is_longer none seconds = false
  is_longer (some cur) seconds = amounts.exceeds (seconds_of cur) seconds

  unfoldable pub set_day_counts :
      Dict (Dict (Counts F)) → String → String → ℕ → Dict ℕ → F → Dict (Dict (Counts F))
  unfolding counts_of
  set_day_counts daily day source total counters seconds =
      if is_longer (counts_of daily day source) seconds
      then daily
      else put daily day (
          put (or_empty (get daily day)) source
            (record { total = total; counters = counters; seconds = some seconds }))

  -- `d[-n:]` of the sorted days before `day`: with `n` zero, all of them.
  unfoldable pub days_before : Dict (Dict (Counts F)) → String → ℕ → List String
  unfolding filter sorted text_ltb
  days_before daily day n =
      let prior = sorted text_leb (filter (λ d. text_ltb d day) (map (λ e. e.0) daily)) in
      if leb n 0 then prior else drop (length prior - n) prior

  abbrev or_zero : Option ℕ → ℕ
  or_zero none = 0
  or_zero (some n) = n

  abbrev baseline_of : String → Option (Counts F) → List (ℕ × F) → List (ℕ × F)
  baseline_of counter none rest = rest
  baseline_of counter (some sc) rest = (or_zero (get sc.counters counter), seconds_of sc) ∷ rest

  -- The loop of `baseline` over the days.
  unfoldable pub baseline_over :
      Dict (Dict (Counts F)) → String → String → List String → List (ℕ × F)
  unfolding counts_of
  baseline_over daily source counter [] = []
  baseline_over daily source counter (d ∷ days) =
      baseline_of counter (counts_of daily d source) (baseline_over daily source counter days)

  unfoldable pub baseline : Dict (Dict (Counts F)) → String → String → String → ℕ → List (ℕ × F)
  unfolding baseline_over days_before
  baseline daily day source counter n = baseline_over daily source counter (days_before daily day n)

  abbrev had_events : Option (Counts F) → Bool
  had_events none = false
  had_events (some c) = not (leb c.total 0)

  unfoldable pub active_days_before : Dict (Dict (Counts F)) → String → String → ℕ → ℕ
  unfolding days_before counts_of filter
  active_days_before daily day source n =
      length (filter (λ d. had_events (counts_of daily d source)) (days_before daily day n))

  -- By what is kept for the counter already.
  abbrev pub note_beside :
      Dict (Anomaly F) → String → Anomaly F → Option (Anomaly F) → Dict (Anomaly F) × Anomaly F
  note_beside kept counter delta none = (put kept counter delta, delta)
  note_beside kept counter delta (some cur) =
      if amounts.exceeds delta.1 cur.1 then (put kept counter delta, delta) else (kept, cur)

  -- The anomalies of one day and source, by counter; the text stands for the rest of the delta.
  unfoldable pub note_anomaly : Dict (Anomaly F) → String → Anomaly F → Dict (Anomaly F) × Anomaly F
  note_anomaly kept counter delta = note_beside kept counter delta (get kept counter)

  unfoldable pub remove_days {ℓ} : {V : Type ℓ} → Dict V → List String → Dict V
  remove_days d [] = d
  remove_days d (day ∷ days) = remove_days (remove d day) days

  -- `days[:-keep]` and `days[-keep:]`, with zero as Python slices it.
  unfoldable pub outdated : ℕ → List String → List String
  outdated keep days = if leb keep 0 then [] else take (length days - keep) days

  abbrev head_of : List String → Option String
  head_of [] = none
  head_of (d ∷ days) = some d

  -- The oldest day that stays: `days[-keep:][0]`.
  unfoldable pub oldest_kept : ℕ → List String → Option String
  oldest_kept keep days = head_of (if leb keep 0 then days else drop (length days - keep) days)

  abbrev is_older : Option String → String → Bool
  is_older none day = false
  is_older (some oldest) day = nonempty oldest && text_ltb day oldest

  -- What `save` deletes before it writes.
  unfoldable pub pruned :
      {V : Type 0} → ℕ → Dict (Dict (Counts F)) → Dict V → Dict (Dict (Counts F)) × Dict V
  unfolding outdated oldest_kept remove_days filter sorted
  pruned keep daily anomalies =
      let days = sorted text_leb (map (λ e. e.0) daily) in
      (
        remove_days daily (outdated keep days),
        remove_days anomalies
            (filter (is_older (oldest_kept keep days)) (map (λ e. e.0) anomalies)),
      )
