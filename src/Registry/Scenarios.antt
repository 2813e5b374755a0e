-- ===== src/Registry/Scenarios.antt =====
-- src/dbwiki/state.py on a registry with one known code, whose instants are all of one format and
-- therefore in the order of their texts.
use logbook.Prelude.{
  ℕ, String, ◌≡◌, ◌↔◌, refl, inl, inr, true, false, none, some, List, [], ◌∷◌, All, arith, ltb,
  text_leb, text_ltb, text_leb_total, text_leb_trans, Memᴰ,
}
use logbook.Prelude.Dict.{Dict, get, Distinct}
use logbook.Registry.{
  Instants, Seen, Amounts, Counts, Anomaly, new_codes_in_window, or_empty, counts_of, seconds_of,
  set_day_counts,
}
use logbook.Registry.Notes.{Sighting, note_all, Holds, note_all_again}
use logbook.Registry.Windows.{IsFirstSeen, new_codes_in_window-IsFirstSeen}
use logbook.Registry.Days.{IsReplaced, NotShorter, set_day_counts-IsKept}
use logbook.Registry.Anomalies.{Tops, IsShown, note_anomalies, note_anomalies-Tops}

ltb_false : (s t : String) → text_ltb s t ≡ false → text_leb t s ≡ true
unfolding text_ltb
ltb_false s t h = ground arith

of_leb : (s t : String) → text_leb t s ≡ true → text_ltb s t ≡ false
unfolding text_ltb
of_leb s t h = rw h refl

leb_refl : (s : String) → text_leb s s ≡ true
leb_refl s = elim (text_leb_total s s) [ inl h ↦ h | inr h ↦ h ]

ltb_true : (s t : String) → text_ltb s t ≡ true → text_leb t s ≡ false
unfolding text_ltb
ltb_true s t h = ground arith

ltb_asymmetric : (s t : String) → text_ltb s t ≡ true → text_ltb t s ≡ false
ltb_asymmetric s t h = elim (text_leb_total s t) [
  | inl le ↦ of_leb t s le
  | inr ge ↦ cc (ge, ltb_true s t h)
]

abbrev order : Instants
order = record {
  before = text_ltb;
  irreflexive = λ s. of_leb s s (leb_refl s);
  asymmetric = ltb_asymmetric;
  not_transitive =
      λ s t u h k. of_leb s u (text_leb_trans u t s (ltb_false t u k) (ltb_false s t h));
}

ltb_irreflexive : (x : ℕ) → ltb x x ≡ false
ltb_irreflexive x = ground arith

less_asymmetric : (x y : ℕ) → ltb y x ≡ true → ltb x y ≡ false
less_asymmetric x y h = ground arith

less_not_transitive : (x y z : ℕ) → ltb y x ≡ false → ltb z y ≡ false → ltb z x ≡ false
less_not_transitive x y z h k = ground arith

abbrev amounts : Amounts ℕ
amounts = record {
  exceeds = λ a b. ltb b a;
  full_day = 86400;
  irreflexive = ltb_irreflexive;
  asymmetric = less_asymmetric;
  not_transitive = less_not_transitive;
}

abbrev events : List Sighting
events =
    ("ORA-00600", "2026-09-02T10:00:00Z")
    ∷ ("", "2026-09-02T10:30:00Z")
    ∷ ("ORA-00600", "2026-09-01T09:00:00Z")
    ∷ []

note_all_again_example :
    (get (note_all order (note_all order [] events) events) "ORA-00600"
      ≡ get (note_all order [] events) "ORA-00600")
    × All (Holds order (note_all order [] events)) events
note_all_again_example = note_all_again order [] events "ORA-00600"

abbrev codes : Dict (Dict Seen)
codes =
    (
      "alert",
      (
        "ORA-00600",
        record { first_seen = "2026-09-02T10:00:00Z"; last_seen = "2026-09-02T10:00:00Z" },
      )
          ∷ [],
    )
    ∷ []

codes-Distinct : Distinct (or_empty (get codes "alert"))
unfolding get
codes-Distinct = (tt, tt)

new_codes_in_window-IsFirstSeen_example :
    Memᴰ "ORA-00600"
      (new_codes_in_window order codes [] "alert" "2026-09-02T00:00:00Z" "2026-09-03T00:00:00Z")
    ↔ (IsFirstSeen order
          (or_empty (get codes "alert"))
          "2026-09-02T00:00:00Z"
          "2026-09-03T00:00:00Z"
          "ORA-00600"
        × (get {V = Seen} [] "ORA-00600" ≡ none))
new_codes_in_window-IsFirstSeen_example =
    new_codes_in_window-IsFirstSeen order codes [] "alert" "2026-09-02T00:00:00Z"
      "2026-09-03T00:00:00Z" "ORA-00600" codes-Distinct

abbrev daily : Dict (Dict (Counts ℕ))
daily =
    ("2026-09-02", ("alert", record { total = 12; counters = []; seconds = some 7200 }) ∷ []) ∷ []

abbrev day_after : Dict (Dict (Counts ℕ))
unfolding set_day_counts
day_after = set_day_counts amounts daily "2026-09-02" "alert" 5 [] 3600

set_day_counts-IsKept_example :
    ((c : Counts ℕ)
      → counts_of amounts daily "2026-09-02" "alert" ≡ some c
      → amounts.exceeds (seconds_of amounts c) 3600 ≡ true
      → day_after ≡ daily)
    × (((c : Counts ℕ)
          → counts_of amounts daily "2026-09-02" "alert" ≡ some c
          → amounts.exceeds (seconds_of amounts c) 3600 ≡ false)
        → IsReplaced amounts daily "2026-09-02" "alert"
            (record { total = 5; counters = []; seconds = some 3600 })
            day_after)
    × ((j s : String)
        → NotShorter amounts (counts_of amounts daily j s) (counts_of amounts day_after j s))
unfolding day_after
set_day_counts-IsKept_example = set_day_counts-IsKept amounts daily "2026-09-02" "alert" 5 [] 3600

abbrev shown : List (String × Anomaly ℕ)
shown = ("logons", ("first run", 40)) ∷ ("logons", ("second run", 25)) ∷ []

note_anomalies-Tops_example :
    All (λ e. Tops amounts (get (note_anomalies amounts [] shown) e.0) e.1) shown
    × ((c : String) (cur : Anomaly ℕ)
        → get (note_anomalies amounts [] shown) c ≡ some cur
        → IsShown amounts [] shown c cur)
note_anomalies-Tops_example = note_anomalies-Tops amounts [] shown
