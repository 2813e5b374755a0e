-- ===== src/Monitoring/Evidence.antt =====
-- What a digest of one day says of an error code and of a source, inside a monitoring window.
use logbook.Prelude.{
  ℕ, zero, suc, ◌+◌, ◌-◌, String, ◌≡◌, refl, Bool, true, not, ◌&&◌, ◌||◌, some, none, List, [], ◌∷◌,
  ◌++◌, ◌==◌, eqb, plus, among, any, filter, nonempty, first_chars, text_ltb, text_leb, size,
  if◌then◌else◌,
}
use Prim.Native.Char.{code}
use logbook.Prelude.Dict.{Dict}
use logbook.Incident.{MonitoringWindow}
use logbook.Monitoring.Window.{date_of, next_day, iso}

-- A notable group of lines.
pub record NotableGroup : Type 0 where
  pub codes : List String
  pub count : ℕ
  pub message : String
  pub rule : String
  pub first_ts : String
  pub last_ts : String

pub record DigestDelta : Type 0 where
  pub type : String
  pub value : String
  pub first_seen : String

pub record SourceSection : Type 0 where
  pub total_events : ℕ
  pub notable : List NotableGroup

-- `digests/<db>/<day>.json`, with its path.
pub record DayDigest : Type 0 where
  pub path : String
  pub day : String
  pub from : String
  pub to : String
  pub sources : Dict SourceSection
  pub deltas : List DigestDelta

-- `_sec`
abbrev pub sec : String → String
unfolding first_chars
sec s = first_chars 19 s

unfoldable pub notable_groups : Dict SourceSection → List NotableGroup
notable_groups [] = []
notable_groups ((name, s) ∷ sources) = s.notable ++ notable_groups sources

-- `_spans`
unfoldable pub spans : NotableGroup → MonitoringWindow → Bool
unfolding nonempty first_chars text_ltb text_leb
spans g w =
    if not (nonempty (sec g.first_ts)) || not (nonempty (sec g.last_ts))
    then true
    else text_ltb (sec g.first_ts) (sec w.until) && text_leb (sec w.start) (sec g.last_ts)

-- `code.partition("-")`
unfoldable pub partition_dash : String → String × String
partition_dash String.[] = (String.[], String.[])
partition_dash (String.◌∷◌ c s) =
    let rest = partition_dash s in
    if eqb (code c) 45 then (String.[], s) else (String.◌∷◌ c rest.0, rest.1)

-- `s.lstrip("0")`
unfoldable pub without_zeros : String → String
without_zeros String.[] = String.[]
without_zeros (String.◌∷◌ c s) =
    let rest = without_zeros s in if eqb (code c) 48 then rest else String.◌∷◌ c s

zeros_before : ℕ → String → String
zeros_before zero s = s
zeros_before (suc n) s = plus "0" (zeros_before n s)

is_sign : ℕ → Bool
is_sign c = eqb c 43 || eqb c 45

-- `s.zfill(5)`, which fills behind a sign
unfoldable pub zfill : String → String
unfolding zeros_before is_sign size
zfill String.[] = zeros_before 5 String.[]
zfill (String.◌∷◌ c s) =
    let missing = 5 - size (String.◌∷◌ c s) in
    if is_sign (code c)
    then String.◌∷◌ c (zeros_before missing s)
    else zeros_before missing (String.◌∷◌ c s)

abbrev pub or_zero_text : String → String
unfolding nonempty
or_zero_text s = if nonempty s then s else "0"

-- `_code_spellings`, read as a set
unfoldable pub code_spellings : String → List String
unfolding partition_dash without_zeros zfill nonempty
code_spellings code =
    let parts = partition_dash code in
    let digits = or_zero_text (without_zeros parts.1) in
    code ∷ plus parts.0 (plus "-" digits) ∷ plus parts.0 (plus "-" (zfill digits)) ∷ []

unfoldable pub total_count : List NotableGroup → ℕ
total_count [] = 0
total_count (g ∷ gs) = g.count + total_count gs

module _ (window : MonitoringWindow) where
  abbrev pub first_seen_here : List String → DigestDelta → Bool
  unfolding text_leb text_ltb first_chars
  first_seen_here spellings delta =
      delta.type == "first_ever_code"
      && among delta.value spellings
      && text_leb (sec window.start) (sec delta.first_seen)
      && text_ltb (sec delta.first_seen) (sec window.until)

  -- `_code_count`
  unfoldable pub code_count : DayDigest → String → ℕ
  unfolding code_spellings total_count notable_groups spans filter
  code_count digest code =
      let spellings = code_spellings code in
      let n = total_count (
        filter (λ g. any (λ c. among c spellings) g.codes && spans g window)
          (notable_groups digest.sources)) in
      if not (eqb n 0) then n else if any (first_seen_here spellings) digest.deltas then 1 else 0

  abbrev pub or_text : String → String → String
  unfolding nonempty
  or_text s t = if nonempty s then s else t

  -- `_digest_bounds`
  unfoldable pub digest_bounds : DayDigest → String × String
  unfolding date_of iso next_day first_chars nonempty
  digest_bounds digest = elim (date_of digest.day) [
    | none ↦ (sec digest.from, sec digest.to)
    | some d ↦ (
      sec (or_text digest.from (plus digest.day "T00:00:00Z")),
      sec (or_text digest.to (plus (iso (next_day d)) "T00:00:00Z")),
    )
  ]

  -- The part of a group's events that is inside the window.
  abbrev pub inside_of : NotableGroup → ℕ
  unfolding text_leb text_ltb first_chars
  inside_of g =
      if text_leb (sec window.start) (sec g.first_ts) && text_ltb (sec g.last_ts) (sec window.until)
      then g.count
      else if text_leb (sec window.start) (sec g.last_ts)
          && text_ltb (sec g.first_ts) (sec window.until)
      then 1
      else 0

  -- The events inside the window, and the events with a time.
  unfoldable pub placed_events : List NotableGroup → ℕ × ℕ
  unfolding nonempty inside_of text_leb text_ltb first_chars
  placed_events [] = (0, 0)
  placed_events (g ∷ gs) =
      let more = placed_events gs in
      if not (nonempty (sec g.first_ts)) || not (nonempty (sec g.last_ts))
      then more
      else (inside_of g + more.0, g.count + more.1)

  -- `_events_in_window`
  unfoldable pub events_in_window : SourceSection → DayDigest → ℕ × ℕ
  unfolding digest_bounds placed_events nonempty text_leb first_chars
  events_in_window section digest =
      let bounds = digest_bounds digest in
      let placed = placed_events section.notable in
      if nonempty bounds.0
        && nonempty bounds.1
        && text_leb (sec window.start) bounds.0
        && text_leb bounds.1 (sec window.until)
      then (section.total_events, 0)
      else (placed.0, section.total_events - placed.1)

padded : code_spellings "TNS-00513" ≡ "TNS-00513" ∷ "TNS-513" ∷ "TNS-00513" ∷ []
unfolding code_spellings
padded = refl
