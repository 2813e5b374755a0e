-- ===== src/Registry/Windows.antt =====
-- src/dbwiki/state.py: the news of a window.
use logbook.Prelude.{
  String, ◌≡◌, ◌↔◌, refl, ap, true, false, arith, not, Option, none, some, [], ◌∷◌, Memᴰ, text_leb,
  mem-sorted, mem_of_sorted, map, filter, mem-filter, mem_of_filter,
}
use logbook.Prelude.Dict.{Dict, get, Distinct, mem_of_get, get_of_mem}
use logbook.Registry.{
  Instants, Seen, in_window, new_in_window, is_key, new_codes_in_window, or_empty,
}

mem_map : (k : String) (d : Dict Seen) → Memᴰ k (map (λ e. e.0) d) → (v : Seen) × Memᴰ (k, v) d
mem_map k [] m = elim m [ ]
mem_map k ((j, v) ∷ d) (Memᴰ.head e) = (v, Memᴰ.head (ap (λ k. (k, v)) e))
mem_map k ((j, v) ∷ d) (Memᴰ.tail m) = let r = mem_map k d m in (r.0, Memᴰ.tail r.1)

mem-map : (k : String) (v : Seen) (d : Dict Seen) → Memᴰ (k, v) d → Memᴰ k (map (λ e. e.0) d)
mem-map k v [] m = elim m [ ]
mem-map k v (e ∷ d) (Memᴰ.head same) = Memᴰ.head (ap (λ p. p.0) same)
mem-map k v (e ∷ d) (Memᴰ.tail m) = Memᴰ.tail (mem-map k v d m)

module _ (order : Instants) where
  -- The key has an entry that was first seen within `[t0, t1)`.
  pub IsFirstSeen : Dict Seen → String → String → String → Type 0
  IsFirstSeen d t0 t1 k =
      (v : Seen) × (get d k ≡ some v)
      × (order.before v.first_seen t0 ≡ false)
      × (order.before v.first_seen t1 ≡ true)

  window_lem :
      (t0 t1 : String) (v : Seen)
      → (in_window order t0 t1 v ≡ true)
        ↔ ((order.before v.first_seen t0 ≡ false) × (order.before v.first_seen t1 ≡ true))
  window_lem t0 t1 v = ground arith

  listed :
      (d : Dict Seen) (t0 t1 k : String)
      → Distinct d
      → Memᴰ k (new_in_window order d t0 t1)
      → IsFirstSeen d t0 t1 k
  unfolding new_in_window IsFirstSeen
  listed d t0 t1 k distinct m =
      let r =
        mem_map k (filter (λ e. in_window order t0 t1 e.1) d) (mem_of_sorted text_leb k _ m) in
      let s = mem_of_filter _ (k, r.0) d r.1 in
      let (late, early) = (window_lem t0 t1 r.0).0 s.1 in
      (r.0, get_of_mem d k r.0 distinct s.0, late, early)

  news :
      (d : Dict Seen) (t0 t1 k : String)
      → IsFirstSeen d t0 t1 k
      → Memᴰ k (new_in_window order d t0 t1)
  unfolding new_in_window IsFirstSeen
  news d t0 t1 k (v, at, late, early) = mem-sorted text_leb k _ (
      mem-map k v (filter (λ e. in_window order t0 t1 e.1) d)
        (mem-filter _ (k, v) d (mem_of_get d k v at) ((window_lem t0 t1 v).1 (late, early))))

  -- `new_codes_in_window` lists exactly the codes of the source that were first seen within the window
  -- and are not in the map that an older registry kept without sources: those are never news again.
  pub new_codes_in_window-IsFirstSeen :
      (codes : Dict (Dict Seen)) (legacy : Dict Seen) (source t0 t1 code : String)
      → Distinct (or_empty (get codes source))
      → Memᴰ code (new_codes_in_window order codes legacy source t0 t1)
        ↔ (IsFirstSeen (or_empty (get codes source)) t0 t1 code × (get legacy code ≡ none))
  unfolding new_codes_in_window
  new_codes_in_window-IsFirstSeen codes legacy source t0 t1 code distinct = (
    (λ m.
        let r = mem_of_filter _ code _ m in
        (listed _ t0 t1 code distinct r.0, absent (get legacy code) r.1)),
    (λ h. mem-filter _ code _ (news _ t0 t1 code h.0) (rw h.1 refl)),
  )
    where
      absent : (o : Option Seen) → not (is_key o) ≡ true → o ≡ none
      absent none h = refl
      absent (some v) h = cc
