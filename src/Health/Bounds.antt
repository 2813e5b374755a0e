-- ===== src/Health/Bounds.antt =====
-- src/dbwiki/health.py: the length and the lines of a capped log.
use logbook.Prelude.{
  ℕ, zero, suc, ◌+◌, ◌-◌, ◌≤◌, ◌≡◌, refl, sym, ap, subst, ◌∙◌, inl, inr, false, none, some, List,
  [], ◌∷◌, ◌++◌, length, drop, leb, arith, Bool-cases, Option-cases, ◌⊎◌,
}
use logbook.Health.{Log, next_count, slack, append_and_trim, append_all}

module _ {E : Type 0} where
  length-drop : (n : ℕ) (xs : List E) → length (drop n xs) ≡ length xs - n
  length-drop zero xs = omega arith
  length-drop (suc n) [] = omega arith
  length-drop (suc n) (x ∷ xs) = omega (arith, length-drop n xs)

  drop-nil : (n : ℕ) → drop {A = E} n [] ≡ []
  drop-nil zero = refl
  drop-nil (suc n) = refl

  drop-drop : (k j : ℕ) (xs : List E) → drop k (drop j xs) ≡ drop (j + k) xs
  drop-drop k zero xs = let e : k ≡ 0 + k = omega arith in ap (λ n. drop n xs) e
  drop-drop k (suc j) [] = drop-nil k ∙ sym (drop-nil (suc j + k))
  drop-drop k (suc j) (x ∷ xs) =
      let e : suc (j + k) ≡ suc j + k = omega arith in
      drop-drop k j xs ∙ ap (λ n. drop n (x ∷ xs)) e

  drop-append : (j : ℕ) (xs ys : List E) → j ≤ length xs → drop j xs ++ ys ≡ drop j (xs ++ ys)
  drop-append zero xs ys h = refl
  drop-append (suc j) [] ys h = absurd (omega arith)
  drop-append (suc j) (x ∷ xs) ys h = drop-append j xs ys (omega arith)

  length-append : (xs ys : List E) → length (xs ++ ys) ≡ length xs + length ys
  length-append [] ys = omega arith
  length-append (x ∷ xs) ys = omega (arith, length-append xs ys)

  append-cons : (xs : List E) (y : E) (ys : List E) → (xs ++ y ∷ []) ++ ys ≡ xs ++ y ∷ ys
  append-cons [] y ys = refl
  append-cons (x ∷ xs) y ys = ap (λ zs. x ∷ zs) (append-cons xs y ys)

  append_nothing : (xs : List E) → xs ++ [] ≡ xs
  append_nothing [] = refl
  append_nothing (x ∷ xs) = ap (λ ys. x ∷ ys) (append_nothing xs)

  length-snoc : (xs : List E) (x : E) → length (xs ++ x ∷ []) ≡ length xs + 1
  length-snoc [] x = omega arith
  length-snoc (y ∷ xs) x = omega (arith, length-snoc xs x)

module _ {E : Type 0} (max_events : ℕ) where
  -- What is known of a log between two appends: the count is exact.
  abbrev IsCounted : Log E → Type 0
  IsCounted log = (n : ℕ) → log.count ≡ some n → n ≡ length log.lines

  abbrev IsBounded : Log E → Type 0
  IsBounded log = length log.lines ≤ max_events + slack max_events

  next_count-exact :
      (log : Log E) (e : E)
      → IsCounted log
      → next_count max_events log e ≡ length (log.lines ++ e ∷ [])
  unfolding next_count
  next_count-exact log e h = elim (Option-cases log.count) [
    | inl fresh ↦ rw fresh refl
    | inr (n, known) ↦ rw known (omega (arith, h n known, length-snoc log.lines e))
  ]

  -- All but some of the oldest lines, of which as many as the cap stay where any are gone.
  abbrev IsNewest : List E → List E → Type 0
  IsNewest all lines =
      (k : ℕ) × (lines ≡ drop k all) × (k ≤ length all) × ((k ≡ 0) ⊎ (max_events ≤ length lines))

  append-IsBounded :
      (log : Log E) (e : E)
      → IsCounted log
      → let next = append_and_trim max_events log e in
        IsBounded next × IsCounted next × IsNewest (log.lines ++ e ∷ []) next.lines
  unfolding append_and_trim
  append-IsBounded log e h =
      let lines = log.lines ++ e ∷ [] in
      let exact = next_count-exact log e h in
      elim (Bool-cases (leb (next_count max_events log e) (max_events + slack max_events))) [
        | inl short ↦ rw short (
          ground (arith, exact),
          λ n k. let same : next_count max_events log e ≡ n = cc in sym same ∙ exact,
          (0, refl, omega arith, inl refl),
        )
        | inr long ↦
            let over : leb (length lines) max_events ≡ false = ground (arith, exact) in
            let cut : length (drop (length lines - max_events) lines) ≡ max_events =
              ground (arith, length-drop (length lines - max_events) lines) in
            rw (long, over)
              (
                omega (arith, cut),
                λ n k. let same : max_events ≡ n = cc in sym same ∙ sym cut,
                (length lines - max_events, refl, omega arith, inr (omega (arith, cut))),
              )
      ]

  IsNewest-next :
      (all next last es : List E)
      → IsNewest all next
      → IsNewest (next ++ es) last
      → IsNewest (all ++ es) last
  IsNewest-next all next last es (j, e, small, kept) (k, f, small', kept') = (
    j + k,
    f
        ∙ ap (λ xs. drop k (xs ++ es)) e
        ∙ ap (drop k) (drop-append j all es small)
        ∙ drop-drop k j (all ++ es),
    omega (arith, small, small', inner, length-append all es, length-append next es),
    kept_all kept kept',
  )
    where
      inner : length next ≡ length all - j
      inner = ap length e ∙ length-drop j all

      outer : length last ≡ length (next ++ es) - k
      outer = ap length f ∙ length-drop k (next ++ es)

      kept_all :
          (j ≡ 0) ⊎ (max_events ≤ length next)
          → (k ≡ 0) ⊎ (max_events ≤ length last)
          → (j + k ≡ 0) ⊎ (max_events ≤ length last)
      kept_all none_before (inr m) = inr m
      kept_all (inl j0) (inl k0) = inl (omega arith)
      kept_all (inr m) (inl k0) = inr (omega (arith, outer, length-append next es))

  abbrev IsTrimmed : Log E → List E → Log E → Type 0
  IsTrimmed log es last = IsBounded last × IsCounted last × IsNewest (log.lines ++ es) last.lines

  IsTrimmed-next :
      (log last : Log E) (e : E) (es : List E)
      → IsCounted log
      → IsTrimmed (append_and_trim max_events log e) es last
      → IsTrimmed log (e ∷ es) last
  IsTrimmed-next log last e es c (bounded, counted, rest) =
      let next = append_and_trim max_events log e in
      (
        bounded,
        counted,
        subst (λ all. IsNewest all last.lines) (append-cons log.lines e es)
            (IsNewest-next (log.lines ++ e ∷ []) next.lines last.lines es
              (append-IsBounded log e c).2 rest),
      )

  append_all-lem :
      (log : Log E) (es : List E)
      → IsBounded log
      → IsCounted log
      → IsTrimmed log es (append_all max_events log es)
  unfolding append_all
  append_all-lem log [] b c = (b, c, (0, sym (append_nothing log.lines), omega arith, inl refl))
  append_all-lem log (e ∷ es) b c =
      let (bounded, counted, newest) = append-IsBounded log e c in
      IsTrimmed-next log _ e es c
        (append_all-lem (append_and_trim max_events log e) es bounded counted)

  -- A process that starts appending to any log, and appends at least one line: the log ends with at most
  -- the cap and the slack of lines, and they are the newest of all the lines, in order; where older ones are
  -- gone, as many as the cap are left at least.
  pub append_all-IsBounded :
      (lines : List E) (e : E) (es : List E)
      → let last = append_all max_events (record { lines = lines; count = none }) (e ∷ es) in
        (length last.lines ≤ max_events + slack max_events)
        × ((k : ℕ) × (last.lines ≡ drop k (lines ++ e ∷ es))
            × (k ≤ length (lines ++ e ∷ es))
            × ((k ≡ 0) ⊎ (max_events ≤ length last.lines)))
  unfolding append_all
  append_all-IsBounded lines e es =
      let start : Log E = record { lines = lines; count = none } in
      let fresh : IsCounted start = λ n k. cc in
      let (bounded, counted, newest) = append-IsBounded start e fresh in
      let last = append_all max_events start (e ∷ es) in
      let (short, exact, kept) =
        IsTrimmed-next start last e es fresh
          (append_all-lem (append_and_trim max_events start e) es bounded counted) in
      (short, kept)
