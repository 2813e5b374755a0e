-- ===== src/Pagetext/Again.antt =====
-- src/dbwiki/pagetext.py: `section_append` and `log_append` on a page that they made.
use Prim.Native.Char.{Char, code}
use logbook.Prelude.{
  ℕ, String, ◌≡◌, refl, sym, ap, subst, ◌∙◌, inl, inr, Bool, true, false, not, ◌&&◌, Option, none,
  some, List, [], ◌∷◌, ◌++◌, filter, eqb, plus, after, starts_with, was_found, contains, nonempty,
  arith, Bool-cases, if◌then◌else◌, every, Memᴰ,
}
use logbook.Pagetext.{
  strip_breaks, nl, join_lines, Zone, append_in, appended, new_section, or_blank, drop_blank_end,
  is_placeholder, section_append, find_section, page_lines, log_append, or_new_log,
}

pub plus_assoc : (a b c : String) → plus (plus a b) c ≡ plus a (plus b c)
plus_assoc String.[] b c = refl
plus_assoc (String.◌∷◌ x a) b c = ap (String.◌∷◌ x) (plus_assoc a b c)

eqb_refl : (n : ℕ) → eqb n n ≡ true
eqb_refl n = ground arith

after-plus : (t b : String) → after t (plus t b) ≡ some b
unfolding after
after-plus String.[] b = refl
after-plus (String.◌∷◌ c t) b = rw (eqb_refl (code c)) (after-plus t b)

starts_with-plus : (t b : String) → starts_with t (plus t b) ≡ true
unfolding starts_with
starts_with-plus t b = ap was_found (after-plus t b)

-- The text stands in the page, at some place.
abbrev Stands : String → String → Type 0
Stands t page = (a : String) × (b : String) × (page ≡ plus a (plus t b))

contains_start : (t s : String) → starts_with t s ≡ true → contains t s ≡ true
unfolding contains
contains_start t String.[] h = h
contains_start t (String.◌∷◌ c s) h = rw h refl

contains_later :
    (t : String) (c : _) (s : String) → contains t s ≡ true → contains t (String.◌∷◌ c s) ≡ true
unfolding contains
contains_later t c s h = ground (arith, h)

contains-plus : (a t b : String) → contains t (plus a (plus t b)) ≡ true
contains-plus String.[] t b = contains_start t (plus t b) (starts_with-plus t b)
contains-plus (String.◌∷◌ c a) t b = contains_later t c (plus a (plus t b)) (contains-plus a t b)

-- The text is the last thing but line breaks, of which it holds none, so `nl` leaves it.
abbrev pub is_break : ℕ → Bool
is_break c = eqb c 10

-- One line that is not empty.
abbrev pub IsLine : String → Type 0
IsLine line = (nonempty line ≡ true) × (every (λ c. not (is_break c)) line ≡ true)

-- A character stays where a text stays behind it, or where it is no line break.
stays :
    (c : Char) (rest s : String)
    → (not (nonempty rest) && is_break (code c)) ≡ false
    → rest ≡ s
    → (if not (nonempty rest) && is_break (code c) then "" else String.◌∷◌ c rest) ≡ String.◌∷◌ c s
stays c rest s h e = rw h (ap (String.◌∷◌ c) e)

and_false : (a b : Bool) → not b ≡ true → (a && b) ≡ false
and_false true true h = cc
and_false true false h = refl
and_false false b h = refl

and_split : (a b : Bool) → (a && b) ≡ true → (a ≡ true) × (b ≡ true)
and_split true b h = (refl, h)
and_split false b h = cc

not_empty : (a b : Bool) → a ≡ true → (not a && b) ≡ false
not_empty a b h = rw h refl

pub strip_breaks-line :
    (s b : String)
    → every (λ c. not (is_break c)) s ≡ true
    → strip_breaks (plus s b) ≡ plus s (strip_breaks b)
unfolding strip_breaks every
strip_breaks-line String.[] b h = refl
strip_breaks-line (String.◌∷◌ c s) b h =
    let parts = and_split _ _ h in
    stays c (strip_breaks (plus s b)) _ (and_false _ _ parts.0) (strip_breaks-line s b parts.1)

pub nonempty-plus_right : (a y : String) → nonempty y ≡ true → nonempty (plus a y) ≡ true
unfolding nonempty
nonempty-plus_right String.[] y h = h
nonempty-plus_right (String.◌∷◌ c a) y h = refl

pub nonempty-plus_left : (a y : String) → nonempty a ≡ true → nonempty (plus a y) ≡ true
unfolding nonempty
nonempty-plus_left String.[] y h = cc
nonempty-plus_left (String.◌∷◌ c a) y h = refl

strip_breaks-plus :
    (a y : String)
    → nonempty (strip_breaks y) ≡ true
    → strip_breaks (plus a y) ≡ plus a (strip_breaks y)
unfolding strip_breaks
strip_breaks-plus String.[] y h = refl
strip_breaks-plus (String.◌∷◌ c a) y h =
    let more = strip_breaks-plus a y h in
    stays c (strip_breaks (plus a y)) _
      (ap (λ t. not (nonempty t) && is_break (code c)) more
        ∙ not_empty _ _ (nonempty-plus_right a _ h))
      more

pub plus_nil : (s : String) → plus s "" ≡ s
plus_nil String.[] = refl
plus_nil (String.◌∷◌ c s) = ap (String.◌∷◌ c) (plus_nil s)

Stands-self : (line : String) → Stands line line
Stands-self line = ("", "", sym (plus_nil line))

Stands-plus : (line a page : String) → Stands line page → Stands line (plus a page)
Stands-plus line a page (b, d, e) =
    (plus a b, d, ap (plus a) e ∙ sym (plus_assoc a b (plus line d)))

nl-Stands : (line page : String) → IsLine line → Stands line page → Stands line (nl page)
unfolding nl
nl-Stands line page h (a, b, e) =
    let inner = strip_breaks-line line b h.1 in
    let whole =
      ap strip_breaks e
      ∙ strip_breaks-plus a (plus line b)
          (ap nonempty inner ∙ nonempty-plus_left line (strip_breaks b) h.0)
      ∙ ap (plus a) inner in
    (
      a,
      plus (strip_breaks b) "\n",
      ap (λ s. plus s "\n") whole
          ∙ plus_assoc a (plus line (strip_breaks b)) "\n"
          ∙ ap (plus a) (plus_assoc line (strip_breaks b) "\n"),
    )

join_lines-Stands :
    (line : String) (lines : List String) → Memᴰ line lines → Stands line (join_lines lines)
unfolding join_lines
join_lines-Stands line [] m = elim m [ ]
join_lines-Stands line (s ∷ []) (Memᴰ.head e) = subst (λ s. Stands line s) e (Stands-self line)
join_lines-Stands line (s ∷ []) (Memᴰ.tail m) = elim m [ ]
join_lines-Stands line (s ∷ t ∷ more) (Memᴰ.head e) = (
  "",
  plus "\n" (join_lines (t ∷ more)),
  ap (λ s. plus s (plus "\n" (join_lines (t ∷ more)))) (sym e),
)
join_lines-Stands line (s ∷ t ∷ more) (Memᴰ.tail m) =
    Stands-plus line s _ (Stands-plus line "\n" _ (join_lines-Stands line (t ∷ more) m))

mem_middle : {A : Type 0} (x : A) (xs ys : List A) → Memᴰ x (xs ++ x ∷ ys)
mem_middle x [] ys = Memᴰ.head refl
mem_middle x (y ∷ xs) ys = Memᴰ.tail (mem_middle x xs ys)

new_section-Stands :
    (text section line header : String) → Stands line (new_section text section line header)
unfolding new_section
new_section-Stands text section line header = Stands-plus line (join_lines (page_lines text)) _ (
    Stands-plus line "\n\n## " _ (
      Stands-plus line section _ (
        Stands-plus line "\n\n" _ (
          Stands-plus line (if nonempty header then plus header "\n" else "") _
            (Stands-self line)))))

mem-appended : (z : Zone) (line : String) → Memᴰ line (appended z line)
unfolding appended
mem-appended z line =
    mem_middle line
      (z.before
        ++ (z.head ∷ or_blank (drop_blank_end (filter (λ ln. not (is_placeholder ln)) z.body))))
      ("" ∷ z.behind)

append_in-Stands :
    (o : Option Zone) (text section line header : String)
    → IsLine line
    → Stands line (append_in o text section line header)
append_in-Stands none text section line header h =
    nl-Stands line (new_section text section line header) h
      (new_section-Stands text section line header)
append_in-Stands (some z) text section line header h =
    nl-Stands line (join_lines (appended z line)) h
      (join_lines-Stands line (appended z line) (mem-appended z line))

Stands-contains : (line page : String) → Stands line page → contains line page ≡ true
Stands-contains line page (a, b, e) = ap (contains line) e ∙ contains-plus a line b

pub contains-section_append :
    (text section line header : String)
    → IsLine line
    → contains line (section_append text section line header) ≡ true
unfolding section_append
contains-section_append text section line header h = elim (Bool-cases (contains line text)) [
  | inl there ↦ rw there there
  | inr missing ↦ rw missing (
      Stands-contains line _
        (append_in-Stands (find_section section (page_lines text)) text section line header h))
]

section_append-there :
    (text section line header : String)
    → contains line text ≡ true
    → section_append text section line header ≡ text
unfolding section_append
section_append-there text section line header there = rw there refl

-- Whatever the page, a line that is not empty and has no line break is on it behind `section_append`, and
-- appending it again changes no byte.
pub section_append-again :
    (text section line header : String)
    → IsLine line
    → let page = section_append text section line header in
      (contains line page ≡ true) × (section_append page section line header ≡ page)
section_append-again text section line header h =
    let there = contains-section_append text section line header h in
    (there, section_append-there _ section line header there)

contains-log_append :
    (log : Option String) (line : String) → contains line (log_append log line) ≡ true
unfolding log_append
contains-log_append log line = elim (Bool-cases (contains line (or_new_log log))) [
  | inl there ↦ rw there there
  | inr missing ↦
      rw missing
        (Stands-contains line _ (Stands-plus line _ _ (Stands-plus line _ _ ("", "\n", refl))))
]

log_append-there :
    (page line : String) → contains line page ≡ true → log_append (some page) line ≡ page
unfolding log_append
log_append-there page line there = rw there refl

-- Behind `log_append` the line is in the log, whether there was a log or not, and appending it again
-- changes no byte.
pub log_append-again :
    (log : Option String) (line : String)
    → let page = log_append log line in
      (contains line page ≡ true) × (log_append (some page) line ≡ page)
log_append-again log line =
    let there = contains-log_append log line in (there, log_append-there _ line there)
