-- ===== src/Lint/Links.antt =====
-- The `[[links]]` of a page, and the pages that they name.
use Prim.Native.Char.{code}
use logbook.Prelude.{
  among, ℕ, zero, suc, String, ◌≡◌, refl, Bool, not, ◌&&◌, Option, none, some, List, [], ◌∷◌,
  filter, ◌==◌, eqb, size, plus, after, has_end, split, strip, nonempty, if◌then◌else◌,
}

-- The longest prefix whose characters pass, and what is behind it.
pub record Span : Type 0 where
  pub taken : String
  pub rest : String

unfoldable pub span : (ℕ → Bool) → String → Span
span test String.[] = record { taken = ""; rest = "" }
span test (String.◌∷◌ c s) =
    let more = span test s in
    if test (code c)
    then record { taken = String.◌∷◌ c more.taken; rest = more.rest }
    else record { taken = ""; rest = String.◌∷◌ c s }

-- `[^\]|#]`, `[^\]|]` and `[^\]]`
abbrev in_target : ℕ → Bool
in_target c = not (eqb c 93) && not (eqb c 124) && not (eqb c 35)

abbrev is_anchor : ℕ → Bool
is_anchor c = not (eqb c 93) && not (eqb c 124)

abbrev is_label : ℕ → Bool
is_label c = not (eqb c 93)

-- `(?:<mark>...)?`: the classes before a mark leave it out, so the group is taken where it can be.
unfoldable pub skip_group : String → (ℕ → Bool) → String → String
unfolding after span
skip_group mark test s = elim (after mark s) [ none ↦ s | some r ↦ (span test r).rest ]

abbrev closed_link : String → Option String → Option Span
closed_link target none = none
closed_link target (some r) =
    if nonempty target then some (record { taken = target; rest = r }) else none

-- `WIKILINK_RE` at the head of a text: its target, and what is behind it.
unfoldable pub link_at : String → Option Span
unfolding skip_group after span
link_at s = elim (after "[[" s) [
  | none ↦ none
  | some r ↦
      let target = span in_target r in
      closed_link target.taken
        (after "]]" (skip_group "|" is_label (skip_group "#" is_anchor target.rest)))
]

-- `WIKILINK_RE.findall(text)`; every step takes at least one character.
unfoldable pub links_from : ℕ → String → List String
unfolding link_at
links_from zero s = []
links_from (suc n) String.[] = []
links_from (suc n) (String.◌∷◌ c s) = elim (link_at (String.◌∷◌ c s)) [
  | none ↦ links_from n s
  | some link ↦ link.taken ∷ links_from n link.rest
]

unfoldable pub wikilinks : String → List String
unfolding links_from size
wikilinks s = links_from (size s) s

-- `Path(t).name`: the last part that is neither empty nor a dot.
abbrev is_part : String → Bool
is_part s = nonempty s && not (s == ".")

last_of : String → List String → String
last_of s [] = s
last_of s (t ∷ ts) = last_of t ts

unfoldable pub name_of : String → String
unfolding last_of split filter
name_of s = last_of "" (filter is_part (split 47 s))

-- A name up to its last dot, where that is neither its first nor its last character.
abbrev longer : String → Option String → Option String
longer s none = none
longer s (some t) = some s

before_dot : String → Option String
before_dot String.[] = none
before_dot (String.◌∷◌ c s) =
    let rest = before_dot s in
    elim rest [ none ↦ if eqb (code c) 46 then some "" else none | some t ↦ some (String.◌∷◌ c t) ]

-- `Path(t).stem`
unfoldable pub stem : String → String
unfolding before_dot name_of has_end
stem s =
    let name = name_of s in
    elim (before_dot name) [
      | none ↦ name
      | some t ↦ if nonempty t && not (has_end "." name) then t else name
    ]

abbrev only_one : List String → Option String
only_one [] = none
only_one (p ∷ []) = some p
only_one (p ∷ q ∷ ps) = none

unfoldable pub resolve_link : String → List String → Option String
unfolding strip has_end stem filter
resolve_link target pages =
    let t = strip target in
    let with_end = if has_end ".md" t then t else plus t ".md" in
    if not (nonempty t)
    then none
    else if among t pages
    then some t
    else if among with_end pages
    then some with_end
    else only_one (filter (λ p. stem p == stem t) pages)

anchored :
    wikilinks "see [[errors/ORA-1#top|the page]] and [[hosts/a]], [[]] or [[b"
    ≡ "errors/ORA-1" ∷ "hosts/a" ∷ []
unfolding wikilinks nonempty
anchored = refl

by_name : resolve_link " ORA-1 " ("index.md" ∷ "errors/ORA-1.md" ∷ []) ≡ some "errors/ORA-1.md"
unfolding resolve_link nonempty
by_name = refl

two_pages : resolve_link "a" ("x/a.md" ∷ "y/a.md" ∷ []) ≡ none
unfolding resolve_link nonempty
two_pages = refl

hidden : stem "x/.profile" ≡ ".profile"
unfolding stem nonempty
hidden = refl
