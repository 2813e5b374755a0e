-- ===== src/Validate/Ids.antt =====
-- src/dbwiki/validate.py: `safe_id` beside the names of files.
use logbook.Prelude.{
  ℕ, String, ◌≡◌, ◌≢◌, refl, Bool, true, false, not, ◌&&◌, none, some, leb, eqb, arith, every, size,
  after, is_digit, contains, inl, inr, Bool-cases, leb→le, ◌≤◌,
}
use Prim.Native.Char.{code}
use logbook.Validate.{safe_id, has_id_shape, is_id_char, is_word_start, safe_id_max}

-- An id that stands in a path as one name: no separator, no parent, no hidden file.
pub record IsName (s : String) : Type 0 where
  pub short : size s ≤ 200
  pub no_parent : contains ".." s ≡ false
  pub no_separator : every (λ c. not (eqb c 47)) s ≡ true
  pub no_break : every (λ c. leb 33 c && leb c 126) s ≡ true
  pub not_hidden : after "." s ≡ none
  pub not_empty : s ≢ ""

-- A test that follows from another holds of every character that passes it.
every_mono :
    (p q : ℕ → Bool)
    → ((c : ℕ) → p c ≡ true → q c ≡ true)
    → (s : String) → every p s ≡ true
    → every q s ≡ true
unfolding every
every_mono p q follows String.[] h = refl
every_mono p q follows (String.◌∷◌ c s) h =
    ground (arith, follows (code c), every_mono p q follows s)

id_char-plain : (c : ℕ) → is_id_char c ≡ true → (leb 33 c && leb c 126) ≡ true
unfolding is_id_char is_word_start is_digit
id_char-plain c h = ground arith

id_char-separator : (c : ℕ) → is_id_char c ≡ true → not (eqb c 47) ≡ true
unfolding is_id_char is_word_start is_digit
id_char-separator c h = ground arith

shape-every : (s : String) → has_id_shape s ≡ true → every is_id_char s ≡ true
unfolding has_id_shape every is_id_char
shape-every String.[] h = refl
shape-every (String.◌∷◌ c s) h = ground arith

shape-hidden : (s : String) → has_id_shape s ≡ true → after "." s ≡ none
unfolding has_id_shape after is_word_start is_digit
shape-hidden String.[] h = refl
shape-hidden (String.◌∷◌ c s) h = ground arith

shape-empty : (s : String) → has_id_shape s ≡ true → s ≢ ""
unfolding has_id_shape
shape-empty s h e = cc

-- An id that `safe_id` accepts is returned unchanged and is the name of one visible file: not empty, at
-- most 200 characters of visible ASCII, without a path separator, without `..` and without a dot in
-- front.
pub safe_id-IsName : (s t : String) → safe_id s ≡ some t → (t ≡ s) × IsName s
unfolding safe_id
safe_id-IsName s t h = elim (Bool-cases (has_id_shape s)) [
  | inr bad ↦ ground arith
  | inl shape ↦ elim (Bool-cases (leb (size s) safe_id_max)) [
    | inr long ↦ ground arith
    | inl short ↦ elim (Bool-cases (contains ".." s)) [
      | inl dots ↦ ground arith
      | inr clean ↦ (
        ground arith,
        record {
          short = leb→le _ _ short;
          no_parent = clean;
          no_separator = every_mono _ _ id_char-separator s (shape-every s shape);
          no_break = every_mono _ _ id_char-plain s (shape-every s shape);
          not_hidden = shape-hidden s shape;
          not_empty = shape-empty s shape;
        },
      )
    ]
  ]
]
