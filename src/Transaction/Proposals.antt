-- ===== src/Transaction/Proposals.antt =====
-- What a transaction wants the wiki to say: its actor, its message and its files.
use logbook.Prelude.{
  String, ◌≡◌, refl, Bool, true, false, not, ◌&&◌, ◌||◌, Option, none, some, List, [], ◌∷◌, any,
  filter, map, ◌==◌, eqb, every, plus, contains, cut, starts_with, split, strip, nonempty, concat,
  sorted, text_leb, if◌then◌else◌,
}
use logbook.Prelude.Dict.{Dict, get}

-- `MACHINE_DIRS`
abbrev pub in_machine_dirs : String → Bool
in_machine_dirs p = starts_with "digests/" p || starts_with "html/" p

abbrev pub agent_result : String
agent_result = ".agent-result.json"

unfoldable pub is_machine : String → Bool
unfolding starts_with
is_machine p = in_machine_dirs p || p == agent_result

pub data Error : Type 0 where
  unusable_actor : Error
  no_actor : Error
  bad_proposal : Error
  lock_not_held : Error
  git_failed : Error
  disk_failed : Error

pub data Result (A : Type 0) : Type 0 where
  ok : A → Result A
  err : Error → Result A

pub data Source : Type 0 where
  flag : Source
  config : Source
  git : Source

pub record Actor : Type 0 where
  pub email : String
  pub name : String
  pub source : Source

-- `any(c in s for c in "<>\n")`, negated
has_no_marks : String → Bool
unfolding every
has_no_marks = every λ c. not (eqb c 60 || eqb c 62 || eqb c 10)

-- `Actor(...)`
unfoldable pub new_actor : String → String → Source → Result Actor
unfolding has_no_marks contains
new_actor email name source =
    if contains "@" email && has_no_marks email && has_no_marks name
    then ok (record { email = email; name = name; source = source })
    else err unusable_actor

-- `email.partition("@")[0]`
local_part : String → String
unfolding cut
local_part email = elim (cut 64 email) [ none ↦ email | some c ↦ c.before ]

unfoldable pub git_author : Actor → String
unfolding local_part nonempty
git_author a =
    plus (if nonempty a.name then a.name else local_part a.email) (plus " <" (plus a.email ">"))

-- An address that is given and not blank.
usable : Option String → Option String
unfolding strip nonempty
usable none = none
usable (some s) = if nonempty (strip s) then some (strip s) else none

-- `resolve_actor`, of what `git config` answers for the name and the address.
unfoldable pub resolve_actor : String → String → Option String → Option String → Result Actor
unfolding usable new_actor strip nonempty
resolve_actor git_name git_email configured override =
    let name = strip git_name in
    elim (usable override) [
      | some email ↦ new_actor email name flag
      | none ↦ elim (usable configured) [
        | some email ↦ new_actor email name config
        | none ↦
            if nonempty (strip git_email)
            then new_actor (strip git_email) name git
            else err no_actor
      ]
    ]

-- The desired content of each path, `none` to delete it.
pub record Proposal : Type 0 where
  pub base : String
  pub actor : Actor
  pub message : String
  pub files : Dict (Option String)
  pub trailers : List (String × String)
  pub notes : List String

-- `PurePosixPath(rel).parts`, without the root of an absolute path.
unfoldable pub path_parts : String → List String
unfolding split filter nonempty
path_parts p = filter (λ s. nonempty s && not (s == ".")) (split 47 p)

abbrev is_absolute : String → Bool
is_absolute p = starts_with "/" p

abbrev pub is_empty_list : {A : Type 0} → List A → Bool
is_empty_list [] = true
is_empty_list (x ∷ xs) = false

unfoldable pub is_writable : String → Bool
unfolding path_parts is_machine starts_with
is_writable p =
    not (is_absolute p)
    && not (is_empty_list (path_parts p))
    && not (any (λ s. s == "..") (path_parts p))
    && not (is_machine p)

abbrev pub file_names {ℓ} : {V : Type ℓ} → Dict V → List String
file_names d = map (λ e. e.0) d

-- `Proposal.__post_init__`
unfoldable pub checked : Proposal → Result Proposal
unfolding strip nonempty is_writable
checked p =
    if nonempty (strip p.message) && not (any (λ k. not (is_writable k)) (file_names p.files))
    then ok p
    else err bad_proposal

unfoldable pub paths : Proposal → List String
unfolding sorted text_leb
paths p = sorted text_leb (file_names p.files)

-- `proposal.files[path]`, of a path that the proposal has.
unfoldable pub desired : Proposal → String → Option String
unfolding get
desired p path = elim (get p.files path) [ none ↦ none | some content ↦ content ]

trailer_line : String × String → String
trailer_line (k, v) = plus "\n" (plus k (plus ": " v))

unfoldable pub commit_message : Proposal → String
unfolding trailer_line
commit_message p =
    plus p.message
      (plus "\n\nActor: " (plus p.actor.email (plus (concat (map trailer_line p.trailers)) "\n")))

-- A path that `startswith` does not take for machine output, though it names it.
dotted : is_writable "./digests/db/day.json" ≡ true
unfolding is_writable nonempty
dotted = refl

outside : is_writable "a/../../b" ≡ false
unfolding is_writable nonempty
outside = refl

by_config :
    resolve_actor "Ann" "a@x" (some " ops@x ") (some " ")
    ≡ ok (record { email = "ops@x"; name = "Ann"; source = config })
unfolding resolve_actor
by_config = refl
