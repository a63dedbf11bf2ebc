-- ===== src/Store/Query.antt =====
-- crates/s2l-store/src/query.rs: the search for messages by what is kept of them in memory. `lower` is
-- `str::to_lowercase`.
pub mod Address
use stmp2log.Prelude.{
  ℕ, min, List, [], ◌∷◌, Option, none, some, Bool, true, false, not, ◌&&◌, ◌||◌, ltb, ◌==◌,
  if◌then◌else◌,
}
use stmp2log.Prelude.Int.{ℤ, ltb_ℤ}
use stmp2log.Prelude.Text.{Text, is_empty, contains, str_trim}
use stmp2log.Store.Record.{MetaRec}

pub data GroupFilter : Type 0 where
  id : ℕ → GroupFilter
  ungrouped : GroupFilter

pub data Sort : Type 0 where
  time_desc time_asc : Sort

pub record Query : Type 0 where
  pub text : Option Text
  pub subject : Option Text
  pub body : Option Text
  pub from : Option Text
  pub from_user : Option Text
  pub from_domain : Option Text
  pub peer : Option Text
  pub group : Option GroupFilter
  pub start : Option ℤ
  pub end : Option ℤ
  pub has_attachment : Option Bool
  pub sort : Sort
  pub offset : ℕ
  pub limit : ℕ

abbrev pub default_limit : ℕ
default_limit = 50

abbrev pub max_limit : ℕ
max_limit = 500

unfoldable pub non_empty : Option Text → Option Text
unfolding str_trim is_empty
non_empty none = none
non_empty (some s) = if is_empty (str_trim s) then none else some (str_trim s)

unfoldable pub needs_body : Query → Bool
unfolding non_empty
needs_body q = elim (non_empty q.body) [ none ↦ false | some s ↦ true ]

unfoldable pub clamp : Query → Query
clamp q = record q { limit = min (if q.limit == 0 then default_limit else q.limit) max_limit }

-- `str::rsplit_once`, by a character.
unfoldable pub rsplit_once : ℕ → Text → Option (Text × Text)
rsplit_once b [] = none
rsplit_once b (c ∷ s) = elim (rsplit_once b s) [
  | some (u, d) ↦ some (c ∷ u, d)
  | none ↦ if c == b then some ([], s) else none
]

unfoldable pub user_of : Text → Text
unfolding rsplit_once
user_of addr = elim (rsplit_once b'@' addr) [ some (u, d) ↦ u | none ↦ addr ]

unfoldable pub domain_of : Text → Text
unfolding rsplit_once
domain_of addr = elim (rsplit_once b'@' addr) [ some (u, d) ↦ d | none ↦ [] ]

-- The tests on the times and on the group.
unfoldable pub too_early : Option ℤ → ℤ → Bool
too_early none ts = false
too_early (some s) ts = ltb_ℤ ts s

unfoldable pub too_late : Option ℤ → ℤ → Bool
too_late none ts = false
too_late (some e) ts = ltb_ℤ e ts

unfoldable pub other_group : Option GroupFilter → Option ℕ → Bool
other_group none g = false
other_group (some (id n)) none = true
other_group (some (id n)) (some g) = not (g == n)
other_group (some ungrouped) none = false
other_group (some ungrouped) (some g) = true

unfoldable pub other_attachment : Option Bool → ℕ → Bool
other_attachment none n = false
other_attachment (some true) n = not (ltb 0 n)
other_attachment (some false) n = ltb 0 n

module _ (lower : Text → Text) where
  -- Whether the text has the trimmed needle in it, if there is one.
  unfoldable pub found_in : Text → Option Text → Bool
  found_in hay none = true
  found_in hay (some n) = contains (lower hay) (lower n)

  unfoldable pub contains_ci : Text → Option Text → Bool
  unfolding found_in non_empty
  contains_ci hay needle = found_in hay (non_empty needle)

  unfoldable pub text_in : MetaRec → Option Text → Bool
  text_in m none = true
  text_in m (some t) =
      contains (lower m.subject) (lower t)
      || contains (lower m.from) (lower t)
      || contains (lower m.from_name) (lower t)
      || contains (lower m.preview) (lower t)

  unfoldable pub matches_meta : Query → MetaRec → Bool
  unfolding too_early too_late other_group other_attachment contains_ci user_of domain_of text_in
  matches_meta q m =
      if too_early q.start m.ts
      then false
      else if too_late q.end m.ts
      then false
      else if other_group q.group m.group
      then false
      else if other_attachment q.has_attachment m.attachments
      then false
      else if not (contains_ci m.subject q.subject)
      then false
      else if not (contains_ci m.from q.from)
      then false
      else if not (contains_ci m.peer q.peer)
      then false
      else if not (found_in (user_of m.from) (non_empty q.from_user))
      then false
      else if not (found_in (domain_of m.from) (non_empty q.from_domain))
      then false
      else text_in m (non_empty q.text)
