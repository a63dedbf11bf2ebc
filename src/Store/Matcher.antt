-- ===== src/Store/Matcher.antt =====
-- crates/s2l-store/src/match_.rs: the conditions of groups, of the access list and of the
-- notification rules. `str::to_lowercase` is a parameter: its Unicode tables are not modelled.
pub mod Negation
use stmp2log.Prelude.{
  List, [], ◌∷◌, Option, none, some, Bool, true, false, not, any, all, if◌then◌else◌,
}
use stmp2log.Prelude.Text.{
  Text, text_eq, is_empty, contains, starts_with, ends_with, str_trim, eq_ignore_ascii_case,
}
use stmp2log.Store.Glob.{glob}

pub data Field : Type 0 where
  from from_user from_domain from_name subject body rcpt peer_ip group auth_user : Field
  header : Text → Field

pub data Op : Type 0 where
  contains_op not_contains equals not_equals starts_with_op ends_with_op matches_op empty_op
        not_empty :
      Op

pub data Logic : Type 0 where
  all_of any_of : Logic

pub record Condition : Type 0 where
  pub field : Field
  pub op : Op
  pub value : Text
  pub case_sensitive : Bool

pub record Matcher : Type 0 where
  pub logic : Logic
  pub conditions : List Condition

pub record Target : Type 0 where
  pub from : Text
  pub from_user : Text
  pub from_domain : Text
  pub from_name : Text
  pub subject : Text
  pub body : Text
  pub rcpt : List Text
  pub peer_ip : Text
  pub group : Text
  pub auth_user : Text
  pub headers : List (Text × Text)

unfoldable pub is_unconditional : Matcher → Bool
is_unconditional m = elim m.conditions [ [] ↦ true | _ ↦ false ]

-- `find` on the name, then the value or the empty text.
unfoldable pub header_value : Text → List (Text × Text) → Text
header_value name [] = []
header_value name ((k, v) ∷ rest) =
    if eq_ignore_ascii_case k name then v else header_value name rest

unfoldable pub extract : Field → Target → Text
extract Field.from t = t.from
extract Field.from_user t = t.from_user
extract Field.from_domain t = t.from_domain
extract Field.from_name t = t.from_name
extract Field.subject t = t.subject
extract Field.body t = t.body
extract Field.peer_ip t = t.peer_ip
extract Field.group t = t.group
extract Field.auth_user t = t.auth_user
extract (header name) t = header_value name t.headers
extract Field.rcpt t = []

-- The loop of `glob` always returns (`Glob.Correct.glob_total`), so the second case is not met.
unfoldable pub glob_test : Text → Text → Bool
glob_test h n = elim (glob h n) [ some b ↦ b | none ↦ false ]

unfoldable pub is_rcpt : Field → Bool
is_rcpt Field.rcpt = true
is_rcpt _ = false

module _ (lower : Text → Text) where
  -- The text as it is, or in lower case.
  unfoldable pub folded : Bool → Text → Text
  folded case_sensitive s = if case_sensitive then s else lower s

  -- `h` and `n` are the subject and the value as they are compared.
  unfoldable pub compare_op : Op → Text → Text → Text → Bool
  compare_op contains_op h n s = contains h n
  compare_op not_contains h n s = not (contains h n)
  compare_op equals h n s = text_eq h n
  compare_op not_equals h n s = not (text_eq h n)
  compare_op starts_with_op h n s = starts_with h n
  compare_op ends_with_op h n s = ends_with h n
  compare_op matches_op h n s = glob_test h n
  compare_op empty_op h n s = is_empty (str_trim s)
  compare_op not_empty h n s = not (is_empty (str_trim s))

  unfoldable pub test : Condition → Text → Bool
  unfolding folded compare_op
  test c s = compare_op c.op (folded c.case_sensitive s) (folded c.case_sensitive c.value) s

  -- The branch for recipients.
  unfoldable pub rcpt_matches : Op → Condition → List Text → Bool
  unfolding test
  rcpt_matches not_contains c rs = all (test c) rs
  rcpt_matches not_equals c rs = all (test c) rs
  rcpt_matches empty_op c rs = elim rs [ [] ↦ true | _ ↦ false ]
  rcpt_matches not_empty c rs = not (elim rs [ [] ↦ true | _ ↦ false ])
  rcpt_matches _ c rs = any (test c) rs

  unfoldable pub condition_matches : Condition → Target → Bool
  unfolding test rcpt_matches is_rcpt
  condition_matches c t =
      if is_rcpt c.field then rcpt_matches c.op c t.rcpt else test c (extract c.field t)

  unfoldable pub matcher_matches : Matcher → Target → Bool
  unfolding condition_matches is_unconditional
  matcher_matches m t = if is_unconditional m then true else elim m.logic [
    | all_of ↦ all (λ c. condition_matches c t) m.conditions
    | any_of ↦ any (λ c. condition_matches c t) m.conditions
  ]
