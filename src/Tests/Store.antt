-- ===== src/Tests/Store.antt =====
-- The matchers and patterns of crates/s2l-store on concrete texts.
use stmp2log.Prelude.{◌≡◌, refl, [], ◌∷◌, ◌++◌, some, true, false, arith, none, any, ◌==◌}
use stmp2log.Prelude.Text.{Text, codes}
use stmp2log.Store.Glob.{glob}
use stmp2log.Store.Glob.Reference.{matches, Lacks}
use stmp2log.Store.Glob.Correct.{glob-matches, glob-star_first}
use stmp2log.Store.Query
use stmp2log.Store.Query.Address.{user_of-domain_of}
use stmp2log.Store.Matcher
use stmp2log.Store.Matcher.{Condition, Target, Logic, condition_matches, matcher_matches}

abbrev hay : Text
hay = codes "disk ad0 failed"

abbrev pat : Text
pat = codes "disk*failed"

found : glob hay pat ≡ some true
unfolding glob
found = refl

plain : Lacks b'*' hay
plain = ground arith

glob-matches_example : glob hay pat ≡ some (matches hay pat)
glob-matches_example = glob-matches hay pat plain (omega arith)

glob-star_first_example : glob (codes "*x") (codes "*") ≡ some false
glob-star_first_example = glob-star_first b'x' []

abbrev cond : Condition
cond = record {
  field = Matcher.Field.rcpt;
  op = Matcher.contains_op;
  value = codes "ops";
  case_sensitive = true;
}

abbrev about : Condition
about = record {
  field = Matcher.Field.subject;
  op = Matcher.matches_op;
  value = codes "*fail*";
  case_sensitive = true;
}

abbrev mail : Target
mail = record {
  from = codes "ups@x";
  from_user = codes "ups";
  from_domain = codes "x";
  from_name = [];
  subject = codes "disk failed";
  body = [];
  rcpt = codes "ops@x" ∷ codes "log@x" ∷ [];
  peer_ip = codes "10.0.0.1";
  group = [];
  auth_user = [];
  headers = [];
}

abbrev lower : Text → Text
lower t = t

abbrev address : Text
address = codes "ups@idc@example"

user_of-domain_of_example :
    (Query.user_of address ++ b'@' ∷ Query.domain_of address ≡ address)
    × (any (λ c. c == b'@') (Query.domain_of address) ≡ false)
unfolding any
user_of-domain_of_example = user_of-domain_of address refl

abbrev query : Query.Query
query = record {
  text = none;
  subject = none;
  body = none;
  from = none;
  from_user = none;
  from_domain = none;
  peer = none;
  group = none;
  start = none;
  end = none;
  has_attachment = none;
  sort = Query.time_desc;
  offset = 0;
  limit = 9000;
}
