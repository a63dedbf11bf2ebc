-- ===== src/State.antt =====
-- crates/stmp2log/src/state.rs: the groups, the access list, the channels and the notification rules,
-- with the templates of notifications. `lower` is `str::to_lowercase`, as in the matchers.
pub mod Groups
pub mod Listed
use stmp2log.Prelude.{
  ℕ, zero, suc, ◌+◌, ◌-◌, ◌%◌, ◌^◌, max, List, [], ◌∷◌, ◌++◌, Option, none, some, Bool, true, false,
  not, ◌&&◌, ◌||◌, length, ◌==◌, if◌then◌else◌,
}
use stmp2log.Prelude.Text.{Text, codes, is_empty, starts_with}
use stmp2log.Store.Matcher.{Matcher, Target, is_unconditional, matcher_matches}
use stmp2log.Notify
use stmp2log.Notify.{Channel}

pub record Group : Type 0 where
  pub id : ℕ
  pub name : Text
  pub color : Text
  pub enabled : Bool
  pub matcher : Matcher

pub data AccessMode : Type 0 where
  off whitelist blacklist : AccessMode

pub record Access : Type 0 where
  pub mode : AccessMode
  pub matcher : Matcher

pub record ChannelCfg : Type 0 where
  pub id : ℕ
  pub name : Text
  pub enabled : Bool
  pub channel : Channel

pub record NotifyRule : Type 0 where
  pub id : ℕ
  pub name : Text
  pub enabled : Bool
  pub matcher : Matcher
  pub channels : List ℕ
  pub title : Text
  pub body : Text
  pub cooldown : ℕ
  pub email_to : List Text

pub record State : Type 0 where
  pub groups : List Group
  pub access : Access
  pub channels : List ChannelCfg
  pub rules : List NotifyRule
  pub next_id : ℕ

unfoldable pub set_recipients : Channel → List Text → Channel
set_recipients (Notify.email s to) dst = Notify.email s dst
set_recipients ch dst = ch

unfoldable pub apply_recipients : Channel → List Text → Channel
unfolding set_recipients
apply_recipients ch [] = ch
apply_recipients ch (t ∷ to) = set_recipients ch (t ∷ to)

unfoldable pub with_recipients : NotifyRule → Channel → Channel
unfolding apply_recipients
with_recipients rule ch = elim (rule.email_to) [ [] ↦ ch | t ∷ to ↦ apply_recipients ch (t ∷ to) ]

-- The new id, of 32 bits, and the state with the next one.
unfoldable pub take_id : State → ℕ × State
take_id st = let id = max st.next_id 1 in (id, record st { next_id = (id + 1) % 2 ^ 32 })

-- `Iterator::find`.
unfoldable pub find {ℓ} : {A : Type ℓ} → (A → Bool) → List A → Option A
find p [] = none
find p (x ∷ xs) = if p x then some x else find p xs

unfoldable pub is_fallback : Group → Bool
is_fallback g = g.enabled && is_unconditional g.matcher

module _ (lower : Text → Text) where
  unfoldable pub accepts : Access → Target → Bool
  accepts a t = elim a.mode [
    | off ↦ true
    | whitelist ↦ is_unconditional a.matcher || matcher_matches lower a.matcher t
    | blacklist ↦ is_unconditional a.matcher || not (matcher_matches lower a.matcher t)
  ]

  -- The tests of the two searches of `classify`.
  unfoldable pub is_specific : Target → Group → Bool
  is_specific t g =
      g.enabled && (not (is_unconditional g.matcher) && matcher_matches lower g.matcher t)

  unfoldable pub classify : State → Target → Option ℕ
  unfolding is_specific find is_fallback
  classify st t = elim (find (is_specific t) st.groups) [
    | some g ↦ some g.id
    | none ↦ elim (find is_fallback st.groups) [ some g ↦ some g.id | none ↦ none ]
  ]

-- The group with the id, if there is one, and the others: `position` and `remove`.
unfoldable pub pull : ℕ → List Group → Option Group × List Group
pull id [] = (none, [])
pull id (g ∷ gs) =
    let (found, rest) = pull id gs in if g.id == id then (some g, gs) else (found, g ∷ rest)

unfoldable pub push_found : List Group → Option Group → List Group
push_found done none = done
push_found done (some g) = done ++ g ∷ []

-- The loop of `reorder_groups`: the groups placed so far, and the rest.
unfoldable pub reorder_loop : List ℕ → List Group → List Group → List Group
unfolding pull push_found
reorder_loop [] done rest = done ++ rest
reorder_loop (id ∷ ids) done rest =
    let (found, left) = pull id rest in reorder_loop ids (push_found done found) left

unfoldable pub reorder_groups : State → List ℕ → State
unfolding reorder_loop
reorder_groups st ids = record st { groups = reorder_loop ids [] st.groups }

unfoldable pub name_of : Option Group → Text
name_of none = []
name_of (some g) = g.name

unfoldable pub group_name : State → Option ℕ → Text
unfolding find name_of
group_name st none = []
group_name st (some id) = name_of (find (λ g. g.id == id) st.groups)

unfoldable pub channel_of : State → ℕ → Option ChannelCfg
unfolding find
channel_of st id = find (λ c. c.id == id) st.channels

pub record Vars : Type 0 where
  pub subject : Text
  pub from : Text
  pub from_name : Text
  pub from_user : Text
  pub from_domain : Text
  pub body : Text
  pub time : Text
  pub group : Text
  pub peer : Text

-- `str::replace` of a text that is not empty. The first argument counts the characters of the last
-- occurrence that are still to be passed over.
unfoldable pub replace_from : ℕ → Text → Text → Text → Text
replace_from skip pat value [] = []
replace_from (suc skip) pat value (c ∷ s) = replace_from skip pat value s
replace_from zero pat value (c ∷ s) = elim (starts_with (c ∷ s) pat) [
  | true ↦ value ++ replace_from (length pat - 1) pat value s
  | false ↦ c ∷ replace_from zero pat value s
]

abbrev pub replace : Text → Text → Text → Text
replace s pat value = replace_from 0 pat value s

unfoldable pub render_loop : List (Text × Text) → Text → Text
unfolding replace_from
render_loop [] out = out
render_loop ((name, value) ∷ vars) out = render_loop vars (
    replace (replace out (codes "{{" ++ name ++ codes "}}") value)
      (codes "{{ " ++ name ++ codes " }}") value)

unfoldable pub render : Text → Vars → Text
unfolding render_loop
render template vars =
    render_loop
      ((codes "subject", vars.subject)
        ∷ (codes "from", vars.from)
        ∷ (codes "from_name", vars.from_name)
        ∷ (codes "from_user", vars.from_user)
        ∷ (codes "from_domain", vars.from_domain)
        ∷ (codes "body", vars.body)
        ∷ (codes "time", vars.time)
        ∷ (codes "group", vars.group)
        ∷ (codes "peer", vars.peer)
        ∷ [])
      template
