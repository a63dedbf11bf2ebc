-- ===== src/Smtp/Safe.antt =====
-- What holds of every mail that a session of crates/s2l-smtp accepts, and of its state.
use stmp2log.Prelude.{
  ◌≤◌, ◌⊎◌, Bool-cases, inl, inr, ◌≡◌, refl, ap, List, [], ◌∷◌, Option, none, some, Bool, true,
  false, ◌&&◌, length, All, arith,
}
use stmp2log.Prelude.Text.{Text, is_empty, text_eq→eq}
use stmp2log.Smtp.{
  Peer, Config, Delivered, AuthPolicy, accept_any, require, Creds, credentials_ok, pass_ok,
  requires_auth,
}
use stmp2log.Smtp.Io.{Env, Read, Session}
use stmp2log.Smtp.Session.{max_rcpt, is_none}
use stmp2log.Smtp.Moves.{Offered}

-- The credentials that a policy asks for: its user and its password, where they are not empty.
abbrev pub Fits : AuthPolicy → Creds → Type 0
Fits accept_any c = Unit
Fits (require user pass) c = ((user ≡ []) ⊎ (c.user ≡ user)) × ((pass ≡ []) ⊎ (c.pass ≡ some pass))

-- The account, if there is one, was entered with credentials that the client sent and the policy accepts.
abbrev pub Accepted : Env → Config → List Read → Option Text → Type 0
Accepted env cfg all none = Unit
Accepted env cfg all (some u) = (c : Creds) × (c.user ≡ u) × Offered env cfg all c × Fits cfg.auth c

pass_ok-some : (pass : Text) (got : Option Text) → pass_ok pass got ≡ true → got ≡ some pass
unfolding pass_ok
pass_ok-some pass none h = cc
pass_ok-some pass (some g) h = ap some (text_eq→eq g pass h)

empty : (t : Text) → is_empty t ≡ true → t ≡ []
unfolding is_empty
empty [] h = refl
empty (c ∷ t) h = cc

pub credentials_ok-Fits :
    (policy : AuthPolicy) (c : Creds) → credentials_ok policy c ≡ true → Fits policy c
unfolding credentials_ok
credentials_ok-Fits accept_any c h = tt
credentials_ok-Fits (require user pass) c h = (
  elim (Bool-cases (is_empty user)) [
    | inl e ↦ inl (empty user e)
    | inr e ↦ inr (text_eq→eq c.user user (ground (arith, h, e)))
  ],
  elim (Bool-cases (is_empty pass)) [
    | inl e ↦ inl (empty pass e)
    | inr e ↦ inr (pass_ok-some pass c.pass (ground (arith, h, e)))
  ],
)

module _ (env : Env) (cfg : Config) (peer : Peer) (tls_active : Bool) (all : List Read) where
  -- A mail that was handed over: its size, its recipients, its channel and its account.
  pub record IsSound (d : Delivered) : Type 0 where
    pub size : d.size ≡ length d.bytes
    pub limit : length d.bytes ≤ cfg.max_size
    pub rcpt_some : 1 ≤ length d.rcpt
    pub rcpt_cap : length d.rcpt ≤ max_rcpt
    pub encrypted : d.tls ≡ tls_active
    pub logged_in : (requires_auth cfg && is_none d.auth_user) ≡ false
    pub account : Accepted env cfg all d.auth_user

  pub record IsSafe (s : Session) : Type 0 where
    pub envelope : length s.rcpt ≤ max_rcpt
    pub account : Accepted env cfg all s.auth_user
    pub counted : s.delivered ≡ length s.sent
    pub mails : All IsSound s.sent
