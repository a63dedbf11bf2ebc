-- ===== src/Smtp.antt =====
-- crates/s2l-smtp: the SMTP server's configuration (lib.rs) and its sessions (session.rs).
pub mod Line
pub mod Io
pub mod Message
pub mod Auth
pub mod Session
pub mod Moves
pub mod Safe
use stmp2log.Prelude.{
  ℕ, List, [], ◌∷◌, Option, none, some, Bool, true, false, not, ◌&&◌, ◌||◌, any, if◌then◌else◌,
}
use stmp2log.Prelude.Text.{Text, text_eq, is_empty}

pub record Peer : Type 0 where
  pub ip : Text
  pub port : ℕ

pub record Delivered : Type 0 where
  pub envelope_from : Text
  pub rcpt : List Text
  pub peer : Peer
  pub bytes : List ℕ
  pub size : ℕ
  pub tls : Bool
  pub auth_user : Option Text

pub data AuthPolicy : Type 0 where
  accept_any : AuthPolicy
  require : Text → Text → AuthPolicy

-- The fields of the configuration that a session reads. `tls` says whether there is a TLS
-- configuration, and `tls_trouble` holds the addresses whose handshakes failed.
pub record Config : Type 0 where
  pub hostname : Text
  pub max_size : ℕ
  pub tls : Bool
  pub auth : AuthPolicy
  pub tls_trouble : List Text

unfoldable pub offer_starttls : Config → Peer → Bool → Bool
offer_starttls cfg peer tls_active =
    cfg.tls && not tls_active && not (any (λ ip. text_eq ip peer.ip) cfg.tls_trouble)

unfoldable pub policy_requires : AuthPolicy → Bool
policy_requires accept_any = false
policy_requires (require user pass) = not (is_empty user) || not (is_empty pass)

unfoldable pub requires_auth : Config → Bool
unfolding policy_requires
requires_auth cfg = policy_requires cfg.auth

unfoldable pub checks_password : AuthPolicy → Bool
checks_password accept_any = false
checks_password (require user pass) = not (is_empty pass)

pub record Creds : Type 0 where
  pub user : Text
  pub pass : Option Text

unfoldable pub pass_ok : Text → Option Text → Bool
pass_ok pass none = false
pass_ok pass (some got) = text_eq got pass

unfoldable pub credentials_ok : AuthPolicy → Creds → Bool
unfolding pass_ok
credentials_ok accept_any creds = true
credentials_ok (require user pass) creds =
    if not (is_empty user) && not (text_eq creds.user user)
    then false
    else if not (is_empty pass)
    then pass_ok pass creds.pass
    else true
