-- ===== src/Notify.antt =====
-- crates/s2l-notify/src/providers.rs and lib.rs: the channels, the message that is delivered and
-- what a delivery returns.
pub mod Deliver
use stmp2log.Prelude.{ℕ, Bool, List, Option}
use stmp2log.Prelude.Text.{Text, codes}

-- `Payload` of providers.rs.
pub record Payload : Type 0 where
  pub title : Text
  pub body : Text
  pub url : Option Text

pub data NtfyAuth : Type 0 where
  no_auth : NtfyAuth
  username_password : Text → Text → NtfyAuth
  access_token : Text → NtfyAuth

pub data EmailTls : Type 0 where
  no_tls tls starttls : EmailTls

-- The fields of an e-mail channel other than its recipients.
pub record EmailServer : Type 0 where
  pub server : Text
  pub port : ℕ
  pub encryption : EmailTls
  pub username : Text
  pub password : Text
  pub from : Text
  pub skip_verify : Bool
  pub mask_urls : Bool

-- `email s to` is `Channel::Email` with the field `to` last.
pub data Channel : Type 0 where
  ntfy : Text → Text → ℕ → NtfyAuth → List Text → Channel
  bark : Text → Text → Text → Text → Channel
  telegram : Text → Text → Text → Text → Bool → Channel
  dingtalk : Text → Text → List Text → Bool → Channel
  feishu : Text → Text → Channel
  wecom : Text → List Text → Channel
  serverchan : Text → Channel
  aliyun_sms : Text → Text → Text → Text → Text → Channel
  email : EmailServer → List Text → Channel

unfoldable pub kind : Channel → Text
kind (ntfy _ _ _ _ _) = codes "ntfy"
kind (bark _ _ _ _) = codes "bark"
kind (telegram _ _ _ _ _) = codes "telegram"
kind (dingtalk _ _ _ _) = codes "dingtalk"
kind (feishu _ _) = codes "feishu"
kind (wecom _ _) = codes "wecom"
kind (serverchan _) = codes "serverchan"
kind (aliyun_sms _ _ _ _ _) = codes "aliyun_sms"
kind (email _ _) = codes "email"

pub record Outcome : Type 0 where
  pub ok : Bool
  pub error : Text
  pub attempts : ℕ
  pub status : ℕ
  pub took_ms : ℕ
  pub retryable : Bool
