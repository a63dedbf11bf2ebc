-- ===== src/Mail.antt =====
-- crates/s2l-mail/src/lib.rs and addr.rs: what is known of a mail once it is parsed.
pub mod Date
pub mod Qp
use stmp2log.Prelude.{ℕ, List, [], ◌∷◌, Option, none, some, if◌then◌else◌}
use stmp2log.Prelude.Int.{ℤ}
use stmp2log.Prelude.Text.{Text, eq_ignore_ascii_case}

pub record Addr : Type 0 where
  pub name : Text
  pub addr : Text

pub record AttachmentMeta : Type 0 where
  pub filename : Text
  pub mime : Text
  pub size : ℕ
  pub bytes : Option (List ℕ)

pub record Mail : Type 0 where
  pub headers : List (Text × Text)
  pub subject : Text
  pub from : Option Addr
  pub to : List Addr
  pub cc : List Addr
  pub date : Option ℤ
  pub message_id : Option Text
  pub text : Text
  pub html : Option Text
  pub attachments : List AttachmentMeta

unfoldable pub from_addr : Mail → Text
from_addr m = elim (m.from) [ some a ↦ a.addr | none ↦ [] ]

unfoldable pub from_name : Mail → Text
from_name m = elim (m.from) [ some a ↦ a.name | none ↦ [] ]

-- The first header of the name.
unfoldable pub find_header : Text → List (Text × Text) → Option Text
unfolding eq_ignore_ascii_case
find_header name [] = none
find_header name ((k, v) ∷ hs) = if eq_ignore_ascii_case k name then some v else find_header name hs

unfoldable pub header : Mail → Text → Option Text
unfolding find_header
header m name = find_header name m.headers
