-- ===== src/Store/Record.antt =====
-- crates/s2l-store/src/rec.rs: the records of the log. A segment's meta file is a list of `MetaLine`, one for
-- each line of JSON; its body file holds the records of the messages themselves.
use stmp2log.Prelude.{
  ℕ, List, [], ◌∷◌, ◌++◌, map, Option, Bool, not, keep, length, take, ltb, if◌then◌else◌,
}
use stmp2log.Prelude.Int.{ℤ}
use stmp2log.Prelude.Text.{Text, codes, is_empty, str_trim, split_on}
use stmp2log.Mail.{AttachmentMeta}

pub record MetaRec : Type 0 where
  pub id : ℕ
  pub ts : ℤ
  pub date : Option ℤ
  pub envelope_from : Text
  pub from : Text
  pub from_name : Text
  pub subject : Text
  pub preview : Text
  pub rcpt : List Text
  pub origin : Text
  pub auth_user : Text
  pub peer : Text
  pub size : ℕ
  pub attachments : ℕ
  pub group : Option ℕ
  pub has_html : Bool
  pub seg : ℕ
  pub body_off : ℕ
  pub body_len : ℕ

pub data MetaLine : Type 0 where
  msg : MetaRec → MetaLine
  del : ℕ → MetaLine
  floor_line : ℕ → MetaLine

pub record BodyRec : Type 0 where
  pub id : ℕ
  pub text : Text
  pub html : Option Text
  pub attachments : List AttachmentMeta
  pub headers : List (Text × Text)
  pub att_spots : List (ℕ × ℕ)
  pub raw_b64 : Option Text

-- `BodyRec { id, ..Default::default() }`
abbrev pub empty_body : ℕ → BodyRec
empty_body id = record {
  id = id;
  text = [];
  html = Option.none;
  attachments = [];
  headers = [];
  att_spots = [];
  raw_b64 = Option.none;
}

abbrev pub preview_chars : ℕ
preview_chars = 160

-- `[Text]::join(" ")`
unfoldable pub join_spaces : List Text → Text
join_spaces [] = []
join_spaces (t ∷ []) = t
join_spaces (t ∷ u ∷ ts) = t ++ b' ' ∷ join_spaces (u ∷ ts)

-- The lines are trimmed and the empty ones dropped, so it is the same to split at each line feed.
unfoldable pub preview_of : Text → Text
unfolding join_spaces keep split_on str_trim is_empty
preview_of text =
    let out = join_spaces (keep (λ l. not (is_empty l)) (map str_trim (split_on 10 text))) in
    if ltb preview_chars (length out) then take preview_chars out ++ codes "…" else out
