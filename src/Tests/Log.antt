-- ===== src/Tests/Log.antt =====
-- The message log of crates/s2l-store on concrete messages.
use stmp2log.Prelude.{
  ℕ, ◌+◌, ◌^◌, ◌≤◌, ◌<◌, ◌≡◌, refl, subst, All, some_inj, List, [], ◌∷◌, Option, none, some, true,
  arith, length, get_elem?,
}
use stmp2log.Prelude.Int.{pos}
use stmp2log.Prelude.Text.{Text, codes}
use stmp2log.Mail.{Mail, AttachmentMeta}
use stmp2log.Store.Record.{MetaRec, MetaLine, BodyRec}
use stmp2log.Store.Segments
use stmp2log.Store.Segments.{Segments, Open, Files, Json, Loc, no_files, files_at, spots_from}
use stmp2log.Store.Segments.Growth.{IsOpen}
use stmp2log.Store.Log
use stmp2log.Store.Log.{Inner, NewMessage, Retention}
use stmp2log.Store.Log.Search
use stmp2log.Store.Log.Steps.{IsValid, Step}
use stmp2log.Store.Log.History.{Run, Run-Endures, Endures}
use stmp2log.Store.Log.Endure.{appended_endures}
use stmp2log.Store.Log.Return.{append_returns}

abbrev photo : AttachmentMeta
photo = record {
  filename = codes "a.png";
  mime = codes "image/png";
  size = 3;
  bytes = some (1 ∷ 2 ∷ 3 ∷ []);
}

abbrev pub report : Mail
report = record {
  headers = [];
  subject = codes "disk";
  from = some (record { name = []; addr = codes "ups@x" });
  to = [];
  cc = [];
  date = none;
  message_id = none;
  text = codes "full";
  html = none;
  attachments = photo ∷ [];
}

abbrev pub news : NewMessage
news = record {
  received_at = pos 1000;
  envelope_from = codes "a@x";
  rcpt = codes "b@x" ∷ [];
  peer_ip = codes "10.0.0.1";
  origin = [];
  auth_user = [];
  size = 9;
  mail = report;
  group = none;
  raw = none;
}

abbrev pub encode : List ℕ → Text
encode b = b

abbrev pub small : Retention
small = record { max_entries = 2; max_days = 0 }

abbrev pub empty_store : Inner
empty_store = record {
  segs = record { files = []; cur = none };
  index = [];
  next_id = 1;
  floor = 0;
  retention = small;
}

-- The records of this test: the place of the one attachment.
abbrev to_vec : BodyRec → List ℕ
to_vec b = elim (b.att_spots) [ [] ↦ [] | s ∷ ss ↦ s.0 ∷ s.1 ∷ [] ]

abbrev from_slice : List ℕ → Option BodyRec
from_slice [] = none
from_slice (o ∷ []) = none
from_slice (o ∷ n ∷ []) = some (Log.body_of encode 1 news ((o, n) ∷ []))
from_slice (o ∷ n ∷ c ∷ s) = none

abbrev pub json : Json
json = record { to_vec = to_vec; from_slice = from_slice }

pub empty_store-IsValid : IsValid empty_store
empty_store-IsValid = record { index = (tt, tt); consistent = λ c e. cc }

abbrev pub entry : Option ℕ → MetaRec
entry g = record (Log.meta_of 1 news (record { seg = 1; off = 0; len = 2 })) { group = g }

abbrev pub body_open : Open
body_open = record { num = 1; body_len = 3; records = 1; att = some 3 }

abbrev pub one : Inner
one = record {
  segs = record {
    files =
        (
          1,
          record {
            meta = MetaLine.msg (entry none) ∷ [];
            body = 0 ∷ 3 ∷ 10 ∷ [];
            att = 1 ∷ 2 ∷ 3 ∷ [];
          },
        )
        ∷ [];
    cur = some body_open;
  };
  index = entry none ∷ [];
  next_id = 2;
  floor = 0;
  retention = small;
}

pub first : Log.append json encode (pos 0) news empty_store ≡ some (entry none, one)
unfolding Log.append Segments.append Segments.open_at
first = refl

-- The same after the message was put into a group.
abbrev two : Inner
two = record {
  segs = record {
    files =
        (
          1,
          record {
            meta = MetaLine.msg (entry none) ∷ MetaLine.msg (entry (some 7)) ∷ [];
            body = 0 ∷ 3 ∷ 10 ∷ [];
            att = 1 ∷ 2 ∷ 3 ∷ [];
          },
        )
        ∷ [];
    cur = some body_open;
  };
  index = entry (some 7) ∷ [];
  next_id = 2;
  floor = 0;
  retention = small;
}

second : Log.set_group 1 (some 7) one ≡ some (true, two)
unfolding Log.set_group Segments.append_meta Log.meta_of
second = refl

one_found : Log.find_id 1 two.index ≡ some (entry (some 7))
unfolding Log.find_id Log.meta_of
one_found = refl

read_back :
    (at : ℕ)
    → at < 2 ^ 64
    → from_slice
        (to_vec (Log.body_of encode 1 news (spots_from at (Log.stored_atts report.attachments))))
      ≡ some (Log.body_of encode 1 news (spots_from at (Log.stored_atts report.attachments)))
unfolding Log.body_of Log.stored_atts spots_from
read_back at h = refl

short_record :
    (at : ℕ)
    → at < 2 ^ 64
    → length
        (to_vec (Log.body_of encode 1 news (spots_from at (Log.stored_atts report.attachments))))
      < 2 ^ 32
unfolding Log.body_of Log.stored_atts spots_from
short_record at h = omega arith

short_file : (f : Files) → files_at 1 two.segs.files ≡ some f → length f.att < 2 ^ 64
unfolding files_at
short_file f e = let q = some_inj _ f e in subst (λ g. length g.att < 2 ^ 64) q (omega arith)

short_atts : All (λ a. length a < 2 ^ 32) (Log.stored_atts report.attachments)
unfolding Log.stored_atts
short_atts = (omega arith, tt)

steps : Run one two
steps = Run.next one two two (Step.moved one two 1 (some 7) true second) (Run.done two)

appended_endures_example :
    (spots : List (ℕ × ℕ)) × (Search.get json 1 two
      ≡ some (record { meta = entry (some 7); body = Log.body_of encode 1 news spots }))
    × ((at : ℕ) (a : List ℕ)
        → get_elem? (Log.stored_atts report.attachments) at ≡ some a
        → Search.attachment json 1 at two ≡ some a)
unfolding Log.meta_of
appended_endures_example =
    appended_endures json encode (pos 0) news empty_store (entry none) one two (entry (some 7))
      empty_store-IsValid (omega arith) first steps one_found read_back short_record short_file
      short_atts

one_open : (c : Open) → some body_open ≡ some c → IsOpen one.segs c
unfolding files_at Segments.att_start
one_open c e = subst (IsOpen one.segs) (some_inj body_open c e) (_, refl, refl, refl)

fits : Segments.total (Log.stored_atts report.attachments) + 4096 ≤ Segments.max_body_bytes
unfolding Segments.total Log.stored_atts
fits = omega arith

pub one-IsValid : IsValid one
unfolding Log.meta_of
one-IsValid = record { index = ((tt, tt), (omega arith, tt)); consistent = λ c e. one_open c e }

Run-Endures_example : Endures one two
Run-Endures_example = Run-Endures one two one-IsValid steps

append_returns_example :
    (m : MetaRec) × (j : Inner) × (Log.append json encode (pos 0) news empty_store ≡ some (m, j))
append_returns_example =
    append_returns json encode (pos 0) news empty_store empty_store-IsValid tt fits
