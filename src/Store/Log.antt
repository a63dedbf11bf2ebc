-- ===== src/Store/Log.antt =====
-- crates/s2l-store/src/lib.rs: the store of messages, a list of what is kept of each in memory over the files
-- of `Segments`. The lock is held through each operation, so they follow one another. The outcome
-- `none` stands for a call that does not return. The clock is an argument; the numbers of messages
-- have 64 bits.
pub mod Index
pub mod OnDisk
pub mod Retain
pub mod Find
pub mod Steps
pub mod History
pub mod Appending
pub mod Endure
pub mod Limits
pub mod Return
pub mod Removal
pub mod Cleared
pub mod Pages
pub mod Counts
pub mod LastWord
pub mod Search
pub mod Stats
use stmp2log.Prelude.{
  ℕ, zero, suc, ◌+◌, ◌*◌, ◌%◌, ◌^◌, ◌-◌, max, List, [], ◌∷◌, ◌++◌, map, Option, none, some, Bool,
  true, false, not, any, length, ltb, leb, ◌==◌, keep, if◌then◌else◌,
}
use stmp2log.Prelude.Int.{ℤ, pos, ltb_ℤ, ◌-ℤ◌}
use stmp2log.Prelude.Text.{Text, is_empty}
use stmp2log.Mail
use stmp2log.Mail.{Mail, AttachmentMeta}
use stmp2log.Store.Record
use stmp2log.Store.Record.{MetaRec, MetaLine, BodyRec}
use stmp2log.Store.Segments
use stmp2log.Store.Segments.{Segments, Files, Loc, Json, files_at}

pub record Retention : Type 0 where
  pub max_entries : ℕ
  pub max_days : ℕ

abbrev pub default_retention : Retention
default_retention = record { max_entries = 5000; max_days = 0 }

pub record NewMessage : Type 0 where
  pub received_at : ℤ
  pub envelope_from : Text
  pub rcpt : List Text
  pub peer_ip : Text
  pub origin : Text
  pub auth_user : Text
  pub size : ℕ
  pub mail : Mail
  pub group : Option ℕ
  pub raw : Option (List ℕ)

pub record Inner : Type 0 where
  pub segs : Segments
  pub index : List MetaRec
  pub next_id : ℕ
  pub floor : ℕ
  pub retention : Retention

-- What the lines of the log amount to, as far as they are read: the messages, sorted by their numbers
-- and one for each.
pub record Replay : Type 0 where
  pub live : List MetaRec
  pub floor : ℕ
  pub max_seen : ℕ

abbrev pub no_lines : Replay
no_lines = record { live = []; floor = 0; max_seen = 0 }

unfoldable pub insert_live : MetaRec → List MetaRec → List MetaRec
insert_live r [] = r ∷ []
insert_live r (m ∷ ms) =
    let rest = insert_live r ms in
    if m.id == r.id then r ∷ ms else if ltb r.id m.id then r ∷ m ∷ ms else m ∷ rest

unfoldable pub replay_line : Replay → MetaLine → Replay
unfolding insert_live keep
replay_line p (MetaLine.msg r) = record p {
  max_seen = max p.max_seen r.id;
  live = insert_live r p.live;
}
replay_line p (MetaLine.del id) = record p {
  max_seen = max p.max_seen id;
  live = keep (λ m. not (m.id == id)) p.live;
}
replay_line p (MetaLine.floor_line id) = record p {
  max_seen = max p.max_seen id;
  floor = max p.floor id;
}

unfoldable pub replay : Replay → List MetaLine → Replay
unfolding replay_line
replay p [] = p
replay p (l ∷ ls) = replay (replay_line p l) ls

-- The lines of the segments, one after the other.
unfoldable pub lines_of : Segments → List ℕ → List MetaLine
unfolding Segments.read_meta
lines_of s [] = []
lines_of s (n ∷ ns) = Segments.read_meta s n ++ lines_of s ns

unfoldable pub replayed : Retention → Segments → Inner
unfolding replay lines_of keep Segments.nums
replayed retention s =
    let p = replay no_lines (lines_of s (Segments.nums s)) in
    record {
      segs = s;
      index = keep (λ m. leb p.floor m.id) p.live;
      next_id = (p.max_seen + 1) % 2 ^ 64;
      floor = p.floor;
      retention = retention;
    }

-- The segments of the numbers that no message is in are removed.
unfoldable pub drop_all : List ℕ → Segments → Segments
unfolding Segments.drop_segment
drop_all [] s = s
drop_all (n ∷ ns) s = drop_all ns (Segments.drop_segment n s)

unfoldable pub orphans : List MetaRec → List ℕ → List ℕ
unfolding keep any
orphans index ns = keep (λ n. not (any (λ m. m.seg == n) index)) ns

unfoldable pub reclaim : Inner → Inner
unfolding drop_all orphans Segments.nums
reclaim i = record i { segs = drop_all (orphans i.index (Segments.nums i.segs)) i.segs }

unfoldable pub pop_excess : ℕ → List MetaRec → List MetaRec
pop_excess max_entries [] = []
pop_excess max_entries (m ∷ ms) =
    let rest = pop_excess max_entries ms in
    if ltb max_entries (length (m ∷ ms)) then rest else m ∷ ms

unfoldable pub pop_old : ℤ → List MetaRec → List MetaRec
pop_old cutoff [] = []
pop_old cutoff (m ∷ ms) = let rest = pop_old cutoff ms in if ltb_ℤ m.ts cutoff then rest else m ∷ ms

unfoldable pub cutoff : ℤ → ℕ → ℤ
unfolding ◌-ℤ◌
cutoff now days = now -ℤ pos (days * 24 * 3600 * 1000)

-- What the limits leave of the index.
unfoldable pub retained : ℤ → Retention → List MetaRec → List MetaRec
unfolding pop_excess pop_old cutoff
retained now r index =
    let fits = pop_excess r.max_entries index in
    if ltb 0 r.max_days then pop_old (cutoff now r.max_days) fits else fits

unfoldable pub floor_of : ℕ → List MetaRec → ℕ
floor_of next_id [] = next_id
floor_of next_id (m ∷ ms) = m.id

-- A line is written and the segments without messages are removed, for the index given.
unfoldable pub after_line : Inner → Option Segments → Option Inner
unfolding reclaim
after_line i none = none
after_line i (some s) = some (reclaim (record i { segs = s }))

unfoldable pub enforce : ℤ → Inner → Option Inner
unfolding retained floor_of after_line Segments.append_meta
enforce now i =
    let index = retained now i.retention i.index in
    let floor = floor_of i.next_id index in
    let noted =
      after_line (record i { index = index; floor = floor })
        (Segments.append_meta (MetaLine.floor_line floor) i.segs) in
    if ltb (length index) (length i.index) then noted else some i

unfoldable pub open_store : ℤ → Retention → List (ℕ × Files) → Option Inner
unfolding enforce replayed Segments.open_dir
open_store now retention files = enforce now (replayed retention (Segments.open_dir files))

-- The contents of the attachments that have them.
unfoldable pub stored_atts : List AttachmentMeta → List (List ℕ)
stored_atts [] = []
stored_atts (a ∷ as_) = elim (a.bytes) [ some d ↦ d ∷ stored_atts as_ | none ↦ stored_atts as_ ]

unfoldable pub sender : NewMessage → Text
unfolding is_empty Mail.from_addr
sender msg =
    if is_empty (Mail.from_addr msg.mail) then msg.envelope_from else Mail.from_addr msg.mail

unfoldable pub has_text : Option Text → Bool
has_text none = false
has_text (some t) = true

unfoldable pub meta_of : ℕ → NewMessage → Loc → MetaRec
unfolding sender has_text Mail.from_name Record.preview_of
meta_of id msg loc = record {
  id = id;
  ts = msg.received_at;
  date = msg.mail.date;
  envelope_from = msg.envelope_from;
  from = sender msg;
  from_name = Mail.from_name msg.mail;
  subject = msg.mail.subject;
  preview = Record.preview_of msg.mail.text;
  rcpt = msg.rcpt;
  origin = msg.origin;
  auth_user = msg.auth_user;
  peer = msg.peer_ip;
  size = msg.size;
  attachments = length msg.mail.attachments;
  group = msg.group;
  has_html = has_text msg.mail.html;
  seg = loc.seg;
  body_off = loc.off;
  body_len = loc.len;
}

-- `encode` is the base64 of the message as it came.
unfoldable pub body_of : (List ℕ → Text) → ℕ → NewMessage → List (ℕ × ℕ) → BodyRec
body_of encode id msg spots = record {
  id = id;
  text = msg.mail.text;
  html = msg.mail.html;
  attachments = msg.mail.attachments;
  headers = msg.mail.headers;
  att_spots = spots;
  raw_b64 = elim (msg.raw) [ some r ↦ some (encode r) | none ↦ none ];
}

-- The index with the new message, before the limits are applied to it.
unfoldable pub with_new : NewMessage → Inner → Loc → Segments → Inner
unfolding meta_of
with_new msg i loc s = record i {
  segs = s;
  index = i.index ++ meta_of i.next_id msg loc ∷ [];
  next_id = (i.next_id + 1) % 2 ^ 64;
}

unfoldable pub with_rec : MetaRec → Option Inner → Option (MetaRec × Inner)
with_rec m none = none
with_rec m (some i) = some (m, i)

unfoldable pub indexed : ℤ → NewMessage → Inner → Option (Loc × Segments) → Option (MetaRec × Inner)
unfolding with_new with_rec meta_of enforce
indexed now msg i none = none
indexed now msg i (some (loc, s)) =
    with_rec (meta_of i.next_id msg loc) (enforce now (with_new msg i loc s))

unfoldable pub append : Json → (List ℕ → Text) → ℤ → NewMessage → Inner → Option (MetaRec × Inner)
unfolding indexed meta_of body_of stored_atts Segments.append
append json encode now msg i = indexed now msg i (
    Segments.append json (stored_atts msg.mail.attachments) (body_of encode i.next_id msg)
      (λ loc. MetaLine.msg (meta_of i.next_id msg loc)) i.segs)

unfoldable pub has_id : List ℕ → MetaRec → Bool
unfolding any
has_id ids m = any (λ id. m.id == id) ids

unfoldable pub write_dels : List ℕ → Option Segments → Option Segments
unfolding Segments.append_meta
write_dels [] s = s
write_dels (id ∷ ids) none = none
write_dels (id ∷ ids) (some s) = write_dels ids (Segments.append_meta (MetaLine.del id) s)

unfoldable pub counted : ℕ → Option Inner → Option (ℕ × Inner)
counted n none = none
counted n (some i) = some (n, i)

unfoldable pub delete : List ℕ → Inner → Option (ℕ × Inner)
unfolding has_id keep write_dels after_line counted
delete ids i =
    let index = keep (λ m. not (has_id ids m)) i.index in
    let removed = length i.index - length index in
    let noted =
      counted removed (after_line (record i { index = index }) (write_dels ids (some i.segs))) in
    if ltb 0 removed then noted else some (removed, record i { index = index })

unfoldable pub clear : Inner → Option (ℕ × Inner)
unfolding after_line counted Segments.append_meta
clear i = counted (length i.index) (
    after_line (record i { index = []; floor = i.next_id })
      (Segments.append_meta (MetaLine.floor_line i.next_id) i.segs))

unfoldable pub find_id : ℕ → List MetaRec → Option MetaRec
find_id id [] = none
find_id id (m ∷ ms) = if m.id == id then some m else find_id id ms

-- The first message of the number put into the group.
unfoldable pub regroup : ℕ → Option ℕ → List MetaRec → List MetaRec
regroup id group [] = []
regroup id group (m ∷ ms) =
    let rest = regroup id group ms in
    if m.id == id then record m { group = group } ∷ ms else m ∷ rest

unfoldable pub group_eq : Option ℕ → Option ℕ → Bool
group_eq none none = true
group_eq none (some b) = false
group_eq (some a) none = false
group_eq (some a) (some b) = a == b

unfoldable pub grouped : Inner → Option Segments → Option (Bool × Inner)
grouped i none = none
grouped i (some s) = some (true, record i { segs = s })

unfoldable pub set_found : ℕ → Option ℕ → Inner → Option MetaRec → Option (Bool × Inner)
unfolding regroup group_eq grouped Segments.append_meta
set_found id group i none = some (false, i)
set_found id group i (some m) =
    let noted =
      grouped (record i { index = regroup id group i.index })
        (Segments.append_meta (MetaLine.msg (record m { group = group })) i.segs) in
    if group_eq m.group group then some (true, i) else noted

unfoldable pub set_group : ℕ → Option ℕ → Inner → Option (Bool × Inner)
unfolding find_id set_found
set_group id group i = set_found id group i (find_id id i.index)

unfoldable pub fewer : ℕ → Option Inner → Option (ℕ × Inner)
fewer before none = none
fewer before (some i) = some (before - length i.index, i)

unfoldable pub set_retention : ℤ → Retention → Inner → Option (ℕ × Inner)
unfolding enforce fewer
set_retention now r i = fewer (length i.index) (enforce now (record i { retention = r }))
