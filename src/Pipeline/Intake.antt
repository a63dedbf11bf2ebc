-- ===== src/Pipeline/Intake.antt =====
-- crates/stmp2log/src/pipeline.rs: the way of a mail from the session, or from another instance, into the
-- store. What comes of it for the notifications is a job. The lines of the log file are left out.
use stmp2log.Prelude.{
  ℕ, List, [], ◌∷◌, Option, none, some, Bool, false, not, ◌&&◌, length, if◌then◌else◌,
}
use stmp2log.Prelude.Int.{ℤ}
use stmp2log.Prelude.Text.{Text, codes, is_empty, str_trim}
use stmp2log.Mail
use stmp2log.Mail.{Mail}
use stmp2log.Smtp.{Delivered, Peer}
use stmp2log.Push
use stmp2log.State
use stmp2log.Store.Matcher.{Target}
use stmp2log.Store.Query
use stmp2log.Store.Record.{MetaRec}
use stmp2log.Store.Segments.{Json}
use stmp2log.Store.Log
use stmp2log.Store.Log.{Inner, NewMessage}
use stmp2log.Pipeline.{NotifyJob}

-- What the intake reads or calls and does not change: the state, the settings, `s2l_mail::parse_with` with
-- its option, the reading of an address, which gives its text, base64, JSON and the clock, which is
-- read a few times. `watched` is whether someone listens to the events.
pub record Intake : Type 0 where
  pub state : State.State
  pub keep_attachments : Bool
  pub keep_raw : Bool
  pub push_url : Text
  pub stmp_hostname : Text
  pub watched : Bool
  pub lower : Text → Text
  pub parse : Bool → List ℕ → Mail
  pub parse_ip : Text → Option Text
  pub encode : List ℕ → Text
  pub decode : Text → Option (List ℕ)
  pub json : Json
  pub received_at : ℤ
  pub evict_at : ℤ
  pub pushed_at : ℤ

-- What an intake leaves: the job, the store and the record that is sent as an event.
pub record Taken : Type 0 where
  pub job : Option NotifyJob
  pub store : Inner
  pub event : Option MetaRec

-- The result of the store: an error leaves it as the error left it.
pub data Stored : Type 0 where
  stored : MetaRec → Inner → Stored
  store_failed : Inner → Stored

unfoldable pub text_or_empty : Option Text → Text
text_or_empty none = []
text_or_empty (some t) = t

unfoldable pub from_of : Delivered → Mail → Text
unfolding is_empty Mail.from_addr
from_of d mail = if is_empty (Mail.from_addr mail) then d.envelope_from else Mail.from_addr mail

unfoldable pub target_of : Intake → Delivered → Mail → Target
unfolding from_of Query.user_of Query.domain_of Mail.from_name text_or_empty
target_of w d mail = record {
  from = from_of d mail;
  from_user = Query.user_of (from_of d mail);
  from_domain = Query.domain_of (from_of d mail);
  from_name = Mail.from_name mail;
  subject = mail.subject;
  body = mail.text;
  rcpt = d.rcpt;
  peer_ip = d.peer.ip;
  group = [];
  auth_user = text_or_empty d.auth_user;
  headers = mail.headers;
}

unfoldable pub message_of : Intake → Delivered → Text → Mail → NewMessage
unfolding target_of text_or_empty State.classify
message_of w d origin mail = record {
  received_at = w.received_at;
  envelope_from = d.envelope_from;
  rcpt = d.rcpt;
  peer_ip = d.peer.ip;
  origin = origin;
  auth_user = text_or_empty d.auth_user;
  size = d.size;
  mail = mail;
  group = State.classify w.lower w.state (target_of w d mail);
  raw = if w.keep_raw then some d.bytes else none;
}

unfoldable pub push_of : Intake → Delivered → Text → Option Push.Payload
unfolding is_empty
push_of w d origin =
    if not (is_empty w.push_url) && is_empty origin
    then some (record {
      hostname = w.stmp_hostname;
      ts = w.pushed_at;
      envelope_from = d.envelope_from;
      rcpt = d.rcpt;
      peer = d.peer.ip;
      raw_b64 = w.encode d.bytes;
    })
    else none

-- The job for a mail, by its number and time in the store.
unfoldable pub job_of : Intake → Delivered → Mail → ℕ → ℤ → Option Push.Payload → NotifyJob
unfolding target_of State.classify
job_of w d mail id at push =
    let t = target_of w d mail in
    record {
      id = id;
      subject = mail.subject;
      from = t.from;
      from_name = t.from_name;
      from_user = t.from_user;
      from_domain = t.from_domain;
      body = mail.text;
      peer = t.peer_ip;
      group = State.classify w.lower w.state t;
      auth_user = t.auth_user;
      at = at;
      push = push;
    }

unfoldable pub after_store : Intake → Delivered → Text → Mail → Stored → Taken
unfolding job_of push_of
after_store w d origin mail (store_failed i) = record {
  job = some (job_of w d mail 0 w.pushed_at none);
  store = i;
  event = none;
}
after_store w d origin mail (stored m i) = record {
  job = some (job_of w d mail m.id m.ts (push_of w d origin));
  store = i;
  event = if w.watched then some m else none;
}

unfoldable pub stored_of : Option (MetaRec × Inner) → Option Stored
stored_of none = none
stored_of (some (m, i)) = some (stored m i)

-- `fault` is what an error of the file system leaves of the store, if there is one.
unfoldable pub store_mail : Intake → Delivered → Text → Mail → Option Inner → Inner → Option Stored
unfolding message_of stored_of Log.append
store_mail w d origin mail (some broken) i = some (store_failed broken)
store_mail w d origin mail none i =
    stored_of (Log.append w.json w.encode w.evict_at (message_of w d origin mail) i)

unfoldable pub finished : Intake → Delivered → Text → Mail → Option Stored → Option Taken
unfolding after_store
finished w d origin mail none = none
finished w d origin mail (some s) = some (after_store w d origin mail s)

-- `none` stands for a call that does not return.
unfoldable pub ingest_from : Intake → Delivered → Text → Option Inner → Inner → Option Taken
unfolding target_of store_mail finished State.accepts
ingest_from w d origin fault i =
    let mail = w.parse w.keep_attachments d.bytes in
    let taken = finished w d origin mail (store_mail w d origin mail fault i) in
    if not (State.accepts w.lower w.state.access (target_of w d mail))
    then some (record { job = none; store = i; event = none })
    else taken

unfoldable pub ingest : Intake → Delivered → Option Inner → Inner → Option Taken
unfolding ingest_from
ingest w d fault i = ingest_from w d [] fault i

unfoldable pub host_of : Text → Text
unfolding is_empty str_trim
host_of h = if is_empty (str_trim h) then codes "unknown" else h

unfoldable pub peer_of : Option Text → Peer
peer_of none = record { ip = codes "0.0.0.0"; port = 0 }
peer_of (some ip) = record { ip = ip; port = 0 }

unfoldable pub delivered_of : Intake → Push.Payload → List ℕ → Delivered
unfolding peer_of
delivered_of w payload bytes = record {
  envelope_from = payload.envelope_from;
  rcpt = payload.rcpt;
  peer = peer_of (w.parse_ip payload.peer);
  bytes = bytes;
  size = length bytes;
  tls = false;
  auth_user = none;
}

unfoldable pub accept_decoded :
    Intake → Push.Payload → Option (List ℕ) → Option Inner → Inner → Option Taken
unfolding delivered_of host_of ingest_from
accept_decoded w payload none fault i = some (record { job = none; store = i; event = none })
accept_decoded w payload (some bytes) fault i =
    ingest_from w (delivered_of w payload bytes) (host_of payload.hostname) fault i

unfoldable pub accept_push : Intake → Push.Payload → Option Inner → Inner → Option Taken
unfolding accept_decoded
accept_push w payload fault i = accept_decoded w payload (w.decode payload.raw_b64) fault i

unfoldable pub store_of : Option Taken → Option Inner
store_of none = none
store_of (some t) = some t.store

unfoldable pub with_job :
    Option NotifyJob → Option (List NotifyJob × Inner) → Option (List NotifyJob × Inner)
with_job job none = none
with_job none (some r) = some r
with_job (some job) (some (jobs, i)) = some (job ∷ jobs, i)

unfoldable pub job_in : Option Taken → Option NotifyJob
job_in none = none
job_in (some t) = t.job

-- The loop over the mails of the sessions, each with the world at its time, and the jobs in their order. No
-- call of the store fails. A store of `none` is that of a call that does not return.
unfoldable pub run : List (Intake × Delivered) → Option Inner → Option (List NotifyJob × Inner)
unfolding ingest store_of with_job job_in
run ds none = none
run [] (some i) = some ([], i)
run ((w, d) ∷ ds) (some i) = let t = ingest w d none i in with_job (job_in t) (run ds (store_of t))
