-- ===== src/Tests/Intake.antt =====
-- The intake of crates/stmp2log/src/pipeline.rs on a concrete mail.
use stmp2log.Prelude.{
  ◌+◌, ◌≤◌, ◌≡◌, refl, [], ◌∷◌, none, some, true, false, arith, inl, if◌then◌else◌,
}
use stmp2log.Prelude.Int.{pos}
use stmp2log.Prelude.Text.{codes}
use stmp2log.Smtp.{Delivered}
use stmp2log.Push
use stmp2log.State
use stmp2log.Store.Matcher
use stmp2log.Store.Segments
use stmp2log.Store.Log
use stmp2log.Store.Log.{Inner}
use stmp2log.Pipeline.{NotifyJob}
use stmp2log.Pipeline.Intake
use stmp2log.Pipeline.Intake.{Intake, Taken}
use stmp2log.Pipeline.Stores.{let_in, IsTaken, ingest_lem, accept_push-push}
use stmp2log.Store.Record.{MetaRec, MetaLine}
use stmp2log.Tests.Log.{
  report, encode, json, empty_store, empty_store-IsValid, one, entry, body_open,
}

abbrev state : State.State
state = record {
  groups = [];
  access = record {
    mode = State.off;
    matcher = record { logic = Matcher.all_of; conditions = [] };
  };
  channels = [];
  rules = [];
  next_id = 1;
}

abbrev world : Intake
world = record {
  state = state;
  keep_attachments = true;
  keep_raw = false;
  push_url = codes "http://log";
  stmp_hostname = codes "box";
  watched = true;
  lower = λ t. t;
  parse = λ k b. report;
  parse_ip = λ t. some t;
  encode = encode;
  decode = λ t. some t;
  json = json;
  received_at = pos 1000;
  evict_at = pos 1000;
  pushed_at = pos 1001;
}

abbrev mail : Delivered
mail = record {
  envelope_from = codes "a@x";
  rcpt = codes "b@x" ∷ [];
  peer = record { ip = codes "10.0.0.1"; port = 25 };
  bytes = codes "hi";
  size = 9;
  tls = false;
  auth_user = none;
}

short : Segments.total (Log.stored_atts report.attachments) + 4096 ≤ Segments.max_body_bytes
unfolding Segments.total Log.stored_atts
short = omega arith

ingest_lem_example :
    (t : Taken) × (Intake.ingest world mail none empty_store ≡ some t)
    × (if let_in world mail
        then IsTaken world mail empty_store t
        else (t.job ≡ none) × (t.store ≡ empty_store))
ingest_lem_example =
    ingest_lem world mail empty_store empty_store-IsValid (omega arith) tt (omega arith, inl refl)
      short

-- The mail once more, from another instance.
abbrev pushed : Push.Payload
pushed = record {
  hostname = codes " ";
  ts = pos 1000;
  envelope_from = codes "a@x";
  rcpt = codes "b@x" ∷ [];
  peer = codes "10.0.0.1";
  raw_b64 = codes "hi";
}

abbrev meta : MetaRec
meta = record (entry none) { origin = codes "unknown"; size = 2 }

abbrev after : Inner
after = record one {
  segs = record {
    files =
        (1, record { meta = MetaLine.msg meta ∷ []; body = 0 ∷ 3 ∷ 10 ∷ []; att = 1 ∷ 2 ∷ 3 ∷ [] })
        ∷ [];
    cur = some body_open;
  };
  index = meta ∷ [];
}

abbrev job : NotifyJob
job = record {
  id = 1;
  subject = codes "disk";
  from = codes "ups@x";
  from_name = [];
  from_user = codes "ups";
  from_domain = codes "x";
  body = codes "full";
  peer = codes "10.0.0.1";
  group = none;
  auth_user = [];
  at = pos 1000;
  push = none;
}

abbrev taken : Taken
taken = record { job = some job; store = after; event = some meta }

accepted : Intake.accept_push world pushed none empty_store ≡ some taken
unfolding Intake.accept_push Intake.job_of Log.append Log.meta_of Segments.append Segments.open_at
accepted = refl

accept_push-push_example : job.push ≡ none
accept_push-push_example = accept_push-push world pushed none empty_store taken job accepted refl

-- The same mail from a session, which is pushed on.
abbrev session_job : NotifyJob
session_job = record job {
  push = some (record {
    hostname = codes "box";
    ts = pos 1001;
    envelope_from = codes "a@x";
    rcpt = codes "b@x" ∷ [];
    peer = codes "10.0.0.1";
    raw_b64 = codes "hi";
  });
}
