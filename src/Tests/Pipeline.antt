-- ===== src/Tests/Pipeline.antt =====
-- The groups and the notifications of crates/stmp2log on one state.
use mathlib.Core.List.{Perm}
use stmp2log.Prelude.{
  ℕ, suc, ◌*◌, ◌-◌, ◌≡◌, ◌≢◌, refl, [], ◌∷◌, Option, some, none, true, false, not, arith, ltb,
}
use stmp2log.Prelude.Int.{pos}
use stmp2log.Prelude.Text.{Text, codes}
use stmp2log.Store.Matcher
use stmp2log.Store.Matcher.{Target, Condition, is_unconditional}
use stmp2log.Notify
use stmp2log.Retry
use stmp2log.State
use stmp2log.State.{Group, AccessMode}
use stmp2log.State.Groups.{FallsInto, classify_lem, reorder_groups-Perm}
use stmp2log.Pipeline
use stmp2log.Pipeline.{World, Pipe, NotifyJob}
use stmp2log.Pipeline.Resend
use stmp2log.Pipeline.Resend.{Pass}
use stmp2log.Pipeline.Flush.{Leaves, flush-Leaves}
use stmp2log.Pipeline.Keeps.{IsGood, notify-IsGood}
use stmp2log.Pipeline.Cooldown.{take_cooldown-again}

abbrev lower : Text → Text
lower t = t

abbrev about : Condition
about = record {
  field = Matcher.Field.subject;
  op = Matcher.contains_op;
  value = codes "disk";
  case_sensitive = true;
}

abbrev disks : Matcher.Matcher
disks = record { logic = Matcher.all_of; conditions = about ∷ [] }

abbrev everything : Matcher.Matcher
everything = record { logic = Matcher.all_of; conditions = [] }

abbrev group : ℕ → Matcher.Matcher → Group
group n m = record { id = n; name = codes "g"; color = []; enabled = true; matcher = m }

abbrev channel : State.ChannelCfg
channel = record {
  id = 7;
  name = codes "phone";
  enabled = true;
  channel = Notify.serverchan (codes "key");
}

abbrev rule : State.NotifyRule
rule = record {
  id = 3;
  name = codes "disks";
  enabled = true;
  matcher = disks;
  channels = 7 ∷ [];
  title = codes "{{subject}}";
  body = codes "{{from}}";
  cooldown = 60;
  email_to = [];
}

abbrev state : State.State
state = record {
  groups = group 1 everything ∷ group 2 disks ∷ [];
  access = record { mode = AccessMode.off; matcher = everything };
  channels = channel ∷ [];
  rules = rule ∷ [];
  next_id = 8;
}

abbrev mail : Target
mail = record {
  from = codes "ups@x";
  from_user = codes "ups";
  from_domain = codes "x";
  from_name = [];
  subject = codes "disk failed";
  body = [];
  rcpt = [];
  peer_ip = codes "10.0.0.1";
  group = [];
  auth_user = [];
  headers = [];
}

abbrev job : NotifyJob
job = record {
  id = 1;
  subject = codes "disk failed";
  from = codes "ups@x";
  from_name = [];
  from_user = codes "ups";
  from_domain = codes "x";
  body = [];
  peer = codes "10.0.0.1";
  group = some 2;
  auth_user = [];
  at = pos 5;
  push = none;
}

-- Every delivery fails, and may be tried again.
abbrev world : World
world = record {
  state = state;
  retry_queue = 10;
  link_base = [];
  push_label = codes "push";
  lower = lower;
  now_ms = λ n. pos n;
  instant = λ n. n;
  deliver = λ n c p a. record {
    ok = false;
    error = codes "down";
    attempts = a;
    status = 0;
    took_ms = 1;
    retryable = true;
  };
  push_send = λ n p. (1, Pipeline.pushed);
  fmt_local = λ t. [];
}

abbrev start : Pipe
start = record { cooldowns = []; notify_log = []; retry = Retry.empty; turn = 0 }

abbrev alerted : Pipe
alerted = Pipeline.notify world job start

start-IsGood : IsGood start
unfolding IsGood
start-IsGood = (omega arith, tt)

notify-IsGood_example : IsGood alerted
notify-IsGood_example = notify-IsGood world job start start-IsGood

abbrev held : Retry.Pending
held = record {
  item = Retry.notify (record {
    channel = 7;
    channel_name = codes "phone";
    kind = codes "serverchan";
    rule = codes "disks";
    subject = codes "disk failed";
    payload = record { title = codes "t"; body = []; url = none };
    email_to = [];
  });
  at = pos 5;
  attempts = 3;
  error = codes "down";
}

-- An alert that waits.
abbrev waiting : Pipe
waiting = record {
  cooldowns = [];
  notify_log = [];
  retry = record { items = held ∷ []; dropped = 0; wakes = [] };
  turn = 0;
}

waiting-IsGood : IsGood waiting
unfolding IsGood
waiting-IsGood = (omega arith, (tt, tt))

abbrev passed : Option (Pass × Pipe) → Pass × Pipe
passed none = (record { sent = 0; stalled = false }, start)
passed (some r) = r

flush-Leaves_example :
    (r : Pass × Pipe) × (Resend.flush world waiting ≡ some r) × Leaves 0 waiting.retry.items r
flush-Leaves_example = flush-Leaves world waiting

-- The pass over the alert that failed: it fails again and stalls.
abbrev stalled_pass : Pass × Pipe
stalled_pass = passed (Resend.flush world waiting)

stalls : Resend.flush world waiting ≡ some stalled_pass
unfolding Resend.flush
stalls = refl

classify_lem_example : FallsInto lower mail state.groups (State.classify lower state mail)
classify_lem_example = classify_lem lower state mail

reorder_groups-Perm_example : Perm (State.reorder_groups state (2 ∷ 9 ∷ 2 ∷ [])).groups state.groups
reorder_groups-Perm_example = reorder_groups-Perm state (2 ∷ 9 ∷ 2 ∷ [])

has_conditions : is_unconditional disks ≡ false
unfolding is_unconditional
has_conditions = refl

abbrev fired : Pipe
fired = (Pipeline.take_cooldown world start 3 60).1

fires : (Pipeline.take_cooldown world start 3 60).0 ≡ true
unfolding Pipeline.take_cooldown
fires = refl

some_secs : ◌≢◌ {A = ℕ} 60 0
some_secs = λ e. omega arith

other_rule : ◌≢◌ {A = ℕ} 3 4
other_rule = λ e. omega arith

take_cooldown-again_example :
    (Pipeline.take_cooldown world fired 3 60).0
    ≡ not (ltb (world.instant fired.turn - world.instant (suc start.turn)) (60 * 1000000000))
take_cooldown-again_example = take_cooldown-again world start fired 3 60 some_secs fires refl
