-- ===== src/Pipeline/Stores.antt =====
-- crates/stmp2log/src/pipeline.rs: what the intake of a mail does to the store.
use stmp2log.Prelude.{
  ℕ, ◌+◌, ◌^◌, ◌≤◌, ◌<◌, ◌≡◌, refl, sym, ap, ◌∙◌, [], ◌∷◌, Option, none, some, Bool, true, false,
  All, some_inj, Bool-cases, Option-cases, inl, inr, if◌then◌else◌,
}
use stmp2log.Prelude.Int.{ℤ}
use stmp2log.Prelude.Text.{Text, is_empty, str_trim, codes}
use stmp2log.Mail.{Mail}
use stmp2log.Smtp.{Delivered}
use stmp2log.Push
use stmp2log.State
use stmp2log.Store.Record.{MetaRec}
use stmp2log.Store.Segments
use stmp2log.Store.Segments.Opening.{Room}
use stmp2log.Store.Log
use stmp2log.Store.Log.{Inner, find_id}
use stmp2log.Store.Log.Limits.{Admits, append_lem}
use stmp2log.Store.Log.Return.{append_returns}
use stmp2log.Store.Log.Appending.{append-IsAppended}
use stmp2log.Store.Log.Steps.{IsValid}
use stmp2log.Pipeline.{NotifyJob}
use stmp2log.Pipeline.Intake
use stmp2log.Pipeline.Intake.{Intake, Taken, Stored}

-- The mail that the parser finds in what was delivered.
abbrev pub mail_of : Intake → Delivered → Mail
mail_of w d = w.parse w.keep_attachments d.bytes

-- Whether the access list lets the mail in.
abbrev pub let_in : Intake → Delivered → Bool
let_in w d = State.accepts w.lower w.state.access (Intake.target_of w d (mail_of w d))

-- The mail is in the store, and the job agrees with what is there.
pub record IsTaken (w : Intake) (d : Delivered) (i : Inner) (t : Taken) : Type 0 where
  pub job : NotifyJob
  pub is_job : t.job ≡ some job
  pub meta : MetaRec
  pub found : find_id job.id t.store.index ≡ some meta
  pub id : job.id ≡ i.next_id
  pub at : job.at ≡ meta.ts
  pub from : job.from ≡ meta.from
  pub subject : job.subject ≡ meta.subject
  pub group : job.group ≡ meta.group
  pub classified : meta.group ≡ State.classify w.lower w.state (Intake.target_of w d (mail_of w d))

stored-IsTaken :
    (w : Intake) (d : Delivered) (i : Inner) (m : MetaRec) (j : Inner)
    → IsValid i
    → i.next_id + 1 < 2 ^ 64
    → Admits w.evict_at i.retention w.received_at
    → Log.append w.json w.encode w.evict_at (Intake.message_of w d [] (mail_of w d)) i ≡ some (m, j)
    → IsTaken w d i (Intake.after_store w d [] (mail_of w d) (Intake.stored m j))
unfolding Intake.after_store Intake.job_of Intake.message_of Intake.target_of Intake.from_of
    Log.meta_of Log.sender
stored-IsTaken w d i m j v room admits e =
    let mail = mail_of w d in
    let msg = Intake.message_of w d [] mail in
    let (id, found, _, _, _) = append_lem w.json w.encode w.evict_at msg i m j v room admits e in
    let meta = (append-IsAppended w.json w.encode w.evict_at msg i m j e).meta in
    record {
      job = Intake.job_of w d mail m.id m.ts (Intake.push_of w d []);
      is_job = refl;
      meta = m;
      found = found;
      id = id;
      at = refl;
      from = sym (ap (λ r. r.from) meta);
      subject = sym (ap (λ r. r.subject) meta);
      group = sym (ap (λ r. r.group) meta);
      classified = ap (λ r. r.group) meta;
    }

-- A mail that the access list lets in is stored, if its attachments leave 4096 bytes of what a body file may
-- hold, the limits admit it, and the numbers of messages and segments have room. The job that comes of it
-- has the number of the message in the store, its time, its sender and its group, which is that of the
-- first group for it. A mail that is not let in leaves no job and the store as it was.
pub ingest_lem :
    (w : Intake) (d : Delivered) (i : Inner)
    → IsValid i
    → i.next_id + 1 < 2 ^ 64
    → All (Room 2) i.segs.files
    → Admits w.evict_at i.retention w.received_at
    → Segments.total (Log.stored_atts (mail_of w d).attachments) + 4096 ≤ Segments.max_body_bytes
    → (t : Taken) × (Intake.ingest w d none i ≡ some t)
      × (if let_in w d then IsTaken w d i t else (t.job ≡ none) × (t.store ≡ i))
unfolding Intake.ingest Intake.ingest_from Intake.store_mail Intake.stored_of Intake.finished
    Intake.message_of
ingest_lem w d i v room segs admits fits =
    let mail = mail_of w d in
    let msg = Intake.message_of w d [] mail in
    elim (Bool-cases (let_in w d)) [
      | inr out ↦ (record { job = none; store = i; event = none }, rw out refl, rw out (refl, refl))
      | inl in_ ↦
          let (m, j, e) = append_returns w.json w.encode w.evict_at msg i v segs fits in
          (
            Intake.after_store w d [] mail (Intake.stored m j),
            rw in_ (rw e refl),
            rw in_ (stored-IsTaken w d i m j v room admits e),
          )
    ]

named : (b : Bool) (c : ℕ) (h : Text) → is_empty (if b then codes "unknown" else c ∷ h) ≡ false
unfolding is_empty
named true c h = refl
named false c h = refl

host_of-named : (h : Text) → is_empty (Intake.host_of h) ≡ false
unfolding Intake.host_of
host_of-named [] = refl
host_of-named (c ∷ h) = named (is_empty (str_trim (c ∷ h))) c h

push_of-named :
    (w : Intake) (d : Delivered) (origin : Text)
    → is_empty origin ≡ false
    → Intake.push_of w d origin ≡ none
unfolding Intake.push_of
push_of-named w d origin h = elim (Bool-cases (is_empty w.push_url)) [
  | inl e ↦ rw e refl
  | inr e ↦ rw e (rw h refl)
]

job_of-push :
    (w : Intake) (d : Delivered) (mail : Mail) (id : ℕ) (at : ℤ) (push : Option Push.Payload)
    → (Intake.job_of w d mail id at push).push ≡ push
unfolding Intake.job_of
job_of-push w d mail id at push = refl

finished-push :
    (w : Intake) (d : Delivered) (origin : Text) (mail : Mail) (o : Option Stored) (t : Taken)
    (job : NotifyJob)
    → is_empty origin ≡ false
    → Intake.finished w d origin mail o ≡ some t
    → t.job ≡ some job
    → job.push ≡ none
unfolding Intake.finished Intake.after_store
finished-push w d origin mail none t job h e g = cc
finished-push w d origin mail (some (Intake.store_failed i)) t job h e g =
    let made = Intake.job_of w d mail 0 w.pushed_at none in
    let same : some made ≡ some job =
      ap (λ r. r.job) (some_inj (Intake.after_store w d origin mail (Intake.store_failed i)) t e)
      ∙ g in
    sym (ap (λ r. r.push) (some_inj made job same)) ∙ job_of-push w d mail 0 w.pushed_at none
finished-push w d origin mail (some (Intake.stored m i)) t job h e g =
    let made = Intake.job_of w d mail m.id m.ts (Intake.push_of w d origin) in
    let same : some made ≡ some job =
      ap (λ r. r.job) (some_inj (Intake.after_store w d origin mail (Intake.stored m i)) t e) ∙ g in
    sym (ap (λ r. r.push) (some_inj made job same))
    ∙ job_of-push w d mail m.id m.ts (Intake.push_of w d origin)
    ∙ push_of-named w d origin h

from_host-push :
    (w : Intake) (d : Delivered) (h : Text) (fault : Option Inner) (i : Inner) (t : Taken)
    (job : NotifyJob)
    → Intake.ingest_from w d (Intake.host_of h) fault i ≡ some t
    → t.job ≡ some job
    → job.push ≡ none
unfolding Intake.ingest_from
from_host-push w d h fault i t job e g =
    let mail = mail_of w d in
    let origin = Intake.host_of h in
    elim (Bool-cases (let_in w d)) [
      | inr out ↦
          let kept : Taken = record { job = none; store = i; event = none } in
          let q : some kept ≡ some t = rw out at e in
          let none_left : none ≡ t.job = ap (λ r. r.job) (some_inj kept t q) in cc
      | inl in_ ↦
          let q : Intake.finished w d origin mail (Intake.store_mail w d origin mail fault i)
              ≡ some t =
            rw in_ at e in
          finished-push w d origin mail (Intake.store_mail w d origin mail fault i) t job
            (host_of-named h) q g
    ]

-- What another instance pushed is not pushed on.
pub accept_push-push :
    (w : Intake) (payload : Push.Payload) (fault : Option Inner) (i : Inner) (t : Taken)
    (job : NotifyJob)
    → Intake.accept_push w payload fault i ≡ some t
    → t.job ≡ some job
    → job.push ≡ none
unfolding Intake.accept_push Intake.accept_decoded
accept_push-push w payload fault i t job h g = elim (Option-cases (w.decode payload.raw_b64)) [
  | inl e ↦
      let kept : Taken = record { job = none; store = i; event = none } in
      let q : some kept ≡ some t = rw e at h in
      let none_left : none ≡ t.job = ap (λ r. r.job) (some_inj kept t q) in cc
  | inr (bytes, e) ↦
      let q : Intake.ingest_from w (Intake.delivered_of w payload bytes)
            (Intake.host_of payload.hostname) fault i
          ≡ some t =
        rw e at h in
      from_host-push w (Intake.delivered_of w payload bytes) payload.hostname fault i t job q g
]
