-- ===== src/Pipeline/Added.antt =====
-- crates/stmp2log/src/pipeline.rs: what one mail does to the store, and the job that it makes.
use stmp2log.Prelude.{
  ℕ, ◌+◌, ◌^◌, ◌≤◌, ◌<◌, min, ◌≡◌, refl, sym, ap, ◌∙◌, subst, List, [], ◌∷◌, ◌++◌, append_assoc,
  none, some, true, false, length, length-append, ltb, some_inj, ◌⊎◌, arith, Bool-cases,
  Option-cases, inl, inr,
}
use stmp2log.Prelude.Int.{ℤ}
use stmp2log.Mail.{Mail}
use stmp2log.Smtp.{Delivered}
use stmp2log.State
use stmp2log.State.Listed.{IsLetIn}
use stmp2log.Store.Record.{MetaRec}
use stmp2log.Store.Log
use stmp2log.Store.Log.{Inner, Retention, NewMessage, retained, pop_excess}
use stmp2log.Store.Log.Retain.{IsSuffix, retained-IsSuffix, length-retained, enforce-IsEnforced}
use stmp2log.Store.Log.Appending.{append-IsAppended, append-next_id, new-IsConsistent}
use stmp2log.Store.Log.Steps.{IsValid, Step}
use stmp2log.Pipeline.{NotifyJob}
use stmp2log.Pipeline.Intake
use stmp2log.Pipeline.Intake.{Intake, Taken, Stored}
use stmp2log.Pipeline.Stores.{mail_of, let_in}

-- The access list lets the mail in.
abbrev pub Passes : Intake → Delivered → Type 0
Passes w d = IsLetIn w.lower w.state.access (Intake.target_of w d (mail_of w d))

-- The job and the record of the mail under the number `n`.
pub record IsMade (w : Intake) (d : Delivered) (n : ℕ) (job : NotifyJob) (m : MetaRec)
    : Type 0 where
  pub job_id : job.id ≡ n
  pub job_at : job.at ≡ w.received_at
  pub job_subject : job.subject ≡ (mail_of w d).subject
  pub job_body : job.body ≡ (mail_of w d).text
  pub job_group : job.group ≡ State.classify w.lower w.state (Intake.target_of w d (mail_of w d))
  pub id : m.id ≡ n
  pub ts : m.ts ≡ w.received_at
  pub subject : m.subject ≡ (mail_of w d).subject
  pub rcpt : m.rcpt ≡ d.rcpt
  pub size : m.size ≡ d.size
  pub group : m.group ≡ job.group

length-pop_excess : (n : ℕ) (ms : List MetaRec) → length (pop_excess n ms) ≡ min n (length ms)
unfolding pop_excess
length-pop_excess n [] = omega arith
length-pop_excess n (m ∷ ms) = elim (Bool-cases (ltb n (length (m ∷ ms)))) [
  | inl e ↦ (let r = length-pop_excess n ms in rw e (ground (arith, r, e)))
  | inr e ↦ rw e (ground (arith, e))
]

length-retained_exactly :
    (now : ℤ) (r : Retention) (ms : List MetaRec)
    → r.max_days ≡ 0
    → length (retained now r ms) ≡ min r.max_entries (length ms)
unfolding retained
length-retained_exactly now r ms h =
    let off : ltb 0 r.max_days ≡ false = rw h refl in rw off (length-pop_excess r.max_entries ms)

pub IsSuffix-then :
    (xs ys zs l : List MetaRec) (m : MetaRec)
    → IsSuffix ys (xs ++ m ∷ [])
    → IsSuffix l (ys ++ zs)
    → IsSuffix l (xs ++ m ∷ zs)
IsSuffix-then xs ys zs l m (f, e) (g, h) = (
  f ++ g,
  sym (append_assoc xs (m ∷ []) zs)
      ∙ ap (λ r. r ++ zs) e
      ∙ append_assoc f ys zs
      ∙ ap (λ r. f ++ r) h
      ∙ sym (append_assoc f g l),
)

-- What one mail that is let in does.
pub record IsAdded (w : Intake) (d : Delivered) (i : Inner) (m : MetaRec) (k : Inner) : Type 0 where
  pub step : Step i k
  pub newest : IsSuffix k.index (i.index ++ m ∷ [])
  pub next_id : k.next_id ≡ i.next_id + 1
  pub retention : k.retention ≡ i.retention
  pub full :
      (0 < i.retention.max_days)
      ⊎ (length k.index ≡ min i.retention.max_entries (length i.index + 1))
  pub made :
      IsMade w d i.next_id (Intake.job_of w d (mail_of w d) m.id m.ts (Intake.push_of w d [])) m

abbrev pub message : Intake → Delivered → NewMessage
message w d = Intake.message_of w d [] (mail_of w d)

pub append-IsAdded :
    (w : Intake) (d : Delivered) (i : Inner) (m : MetaRec) (k : Inner)
    → IsValid i
    → i.next_id + 1 < 2 ^ 64
    → Log.append w.json w.encode w.evict_at (message w d) i ≡ some (m, k)
    → IsAdded w d i m k
unfolding Log.with_new Intake.job_of Intake.message_of Intake.target_of Log.meta_of
append-IsAdded w d i m k v room h =
    let msg = message w d in
    let a = append-IsAppended w.json w.encode w.evict_at msg i m k h in
    let new = Log.meta_of i.next_id msg a.loc in
    let all = i.index ++ new ∷ [] in
    let e =
      enforce-IsEnforced w.evict_at (Log.with_new msg i a.loc a.segs) k
        (new-IsConsistent w.json w.encode w.evict_at msg i m k v a) a.enforced in
    record {
      step = Step.appended i k w.json w.encode w.evict_at msg m room h;
      newest =
          subst (λ r. IsSuffix k.index (i.index ++ r ∷ [])) (sym a.meta)
            (rw e.index (retained-IsSuffix w.evict_at i.retention all));
      next_id = append-next_id w.json w.encode w.evict_at msg i m k v room a;
      retention = e.retention;
      full = elim (Bool-cases (ltb 0 i.retention.max_days)) [
        | inl days ↦ inl (ground (arith, days))
        | inr no_days ↦ inr (
            rw e.index
              (length-retained_exactly w.evict_at i.retention all (ground (arith, no_days)))
            ∙ ap (min i.retention.max_entries) (length-append i.index (new ∷ [])))
      ];
      made = record {
        job_id = ap (λ r. r.id) a.meta;
        job_at = ap (λ r. r.ts) a.meta;
        job_subject = refl;
        job_body = refl;
        job_group = refl;
        id = ap (λ r. r.id) a.meta;
        ts = ap (λ r. r.ts) a.meta;
        subject = ap (λ r. r.subject) a.meta;
        rcpt = ap (λ r. r.rcpt) a.meta;
        size = ap (λ r. r.size) a.meta;
        group = ap (λ r. r.group) a.meta;
      };
    }

finished-none : (w : Intake) (d : Delivered) (mail : Mail) → Intake.finished w d [] mail none ≡ none
unfolding Intake.finished
finished-none w d mail = refl

-- A mail that is kept out, or one that is appended.
pub ingest-cases :
    (w : Intake) (d : Delivered) (i : Inner) (t : Taken)
    → Intake.ingest w d none i ≡ some t
    → ((let_in w d ≡ false) × (t.store ≡ i) × (t.job ≡ none))
      ⊎ ((m : MetaRec) × (k : Inner) × (let_in w d ≡ true)
          × (Log.append w.json w.encode w.evict_at (message w d) i ≡ some (m, k))
          × (t.store ≡ k)
          × (t.job ≡ some (Intake.job_of w d (mail_of w d) m.id m.ts (Intake.push_of w d []))))
unfolding Intake.ingest Intake.ingest_from Intake.store_mail Intake.stored_of Intake.finished
    Intake.after_store
ingest-cases w d i t h =
    let mail = mail_of w d in
    elim (Bool-cases (let_in w d)) [
      | inr out ↦
          let kept : Taken = record { job = none; store = i; event = none } in
          let q : some kept ≡ some t = rw out at h in
          let same = some_inj kept t q in
          inl (out, sym (ap (λ r. r.store) same), sym (ap (λ r. r.job) same))
      | inl in_ ↦ elim (Option-cases (Log.append w.json w.encode w.evict_at (message w d) i)) [
        | inl e ↦
            let q : Intake.finished w d [] mail (Intake.stored_of none) ≡ some t =
              rw e at (rw in_ at h) in
            cc (finished-none w d mail, q)
        | inr ((m, k), e) ↦
            let q : some (Intake.after_store w d [] mail (Intake.stored m k)) ≡ some t =
              rw e at (rw in_ at h) in
            let same = some_inj (Intake.after_store w d [] mail (Intake.stored m k)) t q in
            inr (m, k, in_, e, sym (ap (λ r. r.store) same), sym (ap (λ r. r.job) same))
      ]
    ]

pub few_left :
    (w : Intake) (d : Delivered) (i k : Inner) (m : MetaRec)
    → Log.append w.json w.encode w.evict_at (message w d) i ≡ some (m, k)
    → IsValid i
    → length k.index ≤ k.retention.max_entries
unfolding Log.with_new
few_left w d i k m h v =
    let msg = message w d in
    let a = append-IsAppended w.json w.encode w.evict_at msg i m k h in
    let e =
      enforce-IsEnforced w.evict_at (Log.with_new msg i a.loc a.segs) k
        (new-IsConsistent w.json w.encode w.evict_at msg i m k v a) a.enforced in
    rw e.retention (
      rw e.index
        (length-retained w.evict_at i.retention (i.index ++ Log.meta_of i.next_id msg a.loc ∷ [])))
