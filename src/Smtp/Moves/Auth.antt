-- ===== src/Smtp/Moves/Auth.antt =====
-- Every path of the AUTH dialogue of crates/s2l-smtp/src/session.rs is a sequence of moves.
use stmp2log.Prelude.{
  ℕ, ◌≡◌, refl, sym, ap, ◌∙◌, subst, List, [], ◌∷◌, ◌++◌, Option, none, some, Bool, true, false,
  length, ◌==◌, Bool-cases, inl, inr,
}
use stmp2log.Prelude.Text.{Text, codes, text_eq, is_empty, split_whitespace, split_on}
use stmp2log.Smtp.{Peer, Config, Creds, credentials_ok}
use stmp2log.Smtp.Io.{
  Env, Read, bytes, timed_out, failed, M, Io, io_ok, Session, gets, write_line, pure, throw_io,
  ◌>>◌, ◌>>=◌, read_until, next_read, later_reads, truncate,
}
use stmp2log.Smtp.Line.{trim_eol}
use stmp2log.Smtp.Auth.{
  AuthLine, answer, cancelled, gone, auth_line_of, read_auth_line, auth_aborted, on_answer, ask,
  decide, finish_auth, plain_with, plain, login_with, login, cram_with, cram_ask, cram, mechanism,
  handle_auth, auth_words, b64, plain_fields, first_word,
}
use stmp2log.Smtp.Moves.{logs_in, Tame, Came, Carried, Offered, IsArgument, IsLeft}
use stmp2log.Smtp.Moves.Rules.{
  tame_rules, Tame-modify, Tame-then, Tame-write_line, Tame-pure, Tame-if, Tame-bind,
  Tame-bind_with, Tame-gets,
}

-- A line that is read next is one of the reads.
pub next_read-Came :
    (all front rs : List Read)
    → all ≡ front ++ rs
    → (line : List ℕ) → next_read rs ≡ bytes line
    → (length line == 0) ≡ false
    → Came all line
next_read-Came all front [] left line e more =
    let same : [] ≡ line = cc in
    let q : (length {A = ℕ} [] == 0) ≡ false =
      subst (λ x. (length x == 0) ≡ false) (sym same) more in
    cc
next_read-Came all front (r ∷ rs) left line e more = (front, rs, left ∙ ap (λ x. front ++ x ∷ rs) e)

module _ (env : Env) (cfg : Config) (peer : Peer) (tls_active : Bool) (all : List Read) where
  abbrev IsTame : {A : Type 0} → M A → Type 0
  IsTame = Tame env cfg peer tls_active all

  auth_line_of-Tame : (r : Read) → IsTame (auth_line_of env cfg r)
  unfolding auth_line_of
  auth_line_of-Tame (bytes line) = search tame_rules
  auth_line_of-Tame timed_out = search tame_rules
  auth_line_of-Tame failed = search tame_rules

  read_auth_line-Tame : IsTame (read_auth_line env cfg)
  unfolding read_auth_line
  read_auth_line-Tame = search (tame_rules, auth_line_of-Tame)

  -- The client sent what is answered.
  abbrev IsSent : AuthLine → Type 0
  IsSent (answer v) = Carried env cfg all v
  IsSent cancelled = Unit
  IsSent gone = Unit

  auth_line_of-IsSent :
      (r : Read) (t : Session)
      → ((line : List ℕ) → r ≡ bytes line → (length line == 0) ≡ false → Came all line)
      → (l : AuthLine) → (auth_line_of env cfg r t).0 ≡ io_ok l
      → IsSent l
  unfolding auth_line_of pure throw_io
  auth_line_of-IsSent timed_out t came l e = let same : gone ≡ l = cc in subst IsSent same tt
  auth_line_of-IsSent failed t came l e = cc
  auth_line_of-IsSent (bytes line) t came l e = elim (Bool-cases (length line == 0)) [
    | inl z ↦
        (let q : ◌≡◌ {A = Io AuthLine} (io_ok gone) (io_ok l) = rw z at e in
          let same : gone ≡ l = cc in subst IsSent same tt)
    | inr more ↦ elim (Bool-cases (text_eq (trim_eol (truncate line)) (codes "*"))) [
      | inl star ↦
          (let q : ◌≡◌ {A = Io AuthLine} (io_ok cancelled) (io_ok l) = rw star at (rw more at e) in
            let same : cancelled ≡ l = cc in subst IsSent same tt)
      | inr other ↦
          (let q : ◌≡◌ {A = Io AuthLine}
                (io_ok (answer (b64 env cfg (env.lossy (trim_eol (truncate line)))))) (io_ok l) =
              rw other at (rw more at e) in
            let same : answer (b64 env cfg (env.lossy (trim_eol (truncate line)))) ≡ l = cc in
            subst IsSent same (Carried.on_a_line line (came line refl more)))
    ]
  ]

  read_auth_line-IsSent :
      (s : Session)
      → IsLeft all s
      → (l : AuthLine) → (read_auth_line env cfg s).0 ≡ io_ok l
      → IsSent l
  unfolding read_auth_line ◌>>=◌ read_until
  read_auth_line-IsSent s (front, left) l e =
      auth_line_of-IsSent (next_read s.input) (record s { input = later_reads s.input })
        (next_read-Came all front s.input left) l e

  on_answer-Tame :
      (k : List ℕ → M Bool) (l : AuthLine)
      → IsSent l
      → ((v : List ℕ) → Carried env cfg all v → IsTame (k v))
      → IsTame (on_answer env cfg k l)
  unfolding on_answer auth_aborted
  on_answer-Tame k (answer v) c h = h v c
  on_answer-Tame k cancelled c h = search tame_rules
  on_answer-Tame k gone c h = search tame_rules

  ask-Tame :
      (prompt : Text) (k : List ℕ → M Bool)
      → ((v : List ℕ) → Carried env cfg all v → IsTame (k v))
      → IsTame (ask env cfg prompt k)
  unfolding ask
  ask-Tame prompt k h = Tame-then (write_line env prompt) _ (Tame-write_line prompt) (
      Tame-bind_with (read_auth_line env cfg) (on_answer env cfg k) IsSent read_auth_line-Tame
        read_auth_line-IsSent (λ l c. on_answer-Tame k l c h))

  decide-Tame :
      (b : Bool) (creds : Creds)
      → Offered env cfg all creds
      → credentials_ok cfg.auth creds ≡ b
      → IsTame (decide env cfg b creds)
  unfolding decide
  decide-Tame true creds o e =
      Tame-then _ _ (Tame-modify _ (λ s. logs_in s creds o e))
        (Tame-then _ _ (Tame-write_line _) (Tame-pure true))
  decide-Tame false creds o e = search tame_rules

  finish_auth-Tame :
      (creds : Creds) → Offered env cfg all creds → IsTame (finish_auth env cfg creds)
  unfolding finish_auth
  finish_auth-Tame creds o = decide-Tame _ creds o refl

  plain_fields-Offered :
      (v : List ℕ) (fs : List (List ℕ))
      → Carried env cfg all v
      → split_on 0 v ≡ fs
      → Offered env cfg all (plain_fields env cfg fs)
  plain_fields-Offered v [] c e = Offered.by_nothing
  plain_fields-Offered v (z ∷ []) c e = Offered.by_nothing
  plain_fields-Offered v (z ∷ u ∷ []) c e = Offered.by_short_plain v z u c e
  plain_fields-Offered v (z ∷ u ∷ p ∷ more) c e = Offered.by_plain v z u p more c e

  plain_with-Tame : (v : List ℕ) → Carried env cfg all v → IsTame (plain_with env cfg v)
  unfolding plain_with
  plain_with-Tame v c =
      finish_auth-Tame (plain_fields env cfg (split_on 0 v))
        (plain_fields-Offered v (split_on 0 v) c refl)

  -- The initial response is from the command.
  abbrev IsInitial : Option (List ℕ) → Type 0
  IsInitial none = Unit
  IsInitial (some v) = Carried env cfg all v

  plain-Tame : (initial : Option (List ℕ)) → IsInitial initial → IsTame (plain env cfg initial)
  unfolding plain
  plain-Tame none c = ask-Tame _ (plain_with env cfg) plain_with-Tame
  plain-Tame (some v) c = plain_with-Tame v c

  login_with-Tame : (user : List ℕ) → Carried env cfg all user → IsTame (login_with env cfg user)
  unfolding login_with
  login_with-Tame user c = ask-Tame _ _ (λ v d. finish_auth-Tame _ (Offered.by_login user v c d))

  login-Tame : (initial : Option (List ℕ)) → IsInitial initial → IsTame (login env cfg initial)
  unfolding login
  login-Tame none c = ask-Tame _ (login_with env cfg) login_with-Tame
  login-Tame (some v) c = login_with-Tame v c

  first_word-Offered :
      (v : List ℕ) (ws : List Text)
      → Carried env cfg all v
      → split_whitespace (env.lossy v) ≡ ws
      → Offered env cfg all (record { user = first_word env cfg ws; pass = none })
  first_word-Offered v [] c e = Offered.by_nothing
  first_word-Offered v (w ∷ ws) c e = Offered.by_cram v w ws c e

  cram_with-Tame : (resp : List ℕ) → Carried env cfg all resp → IsTame (cram_with env cfg resp)
  unfolding cram_with
  cram_with-Tame resp c =
      finish_auth-Tame _ (first_word-Offered resp (split_whitespace (env.lossy resp)) c refl)

  cram_ask-Tame : (seen : List Text) → IsTame (cram_ask env cfg seen)
  unfolding cram_ask
  cram_ask-Tame seen = ask-Tame _ (cram_with env cfg) cram_with-Tame

  cram-Tame : IsTame (cram env cfg)
  unfolding cram
  cram-Tame =
      Tame-bind (gets (λ s. s.output)) (cram_ask env cfg) (Tame-gets (λ s. s.output)) cram_ask-Tame

  refused-Tame : (line : Text) → IsTame (write_line env line >> pure true)
  refused-Tame line = Tame-then _ _ (Tame-write_line line) (Tame-pure true)

  mechanism-Tame :
      (mech : Text) (initial : Option (List ℕ))
      → IsInitial initial
      → IsTame (mechanism env cfg mech initial)
  unfolding mechanism
  mechanism-Tame mech initial c = Tame-if (text_eq mech (codes "PLAIN")) (plain-Tame initial c) (
      Tame-if (text_eq mech (codes "LOGIN")) (login-Tame initial c) (
        Tame-if (text_eq mech (codes "CRAM-MD5")) cram-Tame (
          Tame-if (is_empty mech) (refused-Tame (codes "501 5.5.4 syntax: AUTH <mechanism>"))
            (refused-Tame (codes "504 5.5.4 unsupported mechanism " ++ mech)))))

  auth_words-IsInitial :
      (rest : List ℕ) (words : List Text)
      → IsArgument env all rest
      → split_whitespace (env.lossy rest) ≡ words
      → IsInitial (auth_words env cfg words).1
  unfolding auth_words
  auth_words-IsInitial rest [] c e = tt
  auth_words-IsInitial rest (m ∷ []) c e = tt
  auth_words-IsInitial rest (m ∷ w ∷ ws) c e = Carried.as_a_word rest m w ws c e

  pub handle_auth-Tame :
      (rest : List ℕ) → IsArgument env all rest → IsTame (handle_auth env cfg rest)
  unfolding handle_auth
  handle_auth-Tame rest c =
      mechanism-Tame (auth_words env cfg (split_whitespace (env.lossy rest))).0
        (auth_words env cfg (split_whitespace (env.lossy rest))).1
        (auth_words-IsInitial rest (split_whitespace (env.lossy rest)) c refl)
