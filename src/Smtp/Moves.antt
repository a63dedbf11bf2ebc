-- ===== src/Smtp/Moves.antt =====
-- What a session of crates/s2l-smtp/src/session.rs can do, as a step relation on its state: the
-- specification that `Session` is proved to follow.
pub mod Rules
pub mod Auth
pub mod Data
pub mod Commands
pub mod Run
use stmp2log.Prelude.{
  ℕ, zero, suc, ◌+◌, ◌≤◌, ◌<◌, ◌≡◌, ◌≢◌, refl, sym, ap, ◌∙◌, append_assoc, if◌then◌else◌, List, [],
  ◌∷◌, ◌++◌, Option, none, some, Bool, true, false, length, arith, ◌&&◌,
}
use stmp2log.Prelude.Text.{Text, codes, text_eq, split_on, split_whitespace}
use stmp2log.Smtp.{Peer, Config, Creds, credentials_ok, requires_auth}
use stmp2log.Smtp.Io.{Env, Read, bytes, Session, Io, out_of_fuel, M, truncate}
use stmp2log.Smtp.Auth.{b64}
use stmp2log.Smtp.Line.{trim_eol, split_verb}
use stmp2log.Smtp.Session.{message_of, reset_envelope, greet_state, max_rcpt, is_none}

-- The line is one of the reads.
abbrev pub Came : List Read → List ℕ → Type 0
Came all line = (front : List Read) × (back : List Read) × (all ≡ front ++ bytes line ∷ back)

-- The argument of a command that came on a line.
abbrev pub IsArgument : Env → List Read → List ℕ → Type 0
IsArgument env all rest =
    (line : List ℕ) × Came all line × (rest ≡ (split_verb env.lossy (trim_eol (truncate line))).1)

-- A value that the client sent: on a line of its own, decoded, or as the second word of a command's argument.
pub data Carried (env : Env) (cfg : Config) (all : List Read) : List ℕ → Type 0 where
  on_a_line :
      (line : List ℕ)
      → Came all line
      → Carried env cfg all (b64 env cfg (env.lossy (trim_eol (truncate line))))
  as_a_word :
      (rest : List ℕ) (mech w : Text) (ws : List Text)
      → IsArgument env all rest
      → split_whitespace (env.lossy rest) ≡ mech ∷ w ∷ ws
      → Carried env cfg all (if text_eq w (codes "=") then [] else b64 env cfg w)

-- The credentials that what was sent amounts to: of PLAIN the second and the third field, of LOGIN the two
-- answers, and of CRAM-MD5 the first word of the answer, without a password.
pub data Offered (env : Env) (cfg : Config) (all : List Read) : Creds → Type 0 where
  by_plain :
      (v z u p : List ℕ) (more : List (List ℕ))
      → Carried env cfg all v
      → split_on 0 v ≡ z ∷ u ∷ p ∷ more
      → Offered env cfg all (record { user = env.lossy u; pass = some (env.lossy p) })
  by_short_plain :
      (v z u : List ℕ)
      → Carried env cfg all v
      → split_on 0 v ≡ z ∷ u ∷ []
      → Offered env cfg all (record { user = env.lossy u; pass = none })
  by_login :
      (u p : List ℕ)
      → Carried env cfg all u
      → Carried env cfg all p
      → Offered env cfg all (record { user = env.lossy u; pass = some (env.lossy p) })
  by_cram :
      (v : List ℕ) (w : Text) (ws : List Text)
      → Carried env cfg all v
      → split_whitespace (env.lossy v) ≡ w ∷ ws
      → Offered env cfg all (record { user = w; pass = none })
  by_nothing : Offered env cfg all (record { user = []; pass = none })

-- What is still to be read of all that the client sends.
abbrev pub IsLeft : List Read → Session → Type 0
IsLeft all s = (front : List Read) × (all ≡ front ++ s.input)

module _ (env : Env) (cfg : Config) (peer : Peer) (tls_active : Bool) (all : List Read) where
  pub data Move : Session → Session → Type 0 where
    -- Input is only taken from the front of what is there.
    reads :
        (s : Session) (front rs : List Read)
        → s.input ≡ front ++ rs
        → Move s (record s { input = rs })
    writes : (s : Session) (line : Text) → Move s (record s { output = s.output ++ line ∷ [] })
    greets : (s : Session) (rest : List ℕ) → Move s (greet_state env rest s)
    resets : (s : Session) → Move s (reset_envelope s)
    sender : (s : Session) (a : Text) → Move s (record s { mail_from = some a; rcpt = [] })
    recipient :
        (s : Session) (a : Text)
        → length s.rcpt < max_rcpt
        → Move s (record s { rcpt = s.rcpt ++ a ∷ [] })
    -- A user is entered only with credentials that the client sent and the policy accepts.
    logs_in :
        (s : Session) (c : Creds)
        → Offered env cfg all c
        → credentials_ok cfg.auth c ≡ true
        → Move s (record s { auth_user = some c.user })
    -- A message is handed over only within the size limit, and behind a login if one is asked for.
    hands_over :
        (s : Session) (out : List ℕ)
        → length out ≤ cfg.max_size
        → (requires_auth cfg && is_none s.auth_user) ≡ false
        → Move s (record s {
          delivered = s.delivered + 1;
          sent = s.sent ++ message_of env cfg peer tls_active out s ∷ [];
        })

  pub data Reach (s : Session) : Session → Type 0 where
    here : Reach s s
    next : {t u : Session} → Reach s t → Move t u → Reach s u

  pub Reach-trans : {s t u : Session} → Reach s t → Reach t u → Reach s u
  Reach-trans a here = a
  Reach-trans a (next b m) = next (Reach-trans a b) m

  pub one : {s t : Session} → Move s t → Reach s t
  one m = next here m

  Move-IsLeft : {s t : Session} → Move s t → IsLeft all s → IsLeft all t
  unfolding greet_state
  Move-IsLeft (reads s mid rs h) (front, e) =
      (front ++ mid, e ∙ ap (λ r. front ++ r) h ∙ sym (append_assoc front mid rs))
  Move-IsLeft (writes s line) l = l
  Move-IsLeft (greets s rest) l = l
  Move-IsLeft (resets s) l = l
  Move-IsLeft (sender s a) l = l
  Move-IsLeft (recipient s a h) l = l
  Move-IsLeft (logs_in s c o h) l = l
  Move-IsLeft (hands_over s out h k) l = l

  pub Reach-IsLeft : {s t : Session} → Reach s t → IsLeft all s → IsLeft all t
  Reach-IsLeft here l = l
  Reach-IsLeft (next r m) l = Move-IsLeft m (Reach-IsLeft r l)

  -- An action that returns or fails, and gets to its last state by moves.
  pub record Tame {A : Type 0} (m : M A) : Type 0 where
    pub reach : (s : Session) → IsLeft all s → Reach s (m s).1
    pub returns : (s : Session) → IsLeft all s → (m s).0 ≢ out_of_fuel

  -- The same from one state.
  pub record TameAt {A : Type 0} (m : M A) (s : Session) : Type 0 where
    pub reach : IsLeft all s → Reach s (m s).1
    pub returns : IsLeft all s → (m s).0 ≢ out_of_fuel
