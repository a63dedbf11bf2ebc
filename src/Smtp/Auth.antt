-- ===== src/Smtp/Auth.antt =====
-- AUTH in crates/s2l-smtp/src/session.rs: the three mechanisms, with the dialogue that each has.
use mathlib.Core.List.{map}
use stmp2log.Prelude.{
  ℕ, List, [], ◌∷◌, ◌++◌, Option, none, some, Bool, true, false, length, ◌==◌, if◌then◌else◌,
}
use stmp2log.Prelude.Text.{
  Text, codes, text_eq, is_empty, ascii_upper, str_trim, split_whitespace, split_on,
}
use stmp2log.Smtp.{Config, Creds, credentials_ok}
use stmp2log.Smtp.Line.{trim_eol}
use stmp2log.Smtp.Io.{
  Env, Read, bytes, timed_out, failed, M, ◌>>=◌, ◌>>◌, pure, throw_io, gets, modify, read_until,
  write_line, truncate,
}

pub data AuthLine : Type 0 where
  answer : List ℕ → AuthLine
  cancelled gone : AuthLine

module _ (env : Env) (cfg : Config) where
  abbrev decoded_or : Text → Option (List ℕ) → List ℕ
  decoded_or s none = env.as_bytes (str_trim s)
  decoded_or s (some v) = v

  -- Text that is not base64 is taken as it stands.
  unfoldable pub b64 : Text → List ℕ
  b64 s = decoded_or s (env.decode64 (str_trim s))

  unfoldable pub auth_line_of : Read → M AuthLine
  unfolding b64 pure throw_io trim_eol truncate text_eq
  auth_line_of timed_out = pure gone
  auth_line_of failed = throw_io
  auth_line_of (bytes line) =
      if length line == 0
      then pure gone
      else if text_eq (trim_eol (truncate line)) (codes "*")
      then pure cancelled
      else pure (answer (b64 (env.lossy (trim_eol (truncate line)))))

  unfoldable pub read_auth_line : M AuthLine
  unfolding auth_line_of ◌>>=◌ read_until
  read_auth_line = do r ← read_until; auth_line_of r

  unfoldable pub auth_aborted : M Bool
  unfolding write_line ◌>>=◌ ◌>>◌ pure
  auth_aborted = do write_line env (codes "501 5.7.0 authentication aborted"); pure true

  -- The macro `answer!`: the rest of the handler runs on an answer only.
  unfoldable pub on_answer : (List ℕ → M Bool) → AuthLine → M Bool
  unfolding auth_aborted pure
  on_answer k (answer v) = k v
  on_answer k cancelled = auth_aborted
  on_answer k gone = pure false

  unfoldable pub ask : Text → (List ℕ → M Bool) → M Bool
  unfolding on_answer read_auth_line write_line ◌>>=◌ ◌>>◌
  ask prompt k = do write_line env prompt; l ← read_auth_line; on_answer k l

  unfoldable pub decide : Bool → Creds → M Bool
  unfolding ◌>>=◌ ◌>>◌ pure modify write_line
  decide true creds = do
    modify (λ s. record s { auth_user = some creds.user })
    write_line env (codes "235 2.7.0 authentication successful")
    pure true
  decide false creds = do write_line env (codes "535 5.7.8 authentication failed"); pure true

  unfoldable pub finish_auth : Creds → M Bool
  unfolding decide
  finish_auth creds = decide (credentials_ok cfg.auth creds) creds

  -- The fields of a PLAIN response behind the authorisation identity.
  abbrev pub plain_fields : List (List ℕ) → Creds
  plain_fields [] = record { user = []; pass = none }
  plain_fields (authzid ∷ []) = record { user = []; pass = none }
  plain_fields (authzid ∷ u ∷ []) = record { user = env.lossy u; pass = none }
  plain_fields (authzid ∷ u ∷ p ∷ rest) = record { user = env.lossy u; pass = some (env.lossy p) }

  unfoldable pub plain_with : List ℕ → M Bool
  unfolding finish_auth split_on
  plain_with payload = finish_auth (plain_fields (split_on 0 payload))

  unfoldable pub plain : Option (List ℕ) → M Bool
  unfolding plain_with ask
  plain (some payload) = plain_with payload
  plain none = ask (codes "334 ") plain_with

  unfoldable pub login_with : List ℕ → M Bool
  unfolding finish_auth ask
  login_with user =
      ask (codes "334 UGFzc3dvcmQ6")
        λ p. finish_auth (record { user = env.lossy user; pass = some (env.lossy p) })

  unfoldable pub login : Option (List ℕ) → M Bool
  unfolding login_with ask
  login (some user) = login_with user
  login none = ask (codes "334 VXNlcm5hbWU6") login_with

  unfoldable pub cram_challenge : List Text → Text
  cram_challenge seen =
      codes "<"
      ++ env.random_hex seen
      ++ codes "."
      ++ env.millis seen
      ++ codes "@"
      ++ str_trim cfg.hostname
      ++ codes ">"

  abbrev pub first_word : List Text → Text
  first_word [] = []
  first_word (w ∷ ws) = w

  unfoldable pub cram_with : List ℕ → M Bool
  unfolding finish_auth
  cram_with resp =
      finish_auth (record { user = first_word (split_whitespace (env.lossy resp)); pass = none })

  unfoldable pub cram_ask : List Text → M Bool
  unfolding cram_with cram_challenge ask
  cram_ask seen = ask (codes "334 " ++ env.encode64 (cram_challenge seen)) cram_with

  unfoldable pub cram : M Bool
  unfolding cram_ask ◌>>=◌ gets
  cram = do seen ← gets (λ s. s.output); cram_ask seen

  -- The initial response: none, `=` for an empty one, or base64.
  abbrev pub initial_of : List Text → Option (List ℕ)
  initial_of [] = none
  initial_of (w ∷ ws) = some (if text_eq w (codes "=") then [] else b64 w)

  unfoldable pub auth_words : List Text → Text × Option (List ℕ)
  unfolding b64 ascii_upper
  auth_words [] = ([], none)
  auth_words (w ∷ ws) = (map ascii_upper w, initial_of ws)

  -- `true` if the session goes on.
  unfoldable pub mechanism : Text → Option (List ℕ) → M Bool
  unfolding plain login cram write_line ◌>>=◌ ◌>>◌ pure
  mechanism mech initial =
      if text_eq mech (codes "PLAIN")
      then plain initial
      else if text_eq mech (codes "LOGIN")
      then login initial
      else if text_eq mech (codes "CRAM-MD5")
      then cram
      else if is_empty mech
      then (do write_line env (codes "501 5.5.4 syntax: AUTH <mechanism>"); pure true)
      else (do write_line env (codes "504 5.5.4 unsupported mechanism " ++ mech); pure true)

  unfoldable pub handle_auth : List ℕ → M Bool
  unfolding mechanism auth_words
  handle_auth rest =
      let (mech, initial) = auth_words (split_whitespace (env.lossy rest)) in mechanism mech initial
