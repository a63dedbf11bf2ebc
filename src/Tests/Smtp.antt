-- ===== src/Tests/Smtp.antt =====
-- A session of crates/s2l-smtp that logs in and hands over one mail.
use stmp2log.Prelude.{◌≡◌, ◌≢◌, refl, List, [], ◌∷◌, ◌++◌, some, true, false, length}
use stmp2log.Prelude.Text.{Text, codes, is_empty, text_eq}
use stmp2log.Smtp.{Peer, Config, require, Creds, credentials_ok}
use stmp2log.Smtp.Io.{Env, Read, bytes, accepted, fresh, io_ok, out_of_fuel}
use stmp2log.Smtp.Message.{crlf, message, read_data}
use stmp2log.Smtp.Message.RoundTrip.{wire, joined, read_data-wire}
use stmp2log.Smtp
use stmp2log.Smtp.Session
use stmp2log.Smtp.Session.{run}
use stmp2log.Smtp.Moves.Run.{run-returns}

abbrev env : Env
env = record {
  lossy = λ b. b;
  as_bytes = λ t. t;
  decode64 = λ t. some t;
  encode64 = λ t. t;
  random_hex = λ o. codes "5a";
  millis = λ o. codes "17";
  ip_text = λ t. t;
  write_ok = λ o. true;
  try_send = λ o s. accepted;
}

abbrev cfg : Config
cfg = record {
  hostname = codes "mx";
  max_size = 100;
  tls = false;
  auth = require (codes "u") (codes "p");
  tls_trouble = [];
}

abbrev peer : Peer
peer = record { ip = codes "10.0.0.1"; port = 5000 }

abbrev line : Text → Read
line t = bytes (t ++ crlf)

abbrev lines : List Text
lines = codes "Subject: hi" ∷ [] ∷ codes ".dot" ∷ []

abbrev input : List Read
input =
    line (codes "EHLO me")
    ∷ line (codes "MAIL FROM:<early@b>")
    ∷ line (codes "AUTH PLAIN")
    ∷ line (0 ∷ codes "u" ++ 0 ∷ codes "p")
    ∷ line (codes "MAIL FROM:<a@b>")
    ∷ line (codes "RCPT TO:<c@d>")
    ∷ line (codes "DATA")
    ∷ wire lines (line (codes "QUIT") ∷ [])

one_mail : length ((run env cfg peer false true (fresh input)).1.sent) ≡ 1
unfolding run Session.ehlo_lines Smtp.offer_starttls Smtp.requires_auth credentials_ok
one_mail = refl

run-returns_example : (run env cfg peer false true (fresh input)).0 ≢ out_of_fuel
run-returns_example = run-returns env cfg peer false true (fresh input)

read_data-wire_example :
    read_data 100 (fresh (wire lines (line (codes "QUIT") ∷ [])))
    ≡ (io_ok (message (joined lines)), fresh (line (codes "QUIT") ∷ []))
read_data-wire_example =
    read_data-wire 100 lines (line (codes "QUIT") ∷ [])
      (fresh (wire lines (line (codes "QUIT") ∷ []))) refl

abbrev creds : Creds
creds = record { user = codes "u"; pass = some (codes "p") }

creds_pass : credentials_ok (require (codes "u") (codes "p")) creds ≡ true
unfolding credentials_ok is_empty text_eq
creds_pass = refl
