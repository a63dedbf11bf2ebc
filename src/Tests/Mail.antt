-- ===== src/Tests/Mail.antt =====
-- Quoted-printable text and dates of crates/s2l-mail/src/qp.rs and date.rs.
use stmp2log.Prelude.{◌≡◌, refl, [], ◌∷◌, true, arith}
use stmp2log.Prelude.Text.{codes}
use stmp2log.Prelude.Int.{pos}
use stmp2log.Mail.Date.{days_from_civil}
use stmp2log.Mail.Date.Calendar.{next_day, plus_one, days_from_civil-next_day}
use stmp2log.Mail.Qp
use stmp2log.Mail.Qp.RoundTrip.{Encodes, Digit, decode-Encodes}

mixed : Qp.decode (codes "a_=3Db=\nc=zz") true ≡ codes "a =bc=zz"
unfolding Qp.decode
mixed = refl

-- "a", a space, "é" and a soft line break.
written :
    Encodes true (b'a' ∷ b' ' ∷ 233 ∷ []) (b'a' ∷ b'_' ∷ b'=' ∷ b'E' ∷ b'9' ∷ b'=' ∷ 13 ∷ 10 ∷ [])
written = Encodes.as_is b'a' _ _ refl refl (
    Encodes.underscore _ _ refl (
      Encodes.escaped b'E' b'9' 14 9 _ _ (Digit.upper 4 (omega arith))
        (Digit.decimal 9 (omega arith)) (Encodes.soft_crlf _ _ Encodes.ended)))

decode-Encodes_example :
    Qp.decode (b'a' ∷ b'_' ∷ b'=' ∷ b'E' ∷ b'9' ∷ b'=' ∷ 13 ∷ 10 ∷ []) true ≡ b'a' ∷ b' ' ∷ 233 ∷ []
decode-Encodes_example =
    decode-Encodes true (b'a' ∷ b' ' ∷ 233 ∷ [])
      (b'a' ∷ b'_' ∷ b'=' ∷ b'E' ∷ b'9' ∷ b'=' ∷ 13 ∷ 10 ∷ []) written

september : days_from_civil (pos 2026) 9 2 ≡ pos 20698
unfolding days_from_civil
september = refl

days_from_civil-next_day_example :
    (days_from_civil (pos (next_day 2024 2 29).0) (next_day 2024 2 29).1.0 (next_day 2024 2 29).1.1
      ≡ plus_one (days_from_civil (pos 2024) 2 29))
    × (days_from_civil (pos 1970) 1 1 ≡ pos 0)
days_from_civil-next_day_example =
    days_from_civil-next_day 2024 2 29 (omega arith) (omega arith) (omega arith) (omega arith)
      (omega arith)
