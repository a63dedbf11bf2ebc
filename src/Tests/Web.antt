-- ===== src/Tests/Web.antt =====
-- A login of crates/s2l-web, and what follows it.
use stmp2log.Prelude.{ℕ, ◌≡◌, ◌↔◌, refl, List, [], ◌∷◌, ◌++◌, true, false, arith}
use stmp2log.Prelude.Text.{Text, codes, is_empty, text_eq}
use stmp2log.Web.Auth
use stmp2log.Web.Auth.{Call, Clock}
use stmp2log.Web.Auth.Bounds.{IsBounded, execs-IsBounded}
use stmp2log.Web.Auth.Compare.{constant_time_eq_iff}
use stmp2log.Web.Auth.Replay.{is_ok, throttled, any_issues, replay_refused}
use stmp2log.Web.Auth.Issued.{granted, verify-granted, verify-logout}

abbrev sha256 : Text → Text
sha256 t = codes "h" ++ t

abbrev clock : ℕ → Clock
clock n = record { swept = n; throttle = n; age = n; noted = n }

abbrev started : Auth.Auth
started = Auth.new sha256 (codes "admin")

abbrev calls : List Call
calls =
    Auth.challenge_call (clock 1) (codes "n1")
    ∷ Auth.login_call (clock 2) (codes "t1") (codes "n1") (codes "hn1:hadmin") (codes "10.0.0.1")
    ∷ []

abbrev challenged : Auth.Auth
challenged = (Auth.challenge (clock 1) (codes "n1") started).1

abbrev login_done : Auth.Login × Auth.Auth
login_done =
    Auth.login sha256 (clock 2) (codes "t1") challenged (codes "n1") (codes "hn1:hadmin")
      (codes "10.0.0.1")

login_works : is_ok (login_done.0) ≡ true
unfolding is_ok Auth.login Auth.challenge Auth.new text_eq
login_works = refl

not_throttled : throttled (login_done.0) ≡ false
unfolding throttled Auth.login Auth.challenge Auth.new text_eq
not_throttled = refl

replay_refused_example :
    is_ok (
      (Auth.login sha256
        (clock 4)
        (codes "t2")
        (Auth.execs sha256 (Auth.verify_call 3 (codes "t1") ∷ []) (login_done.1))
        (codes "n1")
        (codes "hn1:hadmin")
        (codes "10.0.0.2")).0)
    ≡ false
unfolding any_issues
replay_refused_example =
    replay_refused sha256 (clock 2) (clock 4) (codes "t1") (codes "t2") challenged (codes "n1")
      (codes "hn1:hadmin") (codes "hn1:hadmin") (codes "10.0.0.1") (codes "10.0.0.2")
      (Auth.verify_call 3 (codes "t1") ∷ []) not_throttled refl

has_password : is_empty (codes "admin") ≡ false
unfolding is_empty
has_password = refl

other_not_granted : granted sha256 (codes "t9") calls started ≡ false
unfolding granted Auth.exec Auth.new text_eq
other_not_granted = refl

verify-granted_example :
    (Auth.verify 5 (Auth.execs sha256 calls (Auth.new sha256 (codes "admin"))) (codes "t9")).0
    ≡ false
verify-granted_example =
    verify-granted sha256 (codes "admin") (codes "t9") 5 calls has_password other_not_granted

needs_login : Auth.required (login_done.1) ≡ true
unfolding Auth.required Auth.login Auth.challenge Auth.new
needs_login = refl

verify-logout_example :
    (Auth.verify 6 (Auth.execs sha256 [] (Auth.logout (login_done.1) (codes "t1"))) (codes "t1")).0
    ≡ false
unfolding granted
verify-logout_example = verify-logout sha256 (login_done.1) (codes "t1") 6 [] needs_login refl

started-IsBounded : IsBounded started
unfolding IsBounded Auth.new
started-IsBounded = (omega arith, omega arith)

execs-IsBounded_example : IsBounded (Auth.execs sha256 calls started)
execs-IsBounded_example = execs-IsBounded sha256 calls started started-IsBounded

constant_time_eq_iff_example :
    (Auth.constant_time_eq (codes "abc") (codes "abd") ≡ true) ↔ (codes "abc" ≡ codes "abd")
constant_time_eq_iff_example = constant_time_eq_iff (codes "abc") (codes "abd")
