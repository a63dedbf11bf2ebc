-- ===== src/Mail/Qp/RoundTrip.antt =====
-- crates/s2l-mail/src/qp.rs: any way to write bytes as quoted-printable text is read back.
use stmp2log.Prelude.{
  ℕ, zero, suc, ◌+◌, ◌*◌, ◌≤◌, ◌<◌, ◌≡◌, refl, ap, ◌∙◌, List, [], ◌∷◌, ◌++◌, some, Bool, true,
  false, ◌&&◌, ◌==◌, drop, length, arith,
}
use stmp2log.Prelude.Text.{starts_with}
use stmp2log.Mail.Qp
use stmp2log.Mail.Qp.{hex_digit, step, decode_loop}

-- A hexadecimal digit, in either case, with what it stands for.
pub data Digit : ℕ → ℕ → Type 0 where
  decimal : (h : ℕ) → h < 10 → Digit (b'0' + h) h
  upper : (h : ℕ) → h < 6 → Digit (b'A' + h) (10 + h)
  lower : (h : ℕ) → h < 6 → Digit (b'a' + h) (10 + h)

-- The texts that stand for bytes, as RFC 2045 and, with the underscore for the space, RFC 2047 have them.
pub data Encodes (u : Bool) : List ℕ → List ℕ → Type 0 where
  ended : Encodes u [] []
  as_is :
      (c : ℕ) (bytes text : List ℕ)
      → (c == b'=') ≡ false
      → (c == b'_' && u) ≡ false
      → Encodes u bytes text
      → Encodes u (c ∷ bytes) (c ∷ text)
  escaped :
      (a b h l : ℕ) (bytes text : List ℕ)
      → Digit a h
      → Digit b l
      → Encodes u bytes text
      → Encodes u ((h * 16 + l) ∷ bytes) (b'=' ∷ a ∷ b ∷ text)
  soft_crlf : (bytes text : List ℕ) → Encodes u bytes text → Encodes u bytes (b'=' ∷ 13 ∷ 10 ∷ text)
  soft_lf : (bytes text : List ℕ) → Encodes u bytes text → Encodes u bytes (b'=' ∷ 10 ∷ text)
  underscore :
      (bytes text : List ℕ)
      → u ≡ true
      → Encodes u bytes text
      → Encodes u (b' ' ∷ bytes) (b'_' ∷ text)

hex_digit-Digit : (a h : ℕ) → Digit a h → hex_digit a ≡ some h
unfolding hex_digit
hex_digit-Digit _ _ (Digit.decimal h b) = ground (arith, b)
hex_digit-Digit _ _ (Digit.upper h b) = ground (arith, b)
hex_digit-Digit _ _ (Digit.lower h b) = ground (arith, b)

hex_digit-above : (a h n : ℕ) → n < 48 → hex_digit a ≡ some h → (a == n) ≡ false
unfolding hex_digit
hex_digit-above a h n b e = ground (arith, b, e)

step-escaped :
    (u : Bool) (a b h l : ℕ) (s : List ℕ)
    → hex_digit a ≡ some h
    → hex_digit b ≡ some l
    → step u b'=' (a ∷ b ∷ s) ≡ ((h * 16 + l) ∷ [], 2)
unfolding step Qp.escape Qp.pair_of Qp.hexval Qp.first starts_with
step-escaped u a b h l s p q =
    let not_cr : (a == 13) ≡ false = hex_digit-above a h 13 (omega arith) p in
    let not_lf : (a == 10) ≡ false = hex_digit-above a h 10 (omega arith) p in
    rw not_cr (rw not_lf (rw p (rw q refl)))

step-as_is :
    (u : Bool) (c : ℕ) (s : List ℕ)
    → (c == b'=') ≡ false
    → (c == b'_' && u) ≡ false
    → step u c s ≡ (c ∷ [], 0)
unfolding step
step-as_is u c s p q = rw q (rw p refl)

step-soft_crlf : (u : Bool) (s : List ℕ) → step u b'=' (13 ∷ 10 ∷ s) ≡ ([], 2)
unfolding step Qp.escape starts_with
step-soft_crlf u s = refl

step-soft_lf : (u : Bool) (s : List ℕ) → step u b'=' (10 ∷ s) ≡ ([], 1)
unfolding step Qp.escape starts_with
step-soft_lf u s = refl

step-underscore : (u : Bool) (s : List ℕ) → u ≡ true → step u b'_' s ≡ (b' ' ∷ [], 0)
unfolding step
step-underscore u s p = rw p refl

-- One turn and the rest.
turn :
    (fuel : ℕ) (u : Bool) (c : ℕ) (s out : List ℕ) (more : ℕ)
    → step u c s ≡ (out, more)
    → decode_loop (suc fuel) u (c ∷ s) ≡ out ++ decode_loop fuel u (drop more s)
unfolding decode_loop
turn fuel u c s out more e = ap (λ r. r.0 ++ decode_loop fuel u (drop r.1 s)) e

decode_loop-ended : (fuel : ℕ) (u : Bool) → decode_loop fuel u [] ≡ []
unfolding decode_loop
decode_loop-ended zero u = refl
decode_loop-ended (suc fuel) u = refl

pub decode_loop-Encodes :
    (u : Bool) (fuel : ℕ) (bytes text : List ℕ)
    → length text ≤ fuel
    → Encodes u bytes text
    → decode_loop fuel u text ≡ bytes
decode_loop-Encodes u fuel _ _ h Encodes.ended = decode_loop-ended fuel u
decode_loop-Encodes u (suc fuel) _ _ h (Encodes.as_is c bytes text p q e) =
    turn fuel u c text (c ∷ []) 0 (step-as_is u c text p q)
    ∙ ap (λ r. c ∷ r) (decode_loop-Encodes u fuel bytes text (omega (arith, h)) e)
decode_loop-Encodes u (suc fuel) _ _ h (Encodes.escaped a b d l bytes text p q e) =
    turn fuel u b'=' (a ∷ b ∷ text) ((d * 16 + l) ∷ []) 2
      (step-escaped u a b d l text (hex_digit-Digit a d p) (hex_digit-Digit b l q))
    ∙ ap (λ r. (d * 16 + l) ∷ r) (decode_loop-Encodes u fuel bytes text (omega (arith, h)) e)
decode_loop-Encodes u (suc fuel) _ _ h (Encodes.soft_crlf bytes text e) =
    turn fuel u b'=' (13 ∷ 10 ∷ text) [] 2 (step-soft_crlf u text)
    ∙ decode_loop-Encodes u fuel bytes text (omega (arith, h)) e
decode_loop-Encodes u (suc fuel) _ _ h (Encodes.soft_lf bytes text e) =
    turn fuel u b'=' (10 ∷ text) [] 1 (step-soft_lf u text)
    ∙ decode_loop-Encodes u fuel bytes text (omega (arith, h)) e
decode_loop-Encodes u (suc fuel) _ _ h (Encodes.underscore bytes text p e) =
    turn fuel u b'_' text (b' ' ∷ []) 0 (step-underscore u text p)
    ∙ ap (λ r. b' ' ∷ r) (decode_loop-Encodes u fuel bytes text (omega (arith, h)) e)
decode_loop-Encodes u zero _ _ h (Encodes.as_is c bytes text p q e) = ground (arith, h)
decode_loop-Encodes u zero _ _ h (Encodes.escaped a b d l bytes text p q e) = ground (arith, h)
decode_loop-Encodes u zero _ _ h (Encodes.soft_crlf bytes text e) = ground (arith, h)
decode_loop-Encodes u zero _ _ h (Encodes.soft_lf bytes text e) = ground (arith, h)
decode_loop-Encodes u zero _ _ h (Encodes.underscore bytes text p e) = ground (arith, h)

-- Any text that stands for bytes as quoted-printable is decoded to them: bytes as they are, escapes of digits
-- of either case, soft line breaks, and the underscore for the space where that is asked for.
pub decode-Encodes :
    (u : Bool) (bytes text : List ℕ) → Encodes u bytes text → Qp.decode text u ≡ bytes
unfolding Qp.decode
decode-Encodes u bytes text e = decode_loop-Encodes u (length text) bytes text (omega arith) e
