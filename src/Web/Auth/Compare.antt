-- ===== src/Web/Auth/Compare.antt =====
-- crates/s2l-web/src/auth.rs: `constant_time_eq` decides whether two byte strings are equal.
use stmp2log.Prelude.{
  ℕ, zero, suc, ◌/◌, ◌%◌, ◌≤◌, max, ◌≡◌, refl, sym, ◌↔◌, List, [], ◌∷◌, true, length, ◌==◌, arith,
  Bool-cases, inl, inr, ==_refl, ==_iff, ap, ◌∙◌,
}
use stmp2log.Prelude.Text.{text_eq, text_eq_refl, text_eq→eq}
use stmp2log.Web.Auth.{constant_time_eq, diff_of}
use Prim.Native.Nat.{bit_or, bit_or-bitwise, bit_xor, bit_xor-bitwise, digits, differ}

differ_zero : (x y : ℕ) → differ x y ≡ 0 → x ≡ y
differ_zero zero y h = sym h
differ_zero (suc x) zero h = omega arith
differ_zero (suc x) (suc y) h = ap suc (differ_zero x y h)

differ_self : (x : ℕ) → differ x x ≡ 0
differ_self zero = refl
differ_self (suc x) = differ_self x

digits_or_zero : (n a b : ℕ) → a ≤ n → digits (λ b. b) max n a b ≡ 0 → (a ≡ 0) × (b ≡ 0)
digits_or_zero zero a b l h = (omega arith, h)
digits_or_zero (suc n) zero b l h = (refl, h)
digits_or_zero (suc n) (suc a) b l h =
    let r : (suc a / 2 ≡ 0) × (b / 2 ≡ 0) =
      digits_or_zero n (suc a / 2) (b / 2) (omega arith) (omega arith) in
    (omega arith, omega arith)

digits_xor_zero : (n a b : ℕ) → a ≤ n → digits (λ b. b) differ n a b ≡ 0 → a ≡ b
digits_xor_zero zero a b l h = omega arith
digits_xor_zero (suc n) zero b l h = sym h
digits_xor_zero (suc n) (suc a) b l h =
    let r : suc a / 2 ≡ b / 2 = digits_xor_zero n (suc a / 2) (b / 2) (omega arith) (omega arith) in
    let d : suc a % 2 ≡ b % 2 = differ_zero (suc a % 2) (b % 2) (omega arith) in omega arith

digits_xor_self : (n a : ℕ) → a ≤ n → digits (λ b. b) differ n a a ≡ 0
digits_xor_self zero a l = omega arith
digits_xor_self (suc n) zero l = refl
digits_xor_self (suc n) (suc a) l =
    omega (arith, digits_xor_self n (suc a / 2) (omega arith), differ_self (suc a % 2))

bit_or_zero : (a b : ℕ) → bit_or a b ≡ 0 → (a ≡ 0) × (b ≡ 0)
bit_or_zero a b h = digits_or_zero a a b (omega arith) (sym (λ i. bit_or-bitwise a b i) ∙ h)

bit_xor_zero : (a b : ℕ) → bit_xor a b ≡ 0 → a ≡ b
bit_xor_zero a b h = digits_xor_zero a a b (omega arith) (sym (λ i. bit_xor-bitwise a b i) ∙ h)

bit_xor_self : (a : ℕ) → bit_xor a a ≡ 0
bit_xor_self a = (λ i. bit_xor-bitwise a a i) ∙ digits_xor_self a a (omega arith)

diff_of-zero : (d : ℕ) (a b : List ℕ) → length a ≡ length b → diff_of d a b ≡ 0 → (d ≡ 0) × (a ≡ b)
unfolding diff_of
diff_of-zero d [] [] l h = (h, refl)
diff_of-zero d [] (y ∷ b) l h = ground arith
diff_of-zero d (x ∷ a) [] l h = ground arith
diff_of-zero d (x ∷ a) (y ∷ b) l h =
    let r : (bit_or d (bit_xor x y) ≡ 0) × (a ≡ b) =
      diff_of-zero (bit_or d (bit_xor x y)) a b (omega arith) h in
    let s : (d ≡ 0) × (bit_xor x y ≡ 0) = bit_or_zero d (bit_xor x y) (r.0) in
    (s.0, rw (bit_xor_zero x y (s.1)) (rw (r.1) refl))

diff_of_self : (a : List ℕ) → diff_of 0 a a ≡ 0
unfolding diff_of
diff_of_self [] = refl
diff_of_self (x ∷ a) = rw (bit_xor_self x) (diff_of_self a)

-- `constant_time_eq` accepts exactly two equal byte strings.
pub constant_time_eq_iff : (a b : List ℕ) → (constant_time_eq a b ≡ true) ↔ (a ≡ b)
unfolding constant_time_eq
constant_time_eq_iff a b = (
  λ h. elim (Bool-cases (length a == length b)) [
    | inl e ↦
        (diff_of-zero 0 a b ((==_iff (length a) (length b)).0 e)
          ((==_iff (diff_of 0 a b) 0).0 (rw e at h))).1
    | inr e ↦ cc
  ],
  λ h. rw h (rw (==_refl (length b)) (rw (diff_of_self b) refl)),
)

pub constant_time_eq-text_eq : (a b : List ℕ) → constant_time_eq a b ≡ text_eq a b
constant_time_eq-text_eq a b = elim (Bool-cases (constant_time_eq a b)) [
  | inl e ↦ rw e (rw ((constant_time_eq_iff a b).0 e) (sym (text_eq_refl b)))
  | inr e ↦ elim (Bool-cases (text_eq a b)) [
    | inl t ↦
        (let c : constant_time_eq a b ≡ true = (constant_time_eq_iff a b).1 (text_eq→eq a b t) in
          cc)
    | inr t ↦ rw e (sym t)
  ]
]
