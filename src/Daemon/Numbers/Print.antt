-- ===== src/Daemon/Numbers/Print.antt =====
-- `std::stoul` and `std::stoull` against `std::to_string`.
use open_vbus.Base.{
  none, leb, ◌==◌, ℕ, zero, suc, ◌+◌, ◌*◌, ◌/◌, ◌%◌, ◌^◌, ◌<◌, ◌≡◌, refl, sym, ap, ◌∙◌, false, some,
  [], ◌∷◌, Text, digits_of, to_string, ltb, lt→ltb, lt→not_leb, Bool-cases, ltb→lt, inl, inr, arith,
  if_cases, if◌then◌else◌,
}
use open_vbus.Daemon.Numbers.{
  digit_value, digits, is_digit, unsigned, to_word, sign_and, stoul, stoull,
}

digit_value_lem : (d : ℕ) → d < 10 → digit_value (48 + d) ≡ d
unfolding digit_value
digit_value_lem d h = ground arith

digits-digit :
    (acc d : ℕ) (s : Text) → d < 10 → digits 10 acc ((48 + d) ∷ s) ≡ digits 10 (acc * 10 + d) s
unfolding digits
digits-digit acc d s h = rw (digit_value_lem d h) (rw (lt→ltb d 10 h) refl)

digits-first : (d : ℕ) (s : Text) → d < 10 → digits 10 0 ((48 + d) ∷ s) ≡ digits 10 d s
digits-first d s h =
    let same : 0 * 10 + d ≡ d = omega arith in digits-digit 0 d s h ∙ ap (λ m. digits 10 m s) same

digits-digits_of :
    (f n : ℕ) (s : Text) → n < 10 ^ f → 0 < f → digits 10 0 (digits_of f n s) ≡ digits 10 n s
unfolding digits_of
digits-digits_of zero n s h p = absurd (omega arith)
digits-digits_of (suc zero) n s h p =
    let lt : n < 10 = omega (arith, h) in rw (lt→ltb n 10 lt) (digits-first n s lt)
digits-digits_of (suc (suc f)) n s h p = elim (Bool-cases (ltb n 10)) [
  | inl e ↦ rw e (digits-first n s (ltb→lt n 10 e))
  | inr e ↦
      let rest : digits 10 0 (digits_of (suc f) (n / 10) ((48 + n % 10) ∷ s))
          ≡ digits 10 (n / 10) ((48 + n % 10) ∷ s) =
        digits-digits_of (suc f) (n / 10) ((48 + n % 10) ∷ s) (omega (arith, h)) (omega arith) in
      let same : n / 10 * 10 + n % 10 ≡ n = omega arith in
      rw e (rest ∙ (digits-digit (n / 10) (n % 10) s (omega arith) ∙ ap (λ m. digits 10 m s) same))
]

-- A text that a digit begins.
pub data Begins : Text → Type 0 where
  begins : (d : ℕ) (s : Text) → d < 10 → Begins ((48 + d) ∷ s)

pub digits_of-Begins : (f n : ℕ) (s : Text) → n < 10 ^ f → 0 < f → Begins (digits_of f n s)
unfolding digits_of
digits_of-Begins zero n s h p = absurd (omega arith)
digits_of-Begins (suc zero) n s h p =
    let lt : n < 10 = omega (arith, h) in rw (lt→ltb n 10 lt) (begins n s lt)
digits_of-Begins (suc (suc f)) n s h p =
    if_cases Begins (ltb n 10) _ _ (λ e. begins n s (ltb→lt n 10 e))
      (λ e. digits_of-Begins (suc f) (n / 10) ((48 + n % 10) ∷ s) (omega (arith, h)) (omega arith))

not_sign : (d k : ℕ) → k < 48 → ((48 + d) == k) ≡ false
not_sign d k h = ground arith

sign_and-Begins :
    (w n : ℕ) (s : Text)
    → Begins s
    → digits 10 0 s ≡ n
    → sign_and (unsigned 10) w s ≡ (if leb (2 ^ w) n then none else some n)
unfolding sign_and unsigned is_digit to_word
sign_and-Begins w n _ (begins d s h) e =
    let v : digits 10 (0 * 10 + d) s ≡ n = sym (digits-digit 0 d s h) ∙ e in
    rw (not_sign d b'-' (omega arith)) (
      rw (not_sign d b'+' (omega arith))
        (rw (digit_value_lem d h) (rw (lt→ltb d 10 h) (rw v refl))))

-- Every number of 64 bits is read back from its decimal print by `std::stoull`, and by `std::stoul`
-- exactly when it has 32 bits; else `std::stoul` throws.
pub stoul-to_string :
    (n : ℕ)
    → n < 2 ^ 64
    → (stoull (to_string n) ≡ some n)
      × (stoul (to_string n) ≡ (if leb (2 ^ 32) n then none else some n))
unfolding stoul stoull to_string
stoul-to_string n h =
    let few : n < 10 ^ 20 = omega (arith, h) in
    let value = digits-digits_of 20 n [] few (omega arith) in
    let digit = digits_of-Begins 20 n [] few (omega arith) in
    (
      sign_and-Begins 64 n _ digit value ∙ rw (lt→not_leb (2 ^ 64) n h) refl,
      sign_and-Begins 32 n _ digit value,
    )
