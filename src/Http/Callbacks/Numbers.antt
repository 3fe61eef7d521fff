-- ===== src/Http/Callbacks/Numbers.antt =====
-- A number in decimal digits, as ext/aws_crt/src writes it, is read back as the same number.
use native.Mathlib.Nat.{pow-suc}
use aws_crt.Prelude.{
  Bool, Bool-cases, List, [], ap, arith, false, inl, inr, leb, ltb, refl, some, suc, true, zero, ℕ,
  ◌%◌, ◌*◌, ◌+◌, ◌-◌, ◌/◌, ◌<◌, ◌==◌, ◌^◌, ◌∙◌, ◌∷◌, ◌≡◌,
}
use aws_crt.Http.Callbacks.{parse_digits, parse_unsigned}
use aws_crt.Error.{digits}

parse_digits-digit :
    (bound m d : ℕ) (rest : List ℕ)
    → d < 10
    → 10 * m + d < bound
    → parse_digits bound m ((48 + d) ∷ rest) ≡ parse_digits bound (10 * m + d) rest
unfolding parse_digits
parse_digits-digit bound m d rest h b =
    let low : leb 48 (48 + d) ≡ true = ground arith in
    let high : leb (48 + d) 57 ≡ true = ground arith in
    let same : 48 + d - 48 ≡ d = omega arith in
    let fits : ltb (10 * m + d) bound ≡ true = ground arith in rw (low, high, same, fits) refl

one_digit :
    (bound n : ℕ) (rest : List ℕ)
    → n < 10
    → n < bound
    → parse_digits bound 0 ((48 + n % 10) ∷ rest) ≡ parse_digits bound n rest
one_digit bound n rest h b =
    let small : n % 10 ≡ n = omega arith in
    let same : 10 * 0 + n ≡ n = omega arith in
    rw small
      (parse_digits-digit bound 0 n rest h (omega arith) ∙ ap (λ k. parse_digits bound k rest) same)

-- What digits writes in front of a text is read as the number.
parse_digits-digits :
    (bound p n : ℕ) (rest : List ℕ)
    → n < 10 ^ suc p
    → n < bound
    → parse_digits bound 0 (digits (suc p) n rest) ≡ parse_digits bound n rest
unfolding digits
parse_digits-digits bound zero n rest h b = elim (Bool-cases (ltb n 10)) [
  | inl e ↦ rw e (one_digit bound n rest h b)
  | inr e ↦ rw e (one_digit bound n rest h b)
]
parse_digits-digits bound (suc p) n rest h b = elim (Bool-cases (ltb n 10)) [
  | inl e ↦ rw e (one_digit bound n rest (ground arith) b)
  | inr e ↦
      let power : 10 ^ suc (suc p) ≡ 10 ^ suc p * 10 = pow-suc 10 (suc p) in
      let less : n / 10 < 10 ^ suc p = omega (arith, power) in
      let below : n / 10 < bound = omega arith in
      let whole : 10 * (n / 10) + n % 10 ≡ n = omega arith in
      rw e (
        parse_digits-digits bound p (n / 10) ((48 + n % 10) ∷ rest) less below
        ∙ parse_digits-digit bound (n / 10) (n % 10) rest (omega arith) (omega arith)
        ∙ ap (λ k. parse_digits bound k rest) whole)
]

abbrev begins_with_digit : List ℕ → Bool
begins_with_digit [] = false
begins_with_digit (d ∷ ds) = leb 48 d

digits-first : (p n : ℕ) (rest : List ℕ) → begins_with_digit (digits (suc p) n rest) ≡ true
unfolding digits
digits-first zero n rest = elim (Bool-cases (ltb n 10)) [
  | inl e ↦ rw e (ground arith)
  | inr e ↦ rw e (ground arith)
]
digits-first (suc p) n rest = elim (Bool-cases (ltb n 10)) [
  | inl e ↦ rw e (ground arith)
  | inr e ↦ rw e (digits-first p (n / 10) ((48 + n % 10) ∷ rest))
]

parse_unsigned-digit :
    (bound : ℕ) (s : List ℕ)
    → begins_with_digit s ≡ true
    → parse_unsigned bound s ≡ parse_digits bound 0 s
unfolding parse_unsigned
parse_unsigned-digit bound [] e = cc
parse_unsigned-digit bound (d ∷ []) e = let n : (d == 43) ≡ false = ground arith in rw n refl
parse_unsigned-digit bound (d ∷ e' ∷ ds) e = let n : (d == 43) ≡ false = ground arith in rw n refl

pub parse_unsigned-digits :
    (bound p n : ℕ)
    → n < 10 ^ suc p
    → n < bound
    → parse_unsigned bound (digits (suc p) n []) ≡ some n
unfolding parse_digits
parse_unsigned-digits bound p n h b =
    parse_unsigned-digit bound (digits (suc p) n []) (digits-first p n [])
    ∙ parse_digits-digits bound p n [] h b
