-- ===== src/Timestamps/Decimal.antt =====
-- Rust's `u64::to_string` and `str::parse::<u64>`, and that the second reads what the first prints.
use native.Mathlib.Nat.{pow-suc}
use nextral.Base.{
  ℕ, zero, suc, ◌+◌, ◌-◌, ◌*◌, ◌/◌, ◌%◌, ◌^◌, ◌<◌, ◌≡◌, refl, arith, String, Char, code, ◌&&◌,
  Option, none, some, ltb, leb, nat_eqb, ap, ◌∙◌, if◌then◌else◌, Bool-cases, inl, inr,
}

abbrev pub u64_mod : ℕ
u64_mod = 2 ^ 64

abbrev pub digit_char : ℕ → Char
digit_char zero = "0"
digit_char (suc zero) = "1"
digit_char (suc (suc zero)) = "2"
digit_char (suc (suc (suc zero))) = "3"
digit_char (suc (suc (suc (suc zero)))) = "4"
digit_char (suc (suc (suc (suc (suc zero))))) = "5"
digit_char (suc (suc (suc (suc (suc (suc zero)))))) = "6"
digit_char (suc (suc (suc (suc (suc (suc (suc zero))))))) = "7"
digit_char (suc (suc (suc (suc (suc (suc (suc (suc zero)))))))) = "8"
digit_char _ = "9"

-- Digits from the last to the first, with fuel for the number of digits.
print_digits : ℕ → ℕ → String → String
print_digits zero n out = out
print_digits (suc fuel) n out =
    let longer = String.◌∷◌ (digit_char (n % 10)) out in
    let rest = print_digits fuel (n / 10) longer in if nat_eqb (n / 10) 0 then longer else rest

-- Twenty digits hold every u64.
unfoldable pub to_string : ℕ → String
unfolding print_digits
to_string n = print_digits 20 n ""

-- Each digit is added by a checked multiplication and a checked addition.
parse_digits : ℕ → String → Option ℕ
parse_digits n String.[] = some n
parse_digits n (String.◌∷◌ c s) =
    let d = code c - b'0' in
    let rest = parse_digits (n * 10 + d) s in
    if leb b'0' (code c) && leb (code c) b'9' && ltb (n * 10 + d) u64_mod then rest else none

-- One sign `+` may stand before the digits, of which there is at least one.
parse_unsigned : String → Option ℕ
unfolding parse_digits
parse_unsigned String.[] = none
parse_unsigned (String.◌∷◌ c s) = parse_digits 0 (String.◌∷◌ c s)

unfoldable pub parse_u64 : String → Option ℕ
unfolding parse_unsigned
parse_u64 String.[] = none
parse_u64 (String.◌∷◌ c s) =
    if nat_eqb (code c) b'+' then parse_unsigned s else parse_unsigned (String.◌∷◌ c s)

pub digit_code : (d : ℕ) → d < 10 → code (digit_char d) ≡ b'0' + d
digit_code zero h = refl
digit_code (suc zero) h = refl
digit_code (suc (suc zero)) h = refl
digit_code (suc (suc (suc zero))) h = refl
digit_code (suc (suc (suc (suc zero)))) h = refl
digit_code (suc (suc (suc (suc (suc zero))))) h = refl
digit_code (suc (suc (suc (suc (suc (suc zero)))))) h = refl
digit_code (suc (suc (suc (suc (suc (suc (suc zero))))))) h = refl
digit_code (suc (suc (suc (suc (suc (suc (suc (suc zero)))))))) h = refl
digit_code (suc (suc (suc (suc (suc (suc (suc (suc (suc zero))))))))) h = refl
digit_code (suc (suc (suc (suc (suc (suc (suc (suc (suc (suc d)))))))))) h = absurd (omega arith)

parse_digit :
    (n : ℕ) (s : String)
    → n < 2 ^ 64
    → parse_digits (n / 10) (String.◌∷◌ (digit_char (n % 10)) s) ≡ parse_digits n s
unfolding parse_digits
parse_digit n s h =
    let c : code (digit_char (n % 10)) ≡ b'0' + n % 10 = digit_code (n % 10) (omega arith) in
    let e : n / 10 * 10 + (code (digit_char (n % 10)) - b'0') ≡ n = omega arith in
    rw e (ground arith)

pub short_tenth : (fuel n : ℕ) → n < 10 ^ suc fuel → n / 10 < 10 ^ fuel
short_tenth fuel n h = omega (arith, pow-suc 10 fuel)

parse-print :
    (fuel n : ℕ) (s : String)
    → n < 10 ^ fuel
    → n < 2 ^ 64
    → parse_digits 0 (print_digits fuel n s) ≡ parse_digits n s
unfolding print_digits
parse-print zero n s h k = ap (λ m. parse_digits m s) (omega arith)
parse-print (suc fuel) n s h k = elim (Bool-cases (nat_eqb (n / 10) 0)) [
  | inl last ↦ let e : n / 10 ≡ 0 = ground arith in rw last (rw e at (parse_digit n s k))
  | inr more ↦ rw more (
      parse-print fuel (n / 10) (String.◌∷◌ (digit_char (n % 10)) s) (short_tenth fuel n h)
        (omega arith)
      ∙ parse_digit n s k)
]

abbrev StartsWithDigit : String → Type 0
StartsWithDigit s = (d : ℕ) × (rest : String) × (d < 10) × (s ≡ String.◌∷◌ (digit_char d) rest)

print_digits-StartsWithDigit :
    (fuel n : ℕ) (s : String) → StartsWithDigit s → StartsWithDigit (print_digits fuel n s)
unfolding print_digits
print_digits-StartsWithDigit zero n s h = h
print_digits-StartsWithDigit (suc fuel) n s h =
    let longer : StartsWithDigit (String.◌∷◌ (digit_char (n % 10)) s) =
      (n % 10, s, omega arith, refl) in
    elim (Bool-cases (nat_eqb (n / 10) 0)) [
      | inl last ↦ rw last longer
      | inr more ↦ rw more (print_digits-StartsWithDigit fuel (n / 10) _ longer)
    ]

to_string-StartsWithDigit : (n : ℕ) → StartsWithDigit (to_string n)
unfolding to_string
to_string-StartsWithDigit n = elim (Bool-cases (nat_eqb (n / 10) 0)) [
  | inl last ↦ rw last (n % 10, "", omega arith, refl)
  | inr more ↦ rw more (print_digits-StartsWithDigit 19 (n / 10) _ (n % 10, "", omega arith, refl))
]

parse_digits-to_string : (n : ℕ) → n < 2 ^ 64 → parse_digits 0 (to_string n) ≡ some n
unfolding to_string parse_digits
parse_digits-to_string n h = parse-print 20 n "" (omega arith) h

parse_u64_of_digit : (s : String) → StartsWithDigit s → parse_u64 s ≡ parse_digits 0 s
unfolding parse_u64
parse_u64_of_digit s (d, rest, h, e) = rw e (ground (arith, digit_code d h))

-- What is printed for a u64 is read back as the same number.
pub parse_u64-to_string : (n : ℕ) → n < 2 ^ 64 → parse_u64 (to_string n) ≡ some n
parse_u64-to_string n h =
    parse_u64_of_digit (to_string n) (to_string-StartsWithDigit n) ∙ parse_digits-to_string n h
