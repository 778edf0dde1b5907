-- ===== src/Persistence/Parse.antt =====
-- `strconv.ParseUint` and `strconv.Atoi` of Go's standard library, and that Atoi reads what Itoa
-- writes.
use Prim.Native.Nat.{◌^◌}
use Prim.Native.Char.{Char, code}
use Prim.Native.String
use text.Mathlib.TextLemmas.{nil-append, cons-append}
use zda.Base.{
  ℤ, pos, negsuc, ℕ, zero, suc, ◌+◌, ◌-◌, ◌*◌, ◌/◌, ◌%◌, ◌<◌, ◌≡◌, refl, ap, sym, ◌∙◌, Option, none,
  some, String, ◌&&◌, if◌then◌else◌, leb, ltb, ◌==◌, nat_key, arith, Bool-cases, inl, inr,
}
use zda.Table.Text.{text_at, digit_texts, itoa_digits, itoa}

-- The value of a digit, by its code point.
abbrev digit_value : ℕ → Option ℕ
digit_value c =
    if leb 48 c && leb c 57
    then some (c - 48)
    else if leb 97 c && leb c 122
    then some (c - 87)
    else if leb 65 c && leb c 90
    then some (c - 55)
    else none

abbrev below : ℕ → Option ℕ → Option ℕ
below bound none = none
below bound (some n) = if ltb n bound then some n else none

unfoldable pub parse_digits : ℕ → ℕ → String → Option ℕ
parse_digits base n String.[] = some n
parse_digits base n (String.◌∷◌ c rest) = elim (below base (digit_value (code c))) [
  | none ↦ none
  | some d ↦ parse_digits base (n * base + d) rest
]

-- The digits of a number; there has to be one.
abbrev digits : ℕ → String → Option ℕ
digits base String.[] = none
digits base (String.◌∷◌ c rest) = parse_digits base 0 (String.◌∷◌ c rest)

-- ParseUint for a base other than 0, that allows no underscores.
unfoldable pub parse_uint : String → ℕ → ℕ → Option ℕ
unfolding parse_digits
parse_uint s base bits = below (2 ^ bits) (digits base s)

abbrev positive : Option ℕ → Option ℤ
positive none = none
positive (some n) = some (pos n)

-- A number of a text with a minus.
abbrev negated : ℕ → ℤ
negated zero = pos 0
negated (suc n) = negsuc n

abbrev negative : Option ℕ → Option ℤ
negative none = none
negative (some n) = some (negated n)

-- Atoi, for an int of 64 bits.
unfoldable pub atoi : String → Option ℤ
unfolding parse_digits
atoi String.[] = none
atoi (String.◌∷◌ c rest) =
    if code c == 45
    then negative (below (suc (2 ^ 63)) (digits 10 rest))
    else if code c == 43
    then positive (below (2 ^ 63) (digits 10 rest))
    else positive (below (2 ^ 63) (digits 10 (String.◌∷◌ c rest)))

-- uint8 of an int, which keeps the lowest 8 bits.
abbrev pub uint8 : ℤ → ℕ
uint8 (pos n) = n % 256
uint8 (negsuc n) = 255 - n % 256

-- What holds of each digit holds of every number below ten.
abbrev EachDigit : (ℕ → Type 0) → Type 0
EachDigit P = P 0 × P 1 × P 2 × P 3 × P 4 × P 5 × P 6 × P 7 × P 8 × P 9

below_ten : (P : ℕ → Type 0) → EachDigit P → (d : ℕ) → d < 10 → P d
below_ten P (p0, p1, p2, p3, p4, p5, p6, p7, p8, p9) zero lt = p0
below_ten P (p0, p1, p2, p3, p4, p5, p6, p7, p8, p9) (suc zero) lt = p1
below_ten P (p0, p1, p2, p3, p4, p5, p6, p7, p8, p9) (suc (suc zero)) lt = p2
below_ten P (p0, p1, p2, p3, p4, p5, p6, p7, p8, p9) (suc (suc (suc zero))) lt = p3
below_ten P (p0, p1, p2, p3, p4, p5, p6, p7, p8, p9) (suc (suc (suc (suc zero)))) lt = p4
below_ten P (p0, p1, p2, p3, p4, p5, p6, p7, p8, p9) (suc (suc (suc (suc (suc zero))))) lt = p5
below_ten P (p0, p1, p2, p3, p4, p5, p6, p7, p8, p9) (suc (suc (suc (suc (suc (suc zero)))))) lt =
    p6
below_ten P (p0, p1, p2, p3, p4, p5, p6, p7, p8, p9) (suc (suc (suc (suc (suc (suc (suc zero)))))))
      lt =
    p7
below_ten P (p0, p1, p2, p3, p4, p5, p6, p7, p8, p9)
      (suc (suc (suc (suc (suc (suc (suc (suc zero)))))))) lt =
    p8
below_ten P (p0, p1, p2, p3, p4, p5, p6, p7, p8, p9)
      (suc (suc (suc (suc (suc (suc (suc (suc (suc zero))))))))) lt =
    p9
below_ten P each (suc (suc (suc (suc (suc (suc (suc (suc (suc (suc d)))))))))) lt =
    absurd (omega arith)

one_char : (c : Char) (s : String) → String.◌++◌ (String.◌∷◌ c String.[]) s ≡ String.◌∷◌ c s
one_char c s = cons-append c String.[] s ∙ ap (String.◌∷◌ c) (nil-append s)

-- The text of a digit in front of another text.
abbrev Shows : String → ℕ → Type 0
Shows s d =
    (c : Char) × (code c ≡ 48 + d) × (String.◌++◌ (text_at digit_texts d) s ≡ String.◌∷◌ c s)

Shows-digit : (d : ℕ) (s : String) → d < 10 → Shows s d
unfolding text_at
Shows-digit d s =
    below_ten (Shows s)
      (
        ("0", refl, one_char "0" s),
        ("1", refl, one_char "1" s),
        ("2", refl, one_char "2" s),
        ("3", refl, one_char "3" s),
        ("4", refl, one_char "4" s),
        ("5", refl, one_char "5" s),
        ("6", refl, one_char "6" s),
        ("7", refl, one_char "7" s),
        ("8", refl, one_char "8" s),
        ("9", refl, one_char "9" s),
      )
      d

digit_value_lem : (k d : ℕ) → k ≡ 48 + d → d < 10 → below 10 (digit_value k) ≡ some d
digit_value_lem k d e lt = rw e (ground arith)

parse_digit :
    (d n : ℕ) (acc : String)
    → d < 10
    → parse_digits 10 n (String.◌++◌ (text_at digit_texts d) acc) ≡ parse_digits 10 (n * 10 + d) acc
unfolding parse_digits
parse_digit d n acc lt =
    let (c, is_digit, same) = Shows-digit d acc lt in
    ap (parse_digits 10 n) same ∙ rw (digit_value_lem (code c) d is_digit lt, parse_digits) refl

-- The digits of Itoa give the number back, whatever follows them.
parse-itoa_digits :
    (fuel n : ℕ) (acc : String)
    → n < fuel
    → parse_digits 10 0 (itoa_digits fuel n acc) ≡ parse_digits 10 n acc
unfolding itoa_digits
parse-itoa_digits zero n acc lt = absurd (omega arith)
parse-itoa_digits (suc fuel) n acc lt = elim (Bool-cases (ltb n 10)) [
  | inl last ↦
      rw last (parse_digit n 0 acc (ground arith) ∙ ap (λ k. parse_digits 10 k acc) (omega arith))
  | inr more ↦ rw more (
      parse-itoa_digits fuel (n / 10) (String.◌++◌ (text_at digit_texts (n % 10)) acc)
        (ground arith)
      ∙ parse_digit (n % 10) (n / 10) acc (omega arith)
      ∙ ap (λ k. parse_digits 10 k acc) (omega arith))
]

-- Itoa starts with a digit, which is no sign.
abbrev StartsWithDigit : String → Type 0
StartsWithDigit s =
    (d : ℕ) × (rest : String) × (d < 10) × (s ≡ String.◌++◌ (text_at digit_texts d) rest)

itoa_digits-StartsWithDigit :
    (fuel n : ℕ) (acc : String) → n < fuel → StartsWithDigit (itoa_digits fuel n acc)
unfolding itoa_digits
itoa_digits-StartsWithDigit zero n acc lt = absurd (omega arith)
itoa_digits-StartsWithDigit (suc fuel) n acc lt = elim (Bool-cases (ltb n 10)) [
  | inl last ↦ rw last (n, acc, ground arith, refl)
  | inr more ↦ rw more (itoa_digits-StartsWithDigit fuel (n / 10) _ (ground arith))
]

atoi-digit :
    (d : ℕ) (rest : String)
    → d < 10
    → atoi (String.◌++◌ (text_at digit_texts d) rest)
      ≡ positive (below (2 ^ 63) (parse_digits 10 0 (String.◌++◌ (text_at digit_texts d) rest)))
unfolding atoi
atoi-digit d rest lt =
    let (c, is_digit, same) = Shows-digit d rest lt in rw (same, is_digit) (ground arith)

-- Atoi reads what Itoa writes.
pub atoi-itoa : (n : ℕ) → n < 2 ^ 63 → atoi (itoa n) ≡ some (pos n)
unfolding itoa parse_digits
atoi-itoa n lt =
    let (d, rest, digit, starts) = itoa_digits-StartsWithDigit (suc n) n "" (omega arith) in
    ap atoi starts
    ∙ atoi-digit d rest digit
    ∙ ap (λ s. positive (below (2 ^ 63) (parse_digits 10 0 s))) (sym starts)
    ∙ ap (λ o. positive (below (2 ^ 63) o)) (parse-itoa_digits (suc n) n "" (omega arith))
    ∙ ground arith
