-- ===== src/Table/Text.antt =====
-- `strconv.Itoa` of Go's standard library, for numbers that are not negative.
use Prim.Native.String
use zda.Base.{ℕ, zero, suc, ◌/◌, ◌%◌, String, List, [], ◌∷◌, if◌then◌else◌, ltb, nat_key}

abbrev pub digit_texts : List String
digit_texts = "0" ∷ "1" ∷ "2" ∷ "3" ∷ "4" ∷ "5" ∷ "6" ∷ "7" ∷ "8" ∷ "9" ∷ []

unfoldable pub text_at : List String → ℕ → String
text_at [] n = ""
text_at (t ∷ ts) zero = t
text_at (t ∷ ts) (suc n) = text_at ts n

unfoldable pub itoa_digits : ℕ → ℕ → String → String
unfolding text_at
itoa_digits zero n acc = acc
itoa_digits (suc fuel) n acc =
    let rest = itoa_digits fuel (n / 10) (String.◌++◌ (text_at digit_texts (n % 10)) acc) in
    if ltb n 10 then String.◌++◌ (text_at digit_texts n) acc else rest

-- A number has at most as many digits as the fuel, since each division by 10 makes it smaller.
unfoldable pub itoa : ℕ → String
unfolding itoa_digits
itoa n = itoa_digits (suc n) n ""
