-- ===== src/Node/Sequence.antt =====
-- nextTransactionSequence counts modulo 255 and never blocks.
use mathlib.Core.Option
use native.Mathlib.Decide.{dec_lt}
use mathlib.Core.List.{append_assoc}
use zda.Base.{
  ℕ, zero, suc, ◌+◌, ◌-◌, ◌%◌, ◌<◌, ◌≡◌, refl, sym, ap, ◌∙◌, List, [], ◌∷◌, ◌++◌, Option, none,
  some, arith,
}
use zda.Node.{max_uint8, count_up, make_transaction_sequence, next_transaction_sequence}

-- The number that call `n`, counted from 0, returns, and the channel after it.
pub call : ℕ → Option (ℕ × List ℕ)
call zero = next_transaction_sequence make_transaction_sequence
call (suc n) = elim (call n) [ none ↦ none | some (_, channel) ↦ next_transaction_sequence channel ]

-- The channel when `r` is next.
rotated : ℕ → List ℕ
rotated r = count_up r (max_uint8 - r) ++ count_up 0 r

count_up-snoc : (n i : ℕ) → count_up i (suc n) ≡ count_up i n ++ (i + n) ∷ []
unfolding count_up
count_up-snoc zero i = ap (λ (k : ℕ). k ∷ []) (omega arith)
count_up-snoc (suc n) i =
    ap (λ ks. i ∷ ks)
      (count_up-snoc n (i + 1) ∙ ap (λ (k : ℕ). count_up (i + 1) n ++ k ∷ []) (omega arith))

next-append :
    (r : ℕ) (xs : List ℕ) (ys : List ℕ)
    → next_transaction_sequence ((r ∷ xs) ++ ys) ≡ some (r, xs ++ (ys ++ r ∷ []))
unfolding next_transaction_sequence
next-append r xs ys = rw append_assoc

count_up-suc : (i n m : ℕ) → n ≡ suc m → count_up i n ≡ i ∷ count_up (i + 1) m
unfolding count_up
count_up-suc i n m e = rw e

next-rotated_lt :
    (r : ℕ) → r < 254 → next_transaction_sequence (rotated r) ≡ some (r, rotated (r + 1))
unfolding rotated
next-rotated_lt r h =
    ap (λ xs. next_transaction_sequence (xs ++ count_up 0 r))
      (count_up-suc r (max_uint8 - r) (max_uint8 - (r + 1)) (omega arith))
    ∙ next-append r (count_up (r + 1) (max_uint8 - (r + 1))) (count_up 0 r)
    ∙ ap (λ ys. some (r, count_up (r + 1) (max_uint8 - (r + 1)) ++ ys)) (joined r)
  where
    joined : (k : ℕ) → count_up 0 k ++ k ∷ [] ≡ count_up 0 (k + 1)
    joined k =
        let zero_left : 0 + k ≡ k = omega arith in
        let one_more : suc k ≡ k + 1 = omega arith in
        ap (λ (j : ℕ). count_up 0 k ++ j ∷ []) (sym zero_left)
        ∙ sym (count_up-snoc k 0)
        ∙ ap (count_up 0) one_more

next-rotated_last : next_transaction_sequence (rotated 254) ≡ some (254, rotated 0)
unfolding rotated count_up next_transaction_sequence
next-rotated_last = refl

next-rotated :
    (r : ℕ) → r < 255 → next_transaction_sequence (rotated r) ≡ some (r, rotated ((r + 1) % 255))
next-rotated r h = elim (dec_lt r 254) [
  | yes below ↦
      let e : r + 1 ≡ (r + 1) % 255 = omega arith in
      next-rotated_lt r below ∙ ap (λ k. some (r, rotated k)) e
  | no above ↦ let last : 254 ≡ r = omega arith in rw (← last) next-rotated_last
]

make-rotated : make_transaction_sequence ≡ rotated 0
unfolding make_transaction_sequence rotated
make-rotated = refl

call-rotated : (n : ℕ) → call n ≡ some (n % 255, rotated ((n + 1) % 255))
unfolding call
call-rotated zero = rw make-rotated (next-rotated 0 (omega arith))
call-rotated (suc n) =
    let e : (n + 1) % 255 ≡ suc n % 255 = omega arith in
    let e' : (suc n % 255 + 1) % 255 ≡ (suc n + 1) % 255 = omega arith in
    rw (call-rotated n, e)
      (next-rotated (suc n % 255) (omega arith) ∙ ap (λ k. some (suc n % 255, rotated k)) e')

-- Every call returns at once, and call `n`, counted from 0, returns n % 255: no call returns 255,
-- and a number comes back after 255 calls.
pub call-eq-mod : (n : ℕ) → Option.map (λ t. t.0) (call n) ≡ some (n % 255)
call-eq-mod n = rw (call-rotated n)
