-- ===== src/Node/SubIdentifier.antt =====
-- _nextDeviceSubIdentifier finds the least free identifier below 255.
use native.Mathlib.Decide.{dec_lt}
use zda.Base.{
  ℕ, zero, suc, ◌+◌, ◌<◌, ◌≤◌, ◌≡◌, refl, sym, ◌∙◌, List, true, false, false≢true, elem, length,
  IsDistinct, IsSubset, length-le_of_subset, arith, Bool-cases, inl, inr, ◌⊎◌, nat_key,
}
use zda.Node.{max_uint8, count_up, first_unused, next_device_sub_identifier}

-- The least identifier from `i` on that is free, or 255 where the rounds find none.
record Least (i : ℕ) (used : List ℕ) (r : ℕ) : Type 0 where
  at_most : r ≤ 255
  below_used : (j : ℕ) → i ≤ j → j < r → elem j used ≡ true
  free : (elem r used ≡ false) ⊎ (r ≡ 255)

first_unused-Least :
    (rounds i : ℕ) (used : List ℕ) → i + rounds ≡ 255 → Least i used (first_unused rounds i used)
unfolding first_unused
first_unused-Least zero i used e = record {
  at_most = omega arith;
  below_used = λ j h k. absurd (omega arith);
  free = inr refl;
}
first_unused-Least (suc rounds) i used e = elim (Bool-cases (elem i used)) [
  | inl taken ↦
      let rest = first_unused-Least rounds (i + 1) used (omega arith) in
      rw taken (record {
        at_most = rest.at_most;
        below_used = λ j h k. elim (dec_lt i j) [
          | yes later ↦ rest.below_used j (omega arith) k
          | no now ↦ let e' : i ≡ j = omega arith in rw e' at taken
        ];
        free = rest.free;
      })
  | inr open_id ↦ rw open_id (record {
    at_most = omega arith;
    below_used = λ j h k. absurd (omega arith);
    free = inl open_id;
  })
]

elem-count_up : (n i j : ℕ) → elem j (count_up i n) ≡ true → (i ≤ j) × (j < i + n)
unfolding count_up
elem-count_up zero i j h = ground arith
elem-count_up (suc n) i j h = ground (arith, elem-count_up n (i + 1) j)

count_up-IsDistinct : (n i : ℕ) → IsDistinct (count_up i n)
unfolding count_up
count_up-IsDistinct zero i = tt
count_up-IsDistinct (suc n) i =
    (ground (arith, elem-count_up n (i + 1) i), count_up-IsDistinct n (i + 1))

length-count_up : (n i : ℕ) → length (count_up i n) ≡ n
unfolding count_up
length-count_up zero i = omega arith
length-count_up (suc n) i = omega (arith, length-count_up n (i + 1))

last_taken :
    (used : List ℕ) (r j : ℕ)
    → ¬ (j < r)
    → j < 0 + 256
    → (elem r used ≡ false) ⊎ (r ≡ 255)
    → elem r used ≡ true
    → elem j used ≡ true
last_taken used r j k m (inl open_id) taken = absurd (false≢true (sym open_id ∙ taken))
last_taken used r j k m (inr e) taken = let same : r ≡ j = omega arith in rw same at taken

-- On a node with fewer than 256 devices the identifier is free and the least free one, and it
-- fits a uint8.
pub next_device_sub_identifier_least :
    (used : List ℕ)
    → length used < 256
    → (elem (next_device_sub_identifier used) used ≡ false)
      × (next_device_sub_identifier used ≤ 255)
      × ((j : ℕ) → j < next_device_sub_identifier used → elem j used ≡ true)
unfolding next_device_sub_identifier
next_device_sub_identifier_least used h =
    let r = first_unused max_uint8 0 used in
    let least = first_unused-Least max_uint8 0 used (omega arith) in
    let below = λ (j : ℕ) (k : j < r). least.below_used j (omega arith) k in
    (
      elim (Bool-cases (elem r used)) [
        | inr open_id ↦ open_id
        | inl taken ↦ absurd (
            too_many (λ j m. elim (dec_lt j r) [
              | yes k ↦ below j k
              | no k ↦ last_taken used r j k (elem-count_up 256 0 j m).1 least.free taken
            ]))
      ],
      least.at_most,
      below,
    )
  where
    too_many : IsSubset (count_up 0 256) used → ⊥
    too_many s = omega (
      arith,
      length-count_up 256 0,
      length-le_of_subset (count_up 0 256) used (count_up-IsDistinct 256 0) s,
    )
