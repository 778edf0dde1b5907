-- ===== src/Node/Examples.antt =====
-- The theorems of node.go at concrete inputs.
use mathlib.Core.Option
use zda.Base.{ℕ, ◌≡◌, ◌≤◌, ◌<◌, true, false, some, [], ◌∷◌, elem, nat_key, arith}
use zda.Node.{next_device_sub_identifier}
use zda.Node.Sequence.{call, call-eq-mod}
use zda.Node.SubIdentifier.{next_device_sub_identifier_least}

call-eq-mod_example : Option.map (λ t. t.0) (call 300) ≡ some 45
call-eq-mod_example = call-eq-mod 300

next_device_sub_identifier_least_example :
    (elem (next_device_sub_identifier (0 ∷ 1 ∷ 3 ∷ [])) (0 ∷ 1 ∷ 3 ∷ []) ≡ false)
    × (next_device_sub_identifier (0 ∷ 1 ∷ 3 ∷ []) ≤ 255)
    × ((j : ℕ) → j < next_device_sub_identifier (0 ∷ 1 ∷ 3 ∷ []) → elem j (0 ∷ 1 ∷ 3 ∷ []) ≡ true)
next_device_sub_identifier_least_example =
    next_device_sub_identifier_least (0 ∷ 1 ∷ 3 ∷ []) (omega arith)
