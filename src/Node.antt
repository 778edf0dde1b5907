-- ===== src/Node.antt =====
-- node.go: the transaction sequence of a node and the choice of a sub-identifier.
-- The theorems are in the child modules.
pub mod Sequence
pub mod SubIdentifier
mod Examples
use zda.Base.{
  ℕ, zero, suc, ◌+◌, List, [], ◌∷◌, ◌++◌, Option, none, some, elem, if◌then◌else◌, nat_key,
}

-- math.MaxUint8
abbrev pub max_uint8 : ℕ
max_uint8 = 255

-- `n` numbers from `i` on.
unfoldable pub count_up : ℕ → ℕ → List ℕ
count_up i zero = []
count_up i (suc n) = i ∷ count_up (i + 1) n

-- makeTransactionSequence: the channel's content, its oldest element first.
unfoldable pub make_transaction_sequence : List ℕ
unfolding count_up
make_transaction_sequence = count_up 0 max_uint8

-- nextTransactionSequence. A receive from an empty channel blocks, which is `none`.
unfoldable pub next_transaction_sequence : List ℕ → Option (ℕ × List ℕ)
next_transaction_sequence [] = none
next_transaction_sequence (next_seq ∷ rest) = some (next_seq, rest ++ next_seq ∷ [])

-- The loop of _nextDeviceSubIdentifier, with the rounds left; `used` is the keys of n.device.
unfoldable pub first_unused : ℕ → ℕ → List ℕ → ℕ
first_unused zero i used = max_uint8
first_unused (suc rounds) i used =
    let rest = first_unused rounds (i + 1) used in if elem i used then rest else i

-- _nextDeviceSubIdentifier
unfoldable pub next_device_sub_identifier : List ℕ → ℕ
unfolding first_unused
next_device_sub_identifier = first_unused max_uint8 0
