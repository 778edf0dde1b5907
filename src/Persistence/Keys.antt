-- ===== src/Persistence/Keys.antt =====
-- The key of a device is read back as its sub-identifier.
use zda.Base.{ℕ, ◌<◌, ◌≡◌, refl, ap, ◌∙◌, ℤ, pos, some, List, [], ◌∷◌, String, arith}
use zda.Table.Text.{itoa}
use zda.Persistence.Parse.{atoi, uint8, atoi-itoa}
use zda.Persistence.{device_list}

-- Every sub-identifier fits a byte.
abbrev pub AreBytes : List ℕ → Type 0
AreBytes [] = Unit
AreBytes (s ∷ ss) = (s < 256) × AreBytes ss

-- The keys that sectionForDevice uses.
abbrev pub device_keys : List ℕ → List String
device_keys [] = []
device_keys (s ∷ ss) = itoa s ∷ device_keys ss

device_list-cons :
    (k : String) (i : ℤ) (ks : List String)
    → atoi k ≡ some i
    → device_list (k ∷ ks) ≡ uint8 i ∷ device_list ks
unfolding device_list
device_list-cons k i ks e = rw (e, device_list) refl

-- deviceListFromPersistence gives back the sub-identifiers, which are bytes, whose texts
-- sectionForDevice makes the keys, in the order of the keys.
pub device_list-itoa : (ss : List ℕ) → AreBytes ss → device_list (device_keys ss) ≡ ss
unfolding device_list
device_list-itoa [] bytes = refl
device_list-itoa (s ∷ ss) (byte, bytes) =
    device_list-cons (itoa s) (pos s) (device_keys ss) (atoi-itoa s (omega arith))
    ∙ ap (λ k. k ∷ device_list (device_keys ss)) (omega arith)
    ∙ ap (λ ks. s ∷ ks) (device_list-itoa ss bytes)
