-- ===== src/Rules/Loader/Sort.antt =====
-- `sort.Strings` of Go's standard library, as an insertion sort.
use Prim.Native.Nat.{Ordering}
use Prim.Native.String.{compare}
use zda.Base.{
  ◌≡◌, refl, String, Bool, true, false, List, [], ◌∷◌, if◌then◌else◌, elem, string_key, arith,
}

unfoldable pub string_less : String → String → Bool
string_less a b = elim (compare a b) [ Ordering.lt ↦ true | _ ↦ false ]

unfoldable pub insert_string : String → List String → List String
insert_string a [] = a ∷ []
insert_string a (b ∷ bs) = if string_less b a then b ∷ insert_string a bs else a ∷ b ∷ bs

unfoldable pub sort_strings : List String → List String
unfolding insert_string string_less
sort_strings [] = []
sort_strings (a ∷ as') = insert_string a (sort_strings as')

pub elem-insert_string :
    (k a : String) (bs : List String) → elem k (insert_string a bs) ≡ elem k (a ∷ bs)
unfolding insert_string
elem-insert_string k a [] = refl
elem-insert_string k a (b ∷ bs) = ground (arith, elem-insert_string k a bs)

-- Sorting keeps the elements.
pub elem-sort_strings : (k : String) (as' : List String) → elem k (sort_strings as') ≡ elem k as'
unfolding sort_strings
elem-sort_strings k [] = refl
elem-sort_strings k (a ∷ as') =
    ground (arith, elem-insert_string k a (sort_strings as'), elem-sort_strings k as')
