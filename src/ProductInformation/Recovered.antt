-- ===== src/ProductInformation/Recovered.antt =====
-- Load of what Enumerate stores.
use zda.Base.{
  String, Bool, true, false, ◌≡◌, refl, ap, sym, ◌∙◌, false≢true, Option, none, some, none≢some, [],
  ◌∷◌, ◌==◌, if◌then◌else◌, string_key, not,
}
use zda.Implcaps.{string, endpoint, bool, other_setting, Settings}
use zda.ProductInformation.{
  Section, ProductInfo, ProductInformation, Progress, init, stored, load, take_string, unless_empty,
  take_all, no_product, concluded, enumerate, get,
}

-- The section has what the new information has, and an empty text for what it has not.
abbrev IsStored : Progress → Type 0
IsStored p = stored p.s ≡ p.new_pi

take_string-IsStored : (k v : String) (p : Progress) → IsStored p → IsStored (take_string k v p)
unfolding take_string
take_string-IsStored k v p e =
    by_key (k == "Name") (k == "Manufacturer") (k == "Version") (k == "Serial")
  where
    by_key :
        (n m ve s : Bool)
        → IsStored (
            if n
            then record {
              s = record p.s { name = some v };
              new_pi = record p.new_pi { name = v };
              attach = true;
            }
            else if m
            then record {
              s = record p.s { manufacturer = some v };
              new_pi = record p.new_pi { manufacturer = v };
              attach = true;
            }
            else if ve
            then record {
              s = record p.s { version = some v };
              new_pi = record p.new_pi { version = v };
              attach = true;
            }
            else if s
            then record {
              s = record p.s { serial = some v };
              new_pi = record p.new_pi { serial = v };
              attach = true;
            }
            else p)
    by_key true m ve s = ap {A = ProductInfo} (λ i. record i { name = v }) e
    by_key false true ve s = ap {A = ProductInfo} (λ i. record i { manufacturer = v }) e
    by_key false false true s = ap {A = ProductInfo} (λ i. record i { version = v }) e
    by_key false false false true = ap {A = ProductInfo} (λ i. record i { serial = v }) e
    by_key false false false false = e

unless_empty-IsStored : (k v : String) (p : Progress) → IsStored p → IsStored (unless_empty k v p)
unless_empty-IsStored k v p e = by_test (not (v == ""))
  where
    by_test : (some_text : Bool) → IsStored (if some_text then take_string k v p else p)
    by_test true = take_string-IsStored k v p e
    by_test false = e

take_all-IsStored : (m : Settings) (p : Progress) → IsStored p → IsStored (take_all m p).1
unfolding take_all
take_all-IsStored [] p e = e
take_all-IsStored ((k, string v) ∷ m) p e =
    take_all-IsStored m (unless_empty k v p) (unless_empty-IsStored k v p e)
take_all-IsStored ((k, endpoint n) ∷ m) p e = e
take_all-IsStored ((k, bool b) ∷ m) p e = e
take_all-IsStored ((k, other_setting) ∷ m) p e = e

product_of_attached :
    (attach : Bool) (found : ProductInfo) (before : Option ProductInfo)
    → attach ≡ true
    → (if attach then some found else before) ≡ some found
product_of_attached true found before e = refl
product_of_attached false found before e = absurd (false≢true e)

concluded_stored :
    (g g' : ProductInformation) (o : Option String × Progress)
    → IsStored o.1
    → concluded g o ≡ ((true, none), g')
    → get (load (init g'.s)).1 ≡ get g'
unfolding load init get
concluded_stored g g' (some k, p) kept q = absurd (none≢some (sym (ap (λ r. r.0.1) q)))
concluded_stored g g' (none, p) kept q =
    ap (λ (s : Section). some (stored s)) (sym (ap (λ r. r.1.s) q))
    ∙ ap some kept
    ∙ sym (product_of_attached p.attach p.new_pi g.pi (ap (λ r. r.0.0) q))
    ∙ ap (λ r. r.1.pi) q

-- When the section has no text yet, and Enumerate attaches without an error, Load in a new process
-- that is given the same section attaches, and Get there is what it is after Enumerate.
pub product_information_loads :
    (m : Settings) (g g' : ProductInformation)
    → stored g.s ≡ no_product
    → enumerate m g ≡ ((true, none), g')
    → (load (init g'.s)).0 ≡ true × get (load (init g'.s)).1 ≡ get g'
unfolding enumerate load
product_information_loads m g g' empty q =
    let start : Progress = record { s = g.s; new_pi = no_product; attach = false } in
    (refl, concluded_stored g g' (take_all m start) (take_all-IsStored m start empty) q)
