-- ===== src/ProductInformation/Examples.antt =====
-- The product information at concrete settings.
use zda.Base.{◌≡◌, refl, true, none, some, [], ◌∷◌, string_key}
use zda.Implcaps.{Settings, string, bool}
use zda.ProductInformation.{
  Section, ProductInformation, init, load, enumerate, take_all, take_string, get,
}
use zda.ProductInformation.Recovered.{product_information_loads}

abbrev no_keys : Section
no_keys = record { name = none; manufacturer = none; version = none; serial = none }

abbrev full : Settings
full = ("Name", string "Hue") ∷ ("Serial", string "") ∷ ("Version", string "2") ∷ []

abbrev fewer : Settings
fewer = ("Name", string "Hue") ∷ []

abbrev new_information : ProductInformation
new_information = record { s = no_keys; pi = none }

abbrev enumerated : ProductInformation
enumerated = (enumerate full new_information).1

product_information_loads_example :
    ((load (init enumerated.s)).0 ≡ true) × (get (load (init enumerated.s)).1 ≡ get enumerated)
unfolding enumerate take_all take_string
product_information_loads_example =
    product_information_loads full new_information enumerated refl refl

-- A setting that the next enumeration has no more is still in the section, and Load finds it.
enumerated_again :
    get (enumerate fewer enumerated).1
    ≡ some (record { name = "Hue"; manufacturer = ""; version = ""; serial = "" })
unfolding enumerate take_all take_string get
enumerated_again = refl

loaded_again :
    get (load (init (enumerate fewer enumerated).1.s)).1
    ≡ some (record { name = "Hue"; manufacturer = ""; version = "2"; serial = "" })
unfolding enumerate take_all take_string get init load
loaded_again = refl

-- The value of a setting is no text: what comes before it is in the section, and not in Get.
half_way :
    get (enumerate (("Name", string "Hue") ∷ ("Serial", bool true) ∷ []) new_information).1 ≡ none
unfolding enumerate take_all take_string get
half_way = refl
