-- ===== src/ProductInformation.antt =====
-- implcaps/generic/product_information/impl.go: the product information of a device, as the rules
-- give it.
pub mod Recovered
mod Examples
use zda.Base.{
  String, Bool, true, false, not, Option, none, some, List, [], ◌∷◌, ◌==◌, if◌then◌else◌, is_some,
  string_key,
}
use zda.Table.{DetachType}
use zda.Implcaps.{Setting, string, endpoint, bool, other_setting, Settings}

-- The keys of the section of an Implementation.
pub record Section : Type 0 where
  pub name : Option String
  pub manufacturer : Option String
  pub version : Option String
  pub serial : Option String

-- capabilities.ProductInfo
pub record ProductInfo : Type 0 where
  pub name : String
  pub manufacturer : String
  pub version : String
  pub serial : String

-- Implementation; `pi` is none for the nil pointer.
pub record ProductInformation : Type 0 where
  pub s : Section
  pub pi : Option ProductInfo

-- NewProductInformation and Init
unfoldable pub init : Section → ProductInformation
init s = record { s = s; pi = none }

abbrev pub or_empty : Option String → String
or_empty none = ""
or_empty (some v) = v

-- The fields that Load reads.
abbrev pub stored : Section → ProductInfo
stored s = record {
  name = or_empty s.name;
  manufacturer = or_empty s.manufacturer;
  version = or_empty s.version;
  serial = or_empty s.serial;
}

-- Load, that always attaches.
unfoldable pub load : ProductInformation → Bool × ProductInformation
load g = (true, record g { pi = some (stored g.s) })

-- What the loop of Enumerate changes.
pub record Progress : Type 0 where
  pub s : Section
  pub new_pi : ProductInfo
  pub attach : Bool

-- The switch on the key.
unfoldable pub take_string : String → String → Progress → Progress
take_string k v p =
    if k == "Name"
    then record {
      s = record p.s { name = some v };
      new_pi = record p.new_pi { name = v };
      attach = true;
    }
    else if k == "Manufacturer"
    then record {
      s = record p.s { manufacturer = some v };
      new_pi = record p.new_pi { manufacturer = v };
      attach = true;
    }
    else if k == "Version"
    then record {
      s = record p.s { version = some v };
      new_pi = record p.new_pi { version = v };
      attach = true;
    }
    else if k == "Serial"
    then record {
      s = record p.s { serial = some v };
      new_pi = record p.new_pi { serial = v };
      attach = true;
    }
    else p

abbrev pub unless_empty : String → String → Progress → Progress
unless_empty k v p = if not (v == "") then take_string k v p else p

-- The loop of Enumerate: the key whose value is no string, if there is one.
unfoldable pub take_all : Settings → Progress → Option String × Progress
take_all [] p = (none, p)
take_all ((k, string v) ∷ m) p = take_all m (unless_empty k v p)
take_all ((k, endpoint e) ∷ m) p = (some k, p)
take_all ((k, bool b) ∷ m) p = (some k, p)
take_all ((k, other_setting) ∷ m) p = (some k, p)

abbrev pub no_product : ProductInfo
no_product = record { name = ""; manufacturer = ""; version = ""; serial = "" }

abbrev pub concluded :
    ProductInformation → Option String × Progress → (Bool × Option String) × ProductInformation
concluded g (some k, p) = ((is_some g.pi, some k), record g { s = p.s })
concluded g (none, p) =
    ((p.attach, none), record { s = p.s; pi = if p.attach then some p.new_pi else g.pi })

-- Enumerate: whether to attach, and the error.
unfoldable pub enumerate :
    Settings → ProductInformation → (Bool × Option String) × ProductInformation
enumerate m g = concluded g (take_all m (record { s = g.s; new_pi = no_product; attach = false }))

-- Detach
unfoldable pub detach : DetachType → ProductInformation → ProductInformation
detach type g = g

-- Get, that panics on the nil pointer.
unfoldable pub get : ProductInformation → Option ProductInfo
get g = g.pi
