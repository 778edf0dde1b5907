-- ===== src/Persistence/Examples.antt =====
-- A gateway that finds a node with two devices in its sections.
use zda.Base.{
  ℕ, String, ◌≡◌, ◌≢◌, refl, Option, none, some, List, [], ◌∷◌, ◌==◌, if◌then◌else◌, string_key,
  nat_key, arith, lookup, All-lookup,
}
use zda.Table.Text.{itoa}
use zda.Table.Mirror.{Mirrors}
use zda.Table.Ops.{node_path, device_path}
use zda.Provider.{event, node_join, node_leave}
use zda.Provider.Examples.{small}
use zda.Provider.Loop.{fresh}
use zda.Enumerate.Factory.{create, makers}
use zda.Enumerate.Examples.{toy}
use zda.Persistence.Parse.{parse_uint, atoi}
use zda.Persistence.Keys.{device_keys, device_list-itoa}
use zda.Persistence.{Reader, node_list, device_list, provider_load, start_provider_loop}
use zda.Persistence.Kept.{Contents, IsKept, IsLoadable}
use zda.Persistence.Whole.{IsRestored, provider_load-IsRestored, start_provider_loop-Mirrors}

-- The keys by the depth of a section; one key is no address, and one no number.
abbrev keys_at : List String → List String
keys_at [] = []
keys_at (a ∷ []) = "0000000000000007" ∷ "oops" ∷ []
keys_at (a ∷ b ∷ []) = "Device" ∷ []
keys_at (a ∷ b ∷ c ∷ []) = "0" ∷ "x1" ∷ "1" ∷ []
keys_at (a ∷ b ∷ c ∷ d ∷ rest) = "Identify" ∷ []

-- The first device has a number.
abbrev int_at : List String → Option ℕ
int_at [] = none
int_at (a ∷ []) = none
int_at (a ∷ b ∷ []) = none
int_at (a ∷ b ∷ c ∷ []) = none
int_at (a ∷ b ∷ c ∷ d ∷ rest) = if d == "0" then some 3 else none

abbrev recorded : Reader small
recorded = record {
  section_keys = λ path store. keys_at path;
  get_int = λ path key store. int_at path;
  get_string = λ path key store. some "ZCLIdentify";
}

program : Unit {0}
unfolding parse_uint atoi node_list device_list node_path device_path create lookup
program = tt

abbrev contents : Contents small toy recorded
contents = record {
  nodes = 7 ∷ [];
  devices = λ a. 0 ∷ 1 ∷ [];
  id = λ a s. if itoa s == "0" then some 3 else none;
}

contents-IsKept : IsKept small toy recorded contents (λ store. Unit)
unfolding program
contents-IsKept = record {
  nodes_known = λ store good. refl;
  devices_known = λ store a good listed. refl;
  id_known = λ store a s good listed. refl;
  section_kept = λ store p good place. tt;
  set_int_kept = λ store a s n good same. tt;
  init_kept = λ store a s name i good listed. tt;
  load_kept = λ store before a s name i good listed. tt;
}

toy-IsLoadable : IsLoadable small toy recorded
unfolding program
toy-IsLoadable = record {
  not_built_in = λ name i made.
      All-lookup (λ v. (v ≢ 1) × (v ≢ 2)) name (makers small toy) (ground arith) made;
  init_capability = λ a s path i store. refl;
  load_capability = λ i store. refl;
}

provider_load-IsRestored_example :
    IsRestored small toy recorded contents
      (λ store. Unit)
      (provider_load small toy recorded (fresh small []))
provider_load-IsRestored_example =
    provider_load-IsRestored small toy recorded contents (λ store. Unit) [] contents-IsKept
      toy-IsLoadable ((refl, tt), λ a there. (refl, (refl, tt))) tt

start_provider_loop-Mirrors_example : Mirrors small (
    start_provider_loop small toy recorded
      (event (node_join 9) ∷ event (node_leave 7) ∷ [])
      (fresh small []))
start_provider_loop-Mirrors_example =
    start_provider_loop-Mirrors small toy recorded contents (λ store. Unit)
      (event (node_join 9) ∷ event (node_leave 7) ∷ []) [] contents-IsKept toy-IsLoadable
      ((refl, tt), λ a there. (refl, (refl, tt))) tt

device_list-itoa_example : device_list (device_keys (0 ∷ 17 ∷ 255 ∷ [])) ≡ 0 ∷ 17 ∷ 255 ∷ []
device_list-itoa_example =
    device_list-itoa (0 ∷ 17 ∷ 255 ∷ []) (omega arith, (omega arith, (omega arith, tt)))

-- Two keys can name the same device, since its number is cut to a byte.
same_device : device_list ("1" ∷ "257" ∷ "-255" ∷ []) ≡ 1 ∷ 1 ∷ 1 ∷ []
unfolding program
same_device = refl
