-- ===== src/Rules/Loader/Needs.antt =====
-- The dependency relation between rule sets, through any number of `DependsOn` entries.
use zda.Base.{◌≡◌, String, true, some, Assoc, lookup, elem, string_key}
use zda.Rules.{RuleSet}

pub data Needs (sets : Assoc String RuleSet) : String → String → Type 0 where
  direct :
      {k d : String} {rs : RuleSet}
      → lookup k sets ≡ some rs
      → elem d rs.depends_on ≡ true
      → Needs sets k d
  through : {k d c : String} → Needs sets k d → Needs sets d c → Needs sets k c
