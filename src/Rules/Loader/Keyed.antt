-- ===== src/Rules/Loader/Keyed.antt =====
-- LoadReader keeps every rule set stored under its name.
use zda.Base.{[], lookup, lookup-put, arith, string_key}
use zda.Rules.{ExprLang, RuleSet, Engine}
use zda.Rules.Loader.{load_reader}
use zda.Rules.Loader.Success.{IsKeyed}

pub IsKeyed-nil : IsKeyed []
unfolding lookup
IsKeyed-nil k rs h = ground arith

pub load_reader-IsKeyed :
    (x : ExprLang) (e : Engine x.Program) (rs : RuleSet)
    → IsKeyed e.rule_sets
    → IsKeyed (load_reader x rs e).rule_sets
unfolding load_reader
load_reader-IsKeyed x e rs keyed k found_rs found =
    ground
      (arith, lookup-put rs.name k rs e.rule_sets, keyed k found_rs, string_key.same_iff rs.name k)
