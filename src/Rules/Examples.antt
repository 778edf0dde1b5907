-- ===== src/Rules/Examples.antt =====
-- Rule sets on which the theorems about the rules engine are applied, and tests.
use text.Mathlib.TextEquality.{eq_iff}
use zda.Base.{
  ◌≡◌, ◌≢◌, ◌⊎◌, inl, inr, refl, String, Bool, true, false, none, some, [], ◌∷◌, lookup, put, elem,
  is_some, ok, err, arith, if◌then◌else◌, ◌==◌, string_key,
}
use zda.Rules.{
  ExprLang, Actions, CompiledRule, compiled, empty, rule, end, item, append, RuleSet, Engine, new,
}
use zda.Rules.Compile.{CompileError, compile_rules, compile_actions}
use zda.Rules.Loader.{
  EngineError, circular_dependency, out_of_fuel, is_loaded, compile_all, load_reader,
}
use zda.Rules.Loader.Needs.{Needs, direct, through}
use zda.Rules.Loader.Success.{IsKeyed}
use zda.Rules.Loader.Order.{Compiles, compile_all-Compiles}
use zda.Rules.Loader.Cycles.{compile_all-cyclic}
use zda.Rules.Loader.Failure.{IsTrue, compile_all-IsTrue, compile_all_succeeds}
use zda.Rules.Loader.Keyed.{IsKeyed-nil, load_reader-IsKeyed}
use zda.Rules.Execute.{
  matches, run_values, add_capabilities, remove_capabilities, execute_rules, execute,
}
use zda.Rules.Execute.Grants.{Fires, here, later, below, rules_removed, Grants, execute-Grants}
use zda.Rules.Execute.Present.{execute_complete}

-- A language of two expressions: "big" tests the input, "self" is true; "(" does not compile.
abbrev toy : ExprLang
toy = record {
  Program = String;
  Value = Bool;
  Failure = Unit {0};
  Input = Bool;
  compile = λ s. if s == "(" then err tt else ok s;
  run = λ p i. ok (if p == "big" then i else true);
  as_bool = λ b. some b;
}

abbrev adds : String → Actions
adds k = record {
  capabilities = record { add = (k, ("ZigbeeEndpoint", "self") ∷ []) ∷ []; remove = [] };
}

abbrev generic : RuleSet
generic = record {
  name = "generic";
  depends_on = [];
  rules = item (rule "product" "self" (adds "GenericProductInformation") end) end;
}

abbrev zcl : RuleSet
zcl = record {
  name = "zcl";
  depends_on = "generic" ∷ [];
  rules = item (rule "identify" "big" (adds "ZCLIdentify") end) end;
}

abbrev broken : RuleSet
broken = record { name = "generic"; depends_on = "zcl" ∷ []; rules = end }

abbrev loaded : Engine String
unfolding load_reader put
loaded = load_reader toy zcl (load_reader toy generic new)

abbrev cyclic : Engine String
unfolding load_reader put
cyclic = load_reader toy zcl (load_reader toy broken new)

program : Unit {0}
unfolding load_reader put lookup compile_all compile_rules compile_actions append is_loaded execute
    matches run_values add_capabilities remove_capabilities execute_rules
program = tt

loaded-IsKeyed : IsKeyed loaded.rule_sets
unfolding load_reader put
loaded-IsKeyed =
    load_reader-IsKeyed toy (load_reader toy generic new) zcl
      (load_reader-IsKeyed toy new generic IsKeyed-nil)

cyclic-IsKeyed : IsKeyed cyclic.rule_sets
unfolding load_reader put
cyclic-IsKeyed =
    load_reader-IsKeyed toy (load_reader toy broken new) zcl
      (load_reader-IsKeyed toy new broken IsKeyed-nil)

compile_all-Compiles_example : Compiles toy loaded (compile_all toy loaded).1
unfolding program
compile_all-Compiles_example =
    compile_all-Compiles toy loaded (compile_all toy loaded).1 loaded-IsKeyed refl

-- The rule set "zcl" needs "generic", which needs "zcl".
cyclic-Needs : Needs cyclic.rule_sets "zcl" "zcl"
unfolding program
cyclic-Needs =
    through {d = "generic"} (direct {rs = zcl} refl refl) (direct {rs = broken} refl refl)

compile_all-cyclic_example :
    (error : EngineError Unit) × ((compile_all toy cyclic).0 ≡ some error)
    × (error ≢ out_of_fuel)
    × IsTrue toy cyclic.rule_sets error
compile_all-cyclic_example = compile_all-cyclic toy cyclic "zcl" cyclic-IsKeyed cyclic-Needs

compile_all-IsTrue_example :
    IsTrue toy cyclic.rule_sets (circular_dependency ("generic" ∷ "zcl" ∷ []) "generic")
unfolding program
compile_all-IsTrue_example =
    compile_all-IsTrue toy cyclic (compile_all toy cyclic).1
      (circular_dependency ("generic" ∷ "zcl" ∷ []) "generic") cyclic-IsKeyed refl

loaded-Needs : {k d : String} → Needs loaded.rule_sets k d → (k ≡ "zcl") × (d ≡ "generic")
unfolding program
loaded-Needs (direct {k} {d} found m) =
    ground (arith, eq_iff "generic" k, eq_iff "zcl" k, eq_iff "generic" d)
loaded-Needs (through a b) =
    let first = loaded-Needs a in
    let rest = loaded-Needs b in absurd (ground (arith, eq_iff "generic" "zcl", first, rest))

generic_found : lookup "generic" loaded.rule_sets ≢ none
unfolding program
generic_found absent = ground arith

loaded_rule_sets :
    (k : String) (rs : RuleSet) → lookup k loaded.rule_sets ≡ some rs → (rs ≡ generic) ⊎ (rs ≡ zcl)
unfolding program
loaded_rule_sets k rs found = ground (arith, eq_iff "generic" k, eq_iff "zcl" k)

both_compile :
    (rs : RuleSet) (error : CompileError Unit)
    → (rs ≡ generic) ⊎ (rs ≡ zcl)
    → compile_rules toy rs.rules ≢ err error
unfolding program
both_compile rs error (inl e) = rw e (λ failed. ground arith)
both_compile rs error (inr e) = rw e (λ failed. ground arith)

compile_all_succeeds_example : (compile_all toy loaded).0 ≡ none
compile_all_succeeds_example =
    compile_all_succeeds toy loaded loaded-IsKeyed acyclic closed compiles
  where
    acyclic : (k : String) → ¬ Needs loaded.rule_sets k k
    acyclic k n = let both = loaded-Needs n in ground (arith, eq_iff "generic" "zcl", both)

    closed : (k d : String) → Needs loaded.rule_sets k d → lookup d loaded.rule_sets ≢ none
    closed k d n = rw (loaded-Needs n).1 generic_found

    compiles :
        (k : String) (rs : RuleSet) (error : CompileError Unit)
        → lookup k loaded.rule_sets ≡ some rs
        → compile_rules toy rs.rules ≢ err error
    compiles k rs error found = both_compile rs error (loaded_rule_sets k rs found)

execute-Grants_example :
    Grants toy true (compile_all toy loaded).1.rules "ZCLIdentify" (("ZigbeeEndpoint", true) ∷ [])
unfolding program
execute-Grants_example =
    execute-Grants toy (compile_all toy loaded).1 true
      (execute toy (compile_all toy loaded).1 true).0 "ZCLIdentify" (("ZigbeeEndpoint", true) ∷ [])
      refl refl

identify_rule : CompiledRule String
unfolding program
identify_rule =
    compiled "identify" "big"
      (record {
        capabilities = record {
          add = ("ZCLIdentify", ("ZigbeeEndpoint", "self") ∷ []) ∷ [];
          remove = [];
        };
      })
      empty

not_in_empty : {q : CompiledRule String} → ¬ Fires toy true empty q
not_in_empty f = elim f [ ]

-- Only the two rules of the two rule sets can fire, and neither removes a capability.
nothing_removed :
    (q : CompiledRule String)
    → Fires toy true (compile_all toy loaded).1.rules q
    → elem "ZCLIdentify" (rules_removed toy q) ≡ false
unfolding program
nothing_removed q (here fired) = refl
nothing_removed q (later (here fired)) = refl
nothing_removed q (later (later f)) = absurd (not_in_empty f)
nothing_removed q (later (below fired f)) = absurd (not_in_empty f)
nothing_removed q (below fired f) = absurd (not_in_empty f)

execute_complete_example :
    is_some (lookup "ZCLIdentify" (execute toy (compile_all toy loaded).1 true).0.capabilities)
    ≡ true
unfolding program identify_rule
execute_complete_example =
    execute_complete toy (compile_all toy loaded).1 true
      (execute toy (compile_all toy loaded).1 true).0 "ZCLIdentify" identify_rule refl
      (later (here refl)) refl nothing_removed
