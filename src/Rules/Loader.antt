-- ===== src/Rules/Loader.antt =====
-- LoadReader, CompileRules and compileRuleSet of rules/engine.go. `Progress` is what these
-- change: the map `alreadyLoaded` and the field `Rules`. A method that returns an error leaves
-- the rules that it has appended before it, so the progress comes back beside the error.
pub mod Sort
pub mod Steps
pub mod Success
pub mod Order
pub mod Needs
pub mod Cycles
pub mod Failure
pub mod Keyed
use zda.Base.{
  ℕ, zero, suc, String, Bool, true, false, Option, none, some, List, [], ◌∷◌, ◌++◌, Assoc, keys,
  lookup, put, elem, length, ok, err, if◌then◌else◌, string_key,
}
use zda.Rules.{ExprLang, CompiledRules, append, RuleSet, Engine}
use zda.Rules.Compile.{CompileError, compile_rules}
use Sort.{sort_strings}

pub data EngineError (F : Type 0) : Type 0 where
  missing_dependency : (trail : List String) (name : String) → EngineError F
  circular_dependency : (trail : List String) (name : String) → EngineError F
  compilation : (trail : List String) → CompileError F → EngineError F
  out_of_fuel : EngineError F

pub record Progress (P : Type 0) : Type 0 where
  pub already_loaded : Assoc String Bool
  pub rules : CompiledRules P

-- alreadyLoaded[k], which is false on a missing key
abbrev or_false : Option Bool → Bool
or_false none = false
or_false (some b) = b

unfoldable pub is_loaded : {P : Type 0} → Progress P → String → Bool
is_loaded p k = or_false (lookup k p.already_loaded)

-- if err := …; err != nil { return err }, over the state
abbrev pub after :
    {F P : Type 0}
    → Option (EngineError F) × Progress P
    → (Progress P → Option (EngineError F) × Progress P)
    → Option (EngineError F) × Progress P
after (none, p) f = f p
after (some e, p) f = (some e, p)

module _ (x : ExprLang) (sets : Assoc String RuleSet) where
  open x use {Program, Failure}

  abbrev pub Outcome : Type 0
  Outcome = Option (EngineError Failure) × Progress Program

  -- The loop over rs.DependsOn; `rec` is the recursive call, with its trail.
  unfoldable pub visit_dependencies :
      (String → Progress Program → Outcome) → List String → List String → Progress Program → Outcome
  visit_dependencies rec trail [] p = (none, p)
  visit_dependencies rec trail (k ∷ ks) p =
      if elem k trail
      then (some (circular_dependency trail k), p)
      else after (if is_loaded p k then (none, p) else rec k p) (visit_dependencies rec trail ks)

  -- The end of compileRuleSet, from `compileRules(rs.Rules)` on.
  unfoldable pub finish_rule_set : List String → String → RuleSet → Progress Program → Outcome
  finish_rule_set trail name rs p = elim (compile_rules x rs.rules) [
    | err e ↦ (some (compilation trail e), p)
    | ok cr ↦ (
      none,
      record { already_loaded = put name true p.already_loaded; rules = append p.rules cr },
    )
  ]

  -- compileRuleSet, on fuel for the depth of its calls.
  unfoldable pub compile_rule_set : ℕ → List String → String → Progress Program → Outcome
  unfolding visit_dependencies finish_rule_set
  compile_rule_set zero trail name p = (some out_of_fuel, p)
  compile_rule_set (suc fuel) trail name p = elim (lookup name sets) [
    | none ↦ (some (missing_dependency trail name), p)
    | some rs ↦
        let trail' = trail ++ rs.name ∷ [] in
        after (visit_dependencies (compile_rule_set fuel trail') trail' rs.depends_on p)
          (finish_rule_set trail' name rs)
  ]

  -- The loop of CompileRules over the sorted names.
  unfoldable pub compile_names : ℕ → List String → Progress Program → Outcome
  unfolding compile_rule_set
  compile_names fuel [] p = (none, p)
  compile_names fuel (k ∷ ks) p =
      after (if is_loaded p k then (none, p) else compile_rule_set fuel [] k p)
        (compile_names fuel ks)

abbrev pub all_unloaded : List String → Assoc String Bool
all_unloaded [] = []
all_unloaded (k ∷ ks) = (k, false) ∷ all_unloaded ks

-- One call can stand for each rule set, and one more finds a missing dependency.
abbrev pub enough_fuel : Assoc String RuleSet → ℕ
enough_fuel sets = suc (length (keys sets))

abbrev pub start : {P : Type 0} → Engine P → Progress P
start e = record { already_loaded = all_unloaded (keys e.rule_sets); rules = e.rules }

module _ (x : ExprLang) where
  open x use {Program, Failure}

  -- CompileRules: the error and the engine after it.
  unfoldable pub compile_all : Engine Program → Option (EngineError Failure) × Engine Program
  unfolding compile_names sort_strings
  compile_all e =
      let (error, p) =
        compile_names x e.rule_sets (enough_fuel e.rule_sets) (sort_strings (keys e.rule_sets))
          (start e) in
      (error, record e { rules = p.rules })

  -- LoadReader after the JSON decoder, a part of the standard library, gave the rule set.
  unfoldable pub load_reader : RuleSet → Engine Program → Engine Program
  load_reader rs e = record e { rule_sets = put rs.name rs e.rule_sets }
