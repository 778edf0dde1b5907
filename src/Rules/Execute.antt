-- ===== src/Rules/Execute.antt =====
-- Execute and executeRule of rules/engine.go. The output is changed in place and comes back beside
-- an error too.
pub mod Grants
pub mod Present
use zda.Base.{
  String, Bool, true, false, Option, none, some, List, [], ◌∷◌, Assoc, keys, put, delete, Result,
  ok, err, ◌>>=◌, wrap, string_key,
}
use zda.Rules.{
  ExprLang, CompiledCapabilityValues, CompiledActions, CompiledRule, CompiledRules, compiled, empty,
  more, Engine,
}

pub record Output (V : Type 0) : Type 0 where
  pub capabilities : Assoc String (Assoc String V)

pub data ExecuteError (F : Type 0) : Type 0 where
  execution : (description : String) → F → ExecuteError F
  non_boolean : (description : String) → ExecuteError F
  value_errored : (name description : String) → F → ExecuteError F
  child_error : (description : String) → ExecuteError F → ExecuteError F

module _ (x : ExprLang) where
  open x use {Program, Value, Failure, Input, run, as_bool}

  abbrev pub Outcome : Type 0
  Outcome = Option (ExecuteError Failure) × Output Value

  abbrev boolean : String → Option Bool → Result (ExecuteError Failure) Bool
  boolean description none = err (non_boolean description)
  boolean description (some b) = ok b

  -- The filter's run and the type assertion on what it returns.
  unfoldable pub matches : Input → String → Program → Result (ExecuteError Failure) Bool
  matches i description filter = do
    out ← wrap (execution description) (run filter i)
    boolean description (as_bool out)

  -- The inner loop, over its map `values`.
  unfoldable pub run_values :
      Input
      → String
      → Assoc String Value
      → CompiledCapabilityValues Program
      → Result (ExecuteError Failure) (Assoc String Value)
  run_values i description values [] = ok values
  run_values i description values ((name, program) ∷ v) = do
    out ← wrap (value_errored name description) (run program i)
    run_values i description (put name out values) v

  -- The loop over r.Actions.Capabilities.Add.
  unfoldable pub add_capabilities :
      Input → String → Assoc String (CompiledCapabilityValues Program) → Output Value → Outcome
  unfolding run_values
  add_capabilities i description [] o = (none, o)
  add_capabilities i description ((k, v) ∷ add) o = elim (run_values i description [] v) [
    | err e ↦ (some e, o)
    | ok values ↦
        add_capabilities i description add (record { capabilities = put k values o.capabilities })
  ]

  -- The loop over r.Actions.Capabilities.Remove.
  unfoldable pub remove_capabilities : List String → Output Value → Output Value
  remove_capabilities [] o = o
  remove_capabilities (k ∷ ks) o =
      remove_capabilities ks (record { capabilities = delete k o.capabilities })

  abbrev pub in_child : String → Outcome → Outcome
  in_child description (none, o) = (none, o)
  in_child description (some e, o) = (some (child_error description e), o)

  -- if err := …; err != nil { return err }
  abbrev pub then_run : Outcome → (Output Value → Outcome) → Outcome
  then_run (none, o) f = f o
  then_run (some e, o) f = (some e, o)

  -- The error of a filter, or nothing where it is false, or else the rest of executeRule.
  abbrev pub when_matched :
      Result (ExecuteError Failure) Bool → Output Value → (Output Value → Outcome) → Outcome
  when_matched (err e) o rest = (some e, o)
  when_matched (ok false) o rest = (none, o)
  when_matched (ok true) o rest = rest o

  unfoldable mutual
    -- executeRule
    pub execute_rule : Input → CompiledRule Program → Output Value → Outcome
    execute_rule i (compiled description filter actions children) o =
        when_matched (matches i description filter) o λ o'.
          then_run (add_capabilities i description actions.capabilities.add o') λ o''.
            in_child description (
              execute_rules i children (remove_capabilities (keys actions.capabilities.remove) o''))

    -- The loops over the children and over e.Rules.
    pub execute_rules : Input → CompiledRules Program → Output Value → Outcome
    execute_rules i empty o = (none, o)
    execute_rules i (more r rs) o = then_run (execute_rule i r o) (execute_rules i rs)

  -- Execute
  unfoldable pub execute : Engine Program → Input → Output Value × Option (ExecuteError Failure)
  unfolding execute_rules
  execute e i =
      let (error, o) = execute_rules i e.rules (record { capabilities = [] }) in (o, error)
