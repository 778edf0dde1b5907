-- ===== src/Rules/Compile.antt =====
-- compileRules, compileActions, compileActionParameters and compileCapabilityValue of
-- rules/engine.go. An error keeps the texts that `fmt.Errorf` joins as a value.
use zda.Base.{String, Assoc, [], ◌∷◌, put, Result, ok, ◌>>=◌, wrap, string_key}
use zda.Rules.{
  ExprLang, CapabilityValues, CompiledCapabilityValues, Actions, CompiledActions, Rule, Rules, rule,
  end, item, CompiledRule, CompiledRules, compiled, empty, more,
}

pub data CompileError (F : Type 0) : Type 0 where
  filter_compilation : F → CompileError F
  in_rule : String → CompileError F → CompileError F
  add_capability remove_capability : CompileError F → CompileError F
  in_capability : String → CompileError F → CompileError F
  attribute : String → F → CompileError F

module _ (x : ExprLang) where
  open x use {Program, Failure, compile}

  -- The loop of compileCapabilityValue, over its map `ret`.
  compile_values :
      CompiledCapabilityValues Program
      → CapabilityValues
      → Result (CompileError Failure) (CompiledCapabilityValues Program)
  compile_values ret [] = ok ret
  compile_values ret ((k, v) ∷ c) = do
    ca ← wrap (attribute k) (compile v)
    compile_values (put k ca ret) c

  unfoldable pub compile_capability_value :
      CapabilityValues → Result (CompileError Failure) (CompiledCapabilityValues Program)
  unfolding compile_values
  compile_capability_value = compile_values []

  -- The loop of compileActionParameters.
  compile_parameters :
      Assoc String (CompiledCapabilityValues Program)
      → Assoc String CapabilityValues
      → Result (CompileError Failure) (Assoc String (CompiledCapabilityValues Program))
  compile_parameters ret [] = ok ret
  compile_parameters ret ((k, val) ∷ values) = do
    ccv ← wrap (in_capability k) (compile_capability_value val)
    compile_parameters (put k ccv ret) values

  unfoldable pub compile_action_parameters :
      Assoc String CapabilityValues
      → Result (CompileError Failure) (Assoc String (CompiledCapabilityValues Program))
  unfolding compile_parameters compile_capability_value
  compile_action_parameters = compile_parameters []

  unfoldable pub compile_actions : Actions → Result (CompileError Failure) (CompiledActions Program)
  unfolding compile_action_parameters
  compile_actions a = do
    add ← wrap add_capability (compile_action_parameters a.capabilities.add)
    remove ← wrap remove_capability (compile_action_parameters a.capabilities.remove)
    ok (record { capabilities = record { add = add; remove = remove } })

  unfoldable mutual
    unfolding compile_actions

    pub compile_rule : Rule → Result (CompileError Failure) (CompiledRule Program)
    compile_rule (rule description filter actions children) = do
      cf ← wrap filter_compilation (compile filter)
      child_compiled_rules ← wrap (in_rule description) (compile_rules children)
      ca ← wrap (in_rule description) (compile_actions actions)
      ok (compiled description cf ca child_compiled_rules)

    pub compile_rules : Rules → Result (CompileError Failure) (CompiledRules Program)
    compile_rules end = ok empty
    compile_rules (item r rs) = do c ← compile_rule r; cs ← compile_rules rs; ok (more c cs)
