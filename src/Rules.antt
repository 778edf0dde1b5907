-- ===== src/Rules.antt =====
-- rules/engine.go: rule sets, their compilation in dependency order, and their execution.
-- This file has the data; the child modules have the operations and the theorems.
pub mod Compile
pub mod Loader
pub mod Execute
mod Examples
use zda.Base.{ℕ, String, List, Assoc, Result, Option, Bool, [], ◌∷◌}

-- github.com/expr-lang/expr and the values it computes, which are not part of this repository.
-- `as_bool v` is the type assertion `v.(bool)`.
pub record ExprLang : Type 1 where
  pub Program : Type 0
  pub Value : Type 0
  pub Failure : Type 0
  pub Input : Type 0
  pub compile : String → Result Failure Program
  pub run : Program → Input → Result Failure Value
  pub as_bool : Value → Option Bool

abbrev pub CapabilityValues : Type 0
CapabilityValues = Assoc String String

abbrev pub CompiledCapabilityValues : Type 0 → Type 0
CompiledCapabilityValues P = Assoc String P

pub record Capabilities : Type 0 where
  pub add : Assoc String CapabilityValues
  pub remove : Assoc String CapabilityValues

pub record CompiledCapabilities (P : Type 0) : Type 0 where
  pub add : Assoc String (CompiledCapabilityValues P)
  pub remove : Assoc String (CompiledCapabilityValues P)

pub record Actions : Type 0 where
  pub capabilities : Capabilities

pub record CompiledActions (P : Type 0) : Type 0 where
  pub capabilities : CompiledCapabilities P

-- `rule description filter actions children`; `Rules` is `[]Rule`.
mutual
  pub data Rule : Type 0 where
    rule : String → String → Actions → Rules → Rule

  pub data Rules : Type 0 where
    end : Rules
    item : Rule → Rules → Rules

-- `compiled description filter actions children`; `CompiledRules` is `[]CompiledRule`.
mutual
  pub data CompiledRule (P : Type 0) : Type 0 where
    compiled : String → P → CompiledActions P → CompiledRules P → CompiledRule P

  pub data CompiledRules (P : Type 0) : Type 0 where
    empty : CompiledRules P
    more : CompiledRule P → CompiledRules P → CompiledRules P

-- append(e.Rules, cr...)
unfoldable pub append : {P : Type 0} → CompiledRules P → CompiledRules P → CompiledRules P
append empty cs = cs
append (more c cs) ds = more c (append cs ds)

pub record RuleSet : Type 0 where
  pub name : String
  pub depends_on : List String
  pub rules : Rules

pub record Engine (P : Type 0) : Type 0 where
  pub rule_sets : Assoc String RuleSet
  pub rules : CompiledRules P

-- New()
abbrev pub new : {P : Type 0} → Engine P
new = record { rule_sets = []; rules = empty }
