-- ===== src/Rules/Loader/Steps.antt =====
-- What CompileRules promises, apart from its recursion: rule sets are loaded one at a time, each
-- once, when all that it depends on is loaded. A relation on `Progress`, and its laws.
use zda.Base.{
  ◌≡◌, refl, String, true, false, some, List, [], ◌∷◌, ◌++◌, ◌||◌, Assoc, lookup, put, lookup-put,
  elem, ok, arith, All, All-map, if◌then◌else◌, ◌==◌, string_key,
}
use zda.Rules.{ExprLang, CompiledRules, append, RuleSet}
use zda.Rules.Compile.{compile_rules}
use zda.Rules.Loader.{Progress, is_loaded}

abbrev pub AllLoaded : {P : Type 0} → Progress P → List String → Type 0
AllLoaded p = All (λ k. is_loaded p k ≡ true)

abbrev pub NoneLoaded : {P : Type 0} → Progress P → List String → Type 0
NoneLoaded p = All (λ k. is_loaded p k ≡ false)

abbrev pub add_rule_set : {P : Type 0} → String → CompiledRules P → Progress P → Progress P
add_rule_set k cr p = record {
  already_loaded = put k true p.already_loaded;
  rules = append p.rules cr;
}

pub loaded-add :
    {P : Type 0} (k j : String) (cr : CompiledRules P) (p : Progress P)
    → is_loaded (add_rule_set k cr p) j ≡ (if k == j then true else is_loaded p j)
unfolding is_loaded
loaded-add k j cr p = rw lookup-put (ground arith)

module _ (x : ExprLang) (sets : Assoc String RuleSet) where
  open x use {Program}

  -- One rule set is loaded.
  pub record Loads (k : String) (p q : Progress Program) : Type 0 where
    pub rs : RuleSet
    pub found : lookup k sets ≡ some rs
    pub fresh : is_loaded p k ≡ false
    pub deps_loaded : AllLoaded p rs.depends_on
    pub cr : CompiledRules Program
    pub rules_compiled : compile_rules x rs.rules ≡ ok cr
    pub result : q ≡ add_rule_set k cr p

  -- The named rule sets are loaded, in this order.
  pub data Steps : Progress Program → List String → Progress Program → Type 0 where
    done : {p : Progress Program} → Steps p [] p
    step :
        {p q r : Progress Program} {k : String} {ks : List String}
        → Loads k p q
        → Steps q ks r
        → Steps p (k ∷ ks) r

  pub Steps-append :
      {p q r : Progress Program} {ks js : List String}
      → Steps p ks q
      → Steps q js r
      → Steps p (ks ++ js) r
  Steps-append done t = t
  Steps-append (step l s) t = step l (Steps-append s t)

  pub loaded-Loads :
      {p q : Progress Program} {k : String} (j : String)
      → Loads k p q
      → is_loaded q j ≡ (if k == j then true else is_loaded p j)
  loaded-Loads {p} {k} j l = rw l.result (loaded-add k j l.cr p)

  -- What is loaded at the end: what was, and the names of the steps.
  pub loaded-Steps :
      {p q : Progress Program} {ks : List String} (j : String)
      → Steps p ks q
      → is_loaded q j ≡ (elem j ks || is_loaded p j)
  loaded-Steps j done = refl
  loaded-Steps j (step l s) = ground (arith, loaded-Loads j l, loaded-Steps j s)

  pub Steps-keeps :
      {p q : Progress Program} {ks : List String} (j : String)
      → Steps p ks q
      → is_loaded p j ≡ true
      → is_loaded q j ≡ true
  Steps-keeps j s h = ground (arith, loaded-Steps j s)

  pub Steps-AllLoaded :
      {p q : Progress Program} {ks : List String} (js : List String)
      → Steps p ks q
      → AllLoaded p js
      → AllLoaded q js
  Steps-AllLoaded {p} {q} js s =
      All-map (λ k. is_loaded p k ≡ true) (λ k. is_loaded q k ≡ true) js (λ k. Steps-keeps k s)
