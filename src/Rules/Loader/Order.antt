-- ===== src/Rules/Loader/Order.antt =====
-- The order in which CompileRules compiles the rule sets, when it returns no error.
use zda.Base.{
  ◌≡◌, refl, sym, ap, String, Bool, true, false, false≢true, none, some, List, [], ◌∷◌, ◌∙◌, Assoc,
  keys, lookup, elem, elem-keys, All, All-map, All-elem, IsDistinct, Result, ok, err, arith,
  Option-cases, inl, inr, string_key,
}
use zda.Rules.{ExprLang, CompiledRules, empty, append, RuleSet, Engine}
use zda.Rules.Compile.{CompileError, compile_rules}
use zda.Rules.Loader.{
  Progress, is_loaded, all_unloaded, start, enough_fuel, compile_names, compile_all,
}
use zda.Rules.Loader.Sort.{sort_strings, elem-sort_strings}
use zda.Rules.Loader.Steps.{AllLoaded, Loads, Steps, done, step, loaded-Loads, loaded-Steps}
use zda.Rules.Loader.Success.{IsKeyed, compile_names-Post}

-- What a rule set depends on; an absent one on nothing.
abbrev pub dependencies : Assoc String RuleSet → String → List String
dependencies sets k = elim (lookup k sets) [ none ↦ [] | some rs ↦ rs.depends_on ]

pub dependencies_found :
    (sets : Assoc String RuleSet) (k : String) {rs : RuleSet}
    → lookup k sets ≡ some rs
    → dependencies sets k ≡ rs.depends_on
dependencies_found sets k found = rw (found, dependencies)

-- Each name stands behind all that it depends on; `seen` stands before the list.
abbrev pub IsOrdered : Assoc String RuleSet → List String → List String → Type 0
IsOrdered sets seen [] = Unit
IsOrdered sets seen (k ∷ ks) =
    All (λ d. elem d seen ≡ true) (dependencies sets k) × IsOrdered sets (k ∷ seen) ks

abbrev or_empty : {F P : Type 0} → Result (CompileError F) (CompiledRules P) → CompiledRules P
or_empty (ok cr) = cr
or_empty (err e) = empty

module _ (x : ExprLang) (sets : Assoc String RuleSet) where
  open x use {Program}

  -- The compiled rules of one rule set.
  unfoldable pub rules_of : String → CompiledRules Program
  rules_of k = elim (lookup k sets) [ none ↦ empty | some rs ↦ or_empty (compile_rules x rs.rules) ]

  -- The rules of the named rule sets, one after another, behind `rules`.
  unfoldable pub appended : CompiledRules Program → List String → CompiledRules Program
  unfolding rules_of
  appended rules [] = rules
  appended rules (k ∷ ks) = appended (append rules (rules_of k)) ks

  rules_of-Loads :
      {p q : Progress Program} {k : String}
      → Loads x sets k p q
      → q.rules ≡ append p.rules (rules_of k)
  unfolding rules_of
  rules_of-Loads l = rw (l.result, l.found, rules_of, l.rules_compiled)

  appended-Steps :
      {p q : Progress Program} {ks : List String}
      → Steps x sets p ks q
      → q.rules ≡ appended p.rules ks
  unfolding appended
  appended-Steps done = refl
  appended-Steps (step {ks} l s) = appended-Steps s ∙ ap (λ r. appended r ks) (rules_of-Loads l)

  -- No step loads what is loaded.
  Steps-new :
      {p q : Progress Program} {ks : List String} (j : String)
      → Steps x sets p ks q
      → is_loaded p j ≡ true
      → elem j ks ≡ false
  Steps-new j done h = refl
  Steps-new j (step {k} l s) h =
      ground (arith, loaded-Loads x sets j l, Steps-new j s, l.fresh, string_key.same_iff k j)

  Steps-IsDistinct :
      {p q : Progress Program} {ks : List String} → Steps x sets p ks q → IsDistinct ks
  Steps-IsDistinct done = tt
  Steps-IsDistinct (step {k} l s) = (
    Steps-new k s (ground (arith, loaded-Loads x sets k l, string_key.same_iff k k)),
    Steps-IsDistinct s,
  )

  Steps-IsOrdered :
      {p q : Progress Program} {ks : List String} (seen : List String)
      → ((j : String) → is_loaded p j ≡ true → elem j seen ≡ true)
      → Steps x sets p ks q
      → IsOrdered sets seen ks
  Steps-IsOrdered seen h done = tt
  Steps-IsOrdered seen h (step {p} {k} l s) = (
    rw (dependencies_found sets k l.found) (
        All-map (λ d. is_loaded p d ≡ true) (λ d. elem d seen ≡ true) l.rs.depends_on h
          l.deps_loaded),
    Steps-IsOrdered (k ∷ seen) (λ j m. ground (arith, loaded-Loads x sets j l, h j)) s,
  )

  -- Only rule sets that exist are loaded.
  Steps-keys :
      {p q : Progress Program} {ks : List String} (j : String)
      → Steps x sets p ks q
      → elem j ks ≡ true
      → elem j (keys sets) ≡ true
  Steps-keys j done h = ground arith
  Steps-keys j (step {k} l s) h =
      ground (arith, Steps-keys j s, elem-keys j sets, l.found, string_key.same_iff k j)

lookup-all_unloaded :
    (j : String) (ks : List String) (b : Bool) → lookup j (all_unloaded ks) ≡ some b → b ≡ false
unfolding lookup
lookup-all_unloaded j [] b h = ground arith
lookup-all_unloaded j (k ∷ ks) b h = ground (arith, lookup-all_unloaded j ks b)

not-loaded-start : {P : Type 0} (e : Engine P) (j : String) → is_loaded (start e) j ≡ false
unfolding is_loaded
not-loaded-start e j = elim (Option-cases (lookup j (all_unloaded (keys e.rule_sets)))) [
  | inl absent ↦ rw absent
  | inr (b, found) ↦ rw (found, lookup-all_unloaded j (keys e.rule_sets) b found)
]

module _ (x : ExprLang) where
  open x use {Program}

  -- `e'` is `e` with every rule set compiled once, behind what it depends on.
  pub record Compiles (e e' : Engine Program) : Type 0 where
    pub names : List String
    pub distinct : IsDistinct names
    pub complete : (k : String) → elem k names ≡ elem k (keys e.rule_sets)
    pub ordered : IsOrdered e.rule_sets [] names
    pub rules_appended : e'.rules ≡ appended x e.rule_sets e.rules names
    pub rule_sets_kept : e'.rule_sets ≡ e.rule_sets

  complete_names :
      (e : Engine Program) (ks : List String) (q : Progress Program) (names : List String)
      → Steps x e.rule_sets (start e) names q
      → AllLoaded q ks
      → ((j : String) → elem j ks ≡ elem j (keys e.rule_sets))
      → (k : String) → elem k names ≡ elem k (keys e.rule_sets)
  complete_names e ks q names s loaded same k = ground (
    arith,
    Steps-keys x e.rule_sets k s,
    same k,
    loaded-Steps x e.rule_sets k s,
    not-loaded-start e k,
    All-elem (λ j. is_loaded q j ≡ true) ks k loaded,
  )

  -- When CompileRules returns no error, it has appended the compiled rules of every rule set,
  -- each rule set once and behind all the rule sets that it depends on, and the rule sets are
  -- those it had. The rule sets are stored under their names.
  pub compile_all-Compiles :
      (e e' : Engine Program) → IsKeyed e.rule_sets → compile_all x e ≡ (none, e') → Compiles e e'
  unfolding compile_all
  compile_all-Compiles e e' keyed h =
      let sets = e.rule_sets in
      let ks = sort_strings (keys sets) in
      let r = compile_names x sets (enough_fuel sets) ks (start e) in
      let post =
        compile_names-Post x sets (enough_fuel sets) ks (start e) r.1 keyed
          (ap (λ a. (a, r.1)) (ap (λ t. t.0) h)) in
      record {
        names = post.names;
        distinct = Steps-IsDistinct x sets post.steps;
        complete = λ k.
            complete_names e ks r.1 post.names post.steps post.loaded
              (λ j. elem-sort_strings j (keys sets)) k;
        ordered =
            Steps-IsOrdered x sets [] (λ j l. absurd (false≢true (sym (not-loaded-start e j) ∙ l)))
              post.steps;
        rules_appended = sym (ap (λ t. t.1.rules) h) ∙ appended-Steps x sets post.steps;
        rule_sets_kept = sym (ap (λ t. t.1.rule_sets) h);
      }
