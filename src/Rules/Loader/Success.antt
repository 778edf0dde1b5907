-- ===== src/Rules/Loader/Success.antt =====
-- A call of compileRuleSet that returns no error has loaded what it was asked for, by steps.
use zda.Base.{
  ℕ, zero, suc, ◌≡◌, refl, String, true, false, Option, none, some, List, [], ◌∷◌, ◌++◌, Assoc,
  lookup, elem, Result, ok, err, arith, All-append, All-split, beq_refl, Bool-cases, Option-cases,
  inl, inr, ◌==◌, if◌then◌else◌, string_key,
}
use zda.Rules.{ExprLang, CompiledRules, RuleSet}
use zda.Rules.Compile.{compile_rules}
use zda.Rules.Loader.{
  EngineError, Progress, is_loaded, after, Outcome, visit_dependencies, finish_rule_set,
  compile_rule_set, compile_names,
}
use zda.Rules.Loader.Steps.{
  AllLoaded, NoneLoaded, add_rule_set, loaded-add, Steps, done, step, Steps-append, Steps-keeps,
}

pub after-eq-none :
    {F P : Type 0} (r : Option (EngineError F) × Progress P)
    (f : Progress P → Option (EngineError F) × Progress P) {p : Progress P}
    → after r f ≡ (none, p)
    → (q : Progress P) × (r ≡ (none, q)) × (f q ≡ (none, p))
after-eq-none (none, q) f h = (q, refl, h)
after-eq-none (some e, q) f h = ground arith

-- The key of a rule set is its name, as LoadReader stores it.
abbrev pub IsKeyed : Assoc String RuleSet → Type 0
IsKeyed sets = (k : String) (rs : RuleSet) → lookup k sets ≡ some rs → rs.name ≡ k

loaded-result :
    {P : Type 0} (k j : String) (cr : CompiledRules P) (p q : Progress P)
    → q ≡ add_rule_set k cr p
    → is_loaded q j ≡ (if k == j then true else is_loaded p j)
loaded-result k j cr p q e = rw e (loaded-add k j cr p)

module _ (x : ExprLang) (sets : Assoc String RuleSet) where
  open x use {Program}

  -- From `p` to `q`: the targets are loaded, by steps, and nothing on the trail is.
  pub record Post (trail targets : List String) (p q : Progress Program) : Type 0 where
    pub names : List String
    pub steps : Steps x sets p names q
    pub waiting : NoneLoaded q trail
    pub loaded : AllLoaded q targets

  NoneLoaded-add :
      (k : String) (trail : List String) (p q : Progress Program)
      → ((j : String) → is_loaded q j ≡ (if k == j then true else is_loaded p j))
      → elem k trail ≡ false
      → NoneLoaded p trail
      → NoneLoaded q trail
  NoneLoaded-add k [] p q h new w = tt
  NoneLoaded-add k (t ∷ trail) p q h new w = (
    ground (arith, h t, string_key.same_iff t k, string_key.same_iff k t),
    NoneLoaded-add k trail p q h (ground arith) w.1,
  )

  -- What a recursive call of compileRuleSet does, with its trail.
  abbrev Spec : (String → Progress Program → Outcome x sets) → List String → Type 0
  Spec rec trail =
      (k : String) (p q : Progress Program)
      → elem k trail ≡ false
      → is_loaded p k ≡ false
      → NoneLoaded p trail
      → rec k p ≡ (none, q)
      → Post trail (k ∷ []) p q

  -- One dependency, loaded before or now.
  one_dependency :
      (rec : String → Progress Program → Outcome x sets) (trail : List String) (k : String)
      (p q : Progress Program)
      → Spec rec trail
      → elem k trail ≡ false
      → NoneLoaded p trail
      → (if is_loaded p k then (none, p) else rec k p) ≡ (none, q)
      → Post trail (k ∷ []) p q
  one_dependency rec trail k p q spec new w h = elim (Bool-cases (is_loaded p k)) [
    | inl old ↦
        let e : p ≡ q = ground arith in
        rw (← e) (record { names = []; steps = done; waiting = w; loaded = (old, tt) })
    | inr fresh ↦ spec k p q new fresh w (rw fresh at h)
  ]

  visit-Post :
      (rec : String → Progress Program → Outcome x sets) (trail ks : List String)
      (p q : Progress Program)
      → Spec rec trail
      → NoneLoaded p trail
      → visit_dependencies x sets rec trail ks p ≡ (none, q)
      → Post trail ks p q
  unfolding visit_dependencies
  visit-Post rec trail [] p q spec w h =
      let e : p ≡ q = ground arith in
      rw (← e) (record { names = []; steps = done; waiting = w; loaded = tt })
  visit-Post rec trail (k ∷ ks) p q spec w h = elim (Bool-cases (elem k trail)) [
    | inl old ↦ let bad = rw old at h in ground arith
    | inr new ↦
        let (r, now, later) =
          after-eq-none _ (visit_dependencies x sets rec trail ks) (rw new at h) in
        let first = one_dependency rec trail k p r spec new w now in
        let rest = visit-Post rec trail ks r q spec first.waiting later in
        record {
          names = first.names ++ rest.names;
          steps = Steps-append x sets first.steps rest.steps;
          waiting = rest.waiting;
          loaded = (Steps-keeps x sets k rest.steps first.loaded.0, rest.loaded);
        }
  ]

  finish-eq-none :
      (trail : List String) (name : String) (rs : RuleSet) (p q : Progress Program)
      → finish_rule_set x sets trail name rs p ≡ (none, q)
      → (cr : _) × (compile_rules x rs.rules ≡ ok cr) × (q ≡ add_rule_set name cr p)
  unfolding finish_rule_set
  finish-eq-none trail name rs p q h = go (compile_rules x rs.rules) refl
    where
      go :
          (r : Result _ _)
          → compile_rules x rs.rules ≡ r
          → (cr : _) × (compile_rules x rs.rules ≡ ok cr) × (q ≡ add_rule_set name cr p)
      go (ok cr) e = (cr, e, ground arith)
      go (err c) e = ground arith

  -- The last step, when the dependencies are loaded.
  last_step :
      (trail : List String) (name : String) (rs : RuleSet) (p r q : Progress Program)
      → lookup name sets ≡ some rs
      → elem name trail ≡ false
      → Post (trail ++ name ∷ []) rs.depends_on p r
      → finish_rule_set x sets (trail ++ name ∷ []) name rs r ≡ (none, q)
      → Post trail (name ∷ []) p q
  last_step trail name rs p r q found new deps h =
      let (cr, compiled, e) = finish-eq-none (trail ++ name ∷ []) name rs r q h in
      let waiting = All-split (λ k. is_loaded r k ≡ false) trail (name ∷ []) deps.waiting in
      let marks = λ (j : String). loaded-result name j cr r q e in
      record {
        names = deps.names ++ name ∷ [];
        steps = Steps-append x sets deps.steps (
            step
              (record {
                rs = rs;
                found = found;
                fresh = waiting.1.0;
                deps_loaded = deps.loaded;
                cr = cr;
                rules_compiled = compiled;
                result = e;
              })
              done);
        waiting = NoneLoaded-add name trail r q marks new waiting.0;
        loaded = (ground (arith, marks name, beq_refl name), tt);
      }

  -- A call without an error has loaded its rule set and all that it depends on, by steps.
  pub compile_rule_set-Post :
      (fuel : ℕ) (trail : List String) (name : String) (p q : Progress Program)
      → IsKeyed sets
      → elem name trail ≡ false
      → is_loaded p name ≡ false
      → NoneLoaded p trail
      → compile_rule_set x sets fuel trail name p ≡ (none, q)
      → Post trail (name ∷ []) p q
  unfolding compile_rule_set
  compile_rule_set-Post zero trail name p q keyed new fresh w h = ground arith
  compile_rule_set-Post (suc fuel) trail name p q keyed new fresh w h =
      elim (Option-cases (lookup name sets)) [
        | inl missing ↦ let bad = rw (missing, compile_rule_set) at h in ground arith
        | inr (rs, found) ↦
            let trail' = trail ++ name ∷ [] in
            let h' = rw (found, compile_rule_set, keyed name rs found) at h in
            let (r, visited, finished) =
              after-eq-none _ (finish_rule_set x sets trail' name rs) h' in
            last_step trail name rs p r q found new
              (visit-Post (compile_rule_set x sets fuel trail') trail' rs.depends_on p r
                (λ k p' q' new' fresh' w' h''.
                  compile_rule_set-Post fuel trail' k p' q' keyed new' fresh' w' h'')
                (All-append (λ k. is_loaded p k ≡ false) trail (name ∷ []) w (fresh, tt)) visited)
              finished
      ]

  pub compile_names-Post :
      (fuel : ℕ) (ks : List String) (p q : Progress Program)
      → IsKeyed sets
      → compile_names x sets fuel ks p ≡ (none, q)
      → Post [] ks p q
  unfolding compile_names
  compile_names-Post fuel [] p q keyed h =
      let e : p ≡ q = ground arith in
      rw (← e) (record { names = []; steps = done; waiting = tt; loaded = tt })
  compile_names-Post fuel (k ∷ ks) p q keyed h =
      let (r, now, later) = after-eq-none _ (compile_names x sets fuel ks) h in
      let first =
        one_dependency (compile_rule_set x sets fuel []) [] k p r
          (λ j p' q' new fresh w h'. compile_rule_set-Post fuel [] j p' q' keyed new fresh w h')
          refl tt now in
      let rest = compile_names-Post fuel ks r q keyed later in
      record {
        names = first.names ++ rest.names;
        steps = Steps-append x sets first.steps rest.steps;
        waiting = tt;
        loaded = (Steps-keeps x sets k rest.steps first.loaded.0, rest.loaded);
      }
