-- ===== src/Rules/Loader/Failure.antt =====
-- What the errors of CompileRules mean, and that its recursion needs no more than the given fuel.
use zda.Base.{
  ℕ, zero, suc, ◌+◌, ◌<◌, ◌≡◌, ◌≢◌, refl, sym, ap, ◌∙◌, String, true, false, Option, none, some,
  List, [], ◌∷◌, ◌++◌, Assoc, keys, lookup, elem, elem-keys, elem-append, length, length-append,
  All, All-append, All-elem, All-map, All-of_elem, IsDistinct, IsDistinct-snoc, IsSubset,
  length-le_of_subset, Result, ok, err, arith, Bool-cases, Option-cases, ◌⊎◌, inl, inr, string_key,
}
use zda.Rules.{ExprLang, RuleSet, Engine}
use zda.Rules.Compile.{CompileError, compile_rules}
use zda.Rules.Loader.{
  EngineError, missing_dependency, circular_dependency, compilation, out_of_fuel, Progress,
  is_loaded, after, Outcome, visit_dependencies, finish_rule_set, compile_rule_set, compile_names,
  enough_fuel, start, compile_all,
}
use zda.Rules.Loader.Sort.{sort_strings, elem-sort_strings}
use zda.Rules.Loader.Needs.{Needs, direct, through}
use zda.Rules.Loader.Success.{IsKeyed}

-- The first call failed, or it did not and the second one failed.
after-eq-some :
    {F P : Type 0} (r : Option (EngineError F) × Progress P)
    (f : Progress P → Option (EngineError F) × Progress P) {e : EngineError F} {p : Progress P}
    → after r f ≡ (some e, p)
    → (r ≡ (some e, p)) ⊎ ((q : Progress P) × (r ≡ (none, q)) × (f q ≡ (some e, p)))
after-eq-some (none, q) f h = inr (q, refl, h)
after-eq-some (some e, q) f h = inl h

same_error :
    {F P : Type 0} {e f : EngineError F} {p q : Progress P}
    → ◌≡◌ {A = Option (EngineError F) × Progress P} (some e, p) (some f, q)
    → e ≡ f
same_error h = ground arith

abbrev AllNeed : Assoc String RuleSet → List String → String → Type 0
AllNeed sets trail k = All (λ t. Needs sets t k) trail

module _ (x : ExprLang) (sets : Assoc String RuleSet) where
  open x use {Program, Failure}

  -- A missing dependency is no rule set, and the trail, which is not empty, needs it. A circular dependency needs
  -- itself, and so does the whole trail need it. A compilation error is that of a rule set.
  abbrev pub IsTrue : EngineError Failure → Type 0
  IsTrue (missing_dependency trail k) =
      (lookup k sets ≡ none) × AllNeed sets trail k × (0 < length trail)
  IsTrue (circular_dependency trail k) = Needs sets k k × AllNeed sets trail k
  IsTrue (compilation trail e) =
      (k : String) × (rs : RuleSet) × (lookup k sets ≡ some rs) × (compile_rules x rs.rules ≡ err e)
  IsTrue out_of_fuel = ⊥

  abbrev Spec : (String → Progress Program → Outcome x sets) → List String → Type 0
  Spec rec trail =
      (k : String) (e : EngineError Failure) (p q : Progress Program)
      → elem k trail ≡ false
      → AllNeed sets trail k
      → rec k p ≡ (some e, q)
      → IsTrue e

  visit-IsTrue :
      (rec : String → Progress Program → Outcome x sets) (trail ks : List String)
      (e : EngineError Failure) (p q : Progress Program)
      → Spec rec trail
      → All (AllNeed sets trail) ks
      → visit_dependencies x sets rec trail ks p ≡ (some e, q)
      → IsTrue e
  unfolding visit_dependencies
  visit-IsTrue rec trail [] e p q spec needs h = ground arith
  visit-IsTrue rec trail (k ∷ ks) e p q spec needs h = elim (Bool-cases (elem k trail)) [
    | inl old ↦
        let raised : circular_dependency trail k ≡ e = same_error (rw old at h) in
        rw (← raised) (All-elem (λ t. Needs sets t k) trail k needs.0 old, needs.0)
    | inr new ↦ elim (after-eq-some _ (visit_dependencies x sets rec trail ks) (rw new at h)) [
      | inl now ↦ elim (Bool-cases (is_loaded p k)) [
        | inl done ↦ let bad = rw done at now in ground arith
        | inr fresh ↦ spec k e p q new needs.0 (rw fresh at now)
      ]
      | inr (r, _, later) ↦ visit-IsTrue rec trail ks e r q spec needs.1 later
    ]
  ]

  finish-IsTrue :
      (trail : List String) (name : String) (rs : RuleSet) (e : EngineError Failure)
      (p q : Progress Program)
      → lookup name sets ≡ some rs
      → finish_rule_set x sets trail name rs p ≡ (some e, q)
      → IsTrue e
  unfolding finish_rule_set
  finish-IsTrue trail name rs e p q found h = go (compile_rules x rs.rules) refl
    where
      go : (r : Result _ _) → compile_rules x rs.rules ≡ r → IsTrue e
      go (ok cr) c = let bad = rw (c, finish_rule_set) at h in ground arith
      go (err c) f =
          let raised : compilation trail c ≡ e = same_error (rw (f, finish_rule_set) at h) in
          rw (← raised) (name, rs, found, f)

  AllNeed-dependency :
      (trail : List String) (name d : String) (rs : RuleSet)
      → lookup name sets ≡ some rs
      → AllNeed sets trail name
      → elem d rs.depends_on ≡ true
      → AllNeed sets (trail ++ name ∷ []) d
  AllNeed-dependency trail name d rs found needs m =
      let last = direct found m in
      All-append (λ t. Needs sets t d) trail (name ∷ [])
        (All-map (λ t. Needs sets t name) (λ t. Needs sets t d) trail (λ t n. through n last) needs)
        (last, tt)

  -- The names on the trail are different keys, and with the fuel they outnumber the keys.
  record Fits (fuel : ℕ) (trail : List String) : Type 0 where
    distinct : IsDistinct trail
    subset : IsSubset trail (keys sets)
    fuelled : length (keys sets) < fuel + length trail

  Fits-snoc :
      (fuel : ℕ) (trail : List String) (name : String) (rs : RuleSet)
      → lookup name sets ≡ some rs
      → elem name trail ≡ false
      → Fits (suc fuel) trail
      → Fits fuel (trail ++ name ∷ [])
  Fits-snoc fuel trail name rs found new fits = record {
    distinct = IsDistinct-snoc trail name fits.distinct new;
    subset = λ a m. ground (
      arith,
      elem-append a trail (name ∷ []),
      fits.subset a,
      string_key.same_iff name a,
      elem-keys name sets,
      found,
    );
    fuelled = omega (arith, length-append trail (name ∷ []), fits.fuelled);
  }

  compile_rule_set-IsTrue :
      (fuel : ℕ) (trail : List String) (name : String) (e : EngineError Failure)
      (p q : Progress Program)
      → IsKeyed sets
      → Fits fuel trail
      → (0 < length trail) ⊎ (elem name (keys sets) ≡ true)
      → elem name trail ≡ false
      → AllNeed sets trail name
      → compile_rule_set x sets fuel trail name p ≡ (some e, q)
      → IsTrue e
  unfolding compile_rule_set
  compile_rule_set-IsTrue zero trail name e p q keyed fits origin new needs h =
      absurd (
        omega
          (arith, length-le_of_subset trail (keys sets) fits.distinct fits.subset, fits.fuelled))
  compile_rule_set-IsTrue (suc fuel) trail name e p q keyed fits origin new needs h =
      elim (Option-cases (lookup name sets)) [
        | inl missing ↦
            let raised : missing_dependency trail name ≡ e =
              same_error (rw (missing, compile_rule_set) at h) in
            let behind : 0 < length trail = ground (arith, origin, elem-keys name sets, missing) in
            rw (← raised) (missing, needs, behind)
        | inr (rs, found) ↦
            let trail' = trail ++ name ∷ [] in
            let h' = rw (found, compile_rule_set, keyed name rs found) at h in
            elim (after-eq-some _ (finish_rule_set x sets trail' name rs) h') [
              | inl visiting ↦
                  visit-IsTrue (compile_rule_set x sets fuel trail') trail' rs.depends_on e p q
                    (λ k e' p' q' new' needs' h''.
                      compile_rule_set-IsTrue fuel trail' k e' p' q' keyed
                        (Fits-snoc fuel trail name rs found new fits)
                        (inl (omega (arith, length-append trail (name ∷ [])))) new' needs' h'')
                    (All-of_elem (AllNeed sets trail') rs.depends_on
                      (λ d m. AllNeed-dependency trail name d rs found needs m))
                    visiting
              | inr (r, _, finishing) ↦ finish-IsTrue trail' name rs e r q found finishing
            ]
      ]

  compile_names-IsTrue :
      (fuel : ℕ) (ks : List String) (e : EngineError Failure) (p q : Progress Program)
      → IsKeyed sets
      → Fits fuel []
      → All (λ k. elem k (keys sets) ≡ true) ks
      → compile_names x sets fuel ks p ≡ (some e, q)
      → IsTrue e
  unfolding compile_names
  compile_names-IsTrue fuel [] e p q keyed fits known h = ground arith
  compile_names-IsTrue fuel (k ∷ ks) e p q keyed fits known h =
      elim (after-eq-some _ (compile_names x sets fuel ks) h) [
        | inl now ↦ elim (Bool-cases (is_loaded p k)) [
          | inl done ↦ let bad = rw done at now in ground arith
          | inr fresh ↦
              compile_rule_set-IsTrue fuel [] k e p q keyed fits (inr known.0) refl tt
                (rw fresh at now)
        ]
        | inr (r, _, later) ↦ compile_names-IsTrue fuel ks e r q keyed fits known.1 later
      ]

module _ (x : ExprLang) where
  open x use {Program, Failure}

  -- An error of CompileRules tells the truth. If it names a missing dependency then no rule set
  -- has that name and every rule set on its trail, which is not empty, needs it; if it names a circular dependency
  -- then that rule set needs itself and the whole trail needs it; if it is a compilation error
  -- then some rule set has it. The fuel never runs out. The rule sets are stored under their names.
  pub compile_all-IsTrue :
      (e e' : Engine Program) (error : EngineError Failure)
      → IsKeyed e.rule_sets
      → compile_all x e ≡ (some error, e')
      → IsTrue x e.rule_sets error
  unfolding compile_all
  compile_all-IsTrue e e' error keyed h =
      let sets = e.rule_sets in
      let ks = sort_strings (keys sets) in
      let r = compile_names x sets (enough_fuel sets) ks (start e) in
      compile_names-IsTrue x sets (enough_fuel sets) ks error (start e) r.1 keyed
        (record { distinct = tt; subset = λ a m. ground arith; fuelled = omega arith })
        (All-of_elem (λ k. elem k (keys sets) ≡ true) ks
          (λ k m. sym (elem-sort_strings k (keys sets)) ∙ m))
        (ap (λ a. (a, r.1)) (ap (λ t. t.0) h))

  -- When no rule set needs itself, each rule set that another one needs exists, and the rules of
  -- each rule set compile, CompileRules returns no error. The rule sets are stored under their
  -- names.
  pub compile_all_succeeds :
      (e : Engine Program)
      → IsKeyed e.rule_sets
      → ((k : String) → ¬ Needs e.rule_sets k k)
      → ((k d : String) → Needs e.rule_sets k d → lookup d e.rule_sets ≢ none)
      → ((k : String) (rs : RuleSet) (error : CompileError Failure)
          → lookup k e.rule_sets ≡ some rs
          → compile_rules x rs.rules ≢ err error)
      → (compile_all x e).0 ≡ none
  compile_all_succeeds e keyed acyclic closed compiles = elim (Option-cases (compile_all x e).0) [
    | inl nil ↦ nil
    | inr (error, raised) ↦ absurd (
        refuted error (
          compile_all-IsTrue e (compile_all x e).1 error keyed
            (ap (λ a. (a, (compile_all x e).1)) raised)))
  ]
    where
      refuted : (error : EngineError Failure) → IsTrue x e.rule_sets error → ⊥
      refuted (missing_dependency [] k) t = absurd (omega (arith, t.2))
      refuted (missing_dependency (n ∷ trail) k) t = closed n k t.1.0 t.0
      refuted (circular_dependency trail k) t = acyclic k t.0
      refuted (compilation trail c) t = compiles t.0 t.1 c t.2 t.3
      refuted out_of_fuel t = t
