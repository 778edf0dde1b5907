-- ===== src/Rules/Execute/Grants.antt =====
-- Which capabilities Execute puts into its output: those of the rules that fire.
use zda.Base.{
  ◌≡◌, refl, ap, ◌∙◌, String, Bool, true, false, none, some, List, [], ◌∷◌, Assoc, keys, lookup,
  put, delete, lookup-put, lookup-delete, elem, Result, ok, err, arith, ◌⊎◌, inl, inr,
  if◌then◌else◌, string_key,
}
use zda.Rules.{
  ExprLang, CompiledCapabilityValues, CompiledActions, CompiledRule, CompiledRules, compiled, empty,
  more, Engine,
}
use zda.Rules.Execute.{
  Output, ExecuteError, Outcome, matches, run_values, add_capabilities, remove_capabilities,
  in_child, when_matched, then_run, execute_rule, execute_rules, execute,
}

-- The entry `k: v` of a map.
abbrev pub Listed : {V : Type 0} → String → V → Assoc String V → Type 0
Listed k v [] = ⊥
Listed k v ((j, w) ∷ m) = ((j ≡ k) × (w ≡ v)) ⊎ Listed k v m

module _ (x : ExprLang) where
  open x use {Program, Value, Failure, Input}

  abbrev pub rules_added : CompiledRule Program → Assoc String (CompiledCapabilityValues Program)
  rules_added (compiled description filter actions children) = actions.capabilities.add

  abbrev pub rules_removed : CompiledRule Program → List String
  rules_removed (compiled description filter actions children) = keys actions.capabilities.remove

  abbrev pub rules_described : CompiledRule Program → String
  rules_described (compiled description filter actions children) = description

  -- A rule that is reached and whose filter is true, for the input `i`: it stands in the list,
  -- or below a rule of the list that is reached and whose filter is true.
  pub data Fires (i : Input) : CompiledRules Program → CompiledRule Program → Type 0 where
    here :
        {d : String} {f : Program} {a : CompiledActions Program} {ch rs : CompiledRules Program}
        → matches x i d f ≡ ok true
        → Fires i (more (compiled d f a ch) rs) (compiled d f a ch)
    later :
        {q r : CompiledRule Program} {rs : CompiledRules Program}
        → Fires i rs r
        → Fires i (more q rs) r
    below :
        {d : String} {f : Program} {a : CompiledActions Program} {ch rs : CompiledRules Program}
        {r : CompiledRule Program}
        → matches x i d f ≡ ok true
        → Fires i ch r
        → Fires i (more (compiled d f a ch) rs) r

  -- Some rule that fires adds the capability `k`, and its programs compute `values`.
  pub record Grants (i : Input) (rs : CompiledRules Program) (k : String)
      (values : Assoc String Value) : Type 0 where
    pub by : CompiledRule Program
    pub fires : Fires i rs by
    pub programs : CompiledCapabilityValues Program
    pub listed : Listed k programs (rules_added by)
    pub computed : run_values x i (rules_described by) [] programs ≡ ok values

  pub then-eq-none :
      (r : Outcome x) (f : Output Value → Outcome x) {o : Output Value}
      → then_run x r f ≡ (none, o)
      → (q : Output Value) × (r ≡ (none, q)) × (f q ≡ (none, o))
  then-eq-none (none, q) f h = (q, refl, h)
  then-eq-none (some e, q) f h = ground arith

  pub add-eq-none :
      (i : Input) (d j : String) (w : CompiledCapabilityValues Program)
      (add : Assoc String (CompiledCapabilityValues Program)) (o o' : Output Value)
      → add_capabilities x i d ((j, w) ∷ add) o ≡ (none, o')
      → (u : Assoc String Value) × (run_values x i d [] w ≡ ok u)
        × (add_capabilities x i d add (record { capabilities = put j u o.capabilities })
            ≡ (none, o'))
  unfolding add_capabilities
  add-eq-none i d j w add o o' h = go (run_values x i d [] w) refl
    where
      go :
          (r : Result (ExecuteError Failure) (Assoc String Value))
          → run_values x i d [] w ≡ r
          → (u : Assoc String Value) × (run_values x i d [] w ≡ ok u)
            × (add_capabilities x i d add (record { capabilities = put j u o.capabilities })
                ≡ (none, o'))
      go (ok u) e = (u, e, rw (e, add_capabilities) at h)
      go (err e') e = let bad = rw (e, add_capabilities) at h in ground arith

  in_child-eq-none :
      (d : String) (r : Outcome x) {o : Output Value} → in_child x d r ≡ (none, o) → r ≡ (none, o)
  in_child-eq-none d (none, q) h = h
  in_child-eq-none d (some e, q) h = ground arith

  when-eq-none :
      (r : Result (ExecuteError Failure) Bool) (o : Output Value) (f : Output Value → Outcome x)
      {o' : Output Value}
      → when_matched x r o f ≡ (none, o')
      → ((r ≡ ok false) × (o ≡ o')) ⊎ ((r ≡ ok true) × (f o ≡ (none, o')))
  when-eq-none (err e) o f h = ground arith
  when-eq-none (ok false) o f h = inl (refl, ground arith)
  when-eq-none (ok true) o f h = inr (refl, h)

  -- A rule that returns no error did not match, or it matched, and its parts returned no error.
  pub execute_rule-eq-none :
      (i : Input) (d : String) (f : Program) (a : CompiledActions Program)
      (ch : CompiledRules Program) (o o' : Output Value)
      → execute_rule x i (compiled d f a ch) o ≡ (none, o')
      → ((matches x i d f ≡ ok false) × (o ≡ o'))
        ⊎ ((q : Output Value) × (matches x i d f ≡ ok true)
            × (add_capabilities x i d a.capabilities.add o ≡ (none, q))
            × (execute_rules x i ch (remove_capabilities x (keys a.capabilities.remove) q)
                ≡ (none, o')))
  unfolding execute_rule
  execute_rule-eq-none i d f a ch o o' h = elim (when-eq-none (matches x i d f) o _ h) [
    | inl skipped ↦ inl skipped
    | inr (fired, ran) ↦
        let (q, now, rest) = then-eq-none _ _ ran in inr (q, fired, now, in_child-eq-none d _ rest)
  ]

  -- An entry that is there after a put was there before it, or is the one that was put.
  found_after_put :
      (j k : String) (u values : Assoc String Value) (m : Assoc String (Assoc String Value))
      → lookup k (put j u m) ≡ some values
      → (lookup k m ≡ some values) ⊎ ((j ≡ k) × (u ≡ values))
  found_after_put j k u values m h = ground (arith, lookup-put j k u m, string_key.same_iff j k)

  added :
      (i : Input) (d : String) (add : Assoc String (CompiledCapabilityValues Program))
      (o o' : Output Value) (k : String) (values : Assoc String Value)
      → add_capabilities x i d add o ≡ (none, o')
      → lookup k o'.capabilities ≡ some values
      → (lookup k o.capabilities ≡ some values)
        ⊎ ((v : CompiledCapabilityValues Program) × Listed k v add
            × (run_values x i d [] v ≡ ok values))
  unfolding add_capabilities
  added i d [] o o' k values h found = let e : o ≡ o' = ground arith in inl (rw (← e) at found)
  added i d ((j, w) ∷ add) o o' k values h found =
      let (u, run_ok, rest) = add-eq-none i d j w add o o' h in
      elim (added i d add _ o' k values rest found) [
        | inr (v, listed, computed) ↦ inr (v, inr listed, computed)
        | inl before ↦ elim (found_after_put j k u values o.capabilities before) [
          | inl old ↦ inl old
          | inr (same, e) ↦ inr (w, inl (same, refl), run_ok ∙ ap ok e)
        ]
      ]

  pub lookup-remove_capabilities :
      (ks : List String) (o : Output Value) (k : String)
      → lookup k (remove_capabilities x ks o).capabilities
        ≡ (if elem k ks then none else lookup k o.capabilities)
  unfolding remove_capabilities
  lookup-remove_capabilities [] o k = refl
  lookup-remove_capabilities (j ∷ ks) o k =
      lookup-remove_capabilities ks (record { capabilities = delete j o.capabilities }) k
      ∙ ground (arith, lookup-delete j k o.capabilities)

  kept_of_removed :
      (ks : List String) (o : Output Value) (k : String) (values : Assoc String Value)
      → lookup k (remove_capabilities x ks o).capabilities ≡ some values
      → lookup k o.capabilities ≡ some values
  kept_of_removed ks o k values h = ground (arith, lookup-remove_capabilities ks o k)

  abbrev Traced : Input → CompiledRules Program → Output Value → Output Value → Type 0
  Traced i rs o o' =
      (k : String) (values : Assoc String Value)
      → lookup k o'.capabilities ≡ some values
      → (lookup k o.capabilities ≡ some values) ⊎ Grants i rs k values

  Grants-later :
      {i : Input} {q : CompiledRule Program} {rs : CompiledRules Program} {k : String}
      {values : Assoc String Value}
      → Grants i rs k values
      → Grants i (more q rs) k values
  Grants-later g = record {
    by = g.by;
    fires = later g.fires;
    programs = g.programs;
    listed = g.listed;
    computed = g.computed;
  }

  mutual
    unfolding execute_rules

    rule-Traced :
        (i : Input) (r : CompiledRule Program) (rs : CompiledRules Program) (o o' : Output Value)
        → execute_rule x i r o ≡ (none, o')
        → Traced i (more r rs) o o'
    rule-Traced i (compiled d f a ch) rs o o' h k values found =
        elim (execute_rule-eq-none i d f a ch o o' h) [
          | inl (_, same) ↦ inl (rw (← same) at found)
          | inr (q, fired, adding, children) ↦
              elim (rules-Traced i ch _ o' children k values found) [
                | inr g ↦ inr (record {
                  by = g.by;
                  fires = below fired g.fires;
                  programs = g.programs;
                  listed = g.listed;
                  computed = g.computed;
                })
                | inl kept ↦
                    elim (added i d a.capabilities.add o q k values adding
                      (kept_of_removed (keys a.capabilities.remove) q k values kept)) [
                        | inl old ↦ inl old
                        | inr (v, listed, computed) ↦ inr (record {
                          by = compiled d f a ch;
                          fires = here fired;
                          programs = v;
                          listed = listed;
                          computed = computed;
                        })
                      ]
              ]
        ]

    rules-Traced :
        (i : Input) (rs : CompiledRules Program) (o o' : Output Value)
        → execute_rules x i rs o ≡ (none, o')
        → Traced i rs o o'
    rules-Traced i empty o o' h k values found =
        let e : o ≡ o' = ground arith in inl (rw (← e) at found)
    rules-Traced i (more r rs) o o' h k values found =
        let (q, now, rest) = then-eq-none (execute_rule x i r o) (execute_rules x i rs) h in
        elim (rules-Traced i rs q o' rest k values found) [
          | inr g ↦ inr (Grants-later g)
          | inl before ↦ rule-Traced i r rs o q now k values before
        ]

  -- Every capability in the output of a run without error is added by a rule that fires, with the
  -- values that the programs of that rule compute for this input.
  pub execute-Grants :
      (e : Engine Program) (i : Input) (o : Output Value) (k : String) (values : Assoc String Value)
      → execute x e i ≡ (o, none)
      → lookup k o.capabilities ≡ some values
      → Grants i e.rules k values
  unfolding execute lookup
  execute-Grants e i o k values h found =
      elim (rules-Traced i e.rules (record { capabilities = [] }) o (λ j. ((h j).1, (h j).0)) k
        values found) [ inl nothing ↦ ground arith | inr g ↦ g ]
