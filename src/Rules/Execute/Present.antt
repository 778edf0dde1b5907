-- ===== src/Rules/Execute/Present.antt =====
-- The converse: what a rule that fires adds is in the output, unless a rule that fires removes it.
use zda.Base.{
  ◌≡◌, String, true, false, none, List, [], ◌∷◌, Assoc, keys, lookup, lookup-put, is_some, elem, ok,
  arith, Bool-cases, inl, inr, ◌==◌, string_key,
}
use zda.Rules.{
  ExprLang, CompiledCapabilityValues, CompiledActions, CompiledRule, CompiledRules, compiled, empty,
  more, Engine,
}
use zda.Rules.Execute.{
  Output, matches, add_capabilities, remove_capabilities, execute_rule, execute_rules, execute,
}
use zda.Rules.Execute.Grants.{
  Fires, here, later, below, rules_added, rules_removed, then-eq-none, add-eq-none,
  execute_rule-eq-none, lookup-remove_capabilities,
}

module _ (x : ExprLang) (i : x.Input) (k : String) where
  open x use {Program, Value, Input}

  abbrev Has : Output Value → Type 0
  Has o = is_some (lookup k o.capabilities) ≡ true

  abbrev NotRemoved : CompiledRules Program → Type 0
  NotRemoved rs = (q : CompiledRule Program) → Fires x i rs q → elem k (rules_removed x q) ≡ false

  Has-add :
      (d : String) (add : Assoc String (CompiledCapabilityValues Program)) (o o' : Output Value)
      → add_capabilities x i d add o ≡ (none, o')
      → Has o
      → Has o'
  unfolding add_capabilities
  Has-add d [] o o' h has = let e : o ≡ o' = ground arith in rw (← e) has
  Has-add d ((j, w) ∷ add) o o' h has =
      let (u, _, rest) = add-eq-none x i d j w add o o' h in
      Has-add d add _ o' rest (ground (arith, lookup-put j k u o.capabilities))

  Has-of_added :
      (d : String) (add : Assoc String (CompiledCapabilityValues Program)) (o o' : Output Value)
      → add_capabilities x i d add o ≡ (none, o')
      → elem k (keys add) ≡ true
      → Has o'
  unfolding add_capabilities
  Has-of_added d [] o o' h m = ground arith
  Has-of_added d ((j, w) ∷ add) o o' h m =
      let (u, _, rest) = add-eq-none x i d j w add o o' h in
      elim (Bool-cases (j == k)) [
        | inl same ↦ Has-add d add _ o' rest (ground (arith, lookup-put j k u o.capabilities, same))
        | inr other ↦ Has-of_added d add _ o' rest (rw other at m)
      ]

  Has-remove :
      (ks : List String) (o : Output Value)
      → elem k ks ≡ false
      → Has o
      → Has (remove_capabilities x ks o)
  Has-remove ks o absent has = ground (arith, lookup-remove_capabilities x ks o k)

  mutual
    unfolding execute_rules

    Has-rule :
        (r : CompiledRule Program) (rs : CompiledRules Program) (o o' : Output Value)
        → execute_rule x i r o ≡ (none, o')
        → NotRemoved (more r rs)
        → Has o
        → Has o'
    Has-rule (compiled d f a ch) rs o o' h kept has =
        elim (execute_rule-eq-none x i d f a ch o o' h) [
          | inl (_, same) ↦ rw (← same) has
          | inr (q, fired, adding, children) ↦
              Has-rules ch _ o' children (λ r c. kept r (below fired c))
                (Has-remove (keys a.capabilities.remove) q (kept (compiled d f a ch) (here fired))
                  (Has-add d a.capabilities.add o q adding has))
        ]

    Has-rules :
        (rs : CompiledRules Program) (o o' : Output Value)
        → execute_rules x i rs o ≡ (none, o')
        → NotRemoved rs
        → Has o
        → Has o'
    Has-rules empty o o' h kept has = let e : o ≡ o' = ground arith in rw (← e) has
    Has-rules (more r rs) o o' h kept has =
        let (q, now, rest) = then-eq-none x (execute_rule x i r o) (execute_rules x i rs) h in
        Has-rules rs q o' rest (λ c fires. kept c (later fires)) (Has-rule r rs o q now kept has)

  fired_parts :
      (d : String) (f : Program) (a : CompiledActions Program) (ch : CompiledRules Program)
      (o o' : Output Value)
      → matches x i d f ≡ ok true
      → execute_rule x i (compiled d f a ch) o ≡ (none, o')
      → (q : Output Value) × (add_capabilities x i d a.capabilities.add o ≡ (none, q))
        × (execute_rules x i ch (remove_capabilities x (keys a.capabilities.remove) q) ≡ (none, o'))
  fired_parts d f a ch o o' fired h = elim (execute_rule-eq-none x i d f a ch o o' h) [
    | inl (skipped, _) ↦ absurd (true≢false fired skipped)
    | inr (q, _, adding, children) ↦ (q, adding, children)
  ]
    where
      true≢false : matches x i d f ≡ ok true → matches x i d f ≡ ok false → ⊥
      true≢false p q = ground arith

  Fires-Has :
      (rs : CompiledRules Program) (r : CompiledRule Program) (o o' : Output Value)
      → Fires x i rs r
      → elem k (keys (rules_added x r)) ≡ true
      → execute_rules x i rs o ≡ (none, o')
      → NotRemoved rs
      → Has o'
  unfolding execute_rules
  Fires-Has rs r o o' (here {d} {f} {a} {ch} {rs = tail_rules} fired) m h kept =
      let (q, now, rest) = then-eq-none x _ (execute_rules x i tail_rules) h in
      let (p, adding, children) = fired_parts d f a ch o q fired now in
      Has-rules tail_rules q o' rest (λ c fires. kept c (later fires))
        (Has-rules ch _ q children (λ c fires. kept c (below fired fires))
          (Has-remove (keys a.capabilities.remove) p (kept (compiled d f a ch) (here fired))
            (Has-of_added d a.capabilities.add o p adding m)))
  Fires-Has rs r o o' (later {q} {rs = tail_rules} fires) m h kept =
      let (p, now, rest) = then-eq-none x _ (execute_rules x i tail_rules) h in
      Fires-Has tail_rules r p o' fires m rest (λ c f. kept c (later f))
  Fires-Has rs r o o' (below {d} {f} {a} {ch} {rs = tail_rules} fired fires) m h kept =
      let (q, now, rest) = then-eq-none x _ (execute_rules x i tail_rules) h in
      let (p, adding, children) = fired_parts d f a ch o q fired now in
      Has-rules tail_rules q o' rest (λ c g. kept c (later g))
        (Fires-Has ch r _ q fires m children (λ c g. kept c (below fired g)))

-- In a run without error, a capability that a rule which fires adds is in the output, unless some
-- rule that fires removes it.
pub execute_complete :
    (x : ExprLang) (e : Engine x.Program) (i : x.Input) (o : Output x.Value) (k : String)
    (r : CompiledRule x.Program)
    → execute x e i ≡ (o, none)
    → Fires x i e.rules r
    → elem k (keys (rules_added x r)) ≡ true
    → ((q : CompiledRule x.Program) → Fires x i e.rules q → elem k (rules_removed x q) ≡ false)
    → is_some (lookup k o.capabilities) ≡ true
unfolding execute
execute_complete x e i o k r h fires m kept =
    Fires-Has x i k e.rules r (record { capabilities = [] }) o fires m (λ j. ((h j).1, (h j).0))
      kept
