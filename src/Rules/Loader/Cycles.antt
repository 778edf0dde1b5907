-- ===== src/Rules/Loader/Cycles.antt =====
-- A dependency order puts each rule set behind its dependencies, so no rule set needs itself.
use zda.Base.{
  ℕ, suc, ◌<◌, ◌≡◌, String, true, none, List, [], ◌∷◌, Assoc, keys, elem, elem-keys, All-elem,
  arith, ap, Bool-cases, Option-cases, ◌≢◌, ◌⊎◌, inl, inr, some, ◌==◌, if◌then◌else◌, string_key,
}
use zda.Rules.{ExprLang, RuleSet, Engine}
use zda.Rules.Loader.{EngineError, out_of_fuel, compile_all}
use zda.Rules.Loader.Failure.{IsTrue, compile_all-IsTrue}
use zda.Rules.Loader.Needs.{Needs, direct, through}
use zda.Rules.Loader.Success.{IsKeyed}
use zda.Rules.Loader.Order.{dependencies, dependencies_found, IsOrdered, compile_all-Compiles}

-- The position of the first occurrence.
index_of : String → List String → ℕ
index_of k [] = 0
index_of k (j ∷ ks) = if j == k then 0 else suc (index_of k ks)

abbrev IsEarlier : List String → String → String → Type 0
IsEarlier ks d k = (elem d ks ≡ true) × (index_of d ks < index_of k ks)

module _ (sets : Assoc String RuleSet) where
  IsEarlier-dependency :
      (seen ks : List String) (k d : String)
      → IsOrdered sets seen ks
      → elem k ks ≡ true
      → elem d (dependencies sets k) ≡ true
      → (elem d seen ≡ true) ⊎ IsEarlier ks d k
  unfolding index_of
  IsEarlier-dependency seen [] k d o m h = ground arith
  IsEarlier-dependency seen (j ∷ ks) k d o m h = elim (Bool-cases (j == k)) [
    | inl same ↦
        let h' = rw (← (string_key.same_iff j k).0 same) at h in
        inl (All-elem (λ c. elem c seen ≡ true) (dependencies sets j) d o.0 h')
    | inr other ↦
        ground (arith, other, IsEarlier-dependency (j ∷ seen) ks k d o.1 (rw other at m) h)
  ]

  module _ (names : List String) (ordered : IsOrdered sets [] names)
      (complete : (k : String) → elem k names ≡ elem k (keys sets)) where
    Needs-IsEarlier : {k d : String} → Needs sets k d → IsEarlier names d k
    Needs-IsEarlier (direct {k} {d} found m) = ground (
      arith,
      complete k,
      elem-keys k sets,
      found,
      IsEarlier-dependency [] names k d ordered
          (ground (arith, complete k, elem-keys k sets, found))
          (rw (dependencies_found sets k found) m),
    )
    Needs-IsEarlier (through a b) =
        let first = Needs-IsEarlier a in let rest = Needs-IsEarlier b in (rest.0, omega arith)

compile_all-acyclic :
    (x : ExprLang) (e e' : Engine x.Program) (k : String)
    → IsKeyed e.rule_sets
    → compile_all x e ≡ (none, e')
    → ¬ Needs e.rule_sets k k
compile_all-acyclic x e e' k keyed h cycle =
    let c = compile_all-Compiles x e e' keyed h in
    let earlier = Needs-IsEarlier e.rule_sets c.names c.ordered c.complete cycle in omega arith

-- When the rule sets are stored under their names and one of them needs itself, CompileRules ends,
-- without running out of fuel, and returns an error, which is a true one: a missing dependency, a
-- cycle or a compilation error that is there.
pub compile_all-cyclic :
    (x : ExprLang) (e : Engine x.Program) (k : String)
    → IsKeyed e.rule_sets
    → Needs e.rule_sets k k
    → (error : EngineError x.Failure) × ((compile_all x e).0 ≡ some error)
      × (error ≢ out_of_fuel)
      × IsTrue x e.rule_sets error
compile_all-cyclic x e k keyed cycle = elim (Option-cases (compile_all x e).0) [
  | inl fine ↦ absurd (
      compile_all-acyclic x e (compile_all x e).1 k keyed (ap (λ o. (o, (compile_all x e).1)) fine)
        cycle)
  | inr (error, raised) ↦
      let true_error =
        compile_all-IsTrue x e (compile_all x e).1 error keyed
          (ap (λ o. (o, (compile_all x e).1)) raised) in
      (error, raised, λ ran_out. rw ran_out at true_error, true_error)
]
