-- ===== src/Enumerate/Capabilities/Loops.antt =====
-- What updateCapabilitiesOnDevice leaves on the device, and what it reports.
use zda.Base.{
  ℕ, String, Bool, true, false, ◌≡◌, refl, ◌∙◌, some, List, [], ◌∷◌, ◌++◌, Assoc, keys, lookup, put,
  lookup-put, elem, elem-append, is_some, ◌==◌, ◌||◌, ◌&&◌, if◌then◌else◌, nat_key, string_key,
  arith, Bool-cases, Option-cases, inl, inr, ◌⊎◌, beq_refl, false≢true,
}
use zda.Table.{Host}
use zda.Table.Ops.{State, get_device}
use zda.Table.Lookup.{is_same}
use zda.Table.Mirror.{Inv}
use zda.Enumerate.Factory.{Implementations, IsStable, mapping}
use zda.Enumerate.Capabilities.{
  Error, EnumerationCapability, Results, set_result, could_not_find, multiple_implementations,
  enumerate_capability_on_device, Progress, enumerated, enumerate_one, enumerate_all,
  enumerate_endpoints, start,
}
use zda.Enumerate.Capabilities.Attempt.{Holds, Fair, enumerate_capability_on_device-Fair}

module _ (h : Host) {V : Type 0} (f : Implementations h V) where
  open h use {Impl, Failure, enumerate_device_flag}

  -- The device has the capability `c`, from an implementation that `names` lists.
  abbrev pub Backed : ℕ → ℕ → List String → ℕ → State h → Type 0
  Backed a s names c g =
      (name : String) × (elem name names ≡ true)
      × (lookup name (mapping h f) ≡ some c)
      × Holds h f a s name c g

  -- A capability that is reported as attached is an active one.
  abbrev pub IsTold : Results Failure → List ℕ → Type 0
  IsTold errs active =
      (c : ℕ) (e : EnumerationCapability Failure)
      → lookup c errs ≡ some e
      → e.attached ≡ true
      → (c ≡ enumerate_device_flag) ⊎ (elem c active ≡ true)

  put_same :
      (cf c : ℕ) (r e : EnumerationCapability Failure) (errs : Results Failure)
      → lookup c (put cf r errs) ≡ some e
      → (cf == c) ≡ true
      → r.attached ≡ e.attached
  put_same cf c r e errs found same = ground (arith, lookup-put cf c r errs)

  put_other :
      (cf c : ℕ) (r e : EnumerationCapability Failure) (errs : Results Failure)
      → lookup c (put cf r errs) ≡ some e
      → (cf == c) ≡ false
      → lookup c errs ≡ some e
  put_other cf c r e errs found other = ground (arith, lookup-put cf c r errs)

  pub put-IsTold :
      (cf : ℕ) (r : EnumerationCapability Failure) (errs : Results Failure)
      (active active' : List ℕ)
      → IsTold errs active
      → ((c : ℕ) → elem c active ≡ true → elem c active' ≡ true)
      → (r.attached ≡ true → (cf ≡ enumerate_device_flag) ⊎ (elem cf active' ≡ true))
      → IsTold (put cf r errs) active'
  put-IsTold cf r errs active active' told more new c e found is_attached =
      elim (Bool-cases (cf == c)) [
        | inl same ↦
            rw (← (nat_key.same_iff cf c).0 same)
              (new (put_same cf c r e errs found same ∙ is_attached))
        | inr other ↦ elim (told c e (put_other cf c r e errs found other) is_attached) [
          | inl built_in ↦ inl built_in
          | inr listed ↦ inr (more c listed)
        ]
      ]

  set_result-IsTold :
      (cf : ℕ) (attached : Bool) (es : List (Error h f)) (errs : Results Failure)
      (active active' : List ℕ)
      → IsTold errs active
      → ((c : ℕ) → elem c active ≡ true → elem c active' ≡ true)
      → (attached ≡ true → (cf ≡ enumerate_device_flag) ⊎ (elem cf active' ≡ true))
      → IsTold (set_result cf attached es errs) active'
  unfolding set_result
  set_result-IsTold cf attached es errs = put-IsTold cf _ errs

  -- The names that the rules gave for the endpoints.
  abbrev pub names_of : List (Assoc String (Assoc String V)) → List String
  names_of [] = []
  names_of (ep ∷ eps) = keys ep ++ names_of eps

-- The loops start from the state `g0`.
module _ (h : Host) {V : Type 0} (f : Implementations h V) (g0 : State h) where
  open h use {Impl, Failure, enumerate_device_flag}

  pub record Good (a s : ℕ) (names : List String) (p : Progress h f) : Type 0 where
    pub inv : Inv h p.state
    pub there : is_some (get_device h a s p.state) ≡ true
    pub elsewhere :
        (b t : ℕ) → is_same a s b t ≡ false → get_device h b t p.state ≡ get_device h b t g0
    pub backed : (c : ℕ) → elem c p.active ≡ true → Backed h f a s names c p.state
    pub told : IsTold h f p.errs p.active

  unknown-Good :
      (a s : ℕ) (names : List String) (name : String) (p : Progress h f)
      → Good a s names p
      → Good a s names (record p {
        errs = set_result enumerate_device_flag true (could_not_find name ∷ []) p.errs;
      })
  unknown-Good a s names name p good = record {
    inv = good.inv;
    there = good.there;
    elsewhere = good.elsewhere;
    backed = good.backed;
    told =
        set_result-IsTold h f enumerate_device_flag true (could_not_find name ∷ []) p.errs p.active
          p.active good.told (λ c listed. listed) (λ yes. inl refl);
  }

  -- A second implementation of a capability is turned down.
  enumerate_again :
      (a s : ℕ) (name : String) (cf : ℕ) (active : List ℕ) (settings : Assoc String V) (g : State h)
      → elem cf active ≡ true
      → enumerate_capability_on_device h f a s name cf active settings g
        ≡ ((false, multiple_implementations name ∷ []), g)
  unfolding enumerate_capability_on_device
  enumerate_again a s name cf active settings g again = rw again

  again-Good :
      (a s : ℕ) (names : List String) (cf : ℕ) (es : List (Error h f)) (p : Progress h f)
      → Good a s names p
      → Good a s names (enumerated h f cf ((false, es), p.state) p)
  again-Good a s names cf es p good = record {
    inv = good.inv;
    there = good.there;
    elsewhere = good.elsewhere;
    backed = good.backed;
    told =
        set_result-IsTold h f cf false es p.errs p.active p.active good.told (λ c listed. listed)
          (λ no. absurd (false≢true no));
  }

  elem-activated :
      (c cf : ℕ) (attached : Bool) (active : List ℕ)
      → elem c (if attached then active ++ cf ∷ [] else active)
        ≡ (elem c active || attached && cf == c)
  elem-activated c cf attached active = ground (arith, elem-append c active (cf ∷ []))

  fresh-Good :
      (a s : ℕ) (names : List String) (name : String) (cf : ℕ)
      (r : (Bool × List (Error h f)) × State h) (p : Progress h f)
      → elem name names ≡ true
      → lookup name (mapping h f) ≡ some cf
      → elem cf p.active ≡ false
      → Fair h f a s name cf p.state r
      → Good a s names p
      → Good a s names (enumerated h f cf r p)
  fresh-Good a s names name cf r p listed mapped once fair good = record {
    inv = fair.touches.inv good.inv;
    there = fair.touches.there good.there;
    elsewhere = λ b t apart. fair.touches.elsewhere b t apart ∙ good.elsewhere b t apart;
    backed = λ c active. elim (Bool-cases (cf == c)) [
      | inl same ↦
          let is_c : cf ≡ c = (nat_key.same_iff cf c).0 same in
          let attached : r.0.0 ≡ true = ground (arith, elem-activated c cf r.0.0 p.active) in
          rw (← is_c) (name, listed, mapped, fair.attached attached)
      | inr other ↦
          let (n, listed_n, mapped_n, (i, held, named)) =
            good.backed c (ground (arith, elem-activated c cf r.0.0 p.active)) in
          (n, listed_n, mapped_n, (i, fair.touches.others c other ∙ held, named))
    ];
    told =
        set_result-IsTold h f cf r.0.0 r.0.1 p.errs p.active
          (if r.0.0 then p.active ++ cf ∷ [] else p.active) good.told
          (λ c active. ground (arith, elem-activated c cf r.0.0 p.active))
          (λ yes. inr (ground (arith, elem-activated cf cf r.0.0 p.active, beq_refl cf)));
  }

  enumerate_one-Good :
      (a s : ℕ) (names : List String) (name : String) (settings : Assoc String V) (p : Progress h f)
      → IsStable h f
      → elem name names ≡ true
      → Good a s names p
      → Good a s names (enumerate_one h f a s name settings p)
  unfolding enumerate_one
  enumerate_one-Good a s names name settings p stable listed good =
      elim (Option-cases (lookup name (mapping h f))) [
        | inl unknown ↦ rw (unknown, enumerate_one) (unknown-Good a s names name p good)
        | inr (cf, mapped) ↦
            rw (mapped, enumerate_one)
              (elim (Bool-cases (elem cf p.active)) [
                | inl again ↦
                    rw (enumerate_again a s name cf p.active settings p.state again)
                      (again-Good a s names cf (multiple_implementations name ∷ []) p good)
                | inr once ↦
                    fresh-Good a s names name cf
                      (enumerate_capability_on_device h f a s name cf p.active settings p.state) p
                      listed mapped once
                      (enumerate_capability_on_device-Fair h f a s name cf p.active settings p.state
                        stable mapped good.inv good.there)
                      good
              ])
      ]

  enumerate_all-Good :
      (a s : ℕ) (names : List String) (cs : Assoc String (Assoc String V)) (p : Progress h f)
      → IsStable h f
      → ((name : String) → elem name (keys cs) ≡ true → elem name names ≡ true)
      → Good a s names p
      → Good a s names (enumerate_all h f a s cs p)
  unfolding enumerate_all
  enumerate_all-Good a s names [] p stable within good = good
  enumerate_all-Good a s names ((name, settings) ∷ cs) p stable within good =
      enumerate_all-Good a s names cs (enumerate_one h f a s name settings p) stable
        (λ n listed. within n (ground arith))
        (enumerate_one-Good a s names name settings p stable
          (within name (ground (arith, beq_refl name))) good)

  pub enumerate_endpoints-Good :
      (a s : ℕ) (names : List String) (eps : List (Assoc String (Assoc String V)))
      (p : Progress h f)
      → IsStable h f
      → ((name : String) → elem name (names_of h f eps) ≡ true → elem name names ≡ true)
      → Good a s names p
      → Good a s names (enumerate_endpoints h f a s eps p)
  unfolding enumerate_endpoints
  enumerate_endpoints-Good a s names [] p stable within good = good
  enumerate_endpoints-Good a s names (ep ∷ eps) p stable within good =
      enumerate_endpoints-Good a s names eps (enumerate_all h f a s ep p) stable
        (λ n listed. within n (ground (arith, elem-append n (keys ep) (names_of h f eps))))
        (enumerate_all-Good a s names ep p stable
          (λ n listed. within n (ground (arith, elem-append n (keys ep) (names_of h f eps)))) good)

  pub start-Good :
      (a s : ℕ) (names : List String)
      → Inv h g0
      → is_some (get_device h a s g0) ≡ true
      → Good a s names (start h f g0)
  unfolding lookup
  start-Good a s names v there = record {
    inv = v;
    there = there;
    elsewhere = λ b t apart. refl;
    backed = λ c no. absurd (false≢true no);
    told = λ c e found yes. inl (ground arith);
  }
