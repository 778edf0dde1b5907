-- ===== src/Enumerate/Capabilities.antt =====
-- updateCapabilitiesOnDevice and enumerateCapabilityOnDevice of enumerate_device.go.
pub mod Steps
pub mod Changed
pub mod Attempt
pub mod Loops
pub mod Redundant
pub mod Honest
use zda.Base.{
  ℕ, String, Bool, true, false, Option, none, some, List, [], ◌∷◌, ◌++◌, Assoc, keys, lookup, put,
  elem, is_some, ◌==◌, if◌then◌else◌, nat_key, string_key,
}
use zda.Table.{no_longer_enumerated, failed_attach, Host, Device}
use zda.Table.Ops.{
  State, device_path, get_device, on_device, on_store, capabilities_of, attach_capability_to_device,
  detach_capability_from_device,
}
use zda.Enumerate.Factory.{Enumerated, panicked, returned, Implementations, mapping, create}

-- The errors of an enumeration; the names are those of capability implementations.
pub data CapabilityError (F : Type 0) : Type 0 where
  could_not_find multiple_implementations no_concrete_implementation : String → CapabilityError F
  conflicting_detach redundant_detach : F → CapabilityError F
  while_attaching failed_attach_detach : String → F → CapabilityError F

-- capabilities.EnumerationCapability
pub record EnumerationCapability (F : Type 0) : Type 0 where
  pub attached : Bool
  pub errors : List (CapabilityError F)

abbrev pub Results : Type 0 → Type 0
Results F = Assoc ℕ (EnumerationCapability F)

abbrev pub error_list : {F : Type 0} → (F → CapabilityError F) → Option F → List (CapabilityError F)
error_list make none = []
error_list make (some e) = make e ∷ []

abbrev errors_of : {F : Type 0} → Option (EnumerationCapability F) → List (CapabilityError F)
errors_of none = []
errors_of (some e) = e.errors

-- errs[cf].Errors = append(errs[cf].Errors, es...); errs[cf].Attached = attached
unfoldable pub set_result :
    {F : Type 0} → ℕ → Bool → List (CapabilityError F) → Results F → Results F
set_result cf attached es errs =
    put cf (record { attached = attached; errors = errors_of (lookup cf errs) ++ es }) errs

module _ (h : Host) {V : Type 0} (f : Implementations h V) where
  open h use {
    Store, Impl, Failure, section, standard_name, capability, detach, enumerate_device_flag,
  }

  abbrev pub Error : Type 0
  Error = CapabilityError Failure

  -- Enumerate may change the object, which the device holds too if it is attached already.
  unfoldable pub changed : ℕ → ℕ → Impl → State h → State h
  changed a s c g =
      if is_some (lookup (capability c) (capabilities_of h (get_device h a s g)))
      then on_device h a s (λ d. record d { capabilities = put (capability c) c d.capabilities }) g
      else g

  -- An implementation with another name is detached: what is found, the errors and the state.
  unfoldable pub drop_conflicting :
      ℕ → ℕ → String → Option Impl → State h → Option Impl × List Error × State h
  drop_conflicting a s name none g = (none, [], g)
  drop_conflicting a s name (some c) g =
      if f.impl_name c == name
      then (some c, [], g)
      else let (e, store) = detach c no_longer_enumerated g.store in
        (
          none,
          error_list conflicting_detach e,
          detach_capability_from_device h a s c (record g { store = store }),
        )

  abbrev capability_path : ℕ → ℕ → ℕ → List String
  capability_path a s cf = device_path h a s ++ "Capability" ∷ standard_name cf ∷ []

  abbrev initialised : ℕ → ℕ → String → ℕ → State h → Option Impl → Option (Impl × State h)
  initialised a s name cf g none = none
  initialised a s name cf g (some c) =
      let path = capability_path a s cf in
      let store = f.set_string path "Implementation" name (section path g.store) in
      let (c1, store1) = f.init a s (path ++ "Data" ∷ []) c store in
      some (c1, record g { store = store1 })

  -- The implementation that is found, or else a new one.
  unfoldable pub implementation :
      ℕ → ℕ → String → ℕ → Option Impl → State h → Option (Impl × State h)
  implementation a s name cf (some c) g = some (c, g)
  implementation a s name cf none g = initialised a s name cf g (create h f name)

  -- What follows Enumerate. A panic is recovered, and the function returns its zero values.
  unfoldable pub conclude :
      ℕ
      → ℕ
      → String
      → List Error
      → Impl
      → Enumerated Failure
      → State h
      → (Bool × List Error) × State h
  conclude a s name errs c panicked g = ((false, []), g)
  conclude a s name errs c (returned true e) g =
      ((true, errs ++ error_list (while_attaching name) e), attach_capability_to_device h a s c g)
  conclude a s name errs c (returned false e) g =
      let (e2, store) = detach c failed_attach g.store in
      (
        (
          false,
          errs ++ error_list (while_attaching name) e ++ error_list (failed_attach_detach name) e2,
        ),
        detach_capability_from_device h a s c (record g { store = store }),
      )

  abbrev pub attempt :
      ℕ
      → ℕ
      → String
      → Assoc String V
      → List Error
      → Option (Impl × State h)
      → State h
      → (Bool × List Error) × State h
  attempt a s name settings errs none g = ((false, no_concrete_implementation name ∷ []), g)
  attempt a s name settings errs (some (c, g1)) g =
      let (out, c1, store) = f.enumerate c settings g1.store in
      conclude a s name errs c1 out (changed a s c1 (record g1 { store = store }))

  -- enumerateCapabilityOnDevice: whether it attached, the errors, and the state.
  unfoldable pub enumerate_capability_on_device :
      ℕ → ℕ → String → ℕ → List ℕ → Assoc String V → State h → (Bool × List Error) × State h
  enumerate_capability_on_device a s name cf active settings g =
      if elem cf active
      then ((false, multiple_implementations name ∷ []), g)
      else let (found, errs, g1) =
          drop_conflicting a s name (lookup cf (capabilities_of h (get_device h a s g))) g in
        attempt a s name settings errs (implementation a s name cf found g1) g1

  -- What the loops of updateCapabilitiesOnDevice change.
  pub record Progress : Type 0 where
    pub active : List ℕ
    pub errs : Results Failure
    pub state : State h

  abbrev pub enumerated : ℕ → (Bool × List Error) × State h → Progress → Progress
  enumerated cf ((attached, es), g) p = record {
    active = if attached then p.active ++ cf ∷ [] else p.active;
    errs = set_result cf attached es p.errs;
    state = g;
  }

  -- The body of the loop over ep.rulesOutput.Capabilities.
  unfoldable pub enumerate_one : ℕ → ℕ → String → Assoc String V → Progress → Progress
  enumerate_one a s name settings p = elim (lookup name (mapping h f)) [
    | none ↦ record p {
      errs = set_result enumerate_device_flag true (could_not_find name ∷ []) p.errs;
    }
    | some cf ↦
        enumerated cf (enumerate_capability_on_device a s name cf p.active settings p.state) p
  ]

  unfoldable pub enumerate_all : ℕ → ℕ → Assoc String (Assoc String V) → Progress → Progress
  enumerate_all a s [] p = p
  enumerate_all a s ((name, settings) ∷ cs) p =
      enumerate_all a s cs (enumerate_one a s name settings p)

  -- The loop over id.endpoints, each with the capabilities in its rulesOutput.
  unfoldable pub enumerate_endpoints :
      ℕ → ℕ → List (Assoc String (Assoc String V)) → Progress → Progress
  enumerate_endpoints a s [] p = p
  enumerate_endpoints a s (ep ∷ eps) p = enumerate_endpoints a s eps (enumerate_all a s ep p)

  abbrev not_attached : Option Failure → EnumerationCapability Failure
  not_attached e = record { attached = false; errors = error_list redundant_detach e }

  -- The body of the loop over d.capabilities, for a capability that is not active.
  abbrev pub remove_one :
      ℕ → ℕ → ℕ → Option Impl → Results Failure → State h → Results Failure × State h
  remove_one a s cf none errs g = (errs, g)
  remove_one a s cf (some impl) errs g =
      let (e, store) = detach impl no_longer_enumerated g.store in
      (
        put cf (not_attached e) errs,
        detach_capability_from_device h a s impl (record g { store = store }),
      )

  -- The loop over d.capabilities, by its keys: `range` does not give an entry that has been
  -- deleted.
  unfoldable pub remove_redundant :
      ℕ → ℕ → List ℕ → List ℕ → Results Failure → State h → Results Failure × State h
  remove_redundant a s active [] errs g = (errs, g)
  remove_redundant a s active (cf ∷ cfs) errs g =
      let (errs1, g1) =
        if elem cf active
        then (errs, g)
        else remove_one a s cf (lookup cf (capabilities_of h (get_device h a s g))) errs g in
      remove_redundant a s active cfs errs1 g1

  abbrev pub start : State h → Progress
  start g = record {
    active = [];
    errs = (enumerate_device_flag, record { attached = true; errors = [] }) ∷ [];
    state = g;
  }

  -- updateCapabilitiesOnDevice: its results and the state.
  unfoldable pub update_capabilities_on_device :
      ℕ → ℕ → List (Assoc String (Assoc String V)) → State h → Results Failure × State h
  update_capabilities_on_device a s eps g =
      let p = enumerate_endpoints a s eps (start g) in
      remove_redundant a s p.active (keys (capabilities_of h (get_device h a s p.state))) p.errs
        p.state
