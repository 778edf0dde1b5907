-- ===== src/DeviceWorkarounds/Recovered.antt =====
-- What Enumerate enables, and that Load of a new process enables the same.
use text.Mathlib.Text.{starts_with}
use zda.Base.{
  ℕ, String, Bool, true, false, ◌≡◌, refl, ap, sym, ◌∙◌, none, some, none≢some, List, [], ◌∷◌, keys,
  elem, IsDistinct, ◌==◌, if◌then◌else◌, string_key, Bool-cases, inl, inr, false≢true, arith, ◌||◌,
}
use zda.Monitor.{Transmission}
use zda.Implcaps.{Settings, as_endpoint, get, Zcl, ZdaInterface}
use zda.DeviceWorkarounds.{
  DeviceWorkarounds, init, load_workaround, load_all, load, enabled, keep_alive, enable_keep_alive,
  enable, Returned, and_then, at, keep_alive_reporting, enabling, configuring, binding,
  enumerate_keep_alive, enumerate_workaround, if_enables, enumerate_all, enumerated, enumerate,
}

abbrev pub with_keep_alive : Bool → List String
with_keep_alive true = keep_alive ∷ []
with_keep_alive false = []

-- The workarounds that settings of these names enable.
abbrev pub enabled_by : List String → List String
enabled_by names = with_keep_alive (elem enable_keep_alive names)

abbrev of_list : List String → DeviceWorkarounds
of_list ws = record { workarounds = ws; workarounds_enabled = ws }

module _ {V : Type 0} (zi : ZdaInterface V) where
  open zi use {Net, Failure}

  -- Without an error, the state is this one.
  abbrev Reaches : DeviceWorkarounds → Returned zi → Type 0
  Reaches j r = r.0 ≡ none → r.1 ≡ j

  and_then-Reaches :
      (i j : DeviceWorkarounds) (r : Returned zi) (continue : DeviceWorkarounds → Net → Returned zi)
      → Reaches i r
      → ((net : Net) → Reaches j (continue i net))
      → Reaches j (and_then zi r continue)
  and_then-Reaches i j (none, i1, net) continue first next fine =
      let same : i1 ≡ i = first refl in (rw (← same) at next) net fine
  and_then-Reaches i j (some e, i1, net) continue first next fine = absurd (none≢some (sym fine))

  configuring-Reaches :
      (zcl : Zcl) (e : ℕ) (t : Transmission) (i : DeviceWorkarounds) (net : Net)
      → Reaches (enable keep_alive i) (configuring zi zcl e t i net)
  configuring-Reaches zcl e t i net =
      and_then-Reaches i (enable keep_alive i)
        (at zi i (zi.configure_reporting t e (keep_alive_reporting zi zcl) net)) (enabling zi)
        (λ fine. refl) λ net1 fine. refl

  binding-Reaches :
      (zcl : Zcl) (e : ℕ) (i : DeviceWorkarounds) (r : Transmission × Net)
      → Reaches (enable keep_alive i) (binding zi zcl e i r)
  binding-Reaches zcl e i (t, net) =
      and_then-Reaches i (enable keep_alive i)
        (at zi i (zi.bind_node_to_controller t.ieee_address t.local_endpoint e zcl.basic_id net))
        (configuring zi zcl e t) (λ fine. refl) (configuring-Reaches zcl e t i)

  enumerate_keep_alive-Reaches :
      (zcl : Zcl) (m : Settings) (i : DeviceWorkarounds) (net : Net)
      → Reaches (enable keep_alive i) (enumerate_keep_alive zi zcl m i net)
  unfolding enumerate_keep_alive
  enumerate_keep_alive-Reaches zcl m i net =
      binding-Reaches zcl (get as_endpoint m "ZigbeeEndpoint" 1) i (zi.transmission_lookup net)

  -- A setting of another name enables nothing.
  enumerate_workaround-Reaches :
      (zcl : Zcl) (m : Settings) (w : String) (i : DeviceWorkarounds) (net : Net)
      → Reaches
          (if w == enable_keep_alive then enable keep_alive i else i)
          (enumerate_workaround zi zcl m w i net)
  unfolding enumerate_workaround
  enumerate_workaround-Reaches zcl m w i net = by_test (w == enable_keep_alive)
    where
      by_test :
          (b : Bool)
          → Reaches
              (if b then enable keep_alive i else i)
              (if b then enumerate_keep_alive zi zcl m i net else (none, i, net))
      by_test true = enumerate_keep_alive-Reaches zcl m i net
      by_test false = λ fine. refl

  -- The name of a workaround has the prefix.
  with_prefix : (w : String) → (w == enable_keep_alive) ≡ true → starts_with w "Enable" ≡ true
  with_prefix w same =
      ap (λ k. starts_with k "Enable") ((string_key.same_iff w enable_keep_alive).0 same)

  if_enables-Reaches :
      (zcl : Zcl) (m : Settings) (w : String) (i : DeviceWorkarounds) (net : Net)
      → Reaches
          (if w == enable_keep_alive then enable keep_alive i else i)
          (if_enables zi zcl m w i net)
  if_enables-Reaches zcl m w i net = by_prefix (starts_with w "Enable") refl
    where
      by_prefix :
          (b : Bool)
          → starts_with w "Enable" ≡ b
          → Reaches
              (if w == enable_keep_alive then enable keep_alive i else i)
              (if b then enumerate_workaround zi zcl m w i net else (none, i, net))
      by_prefix true e fine = enumerate_workaround-Reaches zcl m w i net fine
      by_prefix false e fine = elim (Bool-cases (w == enable_keep_alive)) [
        | inl same ↦ absurd (false≢true (sym e ∙ with_prefix w same))
        | inr other ↦ rw other refl
      ]

  -- The names that are not that of a workaround enable nothing.
  enumerate_all_others :
      (zcl : Zcl) (m : Settings) (ws : List String) (i : DeviceWorkarounds) (net : Net)
      → elem enable_keep_alive ws ≡ false
      → Reaches i (enumerate_all zi zcl m ws i net)
  unfolding enumerate_all
  enumerate_all_others zcl m [] i net absent = λ fine. refl
  enumerate_all_others zcl m (w ∷ ws) i net absent =
      let other : (w == enable_keep_alive) ≡ false = ground arith in
      and_then-Reaches i i (if_enables zi zcl m w i net) (enumerate_all zi zcl m ws)
        (λ fine. rw other at (if_enables-Reaches zcl m w i net fine))
        λ net1. enumerate_all_others zcl m ws i net1 (ground arith)

  enumerate_all-Reaches :
      (zcl : Zcl) (m : Settings) (ws : List String) (net : Net)
      → IsDistinct ws
      → Reaches (of_list (enabled_by ws)) (enumerate_all zi zcl m ws (of_list []) net)
  unfolding enumerate_all
  enumerate_all-Reaches zcl m [] net d = λ fine. refl
  enumerate_all-Reaches zcl m (w ∷ ws) net d =
      by_test (w == enable_keep_alive) refl (if_enables-Reaches zcl m w (of_list []) net)
        λ net1. enumerate_all-Reaches zcl m ws net1 d.1
    where
      by_test :
          (b : Bool)
          → (w == enable_keep_alive) ≡ b
          → Reaches
              (if b then enable keep_alive (of_list []) else of_list [])
              (if_enables zi zcl m w (of_list []) net)
          → ((net1 : Net)
              → Reaches (of_list (enabled_by ws)) (enumerate_all zi zcl m ws (of_list []) net1))
          → Reaches
              (of_list (with_keep_alive (b || elem enable_keep_alive ws)))
              (enumerate_all zi zcl m (w ∷ ws) (of_list []) net)
      by_test true same first rest =
          let is : w ≡ enable_keep_alive = (string_key.same_iff w enable_keep_alive).0 same in
          and_then-Reaches (of_list (keep_alive ∷ [])) (of_list (keep_alive ∷ []))
            (if_enables zi zcl m w (of_list []) net) (enumerate_all zi zcl m ws) first
            λ net1. enumerate_all_others zcl m ws (of_list (keep_alive ∷ [])) net1 (rw is at d.0)
      by_test false other first rest =
          and_then-Reaches (of_list []) (of_list (enabled_by ws))
            (if_enables zi zcl m w (of_list []) net) (enumerate_all zi zcl m ws) first rest

load-of_list :
    {F : Type 0} (b : Bool)
    → load {F = F} (init (with_keep_alive b)) ≡ ((true, none), of_list (with_keep_alive b))
unfolding load init load_all load_workaround
load-of_list true = refl
load-of_list false = refl

module _ {V : Type 0} (zi : ZdaInterface V) where
  open zi use {Net, Failure}

  enumerated-fine :
      (attached : Bool) (i' : DeviceWorkarounds) (net' : Net) (r : Returned zi)
      → enumerated zi r ≡ ((attached, none), i', net')
      → (r.0 ≡ none) × (r.1 ≡ i') × (attached ≡ true)
  enumerated-fine attached i' net' (none, i, net) e =
      (refl, ap (λ t. t.1) e, sym (ap (λ t. t.0.0) e))
  enumerated-fine attached i' net' (some x, i, net) e = absurd (none≢some (sym (ap (λ t. t.0.1) e)))

  -- When the names of the settings differ and Enumerate returns no error, it attaches, Enabled
  -- lists "ZCLReportingKeepAlive", once, if a setting has the name "EnableZCLReportingKeepAlive",
  -- and lists nothing else, whatever was enabled before; and Load of a new process, with the same
  -- sections, attaches without an error and has the same state.
  pub device_workarounds_loads :
      (zcl : Zcl) (m : Settings) (i i' : DeviceWorkarounds) (net net' : Net) (attached : Bool)
      → IsDistinct (keys m)
      → enumerate zi zcl m i net ≡ ((attached, none), i', net')
      → (attached ≡ true)
        × (enabled i' ≡ enabled_by (keys m))
        × (load {F = Failure} (init i'.workarounds) ≡ ((true, none), i'))
  unfolding enumerate enabled
  device_workarounds_loads zcl m i i' net net' attached distinct e =
      let r = enumerate_all zi zcl m (keys m) (of_list []) net in
      let (fine, same, attaches) = enumerated-fine attached i' net' r e in
      let reached : of_list (enabled_by (keys m)) ≡ i' =
        sym (enumerate_all-Reaches zi zcl m (keys m) net distinct fine) ∙ same in
      (
        attaches,
        sym (ap (λ (j : DeviceWorkarounds). j.workarounds_enabled) reached),
        rw (← reached) (load-of_list (elem enable_keep_alive (keys m))),
      )
