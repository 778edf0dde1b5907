-- ===== src/Monitor/Reports.antt =====
-- zclFilter and zclMessage of attribute/monitor.go: which values reach the callback.
use zda.Base.{
  ℕ, Bool, true, ◌≡◌, refl, ap, sym, ◌∙◌, ◌↔◌, List, [], ◌∷◌, ◌⊎◌, inl, inr, ◌&&◌, ◌==◌,
  if◌then◌else◌, nat_key, arith, Bool-cases, false≢true,
}
use zda.Monitor.{Monitor}

-- global.ReportAttributesRecord
pub record ReportRecord (V : Type 0) : Type 0 where
  pub identifier : ℕ
  pub data_type : ℕ
  pub value : V

-- global.ReadAttributeResponseRecord; a record with a status other than 0 has no value that counts.
pub record ReadRecord (V : Type 0) : Type 0 where
  pub status : ℕ
  pub report : ReportRecord V

pub data Command (V : Type 0) : Type 0 where
  report_attributes : List (ReportRecord V) → Command V
  read_attributes_response : List (ReadRecord V) → Command V
  other_command : Command V

-- zcl.Message, as far as a monitor reads it.
pub record Message (V : Type 0) : Type 0 where
  pub source_endpoint : ℕ
  pub destination_endpoint : ℕ
  pub server_to_client : Bool
  pub cluster_id : ℕ
  pub command : Command V

abbrev pub Occurs : {A : Type 0} → A → List A → Type 0
Occurs a [] = ⊥
Occurs a (x ∷ xs) = (a ≡ x) ⊎ Occurs a xs

module _ {V : Type 0} where
  -- The values that a command carries: a report's, and a response's where the status is 0.
  abbrev answered_ok : List (ReadRecord V) → List (ReportRecord V)
  answered_ok [] = []
  answered_ok (r ∷ rs) = if r.status == 0 then r.report ∷ answered_ok rs else answered_ok rs

  abbrev pub carried : Command V → List (ReportRecord V)
  carried (report_attributes rs) = rs
  carried (read_attributes_response rs) = answered_ok rs
  carried other_command = []

module _ {N V : Type 0} where
  -- zclFilter
  unfoldable pub zcl_filter : Monitor N → ℕ → Message V → Bool
  zcl_filter z a m =
      a == z.ieee_address
      && m.source_endpoint == z.remote_endpoint
      && m.destination_endpoint == z.local_endpoint
      && m.server_to_client
      && m.cluster_id == z.cluster_id

  abbrev pub is_wanted : Monitor N → ReportRecord V → Bool
  is_wanted z r = r.identifier == z.attribute_id && r.data_type == z.attribute_data_type

  -- The loops of zclMessage: the records whose values go to the callback, in order.
  unfoldable pub reported : Monitor N → List (ReportRecord V) → List (ReportRecord V)
  reported z [] = []
  reported z (r ∷ rs) = let rest = reported z rs in if is_wanted z r then r ∷ rest else rest

  unfoldable pub answered : Monitor N → List (ReadRecord V) → List (ReportRecord V)
  answered z [] = []
  answered z (r ∷ rs) =
      let rest = answered z rs in
      if r.status == 0 && is_wanted z r.report then r.report ∷ rest else rest

  -- zclMessage
  unfoldable pub zcl_message : Monitor N → Command V → List (ReportRecord V)
  zcl_message z (report_attributes rs) = reported z rs
  zcl_message z (read_attributes_response rs) = answered z rs
  zcl_message z other_command = []

  -- What the communicator does with a registered match.
  unfoldable pub deliver : Monitor N → ℕ → Message V → List (ReportRecord V)
  deliver z a m = let rest = zcl_message z m.command in if zcl_filter z a m then rest else []

  answered-answered_ok :
      (z : Monitor N) (rs : List (ReadRecord V)) → answered z rs ≡ reported z (answered_ok rs)
  unfolding answered reported
  answered-answered_ok z [] = refl
  answered-answered_ok z (r ∷ rs) = elim (Bool-cases (r.status == 0)) [
    | inl good ↦ rw good (
        ap (λ rest. if is_wanted z r.report then r.report ∷ rest else rest)
          (answered-answered_ok z rs))
    | inr bad ↦ rw bad (answered-answered_ok z rs)
  ]

  zcl_message-carried : (z : Monitor N) (c : Command V) → zcl_message z c ≡ reported z (carried c)
  unfolding zcl_message reported
  zcl_message-carried z (report_attributes rs) = refl
  zcl_message-carried z (read_attributes_response rs) = answered-answered_ok z rs
  zcl_message-carried z other_command = refl

  reported_sound :
      (z : Monitor N) (r : ReportRecord V) (rs : List (ReportRecord V))
      → Occurs r (reported z rs)
      → Occurs r rs × (is_wanted z r ≡ true)
  unfolding reported
  reported_sound z r [] here = absurd here
  reported_sound z r (x ∷ rs) here = elim (Bool-cases (is_wanted z x)) [
    | inl wanted ↦ elim (rw wanted at here) [
      | inl same ↦ (inl same, ap (is_wanted z) same ∙ wanted)
      | inr later ↦ let (there, good) = reported_sound z r rs later in (inr there, good)
    ]
    | inr other ↦ let (there, good) = reported_sound z r rs (rw other at here) in (inr there, good)
  ]

  reported_complete :
      (z : Monitor N) (r : ReportRecord V) (rs : List (ReportRecord V))
      → Occurs r rs
      → is_wanted z r ≡ true
      → Occurs r (reported z rs)
  unfolding reported
  reported_complete z r [] here wanted = absurd here
  reported_complete z r (x ∷ rs) (inl same) wanted =
      rw (ap (is_wanted z) (sym same) ∙ wanted) (inl same)
  reported_complete z r (x ∷ rs) (inr later) wanted = elim (Bool-cases (is_wanted z x)) [
    | inl also ↦ rw also (inr (reported_complete z r rs later wanted))
    | inr other ↦ rw other (reported_complete z r rs later wanted)
  ]

  -- The message is from the monitored endpoint and cluster of the device, to the local endpoint.
  abbrev pub IsAddressed : Monitor N → ℕ → Message V → Type 0
  IsAddressed z a m =
      (a ≡ z.ieee_address)
      × (m.source_endpoint ≡ z.remote_endpoint)
      × (m.destination_endpoint ≡ z.local_endpoint)
      × (m.server_to_client ≡ true)
      × (m.cluster_id ≡ z.cluster_id)

  -- The value is of the monitored attribute and data type.
  abbrev pub IsMonitored : Monitor N → ReportRecord V → Type 0
  IsMonitored z r = (r.identifier ≡ z.attribute_id) × (r.data_type ≡ z.attribute_data_type)

  zcl_filter-IsAddressed :
      (z : Monitor N) (a : ℕ) (m : Message V) → (zcl_filter z a m ≡ true) ↔ IsAddressed z a m
  unfolding zcl_filter
  zcl_filter-IsAddressed z a m = ground (
    arith,
    nat_key.same_iff a z.ieee_address,
    nat_key.same_iff m.source_endpoint z.remote_endpoint,
    nat_key.same_iff m.destination_endpoint z.local_endpoint,
    nat_key.same_iff m.cluster_id z.cluster_id,
  )

  is_wanted-IsMonitored :
      (z : Monitor N) (r : ReportRecord V) → (is_wanted z r ≡ true) ↔ IsMonitored z r
  is_wanted-IsMonitored z r = ground (
    arith,
    nat_key.same_iff r.identifier z.attribute_id,
    nat_key.same_iff r.data_type z.attribute_data_type,
  )

  deliver_filtered :
      (z : Monitor N) (a : ℕ) (m : Message V) (r : ReportRecord V)
      → Occurs r (deliver z a m)
        ↔ ((zcl_filter z a m ≡ true) × Occurs r (carried m.command) × (is_wanted z r ≡ true))
  unfolding deliver
  deliver_filtered z a m r = elim (Bool-cases (zcl_filter z a m)) [
    | inl passed ↦
        rw (passed, zcl_message-carried z m.command)
          (
            λ here.
                let (there, wanted) = reported_sound z r (carried m.command) here in
                (refl, there, wanted),
            λ all. reported_complete z r (carried m.command) all.1 all.2,
          )
    | inr blocked ↦ rw blocked (λ here. absurd here, λ all. absurd (false≢true all.0))
  ]

  -- A value reaches the callback exactly when the address of the message and its source endpoint
  -- are those of the monitored device, its destination is the local endpoint, it goes from server
  -- to client and is of the monitored cluster, its command is a report of the value or a response
  -- with the value and the status 0, and the value is of the monitored attribute and data type.
  pub deliver_exact :
      (z : Monitor N) (a : ℕ) (m : Message V) (r : ReportRecord V)
      → Occurs r (deliver z a m)
        ↔ (IsAddressed z a m × Occurs r (carried m.command) × IsMonitored z r)
  deliver_exact z a m r =
      let both = deliver_filtered z a m r in
      let filter = zcl_filter-IsAddressed z a m in
      let wanted = is_wanted-IsMonitored z r in
      (
        λ here. let (passed, there, good) = both.0 here in (filter.0 passed, there, wanted.0 good),
        λ all. both.1 (filter.1 all.0, all.1, wanted.1 all.2),
      )
