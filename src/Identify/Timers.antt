-- ===== src/Identify/Timers.antt =====
-- periodicSendEvent: clients are told of the end of an identification.
use zda.Base.{
  ℕ, ◌≤◌, true, false, ◌≡◌, refl, Option, none, some, List, [], ◌∷◌, All, Bool-cases, inl, inr,
  ◌&&◌, leb, ltb, elem, nat_key, arith, ◌*◌, beq_refl,
}
use zda.Implcaps.{Zcl, one_second, ZdaInterface}
use zda.Sensor.{
  DataType, unsigned_int16, signed_int16, other_type, Value, uint64, int64, uint8, other_value,
  AttributeDataTypeValue,
}
use zda.Identify.{
  IdentifyState, Section, Identify, or_time, until, apart, take_out, send_event,
  periodic_send_event, ended_at, update_duration, updated, update, fire, identify_seconds,
  requested, identify, init,
}

-- What happens to an Implementation, with the time at which it does.
pub data Action : Type 0 where
  reported : ℕ → AttributeDataTypeValue → Action
  asked : ℕ → ℕ → Action
  fired : ℕ → ℕ → Action

-- The newest event says that the device is identifying only if a timer is pending.
abbrev pub IsTold : List IdentifyState → List ℕ → Type 0
IsTold [] ts = Unit
IsTold (e ∷ es) [] = e.identifying ≡ false
IsTold (e ∷ es) (t ∷ ts) = Unit

-- The newest event, if there is any, says that the device does not identify itself.
abbrev pub IsOver : List IdentifyState → Type 0
IsOver [] = Unit
IsOver (e ∷ es) = e.identifying ≡ false

-- Nothing is left of an identification that has ended.
nothing_left :
    (now : ℕ) (end : Option ℕ) → or_time 0 end ≤ now → ltb 0 (until now (or_time now end)) ≡ false
nothing_left now none past = ground arith
nothing_left now (some end) past = ground arith

take_out-head :
    (due now : ℕ) (ts timers : List ℕ)
    → timers ≡ due ∷ ts
    → due ≤ now
    → ((elem due timers && leb due now) ≡ true) × (take_out due timers ≡ ts)
take_out-head due now ts timers e on_time = rw (e, beq_refl due) (ground arith, refl)

module _ {Am : Type 0} where
  -- What is told, and the end of the identification, at the last action.
  abbrev pub Told : Identify Am → Type 0
  Told i = IsTold i.sent i.timers

  periodic_send_event-Told : (now : ℕ) (i : Identify Am) → Told (periodic_send_event now i)
  unfolding periodic_send_event send_event
  periodic_send_event-Told now i =
      elim (Bool-cases (ltb 0 (until now (or_time now i.s.end_time)))) [
        | inl on ↦ rw on tt
        | inr off ↦ rw off (over i.timers)
      ]
    where
      over :
          (ts : List ℕ)
          → IsTold
              (record { identifying = false; remaining = until now (or_time now i.s.end_time) }
                ∷ i.sent)
              ts
      over [] = refl
      over (t ∷ ts) = tt

  update_duration-Told :
      (now duration : ℕ) (i : Identify Am) → Told i → Told (update_duration now duration i)
  unfolding update_duration
  update_duration-Told now duration i told =
      elim (Bool-cases (leb 250 (apart (until now (or_time now i.s.end_time)) duration))) [
        | inl far ↦ rw far (periodic_send_event-Told now (ended_at now duration i))
        | inr close ↦ rw close told
      ]

  fire-Told : (now due : ℕ) (i : Identify Am) → Told i → Told (fire now due i)
  unfolding fire
  fire-Told now due i told = elim (Bool-cases (elem due i.timers && leb due now)) [
    | inl on_time ↦
        rw on_time (periodic_send_event-Told now (record i { timers = take_out due i.timers }))
    | inr not_yet ↦ rw not_yet told
  ]

  update-Told :
      (now : ℕ) (v : AttributeDataTypeValue) (i : Identify Am) → Told i → Told (update now v i)
  unfolding update
  update-Told now v i told = by_type v.data_type v.value
    where
      by_type : (type : DataType) (value : Value) → Told (updated now type value i)
      by_type unsigned_int16 (uint64 seconds) =
          update_duration-Told now (seconds * one_second) i told
      by_type unsigned_int16 (int64 n) = told
      by_type unsigned_int16 (uint8 n) = told
      by_type unsigned_int16 other_value = told
      by_type signed_int16 value = told
      by_type other_type value = told

  -- All timers in the list fire at `now`.
  unfoldable pub fire_all : ℕ → List ℕ → Identify Am → Identify Am
  fire_all now [] i = i
  fire_all now (due ∷ ts) i = fire_all now ts (fire now due i)

  -- A timer that fires after the end sends that it is over, and starts no other.
  fire-ending :
      (now due : ℕ) (ts : List ℕ) (i : Identify Am)
      → i.timers ≡ due ∷ ts
      → due ≤ now
      → or_time 0 i.s.end_time ≤ now
      → ((fire now due i).timers ≡ ts) × IsOver (fire now due i).sent × ((fire now due i).s ≡ i.s)
  unfolding fire periodic_send_event send_event
  fire-ending now due ts i pending on_time past =
      let (is_due, taken) = take_out-head due now ts i.timers pending on_time in
      rw (is_due, nothing_left now i.s.end_time past, taken) (refl, refl, refl)

  fire_all-IsOver :
      (now : ℕ) (ts : List ℕ) (i : Identify Am)
      → i.timers ≡ ts
      → All (λ due. due ≤ now) ts
      → or_time 0 i.s.end_time ≤ now
      → Told i
      → ((fire_all now ts i).timers ≡ []) × IsOver (fire_all now ts i).sent
  unfolding fire_all
  fire_all-IsOver now [] i pending on_time past told = (pending, over i.sent (rw pending at told))
    where
      over : (es : List IdentifyState) → IsTold es [] → IsOver es
      over [] told = tt
      over (e ∷ es) told = told
  fire_all-IsOver now (due ∷ ts) i pending on_time past told =
      let (left, over, same) = fire-ending now due ts i pending on_time.0 past in
      fire_all-IsOver now ts (fire now due i) left on_time.1 (rw same past)
        (fire-Told now due i told)

module _ {V : Type 0} (zi : ZdaInterface V) (zcl : Zcl) where
  open zi use {Net, Failure, Am}

  identify-Told :
      (now duration : ℕ) (i : Identify Am) (net : Net)
      → Told i
      → Told (identify zi zcl now duration i net).1
  unfolding identify
  identify-Told now duration i net told = by_answer _
    where
      by_answer :
          (r : Option Failure × Net) → Told (requested zi now (identify_seconds duration) i r).1
      by_answer (some e, net1) = told
      by_answer (none, net1) =
          update_duration-Told now (identify_seconds duration * one_second) i told

  abbrev without_error : Option Failure × Identify Am × Net → Identify Am × Net
  without_error (e, i, net) = (i, net)

  unfoldable pub act : Action → Identify Am × Net → Identify Am × Net
  act (reported now v) (i, net) = (update now v i, net)
  act (asked now duration) (i, net) = without_error (identify zi zcl now duration i net)
  act (fired now due) (i, net) = (fire now due i, net)

  unfoldable pub act_all : List Action → Identify Am × Net → Identify Am × Net
  act_all [] r = r
  act_all (x ∷ xs) r = act_all xs (act x r)

  act_all-Told : (xs : List Action) (r : Identify Am × Net) → Told r.0 → Told (act_all xs r).0
  unfolding act_all act
  act_all-Told [] r told = told
  act_all-Told (reported now v ∷ xs) (i, net) told =
      act_all-Told xs (update now v i, net) (update-Told now v i told)
  act_all-Told (asked now duration ∷ xs) (i, net) told =
      act_all-Told xs (without_error (identify zi zcl now duration i net))
        (identify-Told now duration i net told)
  act_all-Told (fired now due ∷ xs) (i, net) told =
      act_all-Told xs (fire now due i, net) (fire-Told now due i told)

  -- After any reports, calls of Identify and timers of a capability that was made with NewIdentify
  -- and Init, once the time of its identification is over and the timers that are pending by then
  -- have fired, no timer is pending and the newest event sent, if there is any, says that the
  -- device does not identify itself.
  pub identification_ends :
      (xs : List Action) (s : Section) (m : zi.MonitorSection) (net : Net) (now : ℕ)
      → All (λ due. due ≤ now) (act_all xs (init zi s m, net)).0.timers
      → or_time 0 (act_all xs (init zi s m, net)).0.s.end_time ≤ now
      → ((fire_all now
            (act_all xs (init zi s m, net)).0.timers
            (act_all xs (init zi s m, net)).0).timers
          ≡ [])
        × IsOver
            (fire_all now
              (act_all xs (init zi s m, net)).0.timers
              (act_all xs (init zi s m, net)).0).sent
  unfolding init
  identification_ends xs s m net now on_time past =
      let i = (act_all xs (init zi s m, net)).0 in
      fire_all-IsOver now i.timers i refl on_time past (act_all-Told xs (init zi s m, net) tt)
