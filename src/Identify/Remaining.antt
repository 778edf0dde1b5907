-- ===== src/Identify/Remaining.antt =====
-- What Status tells after Identify.
use zda.Base.{
  ℕ, ◌+◌, ◌-◌, ◌*◌, ◌<◌, ◌≤◌, ◌≡◌, ap, sym, Option, none, some, none≢some, arith, refl, Bool, true,
  false, Bool-cases, inl, inr, leb, ltb,
}
use zda.Implcaps.{Zcl, one_second, ZdaInterface}
use zda.Identify.{
  IdentifyState, Identify, send_event, periodic_send_event, update_duration, status, identify,
  identify_seconds, timed, ended_at, until, or_time, apart, requested,
}

-- The state at `now` of an identification that goes on until `end` is right to 250 milliseconds.
abbrev pub IsNear : ℕ → ℕ → IdentifyState → Type 0
IsNear now end state = (state.remaining < (end - now) + 250) × (end - now < state.remaining + 250)

IsNear-kept :
    (now duration later : ℕ) (end : Option ℕ)
    → now ≤ later
    → leb 250 (apart (until now (or_time now end)) duration) ≡ false
    → IsNear later (now + duration) (record {
      identifying = ltb 0 (until later (or_time 0 end));
      remaining = until later (or_time 0 end);
    })
IsNear-kept now duration later none le close = ground arith
IsNear-kept now duration later (some end) le close = ground arith

module _ {Am : Type 0} where
  pub section-periodic_send_event :
      (now : ℕ) (i : Identify Am) → (periodic_send_event now i).s ≡ i.s
  unfolding periodic_send_event send_event
  section-periodic_send_event now i = by_case now (send_event now i)
    where
      by_case : (now : ℕ) (r : Bool × Identify Am) → (timed now r).s ≡ r.1.s
      by_case now (true, i) = refl
      by_case now (false, i) = refl

  status-update_duration :
      (now duration later : ℕ) (i : Identify Am)
      → now ≤ later
      → IsNear later (now + duration) (status later (update_duration now duration i))
  unfolding update_duration status
  status-update_duration now duration later i le =
      elim (Bool-cases (leb 250 (apart (until now (or_time now i.s.end_time)) duration))) [
        | inl far ↦
            rw (far, section-periodic_send_event now (ended_at now duration i))
              (omega arith, omega arith)
        | inr close ↦ rw close (IsNear-kept now duration later i.s.end_time le close)
      ]

module _ {V : Type 0} (zi : ZdaInterface V) where
  open zi use {Net, Failure, Am}

  -- When Identify returns no error, the identification that Status tells at any later time, with
  -- no other call in between, has the time that is left of the whole seconds requested, of 65535
  -- at most, and is off by less than 250 milliseconds.
  pub identify-IsNear :
      (zcl : Zcl) (now duration later : ℕ) (i i' : Identify Am) (net net' : Net)
      → now ≤ later
      → identify zi zcl now duration i net ≡ (none, i', net')
      → IsNear later (now + identify_seconds duration * one_second) (status later i')
  unfolding identify
  identify-IsNear zcl now duration later i i' net net' le e = by_answer _ e
    where
      by_answer :
          (r : Option Failure × Net)
          → requested zi now (identify_seconds duration) i r ≡ (none, i', net')
          → IsNear later (now + identify_seconds duration * one_second) (status later i')
      by_answer (some x, net1) q = absurd (none≢some (sym (ap (λ o. o.0) q)))
      by_answer (none, net1) q =
          rw (← ap (λ o. o.1) q)
            (status-update_duration now (identify_seconds duration * one_second) later i le)
