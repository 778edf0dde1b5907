-- ===== src/Discovery/Ending.antt =====
-- The end of a window by its timers.
use zda.Base.{
  ℕ, Bool, true, false, ◌≡◌, refl, sym, ◌∙◌, Option, none, some, List, [], ◌∷◌, ◌++◌, All, Assoc,
  keys, lookup, delete, is_some, elem, elem-keys, beq_refl, ap, false≢true, nat_key, arith,
  Bool-cases, Option-cases, inl, inr,
}
use zda.Discovery.{
  Network, Discovery, enable, disable, fire, Step, call_enable, call_disable, call_stop,
  timer_fires, step, run,
}
use zda.Discovery.Window.{seen_discovering, Inv, closed, run-Inv}

module _ (n : Network) where
  open n use {Net}

  -- DenyJoin never fails.
  abbrev pub AlwaysDenies : Type 0
  AlwaysDenies = (net : Net) → (n.deny_join net).0 ≡ none

  abbrev pub IsNoStop : Step n → Type 0
  IsNoStop (call_enable now duration) = Unit
  IsNoStop call_disable = Unit
  IsNoStop call_stop = ⊥
  IsNoStop (timer_fires t) = Unit

  -- The timers of this list fire, one after another.
  abbrev pub fires : List ℕ → List (Step n)
  fires [] = []
  fires (t ∷ ts) = timer_fires t ∷ fires ts

  abbrev runs : Option ℕ → Assoc ℕ ℕ → Bool
  runs none timers = false
  runs (some t) timers = is_some (lookup t timers)

  -- A discovery that is on has a timer that runs.
  record IsTimed (d : Discovery Net) : Type 0 where
    timer : d.discovering ≡ true → runs d.allow_timer d.timers ≡ true

  disable-off : (d : Discovery Net) → AlwaysDenies → (disable n d).1.discovering ≡ false
  unfolding disable
  disable-off d denies = rw (denies d.net, disable) refl

  off-IsTimed : (d : Discovery Net) → d.discovering ≡ false → IsTimed d
  off-IsTimed d off = record { timer = λ on. absurd (false≢true (sym off ∙ on)) }

  fire-off :
      (t : ℕ) (d : Discovery Net)
      → AlwaysDenies
      → is_some (lookup t d.timers) ≡ true
      → (fire n t d).discovering ≡ false
  unfolding fire
  fire-off t d denies running = elim (Option-cases (lookup t d.timers)) [
    | inl gone ↦ absurd (false≢true (ground (arith, gone)))
    | inr (at, found) ↦
        rw (found, fire) (disable-off (record d { timers = delete t d.timers }) denies)
  ]

  fire-none : (t : ℕ) (d : Discovery Net) → lookup t d.timers ≡ none → fire n t d ≡ d
  unfolding fire
  fire-none t d gone = rw (gone, fire)

  enable-IsTimed :
      (now duration : ℕ) (d : Discovery Net) → IsTimed d → IsTimed (enable n now duration d).1
  unfolding enable lookup
  enable-IsTimed now duration d v = elim (Option-cases (n.permit_join d.net).0) [
    | inr (e, failed) ↦ rw (failed, enable) (record { timer = v.timer })
    | inl permitted ↦ rw (permitted, enable) (record { timer = λ on. ground arith })
  ]

  fire-IsTimed : (t : ℕ) (d : Discovery Net) → AlwaysDenies → IsTimed d → IsTimed (fire n t d)
  fire-IsTimed t d denies v = elim (Option-cases (lookup t d.timers)) [
    | inl gone ↦ rw (fire-none t d gone) v
    | inr (at, found) ↦ off-IsTimed (fire n t d) (fire-off t d denies (ground (arith, found)))
  ]

  step-IsTimed :
      (s : Step n) (d : Discovery Net)
      → AlwaysDenies
      → IsNoStop s
      → IsTimed d
      → IsTimed (step n s d)
  unfolding step
  step-IsTimed (call_enable now duration) d denies go v = enable-IsTimed now duration d v
  step-IsTimed call_disable d denies go v = off-IsTimed (disable n d).1 (disable-off d denies)
  step-IsTimed call_stop d denies go v = absurd go
  step-IsTimed (timer_fires t) d denies go v = fire-IsTimed t d denies v

  run-IsTimed :
      (ss : List (Step n)) (d : Discovery Net)
      → AlwaysDenies
      → All IsNoStop ss
      → IsTimed d
      → IsTimed (run n ss d)
  unfolding run
  run-IsTimed [] d denies go v = v
  run-IsTimed (s ∷ ss) d denies go v =
      run-IsTimed ss (step n s d) denies go.1 (step-IsTimed s d denies go.0 v)

  -- A discovery that is off stays off when a timer fires.
  fire-stays_off :
      (t : ℕ) (d : Discovery Net)
      → AlwaysDenies
      → d.discovering ≡ false
      → (fire n t d).discovering ≡ false
  fire-stays_off t d denies off = elim (Option-cases (lookup t d.timers)) [
    | inl gone ↦ rw (fire-none t d gone) off
    | inr (at, found) ↦ fire-off t d denies (ground (arith, found))
  ]

  fires-stays_off :
      (ts : List ℕ) (d : Discovery Net)
      → AlwaysDenies
      → d.discovering ≡ false
      → (run n (fires ts) d).discovering ≡ false
  unfolding run step
  fires-stays_off [] d denies off = off
  fires-stays_off (t ∷ ts) d denies off =
      fires-stays_off ts (fire n t d) denies (fire-stays_off t d denies off)

  no_timer : (o : Option ℕ) (timers : Assoc ℕ ℕ) → keys timers ≡ [] → runs o timers ≡ false
  no_timer none timers e = refl
  no_timer (some t) timers e = sym (elem-keys t timers) ∙ ap (elem t) e

  -- The first of the timers that run ends the window.
  fires-off :
      (ts : List ℕ) (d : Discovery Net)
      → AlwaysDenies
      → IsTimed d
      → keys d.timers ≡ ts
      → (run n (fires ts) d).discovering ≡ false
  unfolding run step
  fires-off [] d denies v e = elim (Bool-cases d.discovering) [
    | inl on ↦ absurd (false≢true (sym (no_timer d.allow_timer d.timers e) ∙ v.timer on))
    | inr off ↦ off
  ]
  fires-off (t ∷ ts) d denies v e =
      let running : is_some (lookup t d.timers) ≡ true =
        sym (elem-keys t d.timers) ∙ ap (elem t) e ∙ ground (arith, beq_refl t) in
      fires-stays_off ts (fire n t d) denies (fire-off t d denies running)

  run-append :
      (ss ts : List (Step n)) (d : Discovery Net) → run n (ss ++ ts) d ≡ run n ts (run n ss d)
  unfolding run
  run-append [] ts d = refl
  run-append (s ∷ ss) ts d = run-append ss ts (step n s d)

  -- When DenyJoin never fails and the gateway is not stopped: after any calls of Enable and
  -- Disable and any timers, once each timer that still runs has fired, the discovery is off, it
  -- keeps no timer, and the newest event, if there is one, says that it is off.
  pub window_ends :
      (ss : List (Step n)) (net : Net)
      → AlwaysDenies
      → All IsNoStop ss
      → let d = run n ss (closed n net) in
        let d' = run n (fires (keys d.timers)) d in
        (d'.discovering ≡ false) × (d'.allow_timer ≡ none) × (seen_discovering d'.sent ≡ false)
  window_ends ss net denies go =
      let d = run n ss (closed n net) in
      let ts = keys d.timers in
      let off =
        fires-off ts d denies
          (run-IsTimed ss (closed n net) denies go (off-IsTimed (closed n net) refl)) refl in
      let inv : Inv n (run n (fires ts) d) =
        rw (← run-append ss (fires ts) (closed n net)) (run-Inv n (ss ++ fires ts) net) in
      (off, no_timer_kept (run n (fires ts) d).allow_timer (inv.timed ∙ off), inv.told ∙ off)
    where
      no_timer_kept : (o : Option ℕ) → is_some o ≡ false → o ≡ none
      no_timer_kept none e = refl
      no_timer_kept (some t) e = absurd (false≢true (sym e))
