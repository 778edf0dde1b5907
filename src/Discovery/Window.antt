-- ===== src/Discovery/Window.antt =====
-- The invariant of the discovery, that relates its events, its timer and whether it is on.
use zda.Base.{
  ℕ, ◌<◌, Bool, true, false, ◌≡◌, refl, Option, none, some, List, [], ◌∷◌, Assoc, lookup,
  lookup-delete, is_some, delete, nat_key, arith, Option-cases, inl, inr, none≢some,
}
use zda.Discovery.{
  Network, DiscoveryEvent, device_discovery_enabled, device_discovery_disabled, Discovery,
  stop_timer, stop, enable, disable, fire, Step, call_enable, call_disable, call_stop, timer_fires,
  step, run,
}

-- What a client that reads the events takes the discovery to be, the newest event first.
abbrev pub seen_discovering : List DiscoveryEvent → Bool
seen_discovering [] = false
seen_discovering (device_discovery_enabled duration ∷ es) = true
seen_discovering (device_discovery_disabled ∷ es) = false

module _ (n : Network) where
  open n use {Net}

  -- The events tell the truth, a timer is kept while the discovery is on and not after it, and a
  -- timer of this window that still runs ends when the window does.
  pub record Inv (d : Discovery Net) : Type 0 where
    pub told : seen_discovering d.sent ≡ d.discovering
    pub timed : is_some d.allow_timer ≡ d.discovering
    pub due :
        (t at : ℕ) → d.allow_timer ≡ some t → lookup t d.timers ≡ some at → at ≡ d.allow_expires_at
    pub fresh_timers : (t : ℕ) → (at : ℕ) → lookup t d.timers ≡ some at → t < d.next_timer

  stop_timer-lookup :
      (o : Option ℕ) (t at : ℕ) (timers : Assoc ℕ ℕ)
      → lookup t (stop_timer o timers) ≡ some at
      → lookup t timers ≡ some at
  stop_timer-lookup none t at timers e = e
  stop_timer-lookup (some s) t at timers e = ground (arith, lookup-delete s t timers)

  -- The network's state is no part of the invariant, and neither is a timer that goes.
  net-Inv : (d : Discovery Net) (net : Net) → Inv d → Inv (record d { net = net })
  net-Inv d net v = record {
    told = v.told;
    timed = v.timed;
    due = v.due;
    fresh_timers = v.fresh_timers;
  }

  timers-Inv :
      (d : Discovery Net) (timers : Assoc ℕ ℕ)
      → ((t at : ℕ) → lookup t timers ≡ some at → lookup t d.timers ≡ some at)
      → Inv d
      → Inv (record d { timers = timers })
  timers-Inv d timers fewer v = record {
    told = v.told;
    timed = v.timed;
    due = λ t at current running. v.due t at current (fewer t at running);
    fresh_timers = λ t at running. v.fresh_timers t at (fewer t at running);
  }

  enable-Inv : (now duration : ℕ) (d : Discovery Net) → Inv d → Inv (enable n now duration d).1
  unfolding enable lookup
  enable-Inv now duration d v = elim (Option-cases (n.permit_join d.net).0) [
    | inr (e, failed) ↦ rw (failed, enable) (net-Inv d (n.permit_join d.net).1 v)
    | inl permitted ↦
        rw (permitted, enable)
          (record {
            told = refl;
            timed = refl;
            due = λ t at current running. ground arith;
            fresh_timers = λ t at running.
                ground (arith, stop_timer-lookup d.allow_timer t at d.timers, v.fresh_timers t at);
          })
  ]

  disable-Inv : (d : Discovery Net) → Inv d → Inv (disable n d).1
  unfolding disable
  disable-Inv d v = elim (Option-cases (n.deny_join d.net).0) [
    | inr (e, failed) ↦ rw (failed, disable) (net-Inv d (n.deny_join d.net).1 v)
    | inl denied ↦
        rw (denied, disable)
          (record {
            told = refl;
            timed = refl;
            due = λ t at current running. absurd (none≢some current);
            fresh_timers = v.fresh_timers;
          })
  ]

  delete_fewer :
      (s t at : ℕ) (timers : Assoc ℕ ℕ)
      → lookup t (delete s timers) ≡ some at
      → lookup t timers ≡ some at
  delete_fewer s t at timers e = ground (arith, lookup-delete s t timers)

  fire-Inv : (t : ℕ) (d : Discovery Net) → Inv d → Inv (fire n t d)
  unfolding fire
  fire-Inv t d v = elim (Option-cases (lookup t d.timers)) [
    | inl gone ↦ rw (gone, fire) v
    | inr (at, running) ↦
        rw (running, fire)
          (disable-Inv (record d { timers = delete t d.timers })
            (timers-Inv d (delete t d.timers) (λ s at. delete_fewer t s at d.timers) v))
  ]

  step-Inv : (s : Step n) (d : Discovery Net) → Inv d → Inv (step n s d)
  unfolding step stop
  step-Inv (call_enable now duration) d v = enable-Inv now duration d v
  step-Inv call_disable d v = disable-Inv d v
  step-Inv call_stop d v =
      timers-Inv d (stop_timer d.allow_timer d.timers)
        (λ t at. stop_timer-lookup d.allow_timer t at d.timers) v
  step-Inv (timer_fires t) d v = fire-Inv t d v

  run_from-Inv : (ss : List (Step n)) (d : Discovery Net) → Inv d → Inv (run n ss d)
  unfolding run
  run_from-Inv [] d v = v
  run_from-Inv (s ∷ ss) d v = run_from-Inv ss (step n s d) (step-Inv s d v)

  -- The discovery of a new gateway.
  abbrev pub closed : Net → Discovery Net
  closed net = record {
    discovering = false;
    allow_timer = none;
    allow_expires_at = 0;
    timers = [];
    next_timer = 0;
    net = net;
    sent = [];
  }

  closed-Inv : (net : Net) → Inv (closed net)
  unfolding lookup
  closed-Inv net = record {
    told = refl;
    timed = refl;
    due = λ t at current running. absurd (none≢some current);
    fresh_timers = λ t at running. absurd (none≢some running);
  }

  -- After any calls and timers, the last event tells whether the discovery is on, a timer is kept
  -- while it is and not after it, and that timer, if it still runs, is due when the window ends.
  pub run-Inv : (ss : List (Step n)) (net : Net) → Inv (run n ss (closed net))
  run-Inv ss net = run_from-Inv ss (closed net) (closed-Inv net)
