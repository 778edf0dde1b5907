-- ===== src/Monitor/Restored.antt =====
-- A monitor that is loaded from its section is the one that was attached.
use zda.Base.{ℕ, ◌≡◌, refl, ap, sym, Option, none, some, none≢some}
use zda.Monitor.{
  Config, PollingMode, poll_if_reporting_failed, always_poll, never_poll, PollingConfig,
  ReportingMode, attempt_configure_reporting, never_configure_reporting, ReportingConfig,
  Transmission, Link, Monitor, start_ticker, reattach, Outcome, looked_up, load, stored, configured,
  bound, report, polled, poll, attach,
}

module _ (l : Link) where
  open l use {Net, Failure}

  -- The section has what the monitor listens to.
  abbrev pub IsStored : Monitor Net → Type 0
  IsStored z =
      (z.config.remote_endpoint ≡ some z.remote_endpoint)
      × (z.config.cluster_id ≡ some z.cluster_id)
      × (z.config.attribute_id ≡ some z.attribute_id)
      × (z.config.attribute_data_type ≡ some z.attribute_data_type)

  -- And its ticker runs as the section says, from what it was before.
  abbrev pub IsAttached : Option ℕ → Monitor Net → Type 0
  IsAttached was z =
      IsStored z
      × (z.ticker ≡ start_ticker z.config.polling_configured z.config.polling_interval was)

  -- The monitor listens to this endpoint, cluster, attribute and data type.
  abbrev pub IsFor : ℕ → ℕ → ℕ → ℕ → Monitor Net → Type 0
  IsFor e c a dt z =
      (z.remote_endpoint ≡ e)
      × (z.cluster_id ≡ c)
      × (z.attribute_id ≡ a)
      × (z.attribute_data_type ≡ dt)

  module _ (e c a dt : ℕ) where
    abbrev AttachedFor : Option ℕ → Monitor Net → Type 0
    AttachedFor was z = IsAttached was z × IsFor e c a dt z

    abbrev Kept : Option ℕ → Monitor Net → Type 0
    Kept was z = (IsStored z × IsFor e c a dt z) × (z.ticker ≡ was)

    configured-Kept :
        (was : Option ℕ) (z : Monitor Net) (r : Option Failure × Net)
        → Kept was z
        → Kept was (configured l z r).1
    configured-Kept was z (some x, net) k = k
    configured-Kept was z (none, net) k = k

    bound-Kept :
        (was : Option ℕ) (t : Transmission) (rc : ReportingConfig) (z : Monitor Net)
        (r : Option Failure × Net)
        → Kept was z
        → Kept was (bound l t rc z r).1
    bound-Kept was t rc z (some x, net) k = k
    bound-Kept was t rc z (none, net) k = configured-Kept was z _ k

    report-Kept :
        (was : Option ℕ) (t : Transmission) (rc : ReportingConfig) (mode : ReportingMode)
        (z : Monitor Net)
        → Kept was z
        → Kept was (report l t rc mode z).1
    unfolding report
    report-Kept was t rc never_configure_reporting z k = k
    report-Kept was t rc attempt_configure_reporting z k = bound-Kept was t rc z _ k

    reattach-AttachedFor :
        (was : Option ℕ) (z : Monitor Net) → Kept was z → AttachedFor was (reattach z)
    unfolding reattach
    reattach-AttachedFor was z ((in_section, for_it), quiet) = (
      (in_section, ap (start_ticker z.config.polling_configured z.config.polling_interval) quiet),
      for_it,
    )

    -- An outcome without an error is an attached monitor.
    abbrev AttachesWell : Option ℕ → Outcome l → Type 0
    AttachesWell was (none, z) = AttachedFor was z
    AttachesWell was (some x, z) = Unit

    poll-AttachesWell :
        (was : Option ℕ) (pc : PollingConfig) (mode : PollingMode)
        (r : Option Failure × Monitor Net)
        → Kept was r.1
        → AttachesWell was (poll l pc mode r)
    unfolding poll
    poll-AttachesWell was pc always_poll (x, z) k = reattach-AttachedFor was (polled l pc z) k
    poll-AttachesWell was pc poll_if_reporting_failed (some x, z) k =
        reattach-AttachedFor was (polled l pc z) k
    poll-AttachesWell was pc poll_if_reporting_failed (none, z) k = reattach-AttachedFor was z k
    poll-AttachesWell was pc never_poll (some x, z) k = tt
    poll-AttachesWell was pc never_poll (none, z) k = reattach-AttachedFor was z k

    well-ok :
        (was : Option ℕ) (r : Outcome l) {z : Monitor Net}
        → AttachesWell was r
        → r ≡ (none, z)
        → AttachedFor was z
    well-ok was (some x, y) well eq = absurd (none≢some (sym (ap (λ o. o.0) eq)))
    well-ok was (none, y) {z} well eq = let same : y ≡ z = ap (λ o. o.1) eq in rw (← same) well

    attach-AttachedFor :
        (rc : ReportingConfig) (pc : PollingConfig) (z z' : Monitor Net)
        → attach l e c a dt rc pc z ≡ (none, z')
        → AttachedFor z.ticker z'
    unfolding attach
    attach-AttachedFor rc pc z z' done =
        let start = stored l e c a dt (looked_up l z) in
        let t = (l.transmission_lookup z.net).0 in
        well-ok z.ticker _
          (poll-AttachesWell z.ticker pc pc.mode _ (
            report-Kept z.ticker t rc rc.mode start
              (((refl, refl, refl, refl), (refl, refl, refl, refl)), refl)))
          done

  -- Attach without an error leaves an attached monitor.
  pub attach-IsAttached :
      (e c a dt : ℕ) (rc : ReportingConfig) (pc : PollingConfig) (z z' : Monitor Net)
      → attach l e c a dt rc pc z ≡ (none, z')
      → IsAttached z.ticker z'
  attach-IsAttached e c a dt rc pc z z' done = (attach-AttachedFor e c a dt rc pc z z' done).0

  pub attach-IsFor :
      (e c a dt : ℕ) (rc : ReportingConfig) (pc : PollingConfig) (z z' : Monitor Net)
      → attach l e c a dt rc pc z ≡ (none, z')
      → IsFor e c a dt z'
  attach-IsFor e c a dt rc pc z z' done = (attach-AttachedFor e c a dt rc pc z z' done).1

  -- The monitor that a new process makes for the section, before Load.
  abbrev pub after_restart : Config → Monitor Net → Monitor Net
  after_restart config w = record w { config = config; ticker = none }

  -- The monitor listens to the same attribute, and polls as often.
  pub record Listens (z w : Monitor Net) : Type 0 where
    pub endpoint : w.remote_endpoint ≡ z.remote_endpoint
    pub cluster : w.cluster_id ≡ z.cluster_id
    pub attribute : w.attribute_id ≡ z.attribute_id
    pub data_type : w.attribute_data_type ≡ z.attribute_data_type
    pub ticker : w.ticker ≡ z.ticker

  load-Listens :
      (z w : Monitor Net)
      → IsAttached none z
      → ((load l (after_restart z.config w)).0 ≡ none)
        × Listens z (load l (after_restart z.config w)).1
  unfolding load reattach
  load-Listens z w ((endpoint, cluster, attribute, data_type), ticking) =
      rw (endpoint, cluster, attribute, data_type)
        (
          refl,
          record {
            endpoint = refl;
            cluster = refl;
            attribute = refl;
            data_type = refl;
            ticker = sym ticking;
          },
        )

  -- A stored monitor can be loaded, whatever ran before.
  pub load-stored : (z w : Monitor Net) → IsStored z → (load l (after_restart z.config w)).0 ≡ none
  unfolding load reattach
  load-stored z w (endpoint, cluster, attribute, data_type) =
      rw (endpoint, cluster, attribute, data_type)

  -- A stored monitor that is loaded listens to what it did, at the device as it is looked up now.
  pub load-IsFor :
      (z w : Monitor Net) {e c a dt : ℕ}
      → IsStored z
      → IsFor e c a dt z
      → IsFor e c a dt (load l (after_restart z.config w)).1
        × ((load l (after_restart z.config w)).1.ieee_address
            ≡ (l.transmission_lookup w.net).0.ieee_address)
        × ((load l (after_restart z.config w)).1.local_endpoint
            ≡ (l.transmission_lookup w.net).0.local_endpoint)
  unfolding load reattach
  load-IsFor z w (endpoint, cluster, attribute, data_type) same =
      rw (endpoint, cluster, attribute, data_type) (same, refl, refl)

  -- When Attach of a monitor without a running poller returns no error, Load of the section that
  -- it leaves returns no error either, and the monitor that is loaded listens to the same
  -- endpoint, cluster, attribute and data type and polls as often.
  pub load-attach :
      (e c a dt : ℕ) (rc : ReportingConfig) (pc : PollingConfig) (z z' w : Monitor Net)
      → z.ticker ≡ none
      → attach l e c a dt rc pc z ≡ (none, z')
      → ((load l (after_restart z'.config w)).0 ≡ none)
        × Listens z' (load l (after_restart z'.config w)).1
  load-attach e c a dt rc pc z z' w quiet done =
      load-Listens z' w (rw quiet at (attach-IsAttached e c a dt rc pc z z' done))
