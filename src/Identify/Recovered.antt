-- ===== src/Identify/Recovered.antt =====
-- Load of what Enumerate of an Implementation leaves in its section.
use zda.Base.{ℕ, true, false≢true, ◌≡◌, refl, ap, sym, ◌∙◌, Option, none, some, none≢some}
use zda.Implcaps.{Settings, as_endpoint, get, Zcl, ZdaInterface}
use zda.Implcaps.Recovery.{Recovers}
use zda.Identify.{Identify, unless_failed, init, loaded, load_from, load, at_endpoint, enumerate}

module _ {V : Type 0} (zi : ZdaInterface V) where
  open zi use {Net, Failure, Am}

  attached-of_true :
      (i : Identify Am) (o : Option Failure × Am × Net) (e : Option Failure) (i' : Identify Am)
      (net : Net)
      → unless_failed zi i o ≡ ((true, e), i', net)
      → (o ≡ (none, i'.am, net)) × (e ≡ none) × (record i { am = i'.am } ≡ i')
  attached-of_true i (none, am, net1) e i' net q = (
    ap (λ r. (none, r.1.am, r.2)) q,
    sym (ap (λ r. r.0.1) q),
    ap (λ r. record i { am = r.1.am }) (sym q) ∙ ap (λ r. r.1) q,
  )
  attached-of_true i (some x, am, net1) e i' net q = absurd (false≢true (ap (λ r. r.0.0) q))

  loaded_fine :
      (i : Identify Am) (o : Option Failure × Am × Net)
      → o.0 ≡ none
      → ((loaded zi i o).0 ≡ (true, none)) × ((loaded zi i o).1.remote_endpoint ≡ i.remote_endpoint)
  loaded_fine i (none, am, net) q = (refl, refl)
  loaded_fine i (some e, am, net) q = absurd (none≢some (sym q))

  load_from_fine :
      (i : Identify Am) (in_section : Option ℕ) (e : ℕ) (later : Net)
      → in_section ≡ some e
      → (zi.load i.am later).0 ≡ none
      → ((load_from zi in_section i later).0 ≡ (true, none))
        × ((load_from zi in_section i later).1.remote_endpoint ≡ e)
  load_from_fine i in_section e later q good =
      rw q (loaded_fine (record i { remote_endpoint = e }) (zi.load i.am later) good)

  -- When Enumerate says that the capability attaches, it reports no error, and Load of a new
  -- process on the section that it leaves attaches too, with the same remote endpoint.
  pub identify_loads :
      (zcl : Zcl) (m : Settings) (i i' : Identify Am) (net net' later : Net) (e : Option Failure)
      → Recovers zi
      → enumerate zi zcl m i net ≡ ((true, e), i', net')
      → (e ≡ none)
        × ((load zi (init zi i'.s (zi.section i'.am)) later).0 ≡ (true, none))
        × ((load zi (init zi i'.s (zi.section i'.am)) later).1.remote_endpoint ≡ i'.remote_endpoint)
  unfolding enumerate load init
  identify_loads zcl m i i' net net' later e r q =
      let at_e : Identify Am = at_endpoint zi (get as_endpoint m "ZigbeeEndpoint" 1) i in
      let (attached, fine, same) = attached-of_true at_e _ e i' net' q in
      let good = r.attached _ _ _ _ _ _ i.am i'.am net net' attached later in
      let (loads, where_it_was) =
        load_from_fine (init zi i'.s (zi.section i'.am)) i'.s.remote_endpoint i'.remote_endpoint
          later (rw (← same) refl) good in
      (fine, loads, where_it_was)
