-- ===== src/Enumerate/Devices/Whole.antt =====
-- The inventory applied to a node that is open for it.
use zda.Base.{
  ℕ, true, ◌≡◌, ap, sym, ◌∙◌, some, List, [], ◌∷◌, Assoc, is_some, elem, All, IsDistinct, nat_key,
  arith, beq_refl,
}
use zda.Table.{Host}
use zda.Table.Ops.{State, get_device}
use zda.Table.Mirror.{Inv}
use zda.Enumerate.Inventory.{InventoryDevice}
use zda.Enumerate.Inventory.Grouping.{unique_ids}
use zda.Enumerate.NodeTable.{update_node_table}
use zda.Enumerate.NodeTable.Update.{IsOpen, Fits, update_node_table-Fits}
use zda.Enumerate.NodeTable.Mirror.{update_node_table-Inv}
use zda.Enumerate.Factory.{Implementations, IsStable}
use zda.Enumerate.Devices.{AllResults, apply_inventory}
use zda.Enumerate.Devices.Applied.{IsServed, IsPresent, IsInjective, enumerate_devices-Served}

module _ (h : Host) {V : Type 0} (f : Implementations h V) where
  open h use {Impl}

  Fits-IsInjective :
      (a : ℕ) (ids : List ℕ) (mapping : Assoc ℕ ℕ) (g : State h)
      → Fits h a ids mapping g
      → IsInjective h f mapping ids
  Fits-IsInjective a ids mapping g fits id j s listed_id listed_j is_s also_s =
      let (t, d, is_t, held, has_id) = fits.mapped id listed_id in
      let (u, e, is_u, held_u, has_j) = fits.mapped j listed_j in
      let t_is : t ≡ u = ground arith in
      let same : d ≡ e = ground (arith, ap (λ k. get_device h a k g) t_is) in
      sym has_id ∙ ap (λ x. x.device_id) same ∙ has_j

  Fits-IsPresent :
      (a : ℕ) (ids : List ℕ) (mapping : Assoc ℕ ℕ) (g : State h) (ds : List (InventoryDevice V))
      → Fits h a ids mapping g
      → ((id : ℕ) → elem id (unique_ids ds) ≡ true → elem id ids ≡ true)
      → All (IsPresent h f a mapping g) ds
  Fits-IsPresent a ids mapping g [] fits within = tt
  Fits-IsPresent a ids mapping g (d ∷ ds) fits within =
      let (s, e, is_s, held, has_id) =
        fits.mapped d.unique_id (within d.unique_id (ground (arith, beq_refl d.unique_id))) in
      (
        (s, is_s, ap is_some held),
        Fits-IsPresent a ids mapping g ds fits (λ id listed. within id (ground arith)),
      )

  -- What is left of the node when its inventory has been applied.
  pub record IsApplied (a : ℕ) (devices : List (InventoryDevice V)) (g : State h)
      (r : AllResults h f × State h) : Type 0 where
    pub returned : apply_inventory h f a devices g ≡ some r
    pub inv : Inv h r.1
    pub served : All (IsServed h f a (update_node_table h a (unique_ids devices) g).1 r.1) devices

  -- On a node that is open for the inventory, its application ends without a panic, the events
  -- stay true, and each device of the inventory has a device of the node, with no capability but
  -- those that the rules named for it.
  pub apply_inventory-IsApplied :
      (a : ℕ) (devices : List (InventoryDevice V)) (g : State h)
      → IsStable h f
      → IsDistinct (unique_ids devices)
      → IsOpen h a (unique_ids devices) g
      → Inv h g
      → (r : AllResults h f × State h) × IsApplied a devices g r
  unfolding apply_inventory
  apply_inventory-IsApplied a devices g stable distinct open_node v =
      let ids = unique_ids devices in
      let r = update_node_table h a ids g in
      let fits = update_node_table-Fits h a ids g open_node in
      let done =
        enumerate_devices-Served h f a r.1 devices [] r.0 stable distinct
          (Fits-IsInjective a ids r.1 r.0 fits)
          (Fits-IsPresent a ids r.1 r.0 devices fits (λ id listed. listed))
          (update_node_table-Inv h a ids g open_node v) in
      (
        (done.results, done.state),
        record { returned = done.returned; inv = done.inv; served = done.served },
      )
