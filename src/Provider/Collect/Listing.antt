-- ===== src/Provider/Collect/Listing.antt =====
-- One list of a collected state (apps/bridge/internal/proxmox/provider.go), and the orders.
use mathlib.Core.List.{Perm}
use proxmox_desk_display.Display.Guests.{Guest, Snapshot}
use proxmox_desk_display.Provider.Collect.{
  Sorter, IsSort, guest_less, snapshot_less, task_less, storage_item_less, alert_less, by_id, cut,
  later, bool_eq, pinned_first,
}
use proxmox_desk_display.Base.{
  true, false, refl, inl, inr, ◌≡◌, Bool, ℕ, List, ◌↔◌, ◌++◌, take, take-append-drop, arith, length,
  Bool-cases, drop, min, ltb, subst, take_all, sym, length-take, ◌∙◌, ap,
}
use proxmox_desk_display.Base.Text.{Text}
use proxmox_desk_display.Base.Order.Keys.{
  Key, by_only_key-StrictWeak, by_key-StrictWeak, text-Key, nat_desc-Key,
}
use proxmox_desk_display.Base.Order.{StrictWeak, Ordered}
use proxmox_desk_display.Base.Int.{eqb_ℤ, eq_of_parts}
use proxmox_desk_display.Display.Jobs.{Task}
use proxmox_desk_display.Display.Inventory.{StorageItem, Alert}
use proxmox_desk_display.Display.Health.{severity_rank}

-- All elements, in the order of `less`.
pub record IsWhole {A : Type 0} (less : A → A → Bool) (all shown : List A) : Type 0 where
  pub perm : Perm shown all
  pub ordered : Ordered less shown

-- The first `max` elements in the order of `less`.
pub record IsTop {A : Type 0} (less : A → A → Bool) (max : ℕ) (all shown : List A) : Type 0 where
  pub dropped : List A
  pub perm : Perm (shown ++ dropped) all
  pub ordered : Ordered less (shown ++ dropped)
  pub count : length shown ≡ min max (length all)

cut-take : {A : Type 0} (max : ℕ) (xs : List A) → cut max xs ≡ take max xs
unfolding cut
cut-take max xs = elim (Bool-cases (ltb max (length xs))) [
  | inl p ↦ rw p refl
  | inr p ↦ rw (p, take_all max xs (ground arith)) refl
]

module _ (s : Sorter) (laws : IsSort s) {A : Type 0} (less : A → A → Bool)
    (w : StrictWeak less) where
  pub sort-IsWhole : (all : List A) → IsWhole less all (s.sort less all)
  sort-IsWhole all = record { perm = laws.perm less all; ordered = laws.ordered less w all }

  pub sort-IsTop : (max : ℕ) (all : List A) → IsTop less max all (cut max (s.sort less all))
  sort-IsTop max all =
      let sorted = s.sort less all in
      let whole = take-append-drop max sorted in
      rw (cut-take max sorted) (record {
        dropped = drop max sorted;
        perm = subst (λ xs. Perm xs all) (sym whole) (laws.perm less all);
        ordered = subst (Ordered less) (sym whole) (laws.ordered less w all);
        count = length-take max sorted ∙ ap (min max) (laws.count less all);
      })

pub by_id-StrictWeak : {A : Type 0} (id : A → Text) → StrictWeak (by_id id)
by_id-StrictWeak id = by_only_key-StrictWeak text-Key id

later-Key : Key eqb_ℤ later
later-Key = record {
  eq_iff = λ a b. ground arith;
  weak = record { asym = λ a b h. ground arith; neg_trans = λ a b c h k. ground arith };
  connex = λ a b h k. eq_of_parts a b (ground arith);
}

pinned-Key : Key bool_eq pinned_first
pinned-Key = record {
  eq_iff = bool_eq_iff;
  weak = record { asym = asym; neg_trans = neg_trans };
  connex = connex;
}
  where
    bool_eq_iff : (a b : Bool) → (bool_eq a b ≡ true) ↔ (a ≡ b)
    bool_eq_iff a b = ground arith

    asym : (a b : Bool) → pinned_first a b ≡ true → pinned_first b a ≡ false
    asym a b h = ground arith

    neg_trans :
        (a b c : Bool)
        → pinned_first a b ≡ false
        → pinned_first b c ≡ false
        → pinned_first a c ≡ false
    neg_trans a b c h k = ground arith

    connex : (a b : Bool) → pinned_first a b ≡ false → pinned_first b a ≡ false → a ≡ b
    connex a b h k = ground arith

pub guest_less-StrictWeak : StrictWeak guest_less
unfolding guest_less
guest_less-StrictWeak =
    by_key-StrictWeak pinned-Key (λ (g : Guest). g.pinned) (by_id-StrictWeak (λ (g : Guest). g.id))

pub snapshot_less-StrictWeak : StrictWeak snapshot_less
unfolding snapshot_less
snapshot_less-StrictWeak =
    by_key-StrictWeak later-Key (λ (x : Snapshot). x.snap_time)
      (by_id-StrictWeak (λ (x : Snapshot). x.id))

pub task_less-StrictWeak : StrictWeak task_less
unfolding task_less
task_less-StrictWeak =
    by_key-StrictWeak later-Key (λ (t : Task). t.started_at) (by_id-StrictWeak (λ (t : Task). t.id))

pub storage_item_less-StrictWeak : StrictWeak storage_item_less
unfolding storage_item_less
storage_item_less-StrictWeak =
    by_key-StrictWeak later-Key (λ (x : StorageItem). x.created_at)
      (by_id-StrictWeak (λ (x : StorageItem). x.id))

pub alert_less-StrictWeak : StrictWeak alert_less
unfolding alert_less
alert_less-StrictWeak =
    by_only_key-StrictWeak nat_desc-Key (λ (a : Alert). severity_rank a.severity)
