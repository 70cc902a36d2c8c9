-- ===== src/Display/Detail/Priority.antt =====
-- Which capabilities the detail view shows, and in which order (apps/bridge/internal/display/state.go).
use mathlib.Core.List.{Perm}
use proxmox_desk_display.Base.{
  ℕ, min, ◌≤◌, ◌≡◌, sym, ap, subst, ◌∙◌, false, some, List, [], ◌∷◌, ◌++◌, All, length, take, drop,
  length-take, take_all, take-append-drop, leb, leb→le, Bool-cases, arith, inl, inr,
}
use proxmox_desk_display.Base.Order.{sort_stable, StrictWeak, Ordered}
use proxmox_desk_display.Base.Order.Laws.{sort_stable-perm, sort_stable-Ordered, length-sort_stable}
use proxmox_desk_display.Base.Order.Keys.{
  by_key-StrictWeak, by_only_key-StrictWeak, nat_desc-Key, text-Key,
}
use proxmox_desk_display.Display.Inventory.{Capability}
use proxmox_desk_display.Display.Detail.{
  first_n, capability_rank, capability_less, prioritized_capabilities,
}

capability_less-StrictWeak : StrictWeak capability_less
unfolding capability_less
capability_less-StrictWeak =
    by_key-StrictWeak nat_desc-Key (λ (c : Capability). capability_rank c.status)
      (by_key-StrictWeak text-Key (λ (c : Capability). c.source_id)
        (by_key-StrictWeak text-Key (λ (c : Capability). c.name)
          (by_only_key-StrictWeak text-Key (λ (c : Capability). c.endpoint))))

pub first_n-some : {A : Type 0} (xs : List A) (n : ℕ) → first_n (some xs) n ≡ some (take n xs)
unfolding first_n
first_n-some xs n = elim (Bool-cases (leb (length xs) n)) [
  | inl e ↦ rw (e, take_all n xs (leb→le _ _ e))
  | inr e ↦ rw e
]

not_less-rank :
    (a b : Capability)
    → capability_less b a ≡ false
    → capability_rank b.status ≤ capability_rank a.status
unfolding capability_less
not_less-rank a b h = ground arith

-- Every capability of the second list ranks at most as high as every one of the first.
abbrev pub RanksBelow : List Capability → List Capability → Type 0
RanksBelow kept dropped =
    All (λ k. All (λ d. capability_rank d.status ≤ capability_rank k.status) dropped) kept

abbrev pub NotLess : Capability → Capability → Type 0
NotLess a b = capability_less b a ≡ false

All-tail :
    (a : Capability) (xs ys : List Capability) → All (NotLess a) (xs ++ ys) → All (NotLess a) ys
All-tail a [] ys h = h
All-tail a (x ∷ xs) ys h = All-tail a xs ys h.1

All-rank :
    (a : Capability) (ys : List Capability)
    → All (NotLess a) ys
    → All (λ d. capability_rank d.status ≤ capability_rank a.status) ys
All-rank a [] h = tt
All-rank a (y ∷ ys) h = (not_less-rank a y h.0, All-rank a ys h.1)

Ordered-RanksBelow :
    (kept dropped : List Capability)
    → Ordered capability_less (kept ++ dropped)
    → RanksBelow kept dropped
Ordered-RanksBelow [] dropped o = tt
Ordered-RanksBelow (k ∷ kept) dropped o =
    (All-rank k dropped (All-tail k kept dropped o.0), Ordered-RanksBelow kept dropped o.1)

-- `kept` is a choice of `max` of the values by priority.
pub record IsChoice (values : List Capability) (max : ℕ) (kept : List Capability) : Type 0 where
  pub dropped : List Capability
  pub perm : Perm (kept ++ dropped) values
  pub ordered : Ordered capability_less (kept ++ dropped)
  pub ranks : RanksBelow kept dropped
  pub count : length kept ≡ min max (length values)

-- The shown capabilities and the dropped ones are together the given ones, in the order of the
-- comparator; no dropped one ranks above a shown one; `max` are shown, or all if there are fewer.
pub prioritized_capabilities-IsChoice :
    (values : List Capability) (max : ℕ)
    → (kept : List Capability) × (prioritized_capabilities (some values) max ≡ some kept)
      × IsChoice values max kept
unfolding prioritized_capabilities
prioritized_capabilities-IsChoice values max =
    let sorted = sort_stable capability_less values in
    let whole = take-append-drop max sorted in
    let o =
      subst (Ordered capability_less) (sym whole)
        (sort_stable-Ordered capability_less capability_less-StrictWeak values) in
    (
      take max sorted,
      first_n-some sorted max,
      record {
        dropped = drop max sorted;
        perm = subst (λ l. Perm l values) (sym whole) (sort_stable-perm capability_less values);
        ordered = o;
        ranks = Ordered-RanksBelow (take max sorted) (drop max sorted) o;
        count = length-take max sorted ∙ ap (min max) (length-sort_stable capability_less values);
      },
    )
