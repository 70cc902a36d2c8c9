-- ===== src/Provider/Rules/Capabilities.antt =====
-- The capabilities that a source's state records (apps/bridge/internal/proxmox/provider.go).
use proxmox_desk_display.Provider.Calls.{
  add_capability, capability_status, api_status, CallError, api_error, other_error, http_status_of,
}
use proxmox_desk_display.Provider.Collect.{max_capabilities}
use proxmox_desk_display.Display.Detail.{capability_rank}
use proxmox_desk_display.Display.Inventory.{Capability}
use proxmox_desk_display.Base.{
  [], ◌∷◌, some, none, refl, inl, inr, ◌≡◌, ℕ, ◌≤◌, Option, Bool-cases, arith, ◌↔◌, Slice, ◌==◌,
  none-ne-some, elems, length, ◌||◌, sym, ◌++◌, ◌⊎◌, leb, leb→le, length-append, false, ◌+◌,
}
use proxmox_desk_display.Base.Text.{text_eq, Text}

api_status-rank : (code : ℕ) → 2 ≤ capability_rank (api_status code)
unfolding api_status capability_rank text_eq
api_status-rank code = elim (Bool-cases (code == 403 || code == 401)) [
  | inl p ↦ rw p (omega arith)
  | inr p ↦ elim (Bool-cases (code == 404)) [
    | inl q ↦ rw (p, q) (omega arith)
    | inr q ↦ elim (Bool-cases (code == 501 || leb 500 code)) [
      | inl r ↦ rw (p, q, r) (omega arith)
      | inr r ↦ rw (p, q, r) (omega arith)
    ]
  ]
]

status-rank : (e : CallError) → 2 ≤ capability_rank (capability_status (some e))
unfolding capability_status capability_rank text_eq
status-rank (api_error code t) = api_status-rank code
status-rank (other_error t) = omega arith

-- The rank that the detail view gives to the status is that of `ok` exactly if the call had no error.
status_iff : (e : Option CallError) → (capability_rank (capability_status e) ≡ 1) ↔ (e ≡ none)
unfolding capability_status capability_rank text_eq
status_iff none = ((λ h. refl), λ h. refl)
status_iff (some e) = ((λ h. absurd (low (status-rank e) h)), λ h. absurd (none-ne-some e (sym h)))
  where
    low : {n : ℕ} → 2 ≤ n → n ≡ 1 → ⊥
    low le e = omega arith

not_leb : (m n : ℕ) → leb m n ≡ false → n + 1 ≤ m
not_leb m n h = ground arith

-- One capability more, for the call.
pub record IsRecorded (source_id name endpoint : Text) (e : Option CallError)
    (old new : Slice Capability) : Type 0 where
  pub added : Capability
  pub list : elems new ≡ elems old ++ added ∷ []
  pub source : added.source_id ≡ source_id
  pub call : (added.name ≡ name) × (added.endpoint ≡ endpoint)
  pub rank : (capability_rank added.status ≡ 1) ↔ (e ≡ none)
  pub http : added.http_status ≡ http_status_of e
  pub bounded : length (elems new) ≤ max_capabilities

-- addCapability changes nothing once 512 capabilities are recorded; before that it appends one for the
-- call, with a status that the detail view ranks as it does `ok` exactly if the call had no error.
pub add_capability-IsRecorded :
    (source_id host_id guest_id name endpoint : Text) (e : Option CallError)
    (old : Slice Capability)
    → ((max_capabilities ≤ length (elems old))
        × (add_capability source_id host_id guest_id name endpoint e old ≡ old))
      ⊎ IsRecorded source_id name endpoint e old
          (add_capability source_id host_id guest_id name endpoint e old)
unfolding add_capability
add_capability-IsRecorded source_id host_id guest_id name endpoint e old =
    elim (Bool-cases (leb max_capabilities (length (elems old)))) [
      | inl p ↦ inl (leb→le _ _ p, rw (p, add_capability) refl)
      | inr p ↦ inr (
          rw (p, add_capability)
            (record {
              added = _;
              list = refl;
              source = refl;
              call = (refl, refl);
              rank = status_iff e;
              http = refl;
              bounded =
                  rw (length-append (elems old)) (not_leb max_capabilities (length (elems old)) p);
            }))
    ]
