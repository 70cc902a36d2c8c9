-- ===== src/Provider/Summaries/Counts.antt =====
-- The counting loops of the summaries, and what they add up (apps/bridge/internal/proxmox/provider.go).
use proxmox_desk_display.Provider.Summaries.{
  NetworkCounts, ServiceCounts, count_network, count_networks, summarize_network, count_services,
  summarize_services, is_shown, is_named, is_running, is_failed,
}
use proxmox_desk_display.Base.{
  [], ◌∷◌, ◌≡◌, count_if, List, ◌+◌, arith, ℕ, Bool, ◌&&◌, true, false, inl, inr, if◌then◌else◌,
  Bool-cases, keep_if, map, not, refl, ◌∙◌, ap,
}
use proxmox_desk_display.Base.Int.{is_set}
use proxmox_desk_display.Provider.Api.Nodes.{NodeService, NetworkInterface}
use proxmox_desk_display.Base.Text.{Text, is_empty}
use proxmox_desk_display.Provider.Json.{first_non_empty}

-- What the loop over the services adds to the counts.
abbrev pub ServicesAdd : List NodeService → ServiceCounts → ServiceCounts → Type 0
ServicesAdd xs c r =
    (r.total ≡ c.total + count_if is_named xs)
    × (r.running ≡ c.running + count_if (λ s. is_named s && is_running s) xs)
    × (r.failed ≡ c.failed + count_if (λ s. is_named s && is_failed s) xs)

plus : ℕ → Bool → ℕ
plus n b = if b then n + 1 else n

plus_lem : (n k m : ℕ) (b : Bool) → k ≡ plus n b + m → k ≡ n + ((if b then 1 else 0) + m)
unfolding plus
plus_lem n k m true h = omega (arith, h)
plus_lem n k m false h = omega (arith, h)

count_services-ServicesAdd :
    (xs : List NodeService) (c : ServiceCounts) → ServicesAdd xs c (count_services xs c)
unfolding count_services count_if plus
count_services-ServicesAdd [] c = (omega arith, omega arith, omega arith)
count_services-ServicesAdd (s ∷ xs) c = elim (Bool-cases (is_named s)) [
  | inl p ↦
      rw (p, count_services)
        (let r = count_services-ServicesAdd xs (record {
          total = c.total + 1;
          running = if is_running s then c.running + 1 else c.running;
          failed = if is_failed s then c.failed + 1 else c.failed;
        }) in
          (
            plus_lem c.total _ _ true r.0,
            plus_lem c.running _ _ (is_running s) r.1,
            plus_lem c.failed _ _ (is_failed s) r.2,
          ))
  | inr p ↦
      rw (p, count_services)
        (let r = count_services-ServicesAdd xs c in
          (omega (arith, r.0), omega (arith, r.1), omega (arith, r.2)))
]

abbrev pub active_addresses : List NetworkInterface → List Text
active_addresses xs =
    map (λ n. first_non_empty (n.address ∷ n.cidr ∷ []))
      (keep_if (λ n. is_shown n && is_set n.active) xs)

-- The first text that is not empty.
unfoldable pub first_filled : List Text → Text
first_filled [] = []
first_filled (t ∷ ts) = if is_empty t then first_filled ts else t

-- What the loop over the interfaces adds to the counts.
abbrev pub NetworksAdd : List NetworkInterface → NetworkCounts → NetworkCounts → Type 0
NetworksAdd xs c r =
    (r.total ≡ c.total + count_if is_shown xs)
    × (r.active ≡ c.active + count_if (λ n. is_shown n && is_set n.active) xs)
    × (r.primary ≡ (if is_empty c.primary then first_filled (active_addresses xs) else c.primary))

map_if :
    {A B : Type 0} (f : A → B) (b : Bool) (x : A) (xs : List A)
    → (if b then f x ∷ map f xs else map f xs) ≡ map f (if b then x ∷ xs else xs)
map_if f true x xs = refl
map_if f false x xs = refl

-- The first address that is found stays.
primary_lem :
    (primary address : Text) (rest : List Text) (active : Bool)
    → (let next =
          if is_empty primary && active && not (is_empty address) then address else primary in
        if is_empty next then first_filled rest else next)
      ≡ (if is_empty primary
          then first_filled (if active then address ∷ rest else rest)
          else primary)
unfolding first_filled
primary_lem [] [] rest true = refl
primary_lem [] (a ∷ address) rest true = refl
primary_lem [] address rest false = refl
primary_lem (p ∷ primary) address rest active = refl

no_address : (t : Text) → t ≡ (if is_empty t then first_filled [] else t)
unfolding first_filled
no_address [] = refl
no_address (x ∷ t) = refl

count_networks-NetworksAdd :
    (xs : List NetworkInterface) (c : NetworkCounts) → NetworksAdd xs c (count_networks xs c)
unfolding count_networks count_if count_network keep_if plus
count_networks-NetworksAdd [] c = (omega arith, omega arith, no_address c.primary)
count_networks-NetworksAdd (n ∷ xs) c = elim (Bool-cases (is_shown n)) [
  | inl p ↦
      rw (p, count_networks)
        (let r = count_networks-NetworksAdd xs (count_network n c) in
          (
            plus_lem c.total _ _ true r.0,
            plus_lem c.active _ _ (is_set n.active) r.1,
            r.2
                ∙ primary_lem c.primary (first_non_empty (n.address ∷ n.cidr ∷ []))
                    (active_addresses xs) (is_set n.active)
                ∙ ap (λ ts. if is_empty c.primary then first_filled ts else c.primary)
                    (map_if (λ (m : NetworkInterface). first_non_empty (m.address ∷ m.cidr ∷ []))
                      (is_set n.active) n (keep_if (λ m. is_shown m && is_set m.active) xs)),
          ))
  | inr p ↦
      rw (p, count_networks)
        (let r = count_networks-NetworksAdd xs c in (omega (arith, r.0), omega (arith, r.1), r.2))
]

pub counts_lem :
    (services : List NodeService) (networks : List NetworkInterface)
    → ServicesAdd services
        (record { total = 0; running = 0; failed = 0 })
        (summarize_services services)
      × NetworksAdd networks
          (record { total = 0; active = 0; primary = [] })
          (summarize_network networks)
unfolding summarize_services summarize_network
counts_lem services networks = (
  count_services-ServicesAdd services (record { total = 0; running = 0; failed = 0 }),
  count_networks-NetworksAdd networks (record { total = 0; active = 0; primary = [] }),
)
