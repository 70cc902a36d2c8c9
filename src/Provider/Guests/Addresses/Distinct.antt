-- ===== src/Provider/Guests/Addresses/Distinct.antt =====
-- The lists of a guest's addresses (apps/bridge/internal/proxmox/provider.go).
use proxmox_desk_display.Provider.Guests.Addresses.{
  max_guest_ips, is_full, add_address, is_local, with_prefix, add_agent_ips, add_agent_interfaces,
  agent_ip_addresses, add_container_address, add_container_ips, add_container_interfaces,
  container_ip_addresses,
}
use proxmox_desk_display.Provider.Guests.Addresses.Extended.{IsIn}
use proxmox_desk_display.Provider.Guests.Addresses.Complete.{
  add_agent_interfaces-IsCovered, add_container_interfaces-IsCovered,
}
use proxmox_desk_display.Provider.Guests.Addresses.Sources.{
  IsOutside, IsAgentAddress, FromAgent, IsContainerAddress, FromContainer, with_prefix-IsWritten,
  is_local-IsOutside, not_loopback,
}
use proxmox_desk_display.Base.{
  [], ◌∷◌, false, refl, inl, inr, ◌≡◌, List, length, arith, Bool-cases, ◌≤◌, ◌<◌, any, All,
  length-append, All-append, Some, true, ◌⊎◌, ℕ, leb,
}
use proxmox_desk_display.Base.Text.{Text, has_prefix, trim_space, codes, text_eq, is_empty}
use proxmox_desk_display.Provider.Json.{Floats, int64_value}
use proxmox_desk_display.Provider.Rules.Warnings.{AreDistinct, append-AreDistinct, absent}
use proxmox_desk_display.Config.Validation.Accepts.{ne_nil}
use proxmox_desk_display.Provider.Api.Guests.{
  AgentIp, AgentInterface, ContainerIp, ContainerInterface, AgentNetworkInterfaces,
}

-- No address twice, at most as many as are shown, and each as the predicate says.
pub record IsAddressList (Shown : Text → Type 0) (xs : List Text) : Type 0 where
  pub distinct : AreDistinct xs
  pub count : length xs ≤ 8
  pub shown : All Shown xs

full-lt : (xs : List Text) → is_full xs ≡ false → length xs < max_guest_ips
full-lt xs h = ground arith

none_yet : (Shown : Text → Type 0) → IsAddressList Shown []
none_yet Shown = record { distinct = tt; count = omega arith; shown = tt }

-- An address that is appended to a list with room for it.
add_address-IsAddressList :
    (Shown : Text → Type 0) (a : Text) (xs : List Text)
    → is_full xs ≡ false
    → Shown a
    → IsAddressList Shown xs
    → IsAddressList Shown (add_address a xs)
unfolding add_address
add_address-IsAddressList Shown a xs room s v = elim (Bool-cases (any (λ x. text_eq x a) xs)) [
  | inl p ↦ rw p v
  | inr p ↦ rw p (record {
    distinct = append-AreDistinct a xs (absent a xs p) v.distinct;
    count = omega (arith, length-append xs (a ∷ []), full-lt xs room);
    shown = All-append Shown xs (a ∷ []) v.shown (s, tt);
  })
]

-- The loops, where every address of their list may be shown.
module _ (Shown : Text → Type 0) where
  add_agent_ips-IsAddressList :
      (ips : List AgentIp) (xs : List Text)
      → ((a : Text) → Some (IsAgentAddress a) ips → Shown a)
      → IsAddressList Shown xs
      → IsAddressList Shown (add_agent_ips ips xs)
  unfolding add_agent_ips
  add_agent_ips-IsAddressList [] xs shown v = v
  add_agent_ips-IsAddressList (ip ∷ rest) xs shown v = elim (Bool-cases (is_full xs)) [
    | inl p ↦ rw (p, add_agent_ips) v
    | inr p ↦ elim (Bool-cases (is_local ip.ip_address)) [
      | inl q ↦ rw (p, q) (add_agent_ips-IsAddressList rest xs (λ a h. shown a (inr h)) v)
      | inr q ↦
          rw (p, q)
            (let a = with_prefix ip.ip_address ip.prefix in
              let written = with_prefix-IsWritten ip.ip_address ip.prefix in
              add_agent_ips-IsAddressList rest (add_address a xs) (λ b h. shown b (inr h))
                (add_address-IsAddressList Shown a xs p
                  (shown a (inl (is_local-IsOutside ip.ip_address q, written))) v))
    ]
  ]

  add_agent_interfaces-IsAddressList :
      (is : List AgentInterface) (xs : List Text)
      → ((a : Text) → FromAgent (record { result = is }) a → Shown a)
      → IsAddressList Shown xs
      → IsAddressList Shown (add_agent_interfaces is xs)
  unfolding add_agent_interfaces
  add_agent_interfaces-IsAddressList [] xs shown v = v
  add_agent_interfaces-IsAddressList (i ∷ rest) xs shown v =
      elim (Bool-cases (text_eq i.name (codes "lo"))) [
        | inl p ↦
            rw (p, add_agent_interfaces)
              (add_agent_interfaces-IsAddressList rest xs (λ a h. shown a (inr h)) v)
        | inr p ↦
            rw (p, add_agent_interfaces)
              (add_agent_interfaces-IsAddressList rest (add_agent_ips i.ip_addresses xs)
                (λ a h. shown a (inr h))
                (add_agent_ips-IsAddressList i.ip_addresses xs
                  (λ a h. shown a (inl (not_loopback i.name p, h))) v))
      ]

  add_container_address-IsAddressList :
      (a : Text) (xs : List Text)
      → (IsOutside (trim_space a)
          → has_prefix (trim_space a) (codes "fe80:") ≡ false
          → Shown (trim_space a))
      → IsAddressList Shown xs
      → IsAddressList Shown (add_container_address a xs)
  unfolding add_container_address
  add_container_address-IsAddressList a xs shown v =
      let t = trim_space a in
      elim (Bool-cases (is_full xs)) [
        | inl p ↦ rw p v
        | inr p ↦ elim (Bool-cases (is_local t)) [
          | inl q ↦ rw (p, q) v
          | inr q ↦ elim (Bool-cases (has_prefix t (codes "fe80:"))) [
            | inl r ↦ rw (p, q, r) v
            | inr r ↦
                rw (p, q, r)
                  (add_address-IsAddressList Shown t xs p (shown (is_local-IsOutside t q) r) v)
          ]
        ]
      ]

  module _ (f : Floats) where
    add_container_ips-IsAddressList :
        (ips : List ContainerIp) (xs : List Text)
        → ((a : Text)
            → IsOutside a
            → has_prefix a (codes "fe80:") ≡ false
            → Some (IsContainerAddress f a) ips
            → Shown a)
        → IsAddressList Shown xs
        → IsAddressList Shown (add_container_ips f ips xs)
    unfolding add_container_ips
    add_container_ips-IsAddressList [] xs shown v = v
    add_container_ips-IsAddressList (ip ∷ rest) xs shown v =
        elim (Bool-cases (is_empty ip.ip_address)) [
          | inl p ↦
              rw (p, add_container_ips)
                (add_container_ips-IsAddressList rest xs (λ a o n h. shown a o n (inr h)) v)
          | inr p ↦
              rw (p, add_container_ips)
                (let a = with_prefix ip.ip_address (int64_value f ip.prefix) in
                  let w = with_prefix-IsWritten ip.ip_address (int64_value f ip.prefix) in
                  add_container_ips-IsAddressList rest (add_container_address a xs)
                    (λ b o n h. shown b o n (inr h))
                    (add_container_address-IsAddressList a xs
                      (λ o n.
                        shown (trim_space a) o n (inl ((ne_nil ip.ip_address).0 p, a, w, refl)))
                      v))
        ]

    add_container_interfaces-IsAddressList :
        (is : List ContainerInterface) (xs : List Text)
        → ((a : Text) → FromContainer f is a → Shown a)
        → IsAddressList Shown xs
        → IsAddressList Shown (add_container_interfaces f is xs)
    unfolding add_container_interfaces
    add_container_interfaces-IsAddressList [] xs shown v = v
    add_container_interfaces-IsAddressList (i ∷ rest) xs shown v =
        elim (Bool-cases (text_eq i.name (codes "lo"))) [
          | inl p ↦
              rw (p, add_container_interfaces)
                (add_container_interfaces-IsAddressList rest xs
                  (λ a (o, n, h). shown a (o, n, inr h)) v)
          | inr p ↦
              rw (p, add_container_interfaces)
                (let l = not_loopback i.name p in
                  let a = add_container_ips f i.ip_addresses xs in
                  let b = add_container_address i.inet a in
                  add_container_interfaces-IsAddressList rest (add_container_address i.inet6 b)
                    (λ x (o, n, h). shown x (o, n, inr h))
                    (add_container_address-IsAddressList i.inet6 b
                      (λ o n. shown (trim_space i.inet6) (o, n, inl (l, inr (inl refl))))
                      (add_container_address-IsAddressList i.inet a
                        (λ o n. shown (trim_space i.inet) (o, n, inl (l, inl refl)))
                        (add_container_ips-IsAddressList i.ip_addresses xs
                          (λ x o n h. shown x (o, n, inl (l, inr (inr h)))) v))))
        ]

-- A list of the addresses that may be shown: of all of them, or a full one.
pub record Lists (Shown : Text → Type 0) (xs : List Text) : Type 0 where
  pub listed : IsAddressList Shown xs
  pub complete : (length xs ≡ 8) ⊎ ((a : Text) → Shown a → IsIn a xs)

full_or_complete :
    (Shown : Text → Type 0) (xs : List Text)
    → IsAddressList Shown xs
    → (length xs < 8 → (a : Text) → Shown a → IsIn a xs)
    → Lists Shown xs
full_or_complete Shown xs v all = record {
  listed = v;
  complete = elim (Bool-cases (is_full xs)) [
    | inl p ↦ inl (both (length xs) v.count p)
    | inr p ↦ inr (all (full-lt xs p))
  ];
}
  where
    both : (n : ℕ) → n ≤ 8 → leb 8 n ≡ true → n ≡ 8
    both n h k = ground arith

-- The addresses of a guest, from its agent or from its container: at most eight, none twice, and all of
-- them if they are fewer than eight. One from the agent is an address that it reports for an interface
-- other than `lo`, which is not empty, not in 127.* and not ::1, followed by a slash and the prefix
-- length where that is positive. One from a container is the trimmed text of an address in the list of
-- an interface other than `lo`, with its prefix length in the same way, or of the field inet or inet6 of
-- one; the text, with the length, is not empty, does not start with 127. or fe80: and is not ::1, so
-- that ::1/128 is not left out.
pub ip_addresses-IsAddressList :
    (f : Floats) (networks : AgentNetworkInterfaces) (interfaces : List ContainerInterface)
    → Lists (FromAgent networks) (agent_ip_addresses networks)
      × Lists (FromContainer f interfaces) (container_ip_addresses f interfaces)
unfolding agent_ip_addresses container_ip_addresses
ip_addresses-IsAddressList f networks interfaces = (
  full_or_complete (FromAgent networks) (agent_ip_addresses networks)
      (add_agent_interfaces-IsAddressList (FromAgent networks) networks.result [] (λ a h. h)
        (none_yet (FromAgent networks)))
      (add_agent_interfaces-IsCovered networks.result []).1,
  full_or_complete (FromContainer f interfaces) (container_ip_addresses f interfaces)
      (add_container_interfaces-IsAddressList (FromContainer f interfaces) f interfaces []
        (λ a h. h) (none_yet (FromContainer f interfaces)))
      (add_container_interfaces-IsCovered f interfaces []).1,
)
