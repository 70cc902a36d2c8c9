-- ===== src/Provider/Guests/Addresses/Complete.antt =====
-- A list with room for more holds every address (apps/bridge/internal/proxmox/provider.go).
use proxmox_desk_display.Provider.Guests.Addresses.{
  is_full, add_address, is_local, with_prefix, add_agent_ips, add_agent_interfaces,
  add_container_address, add_container_ips, add_container_interfaces,
}
use proxmox_desk_display.Provider.Guests.Addresses.Sources.{
  IsOutside, IsAgentAddress, IsContainerAddress, FromInterface, FromContainer,
}
use proxmox_desk_display.Provider.Guests.Addresses.Extended.{
  IsIn, Extends, same, then_Extends, add_address-Extends, room, outside, IsWritten-with_prefix,
}
use proxmox_desk_display.Base.{
  [], ◌∷◌, false, inl, inr, ◌≡◌, ◌≢◌, List, length, arith, Bool-cases, ◌<◌, Some, sym, ◌∙◌, ap,
  false-ne-true, subst,
}
use proxmox_desk_display.Base.Text.{Text, has_prefix, trim_space, codes, text_eq, is_empty}
use proxmox_desk_display.Base.Text.Laws.{text_eq_iff}
use proxmox_desk_display.Config.Validation.Accepts.{ne_nil}
use proxmox_desk_display.Provider.Json.{Floats, int64_value}
use proxmox_desk_display.Provider.Api.Guests.{
  AgentIp, AgentInterface, ContainerIp, ContainerInterface,
}

-- A loop over a list extends the addresses, and has those of the list where there is room.
abbrev IsCovered : {A : Type 0} → (Text → A → Type 0) → List A → List Text → List Text → Type 0
IsCovered P xs before r = Extends before r × (length r < 8 → (a : Text) → Some (P a) xs → IsIn a r)

abbrev AgentSource : Text → AgentInterface → Type 0
AgentSource a i = (i.name ≢ codes "lo") × Some (IsAgentAddress a) i.ip_addresses

add_agent_ips-IsCovered :
    (ips : List AgentIp) (xs : List Text) → IsCovered IsAgentAddress ips xs (add_agent_ips ips xs)
unfolding add_agent_ips
add_agent_ips-IsCovered [] xs = (same xs, λ l a h. absurd h)
add_agent_ips-IsCovered (ip ∷ rest) xs = elim (Bool-cases (is_full xs)) [
  | inl p ↦ rw (p, add_agent_ips) (same xs, λ l a h. absurd (room xs xs (same xs) p l))
  | inr p ↦ elim (Bool-cases (is_local ip.ip_address)) [
    | inl q ↦
        rw (p, q)
          (let (e, c) = add_agent_ips-IsCovered rest xs in
            (
              e,
              λ l a h. elim h [ inl (o, w) ↦ absurd (outside ip.ip_address q o) | inr k ↦ c l a k ],
            ))
    | inr q ↦
        rw (p, q)
          (let t = with_prefix ip.ip_address ip.prefix in
            let (d, m) = add_address-Extends t xs in
            let (e, c) = add_agent_ips-IsCovered rest (add_address t xs) in
            (
              then_Extends xs (add_address t xs) (add_agent_ips rest (add_address t xs)) d e,
              λ l a h. elim h [
                | inl (o, w) ↦
                    subst (λ x. IsIn x (add_agent_ips rest (add_address t xs)))
                      (IsWritten-with_prefix ip.ip_address ip.prefix a w) (e.keeps t m)
                | inr k ↦ c l a k
              ],
            ))
  ]
]

pub add_agent_interfaces-IsCovered :
    (is : List AgentInterface) (xs : List Text)
    → IsCovered AgentSource is xs (add_agent_interfaces is xs)
unfolding add_agent_interfaces
add_agent_interfaces-IsCovered [] xs = (same xs, λ l a h. absurd h)
add_agent_interfaces-IsCovered (i ∷ rest) xs = elim (Bool-cases (text_eq i.name (codes "lo"))) [
  | inl p ↦
      rw (p, add_agent_interfaces)
        (let (e, c) = add_agent_interfaces-IsCovered rest xs in
          (
            e,
            λ l a h. elim h [
              | inl (n, k) ↦ absurd (n ((text_eq_iff i.name (codes "lo")).0 p))
              | inr k ↦ c l a k
            ],
          ))
  | inr p ↦
      rw (p, add_agent_interfaces)
        (let ys = add_agent_ips i.ip_addresses xs in
          let (d, m) = add_agent_ips-IsCovered i.ip_addresses xs in
          let (e, c) = add_agent_interfaces-IsCovered rest ys in
          (
            then_Extends xs ys (add_agent_interfaces rest ys) d e,
            λ l a h. elim h [
              | inl (n, k) ↦ e.keeps a (m (omega (arith, e.longer, l)) a k)
              | inr k ↦ c l a k
            ],
          ))
]

-- What the closure of the loops over a container's addresses leaves.
add_container_address-IsCovered :
    (raw : Text) (xs : List Text)
    → Extends xs (add_container_address raw xs)
      × (length (add_container_address raw xs) < 8
          → IsOutside (trim_space raw)
          → has_prefix (trim_space raw) (codes "fe80:") ≡ false
          → IsIn (trim_space raw) (add_container_address raw xs))
unfolding add_container_address
add_container_address-IsCovered raw xs =
    let t = trim_space raw in
    elim (Bool-cases (is_full xs)) [
      | inl p ↦ rw p (same xs, λ l o n. absurd (room xs xs (same xs) p l))
      | inr p ↦ elim (Bool-cases (is_local t)) [
        | inl q ↦ rw (p, q) (same xs, λ l o n. absurd (outside t q o))
        | inr q ↦ elim (Bool-cases (has_prefix t (codes "fe80:"))) [
          | inl r ↦ rw (p, q, r) (same xs, λ l o n. absurd (false-ne-true (sym n)))
          | inr r ↦ rw (p, q, r) (let (d, m) = add_address-Extends t xs in (d, λ l o n. m))
        ]
      ]
    ]

-- A text that a container may show and that comes from one of the elements.
abbrev Outer : {A : Type 0} → (Text → A → Type 0) → Text → A → Type 0
Outer P a x = IsOutside a × (has_prefix a (codes "fe80:") ≡ false) × P a x

module _ (f : Floats) where
  add_container_ips-IsCovered :
      (ips : List ContainerIp) (xs : List Text)
      → IsCovered (Outer (IsContainerAddress f)) ips xs (add_container_ips f ips xs)
  unfolding add_container_ips
  add_container_ips-IsCovered [] xs = (same xs, λ l a h. absurd h)
  add_container_ips-IsCovered (ip ∷ rest) xs = elim (Bool-cases (is_empty ip.ip_address)) [
    | inl p ↦
        rw (p, add_container_ips)
          (let (e, c) = add_container_ips-IsCovered rest xs in
            (
              e,
              λ l a h. elim h [
                | inl (o, n, k) ↦ absurd (false-ne-true (sym ((ne_nil ip.ip_address).1 k.0) ∙ p))
                | inr k ↦ c l a k
              ],
            ))
    | inr p ↦
        rw (p, add_container_ips)
          (let t = with_prefix ip.ip_address (int64_value f ip.prefix) in
            let ys = add_container_address t xs in
            let (d, m) = add_container_address-IsCovered t xs in
            let (e, c) = add_container_ips-IsCovered rest ys in
            (
              then_Extends xs ys (add_container_ips f rest ys) d e,
              λ l a h. elim h [
                | inl (o, n, (ne, raw, w, eq)) ↦
                    (let back : trim_space t ≡ a =
                        ap trim_space
                          (IsWritten-with_prefix ip.ip_address (int64_value f ip.prefix) raw w)
                        ∙ sym eq in
                      subst (λ x. IsIn x (add_container_ips f rest ys)) back
                        (e.keeps (trim_space t) (
                          m (omega (arith, e.longer, l)) (subst IsOutside (sym back) o)
                            (ap (λ x. has_prefix x (codes "fe80:")) back ∙ n))))
                | inr k ↦ c l a k
              ],
            ))
  ]

  Some-Outer :
      (a : Text) (ips : List ContainerIp)
      → IsOutside a
      → has_prefix a (codes "fe80:") ≡ false
      → Some (IsContainerAddress f a) ips
      → Some (Outer (IsContainerAddress f) a) ips
  Some-Outer a [] o n h = absurd h
  Some-Outer a (ip ∷ rest) o n (inl h) = inl (o, n, h)
  Some-Outer a (ip ∷ rest) o n (inr h) = inr (Some-Outer a rest o n h)

  -- The three steps of an interface, in their order.
  add_interface : ContainerInterface → List Text → List Text
  add_interface i xs =
      add_container_address i.inet6
        (add_container_address i.inet (add_container_ips f i.ip_addresses xs))

  add_interface-IsCovered :
      (i : ContainerInterface) (xs : List Text)
      → Extends xs (add_interface i xs)
        × (length (add_interface i xs) < 8
            → (a : Text) → IsOutside a
            → has_prefix a (codes "fe80:") ≡ false
            → FromInterface f a i
            → IsIn a (add_interface i xs))
  unfolding add_interface
  add_interface-IsCovered i xs =
      let x1 = add_container_ips f i.ip_addresses xs in
      let x2 = add_container_address i.inet x1 in
      let x3 = add_container_address i.inet6 x2 in
      let (d1, m1) = add_container_ips-IsCovered i.ip_addresses xs in
      let (d2, m2) = add_container_address-IsCovered i.inet x1 in
      let (d3, m3) = add_container_address-IsCovered i.inet6 x2 in
      (
        then_Extends xs x1 x3 d1 (then_Extends x1 x2 x3 d2 d3),
        λ l a o n (name, from). elim from [
          | inl e ↦
              subst (λ x. IsIn x x3) (sym e)
                (d3.keeps (trim_space i.inet) (
                  m2 (omega (arith, d3.longer, l)) (subst IsOutside e o)
                    (ap (λ x. has_prefix x (codes "fe80:")) (sym e) ∙ n)))
          | inr (inl e) ↦
              subst (λ x. IsIn x x3) (sym e)
                (m3 l (subst IsOutside e o) (ap (λ x. has_prefix x (codes "fe80:")) (sym e) ∙ n))
          | inr (inr k) ↦ d3.keeps a (
              d2.keeps a
                (m1 (omega (arith, d2.longer, d3.longer, l)) a (Some-Outer a i.ip_addresses o n k)))
        ],
      )

  pub add_container_interfaces-IsCovered :
      (is : List ContainerInterface) (xs : List Text)
      → Extends xs (add_container_interfaces f is xs)
        × (length (add_container_interfaces f is xs) < 8
            → (a : Text) → FromContainer f is a
            → IsIn a (add_container_interfaces f is xs))
  unfolding add_container_interfaces add_interface
  add_container_interfaces-IsCovered [] xs = (same xs, λ l a (o, n, h). absurd h)
  add_container_interfaces-IsCovered (i ∷ rest) xs =
      elim (Bool-cases (text_eq i.name (codes "lo"))) [
        | inl p ↦
            rw (p, add_container_interfaces)
              (let (e, c) = add_container_interfaces-IsCovered rest xs in
                (
                  e,
                  λ l a (o, n, h). elim h [
                    | inl k ↦ absurd (k.0 ((text_eq_iff i.name (codes "lo")).0 p))
                    | inr k ↦ c l a (o, n, k)
                  ],
                ))
        | inr p ↦
            rw (p, add_container_interfaces)
              (let ys = add_interface i xs in
                let (d, m) = add_interface-IsCovered i xs in
                let (e, c) = add_container_interfaces-IsCovered rest ys in
                (
                  then_Extends xs ys (add_container_interfaces f rest ys) d e,
                  λ l a (o, n, h). elim h [
                    | inl k ↦ e.keeps a (m (omega (arith, e.longer, l)) a o n k)
                    | inr k ↦ c l a (o, n, k)
                  ],
                ))
      ]
