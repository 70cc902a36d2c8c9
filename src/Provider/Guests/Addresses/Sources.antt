-- ===== src/Provider/Guests/Addresses/Sources.antt =====
-- Where a guest's addresses come from (apps/bridge/internal/proxmox/provider.go).
use proxmox_desk_display.Provider.Guests.Addresses.{is_local, with_prefix}
use proxmox_desk_display.Base.{
  Some, [], false, true, refl, inl, inr, ◌≡◌, List, arith, Bool-cases, ◌<◌, ap, ◌⊎◌, ◌≢◌, ℕ, zero,
  suc, sym, ◌∙◌, ◌++◌, false-ne-true,
}
use proxmox_desk_display.Base.Text.{Text, has_prefix, trim_space, codes, text_eq, is_empty}
use proxmox_desk_display.Base.Text.Laws.{text_eq_iff}
use proxmox_desk_display.Config.Validation.Accepts.{ne_nil}
use proxmox_desk_display.Base.Int.{ℤ, pos, negsuc, pos_part, is_above_zero}
use proxmox_desk_display.Base.Numbers.{itoa}
use proxmox_desk_display.Provider.Json.{Floats, int64_value}
use proxmox_desk_display.Provider.Api.Guests.{
  AgentIp, AgentInterface, ContainerIp, ContainerInterface, AgentNetworkInterfaces,
}

-- Neither empty nor an address of the loopback.
abbrev pub IsOutside : Text → Type 0
IsOutside a = (a ≢ []) × (has_prefix a (codes "127.") ≡ false) × (a ≢ codes "::1")

-- An address with a slash and its prefix length, or as it is where the length is not positive.
abbrev pub IsWritten : Text → ℤ → Text → Type 0
IsWritten base p a =
    ((n : ℕ) × (p ≡ pos n) × (0 < n) × (a ≡ base ++ codes "/" ++ itoa p))
    ⊎ (((n : ℕ) → p ≡ pos n → n ≡ 0) × (a ≡ base))

-- The text is that of an address of an agent.
abbrev pub IsAgentAddress : Text → AgentIp → Type 0
IsAgentAddress a ip = IsOutside ip.ip_address × IsWritten ip.ip_address ip.prefix a

-- The text is that of an address of an agent's interface that is not the loopback.
abbrev pub FromAgent : AgentNetworkInterfaces → Text → Type 0
FromAgent networks a =
    Some (λ (i : AgentInterface). (i.name ≢ codes "lo") × Some (IsAgentAddress a) i.ip_addresses)
      networks.result

-- The trimmed text is that of an address of a container.
abbrev pub IsContainerAddress : Floats → Text → ContainerIp → Type 0
IsContainerAddress f a ip =
    (ip.ip_address ≢ [])
    × (raw : Text) × IsWritten ip.ip_address (int64_value f ip.prefix) raw
    × (a ≡ trim_space raw)

-- The text is one of the two addresses of a container's interface, or in its list.
abbrev pub FromInterface : Floats → Text → ContainerInterface → Type 0
FromInterface f a i =
    (i.name ≢ codes "lo")
    × ((a ≡ trim_space i.inet)
        ⊎ (a ≡ trim_space i.inet6)
        ⊎ Some (IsContainerAddress f a) i.ip_addresses)

-- The text is that of an address of a container, and is not local as it is written.
abbrev pub FromContainer : Floats → List ContainerInterface → Text → Type 0
FromContainer f interfaces a =
    IsOutside a × (has_prefix a (codes "fe80:") ≡ false) × Some (FromInterface f a) interfaces

above_zero : (n : ℕ) → is_above_zero (pos (suc n)) ≡ true
above_zero n = ground arith

below_zero : (n : ℕ) → is_above_zero (negsuc n) ≡ false
below_zero n = ground arith

pub with_prefix-IsWritten : (base : Text) (p : ℤ) → IsWritten base p (with_prefix base p)
with_prefix-IsWritten base (pos zero) = inr ((λ n e. sym (ap pos_part e)), refl)
with_prefix-IsWritten base (pos (suc n)) = rw (above_zero n) (inl (suc n, refl, omega arith, refl))
with_prefix-IsWritten base (negsuc n) = rw (below_zero n) (inr ((λ m e. cc), refl))

pub is_local-IsOutside : (a : Text) → is_local a ≡ false → IsOutside a
unfolding is_local
is_local-IsOutside a h = elim (Bool-cases (is_empty a)) [
  | inl p ↦ absurd (false-ne-true (sym (sym (rw (p, is_local) refl) ∙ h)))
  | inr p ↦ elim (Bool-cases (has_prefix a (codes "127."))) [
    | inl q ↦ absurd (false-ne-true (sym (sym (rw (p, q, is_local) refl) ∙ h)))
    | inr q ↦ (
      (ne_nil a).0 p,
      q,
      λ e. false-ne-true (sym h ∙ rw (p, q, is_local) ((text_eq_iff a (codes "::1")).1 e)),
    )
  ]
]

pub not_loopback : (name : Text) → text_eq name (codes "lo") ≡ false → name ≢ codes "lo"
not_loopback name h e = false-ne-true (sym h ∙ (text_eq_iff name (codes "lo")).1 e)
