-- ===== src/Provider/Summaries/Tallies.antt =====
-- What the summaries of a host count (apps/bridge/internal/proxmox/provider.go).
use proxmox_desk_display.Provider.Summaries.{
  NetworkCounts, ServiceCounts, summarize_network, summarize_services, is_shown, is_named,
  is_running, is_failed,
}
use proxmox_desk_display.Provider.Summaries.Counts.{counts_lem, first_filled, active_addresses}
use proxmox_desk_display.Provider.Summaries.Words.{
  IsWithin, IsFirst, both_iff, either_iff, not_iff, contains_iff, empty_iff,
  first_non_empty-IsFirst, first_unique, filled,
}
use proxmox_desk_display.Base.{
  [], ◌∷◌, ◌≡◌, ◌≢◌, ◌↔◌, ◌⊎◌, count_if, List, ◌+◌, arith, ℕ, Bool, ◌&&◌, true, false, inl, inr,
  Bool-cases, keep_if, refl, sym, ◌∙◌, subst, false-ne-true, not,
}
use proxmox_desk_display.Base.Int.{is_set, pos, ℤ, eqb_ℤ, eq_of_parts}
use proxmox_desk_display.Provider.Api.Nodes.{NodeService, NetworkInterface}
use proxmox_desk_display.Base.Text.{Text, is_empty, codes, contains, to_lower, trim_space, text_eq}
use proxmox_desk_display.Base.Text.Laws.{text_eq_iff, text_eq-ne}
use proxmox_desk_display.Config.Validation.Accepts.{ne_nil}
use proxmox_desk_display.Provider.Convert.Nodes.{service_name, service_state}
use proxmox_desk_display.Provider.Json.{first_non_empty}

-- The number of the elements that satisfy a predicate.
pub data Tally {A : Type 0} (P : A → Type 0) : List A → ℕ → Type 0 where
  no_more : Tally P [] 0
  hit : (x : A) (xs : List A) (n : ℕ) → P x → Tally P xs n → Tally P (x ∷ xs) (1 + n)
  miss : (x : A) (xs : List A) (n : ℕ) → ¬ (P x) → Tally P xs n → Tally P (x ∷ xs) n

zero_add : (n : ℕ) → n ≡ 0 + n
zero_add n = omega arith

count_if-Tally :
    {A : Type 0} (P : A → Type 0) (p : A → Bool)
    → ((x : A) → (p x ≡ true) ↔ P x)
    → (xs : List A) → Tally P xs (count_if p xs)
unfolding count_if
count_if-Tally P p iff [] = no_more
count_if-Tally P p iff (x ∷ xs) = elim (Bool-cases (p x)) [
  | inl h ↦ rw h (hit x xs (count_if p xs) ((iff x).0 h) (count_if-Tally P p iff xs))
  | inr h ↦ rw h (
      subst (Tally P (x ∷ xs)) (zero_add (count_if p xs)) (
        miss x xs (count_if p xs) (λ q. false-ne-true (sym h ∙ (iff x).1 q))
          (count_if-Tally P p iff xs)))
]

-- The service has a name under one of its two keys.
abbrev pub HasName : NodeService → Type 0
HasName s = (trim_space s.name ≢ []) ⊎ (trim_space s.service ≢ [])

-- The state of the service, in small letters, holds a word.
abbrev pub Says : Text → NodeService → Type 0
Says word s = (t : Text) × IsFirst s.state s.unit_state t × IsWithin word (to_lower t)

-- An interface with a name that is not the loopback.
abbrev pub IsListed : NetworkInterface → Type 0
IsListed n = (n.iface ≢ []) × (n.iface ≢ codes "lo")

-- The first address, with or without its prefix, of an interface that is listed and active.
pub data Primary : List NetworkInterface → Text → Type 0 where
  no_address : Primary [] []
  found :
      (n : NetworkInterface) (rest : List NetworkInterface) (t : Text)
      → IsListed n
      → n.active ≢ pos 0
      → t ≢ []
      → IsFirst n.address n.cidr t
      → Primary (n ∷ rest) t
  passed :
      (n : NetworkInterface) (rest : List NetworkInterface) (t : Text)
      → ¬ (IsListed n × (n.active ≢ pos 0) × ((u : Text) × (u ≢ []) × IsFirst n.address n.cidr u))
      → Primary rest t
      → Primary (n ∷ rest) t

-- The counts of a list of services.
pub record ServicesAre (xs : List NodeService) (r : ServiceCounts) : Type 0 where
  pub total : Tally HasName xs r.total
  pub running :
      Tally (λ s. HasName s × (Says (codes "running") s ⊎ Says (codes "active") s)) xs r.running
  pub failed : Tally (λ s. HasName s × Says (codes "failed") s) xs r.failed

-- The counts of a list of interfaces, and the address that is shown.
pub record NetworksAre (xs : List NetworkInterface) (r : NetworkCounts) : Type 0 where
  pub total : Tally IsListed xs r.total
  pub active : Tally (λ n. IsListed n × (n.active ≢ pos 0)) xs r.active
  pub primary : Primary xs r.primary

-- The count that a loop starts at zero is a tally.
counted :
    {A : Type 0} (P : A → Type 0) (p : A → Bool) (xs : List A) (n : ℕ)
    → ((x : A) → (p x ≡ true) ↔ P x)
    → n ≡ 0 + count_if p xs
    → Tally P xs n
counted P p xs n iff e = subst (Tally P xs) (omega (arith, e)) (count_if-Tally P p iff xs)

is_named_iff : (s : NodeService) → (is_named s ≡ true) ↔ HasName s
unfolding service_name
is_named_iff s = not_iff (is_empty (service_name s)) (fore, back)
  where
    first : IsFirst s.name s.service (service_name s)
    first = first_non_empty-IsFirst s.name s.service

    fore : is_empty (service_name s) ≡ false → HasName s
    fore h = elim first [
      | inl (p, e) ↦ inl p
      | inr (inl (p, q, e)) ↦ inr q
      | inr (inr (p, q, e)) ↦ absurd ((ne_nil (service_name s)).0 h e)
    ]

    back : HasName s → is_empty (service_name s) ≡ false
    back h = (ne_nil (service_name s)).1 (elim first [
      | inl (p, e) ↦ (λ x. filled s.name p (sym e ∙ x))
      | inr (inl (p, q, e)) ↦ (λ x. filled s.service q (sym e ∙ x))
      | inr (inr (p, q, e)) ↦ absurd (elim h [ inl x ↦ x p | inr x ↦ x q ])
    ])

state_iff : (word : Text) (s : NodeService) → (contains (service_state s) word ≡ true) ↔ Says word s
unfolding service_state
state_iff word s = (
  (λ h. (
    first_non_empty (s.state ∷ s.unit_state ∷ []),
    first_non_empty-IsFirst s.state s.unit_state,
    (contains_iff (service_state s) word).0 h,
  )),
  λ (t, f, w). (contains_iff (service_state s) word).1 (
      subst (λ x. IsWithin word (to_lower x))
        (first_unique s.state s.unit_state t _ f (first_non_empty-IsFirst s.state s.unit_state)) w),
)

is_shown_iff : (n : NetworkInterface) → (is_shown n ≡ true) ↔ IsListed n
is_shown_iff n =
    both_iff (not (is_empty n.iface)) (not (text_eq n.iface (codes "lo")))
      (not_iff (is_empty n.iface) (ne_nil n.iface))
      (not_iff (text_eq n.iface (codes "lo")) (
        (λ h e. false-ne-true (sym h ∙ (text_eq_iff n.iface (codes "lo")).1 e)),
        text_eq-ne n.iface (codes "lo"),
      ))

is_set_iff : (n : ℤ) → (is_set n ≡ true) ↔ (n ≢ pos 0)
is_set_iff n = not_iff (eqb_ℤ n (pos 0)) (
  (λ h e. ne_zero n e h),
  λ ne. elim (Bool-cases (eqb_ℤ n (pos 0))) [ inr p ↦ p | inl p ↦ absurd (ne (eq_zero n p)) ],
)
  where
    ne_zero : (n : ℤ) → n ≡ pos 0 → eqb_ℤ n (pos 0) ≡ false → ⊥
    ne_zero n e h = false-ne-true (sym h ∙ rw e refl)

    eq_zero : (n : ℤ) → eqb_ℤ n (pos 0) ≡ true → n ≡ pos 0
    eq_zero n h = eq_of_parts n (pos 0) (ground arith)

active_iff :
    (n : NetworkInterface)
    → ((is_shown n && is_set n.active) ≡ true) ↔ (IsListed n × (n.active ≢ pos 0))
active_iff n = both_iff (is_shown n) (is_set n.active) (is_shown_iff n) (is_set_iff n.active)

Primary-first_filled :
    (xs : List NetworkInterface) → Primary xs (first_filled (active_addresses xs))
unfolding keep_if first_filled
Primary-first_filled [] = no_address
Primary-first_filled (n ∷ xs) = elim (Bool-cases (is_shown n && is_set n.active)) [
  | inr p ↦ rw p (
      passed n xs (first_filled (active_addresses xs))
        (λ (l, s, h). false-ne-true (sym p ∙ (active_iff n).1 (l, s))) (Primary-first_filled xs))
  | inl p ↦
      let t = first_non_empty (n.address ∷ n.cidr ∷ []) in
      elim (Bool-cases (is_empty t)) [
        | inr q ↦
            rw (p, q)
              (found n xs t ((active_iff n).0 p).0 ((active_iff n).0 p).1 ((ne_nil t).0 q)
                (first_non_empty-IsFirst n.address n.cidr))
        | inl q ↦
            rw (p, q)
              (passed n xs (first_filled (active_addresses xs))
                (λ (l, s, (u, ne, f)). ne (
                  first_unique n.address n.cidr u t f (first_non_empty-IsFirst n.address n.cidr)
                  ∙ (empty_iff t).0 q))
                (Primary-first_filled xs))
      ]
]

-- The summary of a host's services counts those with a name, under `name` or `service`, and of these
-- the ones whose state, in small letters, holds `running` or `active`, so also `inactive`, and the ones
-- whose state holds `failed`; the state is the one under `state`, or under `unit-state` where that is
-- blank. The summary of its networks counts the interfaces that have a name other than `lo`, and of
-- these the active ones, and shows the address, or else the CIDR, of the first active one that has any.
pub summaries_lem :
    (services : List NodeService) (networks : List NetworkInterface)
    → ServicesAre services (summarize_services services)
      × NetworksAre networks (summarize_network networks)
summaries_lem services networks =
    let (s, n) = counts_lem services networks in
    (
      record {
        total = counted HasName is_named services _ is_named_iff s.0;
        running =
            counted (λ x. HasName x × (Says (codes "running") x ⊎ Says (codes "active") x))
              (λ x. is_named x && is_running x) services _
              (λ x. both_iff (is_named x) (is_running x) (is_named_iff x) (
                either_iff (contains (service_state x) (codes "running"))
                  (contains (service_state x) (codes "active")) (state_iff (codes "running") x)
                  (state_iff (codes "active") x)))
              s.1;
        failed =
            counted (λ x. HasName x × Says (codes "failed") x) (λ x. is_named x && is_failed x)
              services _
              (λ x.
                both_iff (is_named x) (is_failed x) (is_named_iff x) (state_iff (codes "failed") x))
              s.2;
      },
      record {
        total = counted IsListed is_shown networks _ is_shown_iff n.0;
        active =
            counted (λ x. IsListed x × (x.active ≢ pos 0)) (λ x. is_shown x && is_set x.active)
              networks _ active_iff n.1;
        primary = subst (Primary networks) (sym n.2) (Primary-first_filled networks);
      },
    )
