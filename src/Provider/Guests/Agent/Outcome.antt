-- ===== src/Provider/Guests/Agent/Outcome.antt =====
-- What the calls of the agent come to (apps/bridge/internal/proxmox/provider.go).
use proxmox_desk_display.Provider.Guests.Agent.{
  AgentState, ask_info, ask_hostname, ask_os, ask_networks, ask_filesystems, ask_agent,
  apply_guest_agent, first_error,
}
use proxmox_desk_display.Base.{
  none, refl, inl, inr, ◌≡◌, if◌then◌else◌, Bool-cases, ◌∙◌, some, true, false, ◌⊎◌, Option, ap,
}
use proxmox_desk_display.Provider.Api.{
  failed, answered, Call, Gets, agent_info, agent_hostname, agent_os_info, agent_networks,
  agent_fs_info,
}
use proxmox_desk_display.Provider.Api.Guests.{
  AgentInfo, AgentHostname, AgentOsInfo, AgentNetworkInterfaces, AgentFsInfo,
}
use proxmox_desk_display.Base.Text.{Text}
use proxmox_desk_display.Display.Guests.{Guest}
use proxmox_desk_display.Provider.Calls.{CallError}

ask_info-source : (c : Call AgentInfo) (r : AgentState) → (ask_info c r).0.source_id ≡ r.0.source_id
unfolding ask_info
ask_info-source (answered a) (g, e) = refl
ask_info-source (failed d) (g, e) = refl

ask_hostname-source :
    (c : Call AgentHostname) (r : AgentState) → (ask_hostname c r).0.source_id ≡ r.0.source_id
unfolding ask_hostname
ask_hostname-source (answered a) (g, e) = refl
ask_hostname-source (failed d) (g, e) = refl

ask_os-source : (c : Call AgentOsInfo) (r : AgentState) → (ask_os c r).0.source_id ≡ r.0.source_id
unfolding ask_os
ask_os-source (answered a) (g, e) = refl
ask_os-source (failed d) (g, e) = refl

ask_networks-source :
    (c : Call AgentNetworkInterfaces) (r : AgentState)
    → (ask_networks c r).0.source_id ≡ r.0.source_id
unfolding ask_networks
ask_networks-source (answered a) (g, e) = refl
ask_networks-source (failed d) (g, e) = refl

ask_filesystems-source :
    (c : Call AgentFsInfo) (r : AgentState) → (ask_filesystems c r).0.source_id ≡ r.0.source_id
unfolding ask_filesystems
ask_filesystems-source (answered a) (g, e) = refl
ask_filesystems-source (failed d) (g, e) = refl

kept_on :
    (r : AgentState) → (if r.0.agent_available then (r.0, none) else r).0.source_id ≡ r.0.source_id
kept_on r = elim (Bool-cases r.0.agent_available) [ inl p ↦ rw p refl | inr p ↦ rw p refl ]

pub apply_guest_agent-source :
    (api : Gets) (node vmid : Text) (g : Guest)
    → (apply_guest_agent api node vmid g).0.source_id ≡ g.source_id
unfolding apply_guest_agent ask_agent
apply_guest_agent-source api node vmid g =
    let r1 = ask_info (agent_info api node vmid) (g, none) in
    let r2 = ask_hostname (agent_hostname api node vmid) r1 in
    let r3 = ask_os (agent_os_info api node vmid) r2 in
    let r4 = ask_networks (agent_networks api node vmid) r3 in
    kept_on (ask_agent api node vmid g)
    ∙ ask_filesystems-source (agent_fs_info api node vmid) r4
    ∙ ask_networks-source (agent_networks api node vmid) r3
    ∙ ask_os-source (agent_os_info api node vmid) r2
    ∙ ask_hostname-source (agent_hostname api node vmid) r1
    ∙ ask_info-source (agent_info api node vmid) (g, none)

-- A call that fails, and one that is answered.
abbrev pub IsFailed : {A : Type 0} → Call A → Type 0
IsFailed c = (e : CallError) × (c ≡ failed e)

abbrev pub IsAnswered : {A : Type 0} → Call A → Type 0
IsAnswered {A} c = (a : A) × (c ≡ answered a)

abbrev pub HasError : AgentState → Type 0
HasError r = (e : CallError) × (r.1 ≡ some e)

-- A step on a call that fails keeps the guest and has an error; on one that is answered, the agent is
-- available.
abbrev Step : {A : Type 0} → Call A → (AgentState → AgentState) → AgentState → Type 0
Step c f r =
    (IsFailed c × ((f r).0 ≡ r.0) × HasError (f r))
    ⊎ (IsAnswered c × ((f r).0.agent_available ≡ true))

first_error-some :
    (e : Option CallError) (d : CallError) → (x : CallError) × (first_error e d ≡ some x)
first_error-some none d = (d, refl)
first_error-some (some e) d = (e, refl)

ask_info-Step : (c : Call AgentInfo) (r : AgentState) → Step c (ask_info c) r
unfolding ask_info
ask_info-Step (answered a) (g, e) = inr ((a, refl), refl)
ask_info-Step (failed d) (g, e) = inl ((d, refl), refl, (d, refl))

ask_hostname-Step : (c : Call AgentHostname) (r : AgentState) → Step c (ask_hostname c) r
unfolding ask_hostname
ask_hostname-Step (answered a) (g, e) = inr ((a, refl), refl)
ask_hostname-Step (failed d) (g, e) = inl ((d, refl), refl, (d, refl))

ask_hostname_keeps :
    (c : Call AgentHostname) (r : AgentState)
    → r.0.agent_available ≡ true
    → (ask_hostname c r).0.agent_available ≡ true
unfolding ask_hostname
ask_hostname_keeps (answered a) (g, e) on = refl
ask_hostname_keeps (failed d) (g, e) on = on

ask_os-Step : (c : Call AgentOsInfo) (r : AgentState) → Step c (ask_os c) r
unfolding ask_os
ask_os-Step (answered a) (g, e) = inr ((a, refl), refl)
ask_os-Step (failed d) (g, e) = inl ((d, refl), refl, first_error-some e d)

ask_os_keeps :
    (c : Call AgentOsInfo) (r : AgentState)
    → r.0.agent_available ≡ true
    → (ask_os c r).0.agent_available ≡ true
unfolding ask_os
ask_os_keeps (answered a) (g, e) on = refl
ask_os_keeps (failed d) (g, e) on = on

ask_networks-Step : (c : Call AgentNetworkInterfaces) (r : AgentState) → Step c (ask_networks c) r
unfolding ask_networks
ask_networks-Step (answered a) (g, e) = inr ((a, refl), refl)
ask_networks-Step (failed d) (g, e) = inl ((d, refl), refl, first_error-some e d)

ask_networks_keeps :
    (c : Call AgentNetworkInterfaces) (r : AgentState)
    → r.0.agent_available ≡ true
    → (ask_networks c r).0.agent_available ≡ true
unfolding ask_networks
ask_networks_keeps (answered a) (g, e) on = refl
ask_networks_keeps (failed d) (g, e) on = on

ask_filesystems-Step : (c : Call AgentFsInfo) (r : AgentState) → Step c (ask_filesystems c) r
unfolding ask_filesystems
ask_filesystems-Step (answered a) (g, e) = inr ((a, refl), refl)
ask_filesystems-Step (failed d) (g, e) = inl ((d, refl), refl, first_error-some e d)

ask_filesystems_keeps :
    (c : Call AgentFsInfo) (r : AgentState)
    → r.0.agent_available ≡ true
    → (ask_filesystems c r).0.agent_available ≡ true
unfolding ask_filesystems
ask_filesystems_keeps (answered a) (g, e) on = refl
ask_filesystems_keeps (failed d) (g, e) on = on

-- Every call of the agent fails, and some call is answered.
abbrev pub AllFail : Gets → Text → Text → Type 0
AllFail api node vmid =
    IsFailed (agent_info api node vmid)
    × IsFailed (agent_hostname api node vmid)
    × IsFailed (agent_os_info api node vmid)
    × IsFailed (agent_networks api node vmid)
    × IsFailed (agent_fs_info api node vmid)

abbrev pub SomeAnswered : Gets → Text → Text → Type 0
SomeAnswered api node vmid =
    IsAnswered (agent_info api node vmid)
    ⊎ IsAnswered (agent_hostname api node vmid)
    ⊎ IsAnswered (agent_os_info api node vmid)
    ⊎ IsAnswered (agent_networks api node vmid)
    ⊎ IsAnswered (agent_fs_info api node vmid)

-- The calls either all fail, with the guest as it was and an error, or one is answered and the agent
-- is available.
ask_agent_cases :
    (api : Gets) (node vmid : Text) (g : Guest)
    → (AllFail api node vmid
        × ((ask_agent api node vmid g).0 ≡ g)
        × HasError (ask_agent api node vmid g))
      ⊎ (SomeAnswered api node vmid × ((ask_agent api node vmid g).0.agent_available ≡ true))
unfolding ask_agent
ask_agent_cases api node vmid g =
    let c1 = agent_info api node vmid in
    let c2 = agent_hostname api node vmid in
    let c3 = agent_os_info api node vmid in
    let c4 = agent_networks api node vmid in
    let c5 = agent_fs_info api node vmid in
    let r1 = ask_info c1 (g, none) in
    let r2 = ask_hostname c2 r1 in
    let r3 = ask_os c3 r2 in
    let r4 = ask_networks c4 r3 in
    elim (ask_info-Step c1 (g, none)) [
      | inr (a, p) ↦ inr (
        inl a,
        ask_filesystems_keeps c5 r4
            (ask_networks_keeps c4 r3 (ask_os_keeps c3 r2 (ask_hostname_keeps c2 r1 p))),
      )
      | inl (f1, g1, h1) ↦ elim (ask_hostname-Step c2 r1) [
        | inr (a, p) ↦ inr (
          inr (inl a),
          ask_filesystems_keeps c5 r4 (ask_networks_keeps c4 r3 (ask_os_keeps c3 r2 p)),
        )
        | inl (f2, g2, h2) ↦ elim (ask_os-Step c3 r2) [
          | inr (a, p) ↦
              inr (inr (inr (inl a)), ask_filesystems_keeps c5 r4 (ask_networks_keeps c4 r3 p))
          | inl (f3, g3, h3) ↦ elim (ask_networks-Step c4 r3) [
            | inr (a, p) ↦ inr (inr (inr (inr (inl a))), ask_filesystems_keeps c5 r4 p)
            | inl (f4, g4, h4) ↦ elim (ask_filesystems-Step c5 r4) [
              | inr (a, p) ↦ inr (inr (inr (inr (inr a))), p)
              | inl (f5, g5, h5) ↦ inl ((f1, f2, f3, f4, f5), g5 ∙ g4 ∙ g3 ∙ g2 ∙ g1, h5)
            ]
          ]
        ]
      ]
    ]

-- Where the guest was not known to have an agent, either each of the five calls of applyGuestAgent
-- fails, and it leaves the guest as it was and returns an error, or one of them is answered, and the
-- guest's agent is available and there is no error.
pub apply_guest_agent_cases :
    (api : Gets) (node vmid : Text) (g : Guest)
    → g.agent_available ≡ false
    → (AllFail api node vmid
        × ((apply_guest_agent api node vmid g).0 ≡ g)
        × HasError (apply_guest_agent api node vmid g))
      ⊎ (SomeAnswered api node vmid
          × ((apply_guest_agent api node vmid g).0.agent_available ≡ true)
          × ((apply_guest_agent api node vmid g).1 ≡ none))
unfolding apply_guest_agent
apply_guest_agent_cases api node vmid g off = elim (ask_agent_cases api node vmid g) [
  | inl (f, kept, e) ↦ inl (
    f,
    rw (ap (λ h. h.agent_available) kept ∙ off) kept,
    rw (ap (λ h. h.agent_available) kept ∙ off) e,
  )
  | inr (a, on) ↦ inr (a, rw on on, rw on refl)
]
