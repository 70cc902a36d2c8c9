-- ===== src/Runtime/Operations/Shown.antt =====
-- What is installed outside mock mode, and what the admin page shows of it
-- (apps/bridge/internal/runtime/manager.go).
use proxmox_desk_display.Runtime.Apply.{
  rejected, unsaved, installed, apply-Ending, kept, changed, apply-Change,
}
use proxmox_desk_display.Runtime.Manager.{
  World, apply, Bridge, collector_for_config, prepared, Collector,
}
use proxmox_desk_display.Runtime.Snapshot.{snapshot, source_snapshot, SourceSnapshot}
use proxmox_desk_display.Config.Validation.Accepts.{validate_iff}
use proxmox_desk_display.Config.Validation.{IsValidConfig, no_sources, validate}
use proxmox_desk_display.Base.{
  [], ◌∷◌, true, false, refl, inl, inr, ◌≡◌, not, List, ◌⊎◌, map, Bool-cases, ap, Option-cases, sym,
  ◌∙◌,
}
use proxmox_desk_display.Errors.{ok, ok-ne-err}
use proxmox_desk_display.Config.{ProxmoxHost, Config}
use proxmox_desk_display.ConfigStore.Files.{blank_token, saved_config}
use proxmox_desk_display.ConfigStore.Secrets.{Secrets}
use proxmox_desk_display.Base.Text.{is_empty}

-- A source as the admin page shows it, with a token only where a variable is named.
abbrev pub shown_by_env : ProxmoxHost → SourceSnapshot
shown_by_env h = record (source_snapshot h) { token_set = not (is_empty h.token_env) }

blank-shown :
    (hosts : List ProxmoxHost)
    → map source_snapshot (map blank_token hosts) ≡ map shown_by_env (map blank_token hosts)
unfolding source_snapshot blank_token
blank-shown [] = refl
blank-shown (h ∷ rest) = λ i. source_snapshot (blank_token h) ∷ blank-shown rest i

-- After a change of the configuration the admin page takes a source for one with a token only if a
-- variable is named for it: the tokens of the secrets are cleared in the list that the page reads.
pub apply-token_set :
    (w : World) (c : Config) (s : Secrets) (b : Bridge)
    → ((apply w c s b).1.manager ≡ b.manager)
      ⊎ ((snapshot w.getenv (apply w c s b).1.manager).sources
          ≡ map shown_by_env (apply w c s b).1.manager.cfg.proxmox)
unfolding snapshot saved_config
apply-token_set w c s b = elim (apply-Change w c s b) [
  | kept e p q ↦ inl q
  | changed p q r ↦ inr (rw p (blank-shown _))
]

-- CollectorForConfig outside mock mode.
collector-IsValid :
    (w : World) (c : Config) (collector : Collector)
    → collector_for_config w c false ≡ ok collector
    → (no_sources c.proxmox ≡ true) ⊎ IsValidConfig w.getenv false c
unfolding collector_for_config
collector-IsValid w c collector h = elim (Bool-cases (no_sources c.proxmox)) [
  | inl p ↦ inl p
  | inr p ↦ elim (Option-cases (validate w.getenv false c)) [
    | inl q ↦ inr ((validate_iff w.getenv false c).0 q)
    | inr (e, q) ↦ absurd (ok-ne-err collector e (sym h ∙ rw (p, q, collector_for_config) refl))
  ]
]

-- Outside mock mode `apply` leaves the manager as it was, or what it saves and collects from has no
-- source at all or is valid.
pub apply-IsValid :
    (w : World) (c : Config) (s : Secrets) (b : Bridge)
    → b.manager.mock ≡ false
    → ((apply w c s b).1.manager ≡ b.manager)
      ⊎ ((prepared c s).proxmox ≡ [])
      ⊎ IsValidConfig w.getenv false (prepared c s)
apply-IsValid w c s b mock = elim (apply-Ending w c s b) [
  | rejected e p q ↦ inl (ap (λ r. r.1.manager) q)
  | unsaved e p q r s ↦ inl r
  | installed collector p q r ↦
      inr (elim (collector-IsValid w (prepared c s) collector (rw (sym mock) p)) [
        | inl n ↦ inl (no_sources→nil (prepared c s).proxmox n)
        | inr v ↦ inr v
      ])
]
  where
    no_sources→nil : (hosts : List ProxmoxHost) → no_sources hosts ≡ true → hosts ≡ []
    no_sources→nil [] h = refl
    no_sources→nil (k ∷ rest) h = cc
