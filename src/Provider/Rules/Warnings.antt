-- ===== src/Provider/Rules/Warnings.antt =====
-- The warnings of a host or a cluster (apps/bridge/internal/proxmox/provider.go).
use proxmox_desk_display.Provider.Rules.{add_warning}
use proxmox_desk_display.Base.Text.{Text, text_eq}
use proxmox_desk_display.Base.Text.Laws.{text_eq_refl}
use proxmox_desk_display.Base.{
  [], ◌∷◌, true, false, refl, inl, inr, ◌≡◌, List, All, any, ◌≢◌, ◌++◌, Bool-cases, All-append,
  false-ne-true, sym, ◌∙◌, arith,
}
use mathlib.Core.List.{append-nil}

-- No two of the strings are equal.
abbrev pub AreDistinct : List Text → Type 0
AreDistinct [] = Unit
AreDistinct (w ∷ rest) = All (λ v. v ≢ w) rest × AreDistinct rest

pub absent :
    (message : Text) (ws : List Text)
    → any (λ w. text_eq w message) ws ≡ false
    → All (λ w. message ≢ w) ws
unfolding any
absent message [] h = tt
absent message (w ∷ ws) h = elim (Bool-cases (text_eq w message)) [
  | inl p ↦ absurd (false-ne-true (sym h ∙ rw p refl))
  | inr p ↦ (
    (λ e. false-ne-true (sym p ∙ rw e (text_eq_refl w))),
    absent message ws (sym (rw p refl) ∙ h),
  )
]

pub append-AreDistinct :
    (message : Text) (ws : List Text)
    → All (λ w. message ≢ w) ws
    → AreDistinct ws
    → AreDistinct (ws ++ message ∷ [])
append-AreDistinct message [] new distinct = (tt, tt)
append-AreDistinct message (w ∷ ws) (ne, new) (d, distinct) = (
  All-append (λ v. v ≢ w) ws (message ∷ []) d (ne, tt),
  append-AreDistinct message ws new distinct,
)

any-last :
    (message : Text) (ws : List Text) → any (λ w. text_eq w message) (ws ++ message ∷ []) ≡ true
unfolding any
any-last message [] = rw (text_eq_refl message) refl
any-last message (w ∷ ws) = ground (arith, any-last message ws)

-- addDataWarning and addClusterWarning: the message is among the warnings then, no warning is there
-- twice if none was, and every earlier warning keeps its place.
pub add_warning_lem :
    (message : Text) (warnings : List Text)
    → AreDistinct warnings
    → AreDistinct (add_warning message warnings)
      × (any (λ w. text_eq w message) (add_warning message warnings) ≡ true)
      × (more : List Text) × (add_warning message warnings ≡ warnings ++ more)
unfolding add_warning
add_warning_lem message warnings distinct =
    elim (Bool-cases (any (λ w. text_eq w message) warnings)) [
      | inl p ↦ rw p (distinct, p, [], sym (append-nil warnings))
      | inr p ↦ rw p (
        append-AreDistinct message warnings (absent message warnings p) distinct,
        any-last message warnings,
        message ∷ [],
        refl,
      )
    ]
