-- ===== src/Provider/Summaries/Words.antt =====
-- What the tests on texts in the summaries say (apps/bridge/internal/proxmox/provider.go).
use proxmox_desk_display.Base.{
  [], ◌∷◌, ◌≡◌, ◌≢◌, ◌↔◌, ◌⊎◌, Bool, ◌&&◌, ◌||◌, true, false, inl, inr, Bool-cases, refl, sym, ◌∙◌,
  ap, ◌++◌, false-ne-true, or-cases, or-true, and-parts, not,
}
use proxmox_desk_display.Base.Text.{Text, is_empty, contains, trim_space, has_prefix, drop_prefix}
use proxmox_desk_display.Base.Text.Laws.{has_prefix-drop_prefix, has_prefix-append}
use proxmox_desk_display.Config.Validation.Accepts.{ne_nil}
use proxmox_desk_display.Provider.Json.{first_non_empty}

-- A text stands somewhere in another.
abbrev pub IsWithin : Text → Text → Type 0
IsWithin sub s = (before : Text) × (after : Text) × (s ≡ before ++ sub ++ after)

-- The first of two texts that is not blank.
abbrev pub IsFirst : Text → Text → Text → Type 0
IsFirst a b t =
    ((trim_space a ≢ []) × (t ≡ a))
    ⊎ ((trim_space a ≡ []) × (trim_space b ≢ []) × (t ≡ b))
    ⊎ ((trim_space a ≡ []) × (trim_space b ≡ []) × (t ≡ []))

pub both_iff :
    {P Q : Type 0} (a b : Bool) → (a ≡ true) ↔ P → (b ≡ true) ↔ Q → ((a && b) ≡ true) ↔ (P × Q)
both_iff a b f g =
    ((λ h. let (x, y) = and-parts a b h in (f.0 x, g.0 y)), λ (x, y). rw (f.1 x, g.1 y) refl)

pub either_iff :
    {P Q : Type 0} (a b : Bool) → (a ≡ true) ↔ P → (b ≡ true) ↔ Q → ((a || b) ≡ true) ↔ (P ⊎ Q)
either_iff a b f g = (
  (λ h. elim (or-cases a b h) [ inl x ↦ inl (f.0 x) | inr y ↦ inr (g.0 y) ]),
  λ h. elim h [ inl x ↦ rw (f.1 x) refl | inr y ↦ rw (g.1 y) (or-true a) ],
)

pub not_iff : (b : Bool) {P : Type 0} → (b ≡ false) ↔ P → (not b ≡ true) ↔ P
not_iff true f = ((λ h. absurd (false-ne-true h)), λ p. absurd (false-ne-true (sym (f.1 p))))
not_iff false f = ((λ h. f.0 refl), λ p. refl)

pub contains_iff : (s sub : Text) → (contains s sub ≡ true) ↔ IsWithin sub s
unfolding contains
contains_iff s sub = (fore s, back s)
  where
    here : (s : Text) → has_prefix s sub ≡ true → IsWithin sub s
    here s h = ([], drop_prefix s sub, has_prefix-drop_prefix s sub h)

    fore : (s : Text) → contains s sub ≡ true → IsWithin sub s
    fore [] h = here [] h
    fore (c ∷ s) h = elim (or-cases (has_prefix (c ∷ s) sub) (contains s sub) h) [
      | inl x ↦ here (c ∷ s) x
      | inr x ↦ let (b, a, e) = fore s x in (c ∷ b, a, ap (λ t. c ∷ t) e)
    ]

    at_start : (s : Text) → has_prefix s sub ≡ true → contains s sub ≡ true
    at_start [] h = h
    at_start (c ∷ s) h = rw h refl

    later : (b a : Text) → contains (b ++ sub ++ a) sub ≡ true
    later [] a = at_start (sub ++ a) (has_prefix-append sub a)
    later (c ∷ b) a = rw (later b a) (or-true (has_prefix (c ∷ b ++ sub ++ a) sub))

    back : (s : Text) → IsWithin sub s → contains s sub ≡ true
    back s (b, a, e) = rw e (later b a)

pub empty_iff : (s : Text) → (is_empty s ≡ true) ↔ (s ≡ [])
empty_iff [] = ((λ h. refl), λ h. refl)
empty_iff (c ∷ s) = ((λ h. absurd (false-ne-true h)), λ h. cc)

pub first_non_empty-IsFirst : (a b : Text) → IsFirst a b (first_non_empty (a ∷ b ∷ []))
unfolding first_non_empty
first_non_empty-IsFirst a b = elim (Bool-cases (is_empty (trim_space a))) [
  | inr p ↦ rw p (inl ((ne_nil (trim_space a)).0 p, refl))
  | inl p ↦ elim (Bool-cases (is_empty (trim_space b))) [
    | inr q ↦
        rw (p, q) (inr (inl ((empty_iff (trim_space a)).0 p, (ne_nil (trim_space b)).0 q, refl)))
    | inl q ↦
        rw (p, q) (inr (inr ((empty_iff (trim_space a)).0 p, (empty_iff (trim_space b)).0 q, refl)))
  ]
]

pub first_unique : (a b t u : Text) → IsFirst a b t → IsFirst a b u → t ≡ u
first_unique a b t u (inl (p, e)) (inl (q, f)) = e ∙ sym f
first_unique a b t u (inl (p, e)) (inr (inl (q, m, f))) = absurd (p q)
first_unique a b t u (inl (p, e)) (inr (inr (q, m, f))) = absurd (p q)
first_unique a b t u (inr (inl (p, n, e))) (inl (q, f)) = absurd (q p)
first_unique a b t u (inr (inl (p, n, e))) (inr (inl (q, m, f))) = e ∙ sym f
first_unique a b t u (inr (inl (p, n, e))) (inr (inr (q, m, f))) = absurd (n m)
first_unique a b t u (inr (inr (p, n, e))) (inl (q, f)) = absurd (q p)
first_unique a b t u (inr (inr (p, n, e))) (inr (inl (q, m, f))) = absurd (m n)
first_unique a b t u (inr (inr (p, n, e))) (inr (inr (q, m, f))) = e ∙ sym f

trim_nil : trim_space [] ≡ []
unfolding trim_space
trim_nil = refl

-- A text that is not blank is not empty.
pub filled : (a : Text) → trim_space a ≢ [] → a ≢ []
filled a ne e = ne (ap trim_space e ∙ trim_nil)
