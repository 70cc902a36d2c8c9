-- ===== src/Base/Text/Trim.antt =====
-- What trimming leaves, and when it leaves everything.
use proxmox_desk_display.Base.{
  ℕ, Bool, reverse, ◌++◌, ◌∷◌, ◌≡◌, Bool-cases, subst, false, [], sym, ap, ◌∙◌, refl, inl, inr,
}
use proxmox_desk_display.Base.Text.{Text, trim_left, trim_right, trim}
use mathlib.Core.List.{reverse-reverse, reverse-cons, reverse-append}

-- The last rune of `c ∷ s`.
abbrev pub last_or : ℕ → Text → ℕ
last_or c [] = c
last_or c (d ∷ s) = last_or d s

-- The first rune, if there is one, fails the test.
abbrev pub StartsOff : (ℕ → Bool) → Text → Type 0
StartsOff p [] = Unit
StartsOff p (c ∷ s) = p c ≡ false

-- The last rune, if there is one, fails the test.
abbrev pub EndsOff : (ℕ → Bool) → Text → Type 0
EndsOff p [] = Unit
EndsOff p (c ∷ s) = p (last_or c s) ≡ false

-- The reverse begins with the last rune.
reverse_last : (c : ℕ) (s : Text) → (w : Text) × (reverse (c ∷ s) ≡ last_or c s ∷ w)
reverse_last c [] = ([], refl)
reverse_last c (d ∷ s) =
    let (w, e) = reverse_last d s in (w ++ c ∷ [], rw (reverse-cons c (d ∷ s), e))

module _ (p : ℕ → Bool) where
  pub trim_left-StartsOff : (s : Text) → StartsOff p (trim_left p s)
  unfolding trim_left
  trim_left-StartsOff [] = tt
  trim_left-StartsOff (c ∷ s) = elim (Bool-cases (p c)) [
    | inl e ↦ rw e (trim_left-StartsOff s)
    | inr e ↦ rw e e
  ]

  pub trim_left-eq_self : (s : Text) → StartsOff p s → trim_left p s ≡ s
  unfolding trim_left
  trim_left-eq_self [] h = refl
  trim_left-eq_self (c ∷ s) h = rw h

  -- `trim_left` cuts a head off.
  trim_left_tail : (s : Text) → (d : Text) × (s ≡ d ++ trim_left p s)
  unfolding trim_left
  trim_left_tail [] = ([], refl)
  trim_left_tail (c ∷ s) = elim (Bool-cases (p c)) [
    | inl e ↦ let (d, q) = trim_left_tail s in (c ∷ d, rw e (ap (◌∷◌ c) q))
    | inr e ↦ ([], rw e)
  ]

  trim_right_head : (s : Text) → (d : Text) × (s ≡ trim_right p s ++ d)
  unfolding trim_right
  trim_right_head s =
      let (d, q) = trim_left_tail (reverse s) in
      (
        reverse d,
        sym (reverse-reverse s) ∙ ap reverse q ∙ reverse-append d (trim_left p (reverse s)),
      )

  StartsOff-head : (u v : Text) → StartsOff p (u ++ v) → StartsOff p u
  StartsOff-head [] v h = tt
  StartsOff-head (c ∷ u) v h = h

  EndsOff-reverse : (w : Text) → StartsOff p w → (u : Text) → reverse u ≡ w → EndsOff p u
  EndsOff-reverse w h [] e = tt
  EndsOff-reverse w h (c ∷ u) e = let (v, q) = reverse_last c u in subst (StartsOff p) (sym e ∙ q) h

  StartsOff-reverse : (u : Text) → EndsOff p u → StartsOff p (reverse u)
  StartsOff-reverse [] h = tt
  StartsOff-reverse (c ∷ u) h = let (v, q) = reverse_last c u in subst (StartsOff p) (sym q) h

  -- A trimmed string neither begins nor ends with a rune of the cutset.
  pub trim-StartsOff : (s : Text) → StartsOff p (trim p s)
  unfolding trim
  trim-StartsOff s =
      let t = trim_left p s in
      let (d, q) = trim_right_head t in
      StartsOff-head (trim_right p t) d (subst (StartsOff p) q (trim_left-StartsOff s))

  pub trim-EndsOff : (s : Text) → EndsOff p (trim p s)
  unfolding trim trim_right
  trim-EndsOff s =
      let w = trim_left p (reverse (trim_left p s)) in
      EndsOff-reverse w (trim_left-StartsOff (reverse (trim_left p s))) (reverse w)
        (reverse-reverse w)

  -- Trimming changes nothing where both ends fail the test.
  pub trim-eq_self : (s : Text) → StartsOff p s → EndsOff p s → trim p s ≡ s
  unfolding trim trim_right
  trim-eq_self s h k =
      rw (trim_left-eq_self s h)
        (ap reverse (trim_left-eq_self (reverse s) (StartsOff-reverse s k)) ∙ reverse-reverse s)

  pub trim_idem : (s : Text) → trim p (trim p s) ≡ trim p s
  trim_idem s = trim-eq_self (trim p s) (trim-StartsOff s) (trim-EndsOff s)

  -- A trimmed string is a part of the string.
  pub trim_part : (s : Text) → (a b : Text) × (s ≡ a ++ (trim p s ++ b))
  unfolding trim
  trim_part s =
      let (a, q) = trim_left_tail s in
      let (b, r) = trim_right_head (trim_left p s) in (a, b, q ∙ ap (◌++◌ a) r)
