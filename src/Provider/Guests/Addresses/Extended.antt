-- ===== src/Provider/Guests/Addresses/Extended.antt =====
-- Lists of addresses that only grow (apps/bridge/internal/proxmox/provider.go).
use proxmox_desk_display.Provider.Guests.Addresses.{is_full, add_address, is_local, with_prefix}
use proxmox_desk_display.Provider.Guests.Addresses.Sources.{IsOutside, IsWritten}
use proxmox_desk_display.Base.{
  [], ◌∷◌, false, true, refl, inl, inr, ◌≡◌, List, length, arith, Bool-cases, ◌≤◌, ◌<◌, any, Some,
  length-append, ◌++◌, sym, ◌∙◌, ap, ℕ, false-ne-true, leb,
}
use proxmox_desk_display.Base.Text.{Text, codes, text_eq}
use proxmox_desk_display.Base.Text.Laws.{text_eq_iff, text_eq-ne}
use proxmox_desk_display.Base.Int.{ℤ, pos, negsuc, is_above_zero}
use proxmox_desk_display.Config.Validation.Accepts.{ne_nil}
use proxmox_desk_display.Base.Numbers.{itoa}

abbrev pub IsIn : Text → List Text → Type 0
IsIn a xs = Some (λ x. x ≡ a) xs

-- One list starts with another: it is not shorter, and has all of its elements.
pub record Extends (xs r : List Text) : Type 0 where
  pub longer : length xs ≤ length r
  pub keeps : (a : Text) → IsIn a xs → IsIn a r

pub same : (xs : List Text) → Extends xs xs
same xs = record { longer = omega arith; keeps = λ a h. h }

pub then_Extends : (xs ys zs : List Text) → Extends xs ys → Extends ys zs → Extends xs zs
then_Extends xs ys zs p q = record {
  longer = omega (arith, p.longer, q.longer);
  keeps = λ a h. q.keeps a (p.keeps a h);
}

append-IsIn : (a : Text) (xs ys : List Text) → IsIn a xs → IsIn a (xs ++ ys)
append-IsIn a [] ys h = absurd h
append-IsIn a (x ∷ xs) ys (inl e) = inl e
append-IsIn a (x ∷ xs) ys (inr h) = inr (append-IsIn a xs ys h)

last-IsIn : (a : Text) (xs : List Text) → IsIn a (xs ++ a ∷ [])
last-IsIn a [] = inl refl
last-IsIn a (x ∷ xs) = inr (last-IsIn a xs)

seen-IsIn : (a : Text) (xs : List Text) → any (λ x. text_eq x a) xs ≡ true → IsIn a xs
unfolding any
seen-IsIn a [] h = absurd (false-ne-true h)
seen-IsIn a (x ∷ xs) h = elim (Bool-cases (text_eq x a)) [
  | inl p ↦ inl ((text_eq_iff x a).0 p)
  | inr p ↦ inr (seen-IsIn a xs (sym (rw (p, any) refl) ∙ h))
]

pub add_address-Extends :
    (a : Text) (xs : List Text) → Extends xs (add_address a xs) × IsIn a (add_address a xs)
unfolding add_address
add_address-Extends a xs = elim (Bool-cases (any (λ x. text_eq x a) xs)) [
  | inl p ↦ rw p (same xs, seen-IsIn a xs p)
  | inr p ↦ rw p (
    record {
      longer = omega (arith, length-append xs (a ∷ []));
      keeps = λ b h. append-IsIn b xs (a ∷ []) h;
    },
    last-IsIn a xs,
  )
]

-- A list with room was not full before.
pub room : (xs r : List Text) → Extends xs r → is_full xs ≡ true → length r < 8 → ⊥
room xs r e h l = not_both (length xs) (length r) e.longer h l
  where
    not_both : (m n : ℕ) → m ≤ n → leb 8 m ≡ true → n < 8 → ⊥
    not_both m n p q l = ground arith

pub outside : (a : Text) → is_local a ≡ true → IsOutside a → ⊥
unfolding is_local
outside a h (ne, p, q) =
    false-ne-true (sym (rw ((ne_nil a).1 ne, p, is_local) (text_eq-ne a (codes "::1") q)) ∙ h)

pub IsWritten-with_prefix :
    (base : Text) (p : ℤ) (a : Text) → IsWritten base p a → with_prefix base p ≡ a
IsWritten-with_prefix base p a (inl (n, e, l, f)) =
    rw (e, above n l) (sym (f ∙ ap (λ x. base ++ codes "/" ++ itoa x) e))
  where
    above : (n : ℕ) → 0 < n → is_above_zero (pos n) ≡ true
    above n l = ground arith
IsWritten-with_prefix base (pos n) a (inr (z, f)) = rw (z n refl) (sym f)
IsWritten-with_prefix base (negsuc n) a (inr (z, f)) = rw (below n) (sym f)
  where
    below : (n : ℕ) → is_above_zero (negsuc n) ≡ false
    below n = ground arith
