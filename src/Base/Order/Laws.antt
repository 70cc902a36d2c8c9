-- ===== src/Base/Order/Laws.antt =====
-- Laws of the stable sort.
use Prim.Native.Nat.{suc}
use mathlib.Core.Path.{◌≡◌, refl, ap, ◌∙◌}
use mathlib.Core.Logic.{inl, inr}
use mathlib.Core.Bool.{Bool, true, false}
use mathlib.Core.List.{List, [], ◌∷◌, Perm}
use mathlib.Core.List.Perm
use native.Mathlib.Omega.{arith}
use proxmox_desk_display.Base.Tests.{if◌then◌else◌, Bool-cases}
use proxmox_desk_display.Base.Lists.{All, length, keep_if}
use proxmox_desk_display.Base.Order.{insert, sort_stable, StrictWeak, Ordered}

module _ {ℓ} {A : Type ℓ} (less : A → A → Bool) where
  insert-perm : (x : A) (ys : List A) → Perm (insert less x ys) (x ∷ ys)
  unfolding insert
  insert-perm x [] = Perm.refl (x ∷ [])
  insert-perm x (y ∷ ys) = elim (Bool-cases (less y x)) [
    | inl e ↦ rw e (Perm.trans (Perm.cons y (insert-perm x ys)) (Perm.swap x y ys))
    | inr e ↦ rw e (Perm.refl _)
  ]

  pub sort_stable-perm : (xs : List A) → Perm (sort_stable less xs) xs
  unfolding sort_stable
  sort_stable-perm [] = Perm.refl []
  sort_stable-perm (x ∷ xs) =
      Perm.trans (insert-perm x (sort_stable less xs)) (Perm.cons x (sort_stable-perm xs))

  length-insert : (x : A) (ys : List A) → length (insert less x ys) ≡ suc (length ys)
  unfolding insert
  length-insert x [] = refl
  length-insert x (y ∷ ys) = ground (arith, length-insert x ys)

  pub length-sort_stable : (xs : List A) → length (sort_stable less xs) ≡ length xs
  unfolding sort_stable
  length-sort_stable [] = refl
  length-sort_stable (x ∷ xs) =
      length-insert x (sort_stable less xs) ∙ ap suc (length-sort_stable xs)

  All-insert {κ} :
      (P : A → Type κ) (x : A) (ys : List A) → P x → All P ys → All P (insert less x ys)
  unfolding insert
  All-insert P x [] h hs = (h, tt)
  All-insert P x (y ∷ ys) h hs = elim (Bool-cases (less y x)) [
    | inl e ↦ rw e (hs.0, All-insert P x ys h hs.1)
    | inr e ↦ rw e (h, hs)
  ]

  module _ (w : StrictWeak less) where
    All-behind :
        (x y : A) (ys : List A)
        → less y x ≡ false
        → All (λ z. less z y ≡ false) ys
        → All (λ z. less z x ≡ false) ys
    All-behind x y [] h hs = tt
    All-behind x y (z ∷ ys) h hs = (w.neg_trans z y x hs.0 h, All-behind x y ys h hs.1)

    insert-Ordered : (x : A) (ys : List A) → Ordered less ys → Ordered less (insert less x ys)
    unfolding insert
    insert-Ordered x [] o = (tt, tt)
    insert-Ordered x (y ∷ ys) o = elim (Bool-cases (less y x)) [
      | inl e ↦ rw e (All-insert _ x ys (w.asym y x e) o.0, insert-Ordered x ys o.1)
      | inr e ↦ rw e ((e, All-behind x y ys e o.0), o)
    ]

    pub sort_stable-Ordered : (xs : List A) → Ordered less (sort_stable less xs)
    unfolding sort_stable
    sort_stable-Ordered [] = tt
    sort_stable-Ordered (x ∷ xs) = insert-Ordered x (sort_stable less xs) (sort_stable-Ordered xs)

  module _ (p : A → Bool) (same : (a b : A) → p a ≡ true → p b ≡ true → less a b ≡ false) where
    keep_if-insert : (x : A) (ys : List A) → keep_if p (insert less x ys) ≡ keep_if p (x ∷ ys)
    unfolding insert keep_if
    keep_if-insert x [] = refl
    keep_if-insert x (y ∷ ys) = ground (arith, keep_if-insert x ys, same y x)

    pub keep_if-sort_stable : (xs : List A) → keep_if p (sort_stable less xs) ≡ keep_if p xs
    unfolding sort_stable keep_if
    keep_if-sort_stable [] = refl
    keep_if-sort_stable (x ∷ xs) =
        keep_if-insert x (sort_stable less xs)
        ∙ ap (λ l. if p x then x ∷ l else l) (keep_if-sort_stable xs)
