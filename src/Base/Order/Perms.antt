-- ===== src/Base/Order/Perms.antt =====
-- What a permutation keeps.
use mathlib.Core.List.{Perm, Permᴰ}
use mathlib.Core.Logic.{∥∥₁_elim}
use mathlib.Core.Bool.{Bool-set}
use proxmox_desk_display.Base.Lists.{any}
use proxmox_desk_display.Base.{refl, ◌≡◌, Bool, List, arith, ◌∙◌}

module _ {A : Type 0} (p : A → Bool) where
  any-PermD : {xs ys : List A} → Permᴰ xs ys → any p xs ≡ any p ys
  unfolding any
  any-PermD Permᴰ.nil = refl
  any-PermD (Permᴰ.cons e d) = rw (e, any-PermD d) refl
  any-PermD (Permᴰ.swap e f) = rw (e, f) (ground arith)
  any-PermD (Permᴰ.trans c d) = any-PermD c ∙ any-PermD d

  pub any-Perm : {xs ys : List A} → Perm xs ys → any p xs ≡ any p ys
  any-Perm {xs} {ys} q = ∥∥₁_elim q (Bool-set (any p xs) (any p ys)) any-PermD
