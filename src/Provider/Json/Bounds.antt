-- ===== src/Provider/Json/Bounds.antt =====
-- The range of a percentage (apps/bridge/internal/proxmox/provider.go).
use proxmox_desk_display.Provider.Json.{Floats, clamp_pct, pct_float, pct_int64, Float64}
use proxmox_desk_display.Base.{inl, inr, ◌≤◌, Bool-cases, arith, ◌||◌}
use proxmox_desk_display.Base.Int.{negsuc, ℤ, leb_ℤ, pos}

pub clamp_pct-le : (n : ℤ) → clamp_pct n ≤ 100
unfolding clamp_pct
clamp_pct-le (pos n) = ground arith
clamp_pct-le (negsuc n) = omega arith

module _ (f : Floats) where
  pub pct_float-le : (v : Float64) → pct_float f v ≤ 100
  unfolding pct_float
  pct_float-le v = elim (Bool-cases (f.is_at_most_zero v)) [
    | inl e ↦ rw e (omega arith)
    | inr e ↦ rw e (clamp_pct-le (f.round (f.times v (f.of_int (pos 100)))))
  ]

  pub pct_int64-le : (used total : ℤ) → pct_int64 f used total ≤ 100
  unfolding pct_int64
  pct_int64-le used total = elim (Bool-cases (leb_ℤ used (pos 0) || leb_ℤ total (pos 0))) [
    | inl e ↦ rw e (omega arith)
    | inr e ↦ rw e (
        clamp_pct-le
          (f.round (f.times (f.over (f.of_int used) (f.of_int total)) (f.of_int (pos 100)))))
  ]
