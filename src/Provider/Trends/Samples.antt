-- ===== src/Provider/Trends/Samples.antt =====
-- The samples of a trend (apps/bridge/internal/proxmox/provider.go).
use native.Mathlib.Nat.{le-div_iff_mul-le, div-eq_of_lt-le, mul-le-mul_right}
use proxmox_desk_display.Provider.Trends.{sample_index, samples_from, trend_values, round_div}
use proxmox_desk_display.Provider.Api.Guests.{RrdPoint}
use proxmox_desk_display.Base.Int.{ℤ}
use proxmox_desk_display.Base.{
  [], ◌∷◌, some, zero, suc, refl, inl, inr, ◌≡◌, ◌≤◌, ◌<◌, ◌*◌, ◌+◌, ◌-◌, ℕ, List, arith, length,
  min, get_elem?, Bool-cases, ltb, ap, subst,
}

-- The values are those of the points at the indices: as many as there are points, at most 24, the
-- first of the first point, the last of the last point, and in the order of the points.
pub record IsSampled (points : List RrdPoint) (value : RrdPoint → ℤ) (values : List ℤ)
    : Type 0 where
  pub count : length values ≡ min 24 (length points)
  pub each :
      (j : ℕ)
      → j < length values
      → (p : RrdPoint) × (get_elem? points (sample_index (length points) (length values) j)
          ≡ some p)
        × (get_elem? values j ≡ some (value p))
  pub first : sample_index (length points) (length values) 0 ≡ 0
  pub last :
      0 < length points
      → sample_index (length points) (length values) (length values - 1) ≡ length points - 1
  pub in_order :
      (i j : ℕ)
      → i ≤ j
      → sample_index (length points) (length values) i
        ≤ sample_index (length points) (length values) j

get_elem?-in :
    {A : Type 0} (xs : List A) (i : ℕ) → i < length xs → (x : A) × (get_elem? xs i ≡ some x)
get_elem?-in [] i h = absurd (omega (arith, h))
get_elem?-in (x ∷ xs) zero h = (x, refl)
get_elem?-in (x ∷ xs) (suc i) h = get_elem?-in xs i (omega (arith, h))

add_zero : (n : ℕ) → n + 0 ≡ n
add_zero n = omega arith

zero_add : (n : ℕ) → 0 + n ≡ n
zero_add n = omega arith

round_div_mono : (x y b : ℕ) → x ≤ y → 0 < b → round_div x b ≤ round_div y b
round_div_mono x y b h pos_b =
    let below : round_div x b * (2 * b) ≤ 2 * x + b =
      (le-div_iff_mul-le (omega arith)).0 (omega arith) in
    (le-div_iff_mul-le (omega arith)).1 (omega (arith, below))

round_div-exact : (m a : ℕ) → 0 < a → round_div (a * m) a ≡ m
round_div-exact m a h = div-eq_of_lt-le (2 * a) (omega arith) (omega arith)

sample_index_mono : (n s i j : ℕ) → i ≤ j → sample_index n s i ≤ sample_index n s j
unfolding sample_index
sample_index_mono n s i j h = elim (Bool-cases (ltb 1 s)) [
  | inl p ↦ rw p (
      round_div_mono (i * (n - 1)) (j * (n - 1)) (s - 1) (mul-le-mul_right (n - 1) h)
        (ground arith))
  | inr p ↦ rw p (omega arith)
]

sample_index-last : (n s : ℕ) → 0 < s → s ≤ n → (s ≡ 1 → n ≡ 1) → sample_index n s (s - 1) ≡ n - 1
unfolding sample_index
sample_index-last n s h k one = elim (Bool-cases (ltb 1 s)) [
  | inl p ↦ rw p (round_div-exact (n - 1) (s - 1) (ground arith))
  | inr p ↦ rw p (omega (arith, one (ground arith)))
]

sample_index-first : (n s : ℕ) → sample_index n s 0 ≡ 0
unfolding sample_index
sample_index-first n s = elim (Bool-cases (ltb 1 s)) [
  | inl p ↦ rw p (div-eq_of_lt-le (2 * (s - 1)) (omega arith) (ground arith))
  | inr p ↦ rw p refl
]

index-in : (n j : ℕ) → j < 0 + min 24 n → sample_index n (min 24 n) j < n
index-in n j h =
    let s = min 24 n in
    omega (
      arith,
      sample_index_mono n s j (s - 1) (omega arith),
      sample_index-last n s (omega arith) (omega arith) (λ e. omega arith),
    )

samples_from_turn :
    (value : RrdPoint → ℤ) (points : List RrdPoint) (samples i left : ℕ) (p : RrdPoint)
    (values : List ℤ)
    → get_elem? points (sample_index (length points) samples i) ≡ some p
    → samples_from value points samples (i + 1) left ≡ some values
    → samples_from value points samples i (suc left) ≡ some (value p ∷ values)
unfolding samples_from sample_index
samples_from_turn value points samples i left p values e h = rw (e, h, samples_from) refl

-- Each turn of the loop finds its point.
samples_from_lem :
    (value : RrdPoint → ℤ) (points : List RrdPoint) (samples i left : ℕ)
    → ((j : ℕ) → j < i + left → sample_index (length points) samples j < length points)
    → (values : List ℤ) × (samples_from value points samples i left ≡ some values)
      × (length values ≡ left)
      × ((j : ℕ)
          → j < left
          → (p : RrdPoint) × (get_elem? points (sample_index (length points) samples (i + j))
              ≡ some p)
            × (get_elem? values j ≡ some (value p)))
unfolding samples_from
samples_from_lem value points samples i zero inside = ([], refl, refl, λ j h. absurd (ground arith))
samples_from_lem value points samples i (suc left) inside =
    let at =
      get_elem?-in points (sample_index (length points) samples i) (inside i (omega arith)) in
    let rest = samples_from_lem value points samples (i + 1) left (λ j h. inside j (omega arith)) in
    (
      value at.0 ∷ rest.0,
      samples_from_turn value points samples i left at.0 rest.0 at.1 rest.1,
      ap suc rest.2,
      each at.0 at.1 rest.0 rest.3,
    )
  where
    each :
        (p : RrdPoint)
        → get_elem? points (sample_index (length points) samples i) ≡ some p
        → (values : List ℤ)
        → ((j : ℕ)
            → j < left
            → (q : RrdPoint) × (get_elem? points (sample_index (length points) samples (i + 1 + j))
                ≡ some q)
              × (get_elem? values j ≡ some (value q)))
        → (j : ℕ) → j < suc left
        → (q : RrdPoint) × (get_elem? points (sample_index (length points) samples (i + j))
            ≡ some q)
          × (get_elem? (value p ∷ values) j ≡ some (value q))
    each p e values later zero h = (p, rw (add_zero i) e, refl)
    each p e values later (suc j) h =
        let q = later j (omega (arith, h)) in
        (
          q.0,
          subst (λ k. get_elem? points (sample_index (length points) samples k) ≡ some q.0)
              (omega arith) q.1,
          q.2,
        )

-- trendValues does not index out of range, whatever the points are, and its values are those of the
-- points at its indices: as many as there are points, at most 24, that of the first point first, that
-- of the last point last, and in the order of the points.
pub trend_values-IsSampled :
    (points : List RrdPoint) (value : RrdPoint → ℤ)
    → (values : List ℤ) × (trend_values points value ≡ some values) × IsSampled points value values
unfolding trend_values
trend_values-IsSampled points value =
    let n = length points in
    let s = min 24 n in
    let r = samples_from_lem value points s 0 s (λ j h. index-in n j h) in
    (
      r.0,
      r.1,
      record {
        count = r.2;
        each = λ j h. rw r.2 (
            let q = r.3 j (omega (arith, h, r.2)) in
            (
              q.0,
              subst (λ k. get_elem? points (sample_index n s k) ≡ some q.0) (zero_add j) q.1,
              q.2,
            ));
        first = sample_index-first n (length r.0);
        last = λ h. rw r.2 (sample_index-last n s (omega arith) (omega arith) (λ e. omega arith));
        in_order = λ i j h. sample_index_mono n (length r.0) i j h;
      },
    )
