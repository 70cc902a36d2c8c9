-- ===== src/Base/Order/Keys.antt =====
-- Comparators by one key after another, and the order of strings.
use mathlib.Core.Path.{◌≡◌, refl}
use mathlib.Core.Logic.{◌↔◌}
use mathlib.Core.Bool.{Bool, true, false, not}
use mathlib.Core.List.{[], ◌∷◌}
use native.Mathlib.Omega.{arith}
use proxmox_desk_display.Base.Tests.{ltb, ◌==◌, if◌then◌else◌}
use proxmox_desk_display.Base.Text.{Text, text_eq, text_lt}
use proxmox_desk_display.Base.Text.Laws.{text_eq_iff}
use proxmox_desk_display.Base.Order.{StrictWeak}

-- A key with an equality test and a strict total order.
pub record Key {ℓ} {K : Type ℓ} (eq lt : K → K → Bool) : Type ℓ where
  pub eq_iff : (a b : K) → (eq a b ≡ true) ↔ (a ≡ b)
  pub weak : StrictWeak lt
  pub connex : (a b : K) → lt a b ≡ false → lt b a ≡ false → a ≡ b

-- `if f(a) != f(b) { return f(a) < f(b) }; return less(a, b)`
abbrev pub by_key {ℓ κ} :
    {A : Type ℓ} {K : Type κ}
    → (K → K → Bool)
    → (K → K → Bool)
    → (A → K)
    → (A → A → Bool)
    → A
    → A
    → Bool
by_key eq lt f less a b = if not (eq (f a) (f b)) then lt (f a) (f b) else less a b

module _ {ℓ κ} {A : Type ℓ} {K : Type κ} {eq lt : K → K → Bool} (k : Key eq lt) (f : A → K) where
  pub by_only_key-StrictWeak : StrictWeak (λ a b. lt (f a) (f b))
  by_only_key-StrictWeak = record {
    asym = λ a b. k.weak.asym (f a) (f b);
    neg_trans = λ a b c. k.weak.neg_trans (f a) (f b) (f c);
  }

  module _ {less : A → A → Bool} (w : StrictWeak less) where
    pub by_key-StrictWeak : StrictWeak (by_key eq lt f less)
    by_key-StrictWeak = record {
      asym = λ a b.
          ground (
            arith,
            k.eq_iff (f a) (f b),
            k.eq_iff (f b) (f a),
            k.weak.asym (f a) (f b),
            w.asym a b,
          );
      neg_trans = λ a b c. ground (
        arith,
        k.eq_iff (f a) (f b),
        k.eq_iff (f b) (f c),
        k.eq_iff (f a) (f c),
        k.weak.asym (f a) (f b),
        k.weak.asym (f b) (f c),
        k.weak.asym (f a) (f c),
        k.weak.asym (f c) (f a),
        k.weak.neg_trans (f a) (f b) (f c),
        k.weak.neg_trans (f b) (f a) (f c),
        k.connex (f a) (f c),
        k.connex (f a) (f b),
        k.connex (f b) (f c),
        w.neg_trans a b c,
      );
    }

pub nat_desc-Key : Key ◌==◌ (λ a b. ltb b a)
nat_desc-Key = record {
  eq_iff = λ a b. ground arith;
  weak = record { asym = λ a b h. ground arith; neg_trans = λ a b c h k. ground arith };
  connex = λ a b h k. ground arith;
}

text_lt-asym : (a b : Text) → text_lt a b ≡ true → text_lt b a ≡ false
unfolding text_lt
text_lt-asym [] [] h = ground arith
text_lt-asym [] (d ∷ b) h = refl
text_lt-asym (c ∷ a) [] h = ground arith
text_lt-asym (c ∷ a) (d ∷ b) h = ground (arith, text_lt-asym a b)

text_lt-neg_trans : (a b c : Text) → text_lt a b ≡ false → text_lt b c ≡ false → text_lt a c ≡ false
unfolding text_lt
text_lt-neg_trans a b [] h k = refl
text_lt-neg_trans a [] (z ∷ c) h k = ground arith
text_lt-neg_trans [] (y ∷ b) (z ∷ c) h k = ground arith
text_lt-neg_trans (x ∷ a) (y ∷ b) (z ∷ c) h k = ground (arith, text_lt-neg_trans a b c)

text_lt-connex : (a b : Text) → text_lt a b ≡ false → text_lt b a ≡ false → a ≡ b
unfolding text_lt
text_lt-connex [] [] h k = refl
text_lt-connex [] (d ∷ b) h k = ground arith
text_lt-connex (c ∷ a) [] h k = ground arith
text_lt-connex (c ∷ a) (d ∷ b) h k = ground (arith, text_lt-connex a b)

pub text-Key : Key text_eq text_lt
text-Key = record {
  eq_iff = text_eq_iff;
  weak = record { asym = text_lt-asym; neg_trans = text_lt-neg_trans };
  connex = text_lt-connex;
}
