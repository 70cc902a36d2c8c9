-- ===== src/Provider/Zfs/Leaves.antt =====
-- The counters of a pool as counts over the list of its devices
-- (apps/bridge/internal/proxmox/provider.go).
use proxmox_desk_display.Provider.Zfs.{
  ZfsNode, ZfsPoolDetail, ZfsChildren, pool_detail, no_child, child_then, walk, walk_children,
  is_leaf, count_leaf, has_bad_state, has_errors,
}
use proxmox_desk_display.Base.{
  [], ◌∷◌, ◌≡◌, inl, inr, List, Bool, ℕ, count_if, if◌then◌else◌, not, ◌+◌, ◌++◌, arith, Bool-cases,
  ◌∙◌, ap, sym,
}
use proxmox_desk_display.Base.Text.{is_empty}

-- The devices below a pool, from left to right: the nodes that are marked as leaves or have no child.
unfoldable mutual
  pub leaves : ZfsPoolDetail → List ZfsNode
  leaves (pool_detail n children) =
      if is_leaf n children then n ∷ leaves_of children else leaves_of children

  pub leaves_of : ZfsChildren → List ZfsNode
  leaves_of no_child = []
  leaves_of (child_then d rest) = leaves d ++ leaves_of rest

abbrev pub is_named : ZfsNode → Bool
is_named n = not (is_empty n.name)

-- The named devices, and the issues: one for a bad state and one for errors.
abbrev pub tally : List ZfsNode → ℕ × ℕ
tally ns = (count_if is_named ns, count_if has_bad_state ns + count_if has_errors ns)

abbrev add : ℕ × ℕ → ℕ × ℕ → ℕ × ℕ
add (a, b) (c, d) = (a + c, b + d)

count_if-append :
    (p : ZfsNode → Bool) (xs ys : List ZfsNode)
    → count_if p (xs ++ ys) ≡ count_if p xs + count_if p ys
unfolding count_if
count_if-append p [] ys = omega arith
count_if-append p (x ∷ xs) ys = ground (arith, count_if-append p xs ys)

tally-append :
    (xs ys : List ZfsNode) (a b : ℕ)
    → add (a, b) (tally (xs ++ ys)) ≡ add (add (a, b) (tally xs)) (tally ys)
tally-append xs ys a b =
    let named = count_if-append is_named xs ys in
    let bad = count_if-append has_bad_state xs ys in
    let errors = count_if-append has_errors xs ys in
    let left : a + count_if is_named (xs ++ ys)
        ≡ (a + count_if is_named xs) + count_if is_named ys =
      omega (arith, named) in
    let right : b + (count_if has_bad_state (xs ++ ys) + count_if has_errors (xs ++ ys))
        ≡ (b + (count_if has_bad_state xs + count_if has_errors xs))
          + (count_if has_bad_state ys + count_if has_errors ys) =
      omega (arith, bad, errors) in
    λ i. (left i, right i)

tally-leaf :
    (n : ZfsNode) (ns : List ZfsNode) (a b : ℕ)
    → add (count_leaf n (a, b)) (tally ns) ≡ add (a, b) (tally (n ∷ ns))
unfolding count_leaf count_if
tally-leaf n ns a b = ground arith

tally-nil : (c : ℕ × ℕ) → c ≡ add c (tally [])
unfolding count_if
tally-nil (a, b) =
    let left : a ≡ a + 0 = omega arith in
    let right : b ≡ b + (0 + 0) = omega arith in λ i. (left i, right i)

mutual
  unfolding walk leaves

  walk-tally : (d : ZfsPoolDetail) (c : ℕ × ℕ) → walk d c ≡ add c (tally (leaves d))
  walk-tally (pool_detail n children) c = elim (Bool-cases (is_leaf n children)) [
    | inl p ↦
        rw p (children-tally children (count_leaf n c) ∙ tally-leaf n (leaves_of children) c.0 c.1)
    | inr p ↦ rw p (children-tally children c)
  ]

  children-tally :
      (children : ZfsChildren) (c : ℕ × ℕ)
      → walk_children children c ≡ add c (tally (leaves_of children))
  children-tally no_child c = tally-nil c
  children-tally (child_then d rest) c =
      children-tally rest (walk d c)
      ∙ ap (λ x. add x (tally (leaves_of rest))) (walk-tally d c)
      ∙ sym (tally-append (leaves d) (leaves_of rest) c.0 c.1)
