-- ===== src/Provider/Zfs.antt =====
-- The devices of a ZFS pool (apps/bridge/internal/proxmox/provider.go): the type zfsPoolDetail and the
-- recursion of zfsDeviceCounts, with the two counters that the closure changes as its state.
pub mod Leaves
use proxmox_desk_display.Base.{
  ◌==◌, Bool, ℕ, List, true, false, suc, map, not, ◌||◌, if◌then◌else◌, leb, ◌&&◌, ◌-◌,
}
use proxmox_desk_display.Base.Text.{Text, codes, text_eq, is_empty, trim_space}
use proxmox_desk_display.Base.Int.{ℤ, pos, ltb_ℤ, eqb_ℤ}

-- The fields of a node but its children.
pub record ZfsNode : Type 0 where
  pub name : Text
  pub state : Text
  pub status : Text
  pub scan : Text
  pub errors : Text
  pub leaf : ℤ
  pub read : ℤ
  pub write : ℤ
  pub checksum : ℤ

mutual
  pub data ZfsPoolDetail : Type 0 where
    pool_detail : ZfsNode → ZfsChildren → ZfsPoolDetail

  pub data ZfsChildren : Type 0 where
    no_child : ZfsChildren
    child_then : ZfsPoolDetail → ZfsChildren → ZfsChildren

-- strings.ToUpper on ASCII and on the two letters outside it whose capital letter is in it, the
-- dotless i and the long s
unfoldable pub to_upper : Text → Text
to_upper s =
    map
      (λ c.
        if leb b'a' c && leb c b'z'
        then c - 32
        else if c == 305
        then b'I'
        else if c == 383
        then b'S'
        else c)
      s

abbrev pub is_childless : ZfsChildren → Bool
is_childless no_child = true
is_childless (child_then d rest) = false

unfoldable pub has_bad_state : ZfsNode → Bool
unfolding to_upper
has_bad_state n =
    let state = to_upper (trim_space n.state) in
    not (is_empty state)
    && not (text_eq state (codes "ONLINE"))
    && not (text_eq state (codes "AVAIL"))

unfoldable pub has_errors : ZfsNode → Bool
has_errors n = ltb_ℤ (pos 0) n.read || ltb_ℤ (pos 0) n.write || ltb_ℤ (pos 0) n.checksum

-- The counters after a leaf.
unfoldable pub count_leaf : ZfsNode → ℕ × ℕ → ℕ × ℕ
unfolding has_bad_state has_errors
count_leaf n (devices, issues) =
    let stated = if has_bad_state n then suc issues else issues in
    (if is_empty n.name then devices else suc devices, if has_errors n then suc stated else stated)

unfoldable pub is_leaf : ZfsNode → ZfsChildren → Bool
is_leaf n children = not (eqb_ℤ n.leaf (pos 0)) || is_childless children

unfoldable mutual
  unfolding count_leaf is_leaf

  -- walk
  pub walk : ZfsPoolDetail → ℕ × ℕ → ℕ × ℕ
  walk (pool_detail n children) counts =
      walk_children children (if is_leaf n children then count_leaf n counts else counts)

  pub walk_children : ZfsChildren → ℕ × ℕ → ℕ × ℕ
  walk_children no_child counts = counts
  walk_children (child_then d rest) counts = walk_children rest (walk d counts)

unfoldable pub zfs_device_counts : ZfsPoolDetail → ℕ × ℕ
unfolding walk_children
zfs_device_counts (pool_detail n children) = walk_children children (0, 0)
