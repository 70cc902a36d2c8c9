-- ===== src/Provider/Source/Owned/Hosts.antt =====
-- The hosts of a run, which bear the source (apps/bridge/internal/proxmox/provider.go).
use mathlib.Core.List.{Permᴰ}
use proxmox_desk_display.Base.{[], ◌∷◌, refl, inl, inr, ◌≡◌, List, All, subst, sym, Bool-cases, ◌∙◌}
use proxmox_desk_display.Provider.Source.Steps.{Scan}
use proxmox_desk_display.Base.Text.{Text, text_eq, codes}
use proxmox_desk_display.Provider.Source.Nodes.{
  put_host, hosts_of, scan_nodes, host_of, node_name, scan_node,
}
use proxmox_desk_display.Provider.Source.Storages.{change_host}
use proxmox_desk_display.Display.Hosts.{Host}
use proxmox_desk_display.Provider.Api.Clusters.{Resource}
use proxmox_desk_display.Display.State.{State}
use proxmox_desk_display.Provider.Source.Owned.{IsOwned}
use proxmox_desk_display.Provider.Source.Owned.Nodes.{scan_node-Kept}

pub All-PermD : {A : Type 0} (P : A → Type 0) {xs ys : List A} → Permᴰ xs ys → All P ys → All P xs
All-PermD P Permᴰ.nil h = tt
All-PermD P (Permᴰ.cons e d) (k, h) = (subst P (sym e) k, All-PermD P d h)
All-PermD P (Permᴰ.swap e f) (h, (k, l)) = (subst P (sym e) k, (subst P (sym f) h, l))
All-PermD P (Permᴰ.trans c d) h = All-PermD P c (All-PermD P d h)

module _ (w : Scan) where
  -- Every host in the list bears the source's id.
  abbrev pub HostsOwned : List (Text × Host) → Type 0
  HostsOwned hosts = All (λ (e : Text × Host). e.1.source_id ≡ w.client.id) hosts

  put_host-HostsOwned :
      (node : Text) (h : Host) (hosts : List (Text × Host))
      → h.source_id ≡ w.client.id
      → HostsOwned hosts
      → HostsOwned (put_host w node h hosts)
  unfolding put_host
  put_host-HostsOwned node h [] e own = (e, tt)
  put_host-HostsOwned node h ((k, g) ∷ rest) e (o, own) = elim (Bool-cases (text_eq k node)) [
    | inl p ↦ rw p (e, own)
    | inr p ↦ rw p (o, put_host-HostsOwned node h rest e own)
  ]

  pub hosts_of-HostsOwned :
      (rs : List Resource) (hosts : List (Text × Host))
      → HostsOwned hosts
      → HostsOwned (hosts_of w rs hosts)
  unfolding hosts_of host_of
  hosts_of-HostsOwned [] hosts own = own
  hosts_of-HostsOwned (r ∷ rest) hosts own = elim (Bool-cases (text_eq r.type (codes "node"))) [
    | inl p ↦ rw p (
        hosts_of-HostsOwned rest (put_host w (node_name w r) (host_of w r) hosts)
          (put_host-HostsOwned (node_name w r) (host_of w r) hosts refl own))
    | inr p ↦ rw p (hosts_of-HostsOwned rest hosts own)
  ]

  pub scan_nodes-Owned :
      (hosts : List (Text × Host)) (s : State)
      → HostsOwned hosts
      → IsOwned w.client.id s
      → IsOwned w.client.id (scan_nodes w hosts s).0 × HostsOwned (scan_nodes w hosts s).1
  unfolding scan_nodes
  scan_nodes-Owned [] s hs own = (own, tt)
  scan_nodes-Owned ((node, h) ∷ rest) s (e, hs) own =
      let r = scan_node-Kept w node s h (own, e) in
      let others = scan_nodes-Owned rest (scan_node w node (s, h)).0 hs r.0 in
      (others.0, (r.1, others.1))

  pub change_host-HostsOwned :
      (node : Text) (change : Host → Host) (hosts : List (Text × Host))
      → ((h : Host) → (change h).source_id ≡ h.source_id)
      → HostsOwned hosts
      → HostsOwned (change_host node change hosts)
  unfolding change_host
  change_host-HostsOwned node change [] same own = tt
  change_host-HostsOwned node change ((k, h) ∷ rest) same (o, own) =
      elim (Bool-cases (text_eq k node)) [
        | inl p ↦ rw p (same h ∙ o, own)
        | inr p ↦ rw p (o, change_host-HostsOwned node change rest same own)
      ]
