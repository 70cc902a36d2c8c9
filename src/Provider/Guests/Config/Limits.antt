-- ===== src/Provider/Guests/Config/Limits.antt =====
-- The drives and network devices of a guest (apps/bridge/internal/proxmox/provider.go).
use proxmox_desk_display.Provider.Guests.Config.{
  apply_guest_config, guest_disks, guest_nics, each_entry, disk_of_entry, nic_of_entry, guest_disk,
  is_guest_disk_key, max_guest_disks, max_guest_nics, guest_nic,
}
use proxmox_desk_display.Base.{
  [], ◌∷◌, inl, inr, ◌≡◌, ◌≢◌, ◌↔◌, ◌⊎◌, List, Bool, Bool-cases, true, any, ◌++◌, or-cases, or-true,
  refl, sym, ◌∙◌, false-ne-true, Some, not, if◌then◌else◌,
}
use proxmox_desk_display.Base.Text.{Text, is_empty, has_prefix, codes, drop_prefix, text_eq}
use proxmox_desk_display.Base.Text.Laws.{has_prefix-drop_prefix, has_prefix-append, text_eq_iff}
use proxmox_desk_display.Config.Validation.Accepts.{ne_nil}
use proxmox_desk_display.Provider.Json.{Floats, Any, string_value}
use proxmox_desk_display.Provider.Collect.{Sorter, IsSort, by_id}
use proxmox_desk_display.Display.Guests.{GuestDisk, GuestNic, Guest}
use proxmox_desk_display.Provider.Collect.Listing.{IsTop, sort-IsTop, by_id-StrictWeak}

-- A key that starts with the name of a bus or of another kind of volume, or the root of a container.
abbrev pub IsDriveKey : Text → Type 0
IsDriveKey key =
    Some (λ (p : Text). (rest : Text) × (key ≡ p ++ rest))
      (codes "ide"
        ∷ codes "sata"
        ∷ codes "scsi"
        ∷ codes "virtio"
        ∷ codes "mp"
        ∷ codes "unused"
        ∷ [])
    ⊎ (key ≡ codes "rootfs")

abbrev pub IsNetworkKey : Text → Type 0
IsNetworkKey key = (rest : Text) × (key ≡ codes "net" ++ rest)

-- The devices of a configuration: one for each key of the kind whose value has a text, made of the two
-- and named for the key, and no other.
pub data AreDevices {A : Type 0} (IsKey : Text → Type 0) (name : A → Text) (make : Text → Text → A)
    (f : Floats) : List (Text × Any) → List A → Type 0 where
  no_entry : AreDevices IsKey name make f [] []
  device :
      (key : Text) (value : Any) (rest : List (Text × Any)) (d : A) (ds : List A)
      → IsKey key
      → string_value f value ≢ []
      → d ≡ make key (string_value f value)
      → name d ≡ key
      → AreDevices IsKey name make f rest ds
      → AreDevices IsKey name make f ((key, value) ∷ rest) (d ∷ ds)
  other :
      (key : Text) (value : Any) (rest : List (Text × Any)) (ds : List A)
      → ¬ (IsKey key × (string_value f value ≢ []))
      → AreDevices IsKey name make f rest ds
      → AreDevices IsKey name make f ((key, value) ∷ rest) ds

has_prefix_iff : (s p : Text) → (has_prefix s p ≡ true) ↔ ((rest : Text) × (s ≡ p ++ rest))
has_prefix_iff s p = (
  λ h. (drop_prefix s p, has_prefix-drop_prefix s p h),
  λ (rest, e). rw e (has_prefix-append p rest),
)

any_prefix_iff :
    (key : Text) (ps : List Text)
    → (any (has_prefix key) ps ≡ true) ↔ Some (λ (p : Text). (rest : Text) × (key ≡ p ++ rest)) ps
unfolding any
any_prefix_iff key [] = ((λ h. absurd (false-ne-true h)), λ h. absurd h)
any_prefix_iff key (p ∷ ps) = elim (Bool-cases (has_prefix key p)) [
  | inl q ↦ rw q ((λ h. inl ((has_prefix_iff key p).0 q)), λ h. refl)
  | inr q ↦ rw q (
    (λ h. inr ((any_prefix_iff key ps).0 h)),
    λ h. elim h [
      | inl x ↦ absurd (false-ne-true (sym q ∙ (has_prefix_iff key p).1 x))
      | inr x ↦ (any_prefix_iff key ps).1 x
    ],
  )
]

-- The order of the prefixes in the code and in the list here does not matter.
is_guest_disk_key_iff : (key : Text) → (is_guest_disk_key key ≡ true) ↔ IsDriveKey key
unfolding is_guest_disk_key
is_guest_disk_key_iff key = (fore, back)
  where
    buses : List Text
    buses =
        codes "scsi"
        ∷ codes "virtio"
        ∷ codes "sata"
        ∷ codes "ide"
        ∷ codes "mp"
        ∷ codes "unused"
        ∷ []

    fore : is_guest_disk_key key ≡ true → IsDriveKey key
    fore h = elim (or-cases (any (has_prefix key) buses) (text_eq key (codes "rootfs")) h) [
      | inl x ↦ inl (elim ((any_prefix_iff key buses).0 x) [
        | inl y ↦ inr (inr (inl y))
        | inr (inl y) ↦ inr (inr (inr (inl y)))
        | inr (inr (inl y)) ↦ inr (inl y)
        | inr (inr (inr (inl y))) ↦ inl y
        | inr (inr (inr (inr y))) ↦ inr (inr (inr (inr y)))
      ])
      | inr x ↦ inr ((text_eq_iff key (codes "rootfs")).0 x)
    ]

    back : IsDriveKey key → is_guest_disk_key key ≡ true
    back (inr e) =
        rw ((text_eq_iff key (codes "rootfs")).1 e) (or-true (any (has_prefix key) buses))
    back (inl h) =
        rw
          ((any_prefix_iff key buses).1 (elim h [
            | inl y ↦ inr (inr (inr (inl y)))
            | inr (inl y) ↦ inr (inr (inl y))
            | inr (inr (inl y)) ↦ inl y
            | inr (inr (inr (inl y))) ↦ inr (inl y)
            | inr (inr (inr (inr y))) ↦ inr (inr (inr (inr y)))
          ]))
          refl

-- A loop that tests the key and then the text finds the devices.
module _ {A : Type 0} (IsKey : Text → Type 0) (test : Text → Bool)
    (test_iff : (key : Text) → (test key ≡ true) ↔ IsKey key) (name : A → Text)
    (make : Text → Text → A) (name_lem : (key value : Text) → name (make key value) ≡ key)
    (f : Floats) where
  abbrev turn : Text × Any → List A
  turn (key, value) =
      if not (test key)
      then []
      else if is_empty (string_value f value)
      then []
      else make key (string_value f value) ∷ []

  each_entry-AreDevices :
      (cfg : List (Text × Any)) → AreDevices IsKey name make f cfg (each_entry turn cfg)
  unfolding each_entry
  each_entry-AreDevices [] = no_entry
  each_entry-AreDevices ((key, value) ∷ rest) = elim (Bool-cases (test key)) [
    | inr p ↦ rw p (
        other key value rest (each_entry turn rest)
          (λ h. false-ne-true (sym p ∙ (test_iff key).1 h.0)) (each_entry-AreDevices rest))
    | inl p ↦ elim (Bool-cases (is_empty (string_value f value))) [
      | inl q ↦
          rw (p, q)
            (other key value rest (each_entry turn rest)
              (λ h. false-ne-true (sym ((ne_nil (string_value f value)).1 h.1) ∙ q))
              (each_entry-AreDevices rest))
      | inr q ↦
          rw (p, q)
            (device key value rest (make key (string_value f value)) (each_entry turn rest)
              ((test_iff key).0 p) ((ne_nil (string_value f value)).0 q) refl
              (name_lem key (string_value f value)) (each_entry-AreDevices rest))
    ]
  ]

disks-AreDevices :
    (f : Floats) (cfg : List (Text × Any))
    → AreDevices IsDriveKey
        (λ (d : GuestDisk). d.name)
        guest_disk
        f
        cfg
        (each_entry (disk_of_entry f) cfg)
unfolding disk_of_entry guest_disk
disks-AreDevices f cfg =
    each_entry-AreDevices IsDriveKey is_guest_disk_key is_guest_disk_key_iff
      (λ (d : GuestDisk). d.name) guest_disk (λ k v. refl) f cfg

nics-AreDevices :
    (f : Floats) (cfg : List (Text × Any))
    → AreDevices IsNetworkKey
        (λ (n : GuestNic). n.name)
        guest_nic
        f
        cfg
        (each_entry (nic_of_entry f) cfg)
unfolding nic_of_entry guest_nic
nics-AreDevices f cfg =
    each_entry-AreDevices IsNetworkKey (λ k. has_prefix k (codes "net"))
      (λ k. has_prefix_iff k (codes "net")) (λ (n : GuestNic). n.name) guest_nic (λ k v. refl) f cfg

pub record HasDevices (f : Floats) (cfg : List (Text × Any)) (g : Guest) : Type 0 where
  pub all_disks : List GuestDisk
  pub disks_found : AreDevices IsDriveKey (λ (d : GuestDisk). d.name) guest_disk f cfg all_disks
  pub disks : IsTop (by_id (λ (d : GuestDisk). d.name)) 12 all_disks g.disks
  pub all_nics : List GuestNic
  pub nics_found : AreDevices IsNetworkKey (λ (n : GuestNic). n.name) guest_nic f cfg all_nics
  pub nics : IsTop (by_id (λ (n : GuestNic). n.name)) 8 all_nics g.nics

-- A configuration has one drive for each key that starts with ide, sata, scsi, virtio, mp or unused, or
-- is rootfs, and one network device for each key that starts with net, where the value has a text; each
-- is made of that text and named for the key. A guest has at most 12 of these drives and 8 of these
-- network devices, in the order of their names and with those that are cut off last in it, where the
-- sort permutes and orders its input. By the prefix, the controller's key `scsihw` counts as a drive.
pub apply_guest_config-HasDevices :
    (s : Sorter) (laws : IsSort s) (f : Floats) (cfg : List (Text × Any)) (g : Guest)
    → HasDevices f cfg (apply_guest_config s f cfg g)
unfolding apply_guest_config guest_disks guest_nics
apply_guest_config-HasDevices s laws f cfg g = record {
  all_disks = each_entry (disk_of_entry f) cfg;
  disks_found = disks-AreDevices f cfg;
  disks =
      sort-IsTop s laws (by_id (λ (d : GuestDisk). d.name))
        (by_id-StrictWeak (λ (d : GuestDisk). d.name)) max_guest_disks
        (each_entry (disk_of_entry f) cfg);
  all_nics = each_entry (nic_of_entry f) cfg;
  nics_found = nics-AreDevices f cfg;
  nics =
      sort-IsTop s laws (by_id (λ (n : GuestNic). n.name))
        (by_id-StrictWeak (λ (n : GuestNic). n.name)) max_guest_nics
        (each_entry (nic_of_entry f) cfg);
}
