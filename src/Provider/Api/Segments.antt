-- ===== src/Provider/Api/Segments.antt =====
-- The path of a guest (apps/bridge/internal/proxmox/provider.go).
use proxmox_desk_display.Base.{
  [], ◌∷◌, refl, inl, inr, ◌≡◌, ◌+◌, ◌++◌, ◌==◌, ◌||◌, ℕ, Bool, List, All, arith, count_if,
  Bool-cases, if◌then◌else◌,
}
use proxmox_desk_display.Base.Text.{Text, codes, text_eq}
use proxmox_desk_display.Provider.Api.{guest_path}
use proxmox_desk_display.Provider.Paths.{path_escape}
use proxmox_desk_display.Provider.Paths.Escaped.{StaysInSegment, path_escape-segment}

abbrev pub is_slash : ℕ → Bool
is_slash c = c == b'/'

-- What ends the path of a URL.
abbrev pub is_path_end : ℕ → Bool
is_path_end c = c == b'?' || c == b'#'

count_if-append :
    {A : Type 0} (p : A → Bool) (xs ys : List A)
    → count_if p (xs ++ ys) ≡ count_if p xs + count_if p ys
unfolding count_if
count_if-append p [] ys = omega arith
count_if-append p (x ∷ xs) ys = omega (arith, count_if-append p xs ys)

segment-no_slash : (s : Text) → All StaysInSegment s → count_if is_slash s ≡ 0
unfolding count_if
segment-no_slash [] h = refl
segment-no_slash (c ∷ s) (h, hs) = ground (arith, h.0, segment-no_slash s hs)

segment-no_end : (s : Text) → All StaysInSegment s → count_if is_path_end s ≡ 0
unfolding count_if
segment-no_end [] h = refl
segment-no_end (c ∷ s) (h, hs) = ground (arith, h.1, h.2, segment-no_end s hs)

around_escaped :
    (p : ℕ → Bool) (start node middle vmid : Text)
    → count_if p node ≡ 0
    → count_if p vmid ≡ 0
    → count_if p (start ++ node ++ middle ++ vmid) ≡ count_if p start + count_if p middle
around_escaped p start node middle vmid h k = omega (
  arith,
  h,
  k,
  count_if-append p (start ++ node ++ middle) vmid,
  count_if-append p (start ++ node) middle,
  count_if-append p start node,
)

abbrev middle : Text → Text
middle guest_type = if text_eq guest_type (codes "lxc") then codes "/lxc/" else codes "/qemu/"

middle_counts :
    (guest_type : Text)
    → (count_if is_slash (middle guest_type) ≡ 2) × (count_if is_path_end (middle guest_type) ≡ 0)
unfolding count_if
middle_counts guest_type = elim (Bool-cases (text_eq guest_type (codes "lxc"))) [
  | inl p ↦ rw p (refl, refl)
  | inr p ↦ rw p (refl, refl)
]

start_counts :
    (count_if is_slash (codes "/api2/json/nodes/") ≡ 4)
    × (count_if is_path_end (codes "/api2/json/nodes/") ≡ 0)
unfolding count_if
start_counts = (refl, refl)

-- The path of a guest has six slashes, and neither `?` nor `#`, whatever the node, the type and the id
-- are, so that each of the two names is one segment of it.
pub guest_path-segments :
    (node guest_type vmid : Text)
    → (count_if is_slash (guest_path node guest_type vmid) ≡ 6)
      × (count_if is_path_end (guest_path node guest_type vmid) ≡ 0)
unfolding guest_path
guest_path-segments node guest_type vmid =
    let n = path_escape-segment node in
    let v = path_escape-segment vmid in
    let start = codes "/api2/json/nodes/" in
    (
      omega (
        arith,
        around_escaped is_slash start (path_escape node) (middle guest_type) (path_escape vmid)
            (segment-no_slash (path_escape node) n) (segment-no_slash (path_escape vmid) v),
        (middle_counts guest_type).0,
        start_counts.0,
      ),
      omega (
        arith,
        around_escaped is_path_end start (path_escape node) (middle guest_type) (path_escape vmid)
            (segment-no_end (path_escape node) n) (segment-no_end (path_escape vmid) v),
        (middle_counts guest_type).1,
        start_counts.1,
      ),
    )
