-- ===== src/Provider/Paths/Escaped.antt =====
-- A segment of a path after PathEscape.
use proxmox_desk_display.Provider.Paths.{
  is_plain, upper_hex, escape_byte, escape_bytes, path_escape, utf8,
}
use proxmox_desk_display.Base.{
  [], ◌∷◌, true, inl, inr, ◌≡◌, ℕ, List, ◌≢◌, ◌<◌, arith, All, Bool-cases, All-append, ◌/◌, ◌%◌,
}
use proxmox_desk_display.Base.Text.{Text}

-- A byte that does not end a segment: neither `/` nor `?` nor `#`.
abbrev pub StaysInSegment : ℕ → Type 0
StaysInSegment c = (c ≢ b'/') × (c ≢ b'?') × (c ≢ b'#')

upper_hex-StaysInSegment : (n : ℕ) → n < 16 → StaysInSegment (upper_hex n)
unfolding upper_hex
upper_hex-StaysInSegment n h = (λ e. ground arith, λ e. ground arith, λ e. ground arith)

plain-StaysInSegment : (c : ℕ) → is_plain c ≡ true → StaysInSegment c
unfolding is_plain
plain-StaysInSegment c h = (λ e. ground arith, λ e. ground arith, λ e. ground arith)

escape_byte-segment : (b : ℕ) → All StaysInSegment (escape_byte b)
unfolding escape_byte
escape_byte-segment b = elim (Bool-cases (is_plain b)) [
  | inl p ↦ rw p (plain-StaysInSegment b p, tt)
  | inr p ↦ rw p (
    (λ e. omega arith, λ e. omega arith, λ e. omega arith),
    (
      upper_hex-StaysInSegment (b / 16 % 16) (omega arith),
      (upper_hex-StaysInSegment (b % 16) (omega arith), tt),
    ),
  )
]

escape_bytes-segment : (bs : List ℕ) → All StaysInSegment (escape_bytes bs)
unfolding escape_bytes
escape_bytes-segment [] = tt
escape_bytes-segment (b ∷ bs) =
    All-append StaysInSegment (escape_byte b) (escape_bytes bs) (escape_byte-segment b)
      (escape_bytes-segment bs)

pub path_escape-segment : (s : Text) → All StaysInSegment (path_escape s)
unfolding path_escape
path_escape-segment [] = tt
path_escape-segment (c ∷ s) =
    All-append StaysInSegment (escape_bytes (utf8 c)) (path_escape s)
      (escape_bytes-segment (utf8 c)) (path_escape-segment s)
