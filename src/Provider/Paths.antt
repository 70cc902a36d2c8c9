-- ===== src/Provider/Paths.antt =====
-- net/url on one segment of a path: PathEscape and what PathUnescape makes of it.
pub mod Escaped
use proxmox_desk_display.Base.{
  [], ◌∷◌, ℕ, List, if◌then◌else◌, Bool, ◌++◌, ltb, leb, ◌/◌, ◌+◌, ◌&&◌, ◌%◌, ◌||◌, ◌-◌, ◌==◌,
}
use proxmox_desk_display.Base.Text.{Text}

-- The bytes of a rune in UTF-8.
unfoldable pub utf8 : ℕ → List ℕ
utf8 c =
    if ltb c 0x80
    then c ∷ []
    else if ltb c 0x800
    then (0xC0 + c / 64) ∷ (0x80 + c % 64) ∷ []
    else if ltb c 0x10000
    then (0xE0 + c / 4096) ∷ (0x80 + c / 64 % 64) ∷ (0x80 + c % 64) ∷ []
    else (0xF0 + c / 262144) ∷ (0x80 + c / 4096 % 64) ∷ (0x80 + c / 64 % 64) ∷ (0x80 + c % 64) ∷ []

-- The bytes that PathEscape keeps: letters, digits and `-_.~$&+=:@`.
unfoldable pub is_plain : ℕ → Bool
is_plain c =
    (leb b'a' c && leb c b'z')
    || (leb b'A' c && leb c b'Z')
    || (leb b'0' c && leb c b'9')
    || c == b'-'
    || c == b'_'
    || c == b'.'
    || c == b'~'
    || c == b'$'
    || c == b'&'
    || c == b'+'
    || c == b'='
    || c == b':'
    || c == b'@'

-- A digit of "0123456789ABCDEF".
unfoldable pub upper_hex : ℕ → ℕ
upper_hex n = if ltb n 10 then b'0' + n else b'A' + (n - 10)

unfoldable pub escape_byte : ℕ → Text
unfolding is_plain upper_hex
escape_byte b =
    if is_plain b then b ∷ [] else b'%' ∷ upper_hex (b / 16 % 16) ∷ upper_hex (b % 16) ∷ []

unfoldable pub escape_bytes : List ℕ → Text
unfolding escape_byte
escape_bytes [] = []
escape_bytes (b ∷ rest) = escape_byte b ++ escape_bytes rest

-- url.PathEscape
unfoldable pub path_escape : Text → Text
unfolding utf8 escape_bytes
path_escape [] = []
path_escape (c ∷ s) = escape_bytes (utf8 c) ++ path_escape s
