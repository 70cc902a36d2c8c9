-- ===== src/Provider/Json.antt =====
-- Values of JSON and the numbers that the collector makes of them
-- (apps/bridge/internal/proxmox/provider.go).
pub mod Bounds
use proxmox_desk_display.Base.{[], ◌∷◌, false, ℕ, Bool, List, if◌then◌else◌, ◌||◌, ◌++◌, ltb}
use proxmox_desk_display.Base.Text.{Text, to_lower, trim_space, text_eq, codes, is_empty}
use proxmox_desk_display.Base.Int.{negsuc, ℤ, pos, leb_ℤ}
use proxmox_desk_display.Base.Numbers.{parse_int}

-- A float64, by its 64 bits. What IEEE 754 makes of them is the record below.
abbrev pub Float64 : Type 0
Float64 = ℕ

pub record Floats : Type 0 where
  -- v > 0, v <= 0, v > 1 and v != 0, of which none holds but the last where v is not a number
  pub is_positive : Float64 → Bool
  pub is_at_most_zero : Float64 → Bool
  pub is_above_one : Float64 → Bool
  pub is_nonzero : Float64 → Bool
  -- float64(n), int64(v), v * w and v / w
  pub of_int : ℤ → Float64
  pub to_int : Float64 → ℤ
  pub times : Float64 → Float64 → Float64
  pub over : Float64 → Float64 → Float64
  -- int(math.Round(v)) and int(math.Floor(v))
  pub round : Float64 → ℤ
  pub floor : Float64 → ℤ
  -- the result of strconv.ParseFloat, its error dropped; fmt.Sprint(v); Duration.Hours
  pub parse : Text → Float64
  pub show : Float64 → Text
  pub hours : ℤ → Float64

-- What encoding/json decodes into `any`. Of a map or a slice the code reads only what fmt.Sprint and
-- json.Marshal write.
pub data Any : Type 0 where
  null : Any
  bool : Bool → Any
  float : Float64 → Any
  str : Text → Any
  composite : Text → Text → Any

-- The value of a key, `null` where the map has none.
unfoldable pub value_of : Text → List (Text × Any) → Any
value_of key [] = null
value_of key ((k, v) ∷ rest) = if text_eq k key then v else value_of key rest

unfoldable pub is_yes : Text → Bool
is_yes s =
    let value = to_lower (trim_space s) in
    text_eq value (codes "1")
    || text_eq value (codes "true")
    || text_eq value (codes "yes")
    || text_eq value (codes "on")

unfoldable pub bool_value : Floats → Any → Bool
unfolding is_yes
bool_value f (bool b) = b
bool_value f (float v) = f.is_nonzero v
bool_value f (str s) = is_yes s
bool_value f _ = false

unfoldable pub int64_value : Floats → Any → ℤ
int64_value f (float v) = f.to_int v
int64_value f (str s) = parse_int (trim_space s)
int64_value f _ = pos 0

unfoldable pub string_value : Floats → Any → Text
string_value f null = []
string_value f (bool b) = if b then codes "true" else codes "false"
string_value f (float v) = trim_space (f.show v)
string_value f (str s) = trim_space s
string_value f (composite shown json) = trim_space shown

unfoldable pub stringify : Floats → Any → Text
unfolding string_value
stringify f v = let s = string_value f v in if text_eq s (codes "<nil>") then [] else s

unfoldable pub compact_value : Floats → Any → Text
unfolding string_value
compact_value f (composite shown json) = json
compact_value f v = string_value f v

unfoldable pub clamp_pct : ℤ → ℕ
clamp_pct (negsuc n) = 0
clamp_pct (pos n) = if ltb 100 n then 100 else n

unfoldable pub pct_float : Floats → Float64 → ℕ
unfolding clamp_pct
pct_float f v =
    if f.is_at_most_zero v then 0 else clamp_pct (f.round (f.times v (f.of_int (pos 100))))

unfoldable pub pct_int64 : Floats → ℤ → ℤ → ℕ
unfolding clamp_pct
pct_int64 f used total =
    if leb_ℤ used (pos 0) || leb_ℤ total (pos 0)
    then 0
    else clamp_pct
        (f.round (f.times (f.over (f.of_int used) (f.of_int total)) (f.of_int (pos 100))))

unfoldable pub pct_float_ratio : Floats → Float64 → Float64 → ℕ
unfolding clamp_pct
pct_float_ratio f used total =
    if f.is_at_most_zero used || f.is_at_most_zero total
    then 0
    else clamp_pct (f.round (f.times (f.over used total) (f.of_int (pos 100))))

-- The percentage of a pressure, written as a fraction or as a percentage.
unfoldable pub pct_of_either : Floats → Float64 → ℕ
unfolding clamp_pct pct_float
pct_of_either f v = if f.is_above_one v then clamp_pct (f.round v) else pct_float f v

unfoldable pub pct_any : Floats → Any → ℕ
unfolding pct_of_either pct_float_ratio int64_value
pct_any f (float v) = pct_of_either f v
pct_any f (str s) = pct_of_either f (f.parse (trim_space s))
pct_any f v = pct_float_ratio f (f.of_int (int64_value f v)) (f.of_int (pos 100))

unfoldable pub first_positive_float : Floats → List Float64 → Float64
first_positive_float f [] = f.of_int (pos 0)
first_positive_float f (v ∷ rest) = if f.is_positive v then v else first_positive_float f rest

unfoldable pub kib_rate : Floats → Float64 → ℤ
kib_rate f v = if f.is_at_most_zero v then pos 0 else f.round (f.over v (f.of_int (pos 1024)))

unfoldable pub first_non_empty : List Text → Text
first_non_empty [] = []
first_non_empty (s ∷ rest) = if is_empty (trim_space s) then first_non_empty rest else s

unfoldable pub display_name : Text → Text → Text
display_name source_name node_name =
    if is_empty source_name || text_eq source_name node_name
    then node_name
    else source_name ++ codes " / " ++ node_name
