-- ===== src/Provider/Trends.antt =====
-- The trends of a host and of a guest (apps/bridge/internal/proxmox/provider.go).
pub mod Samples
use mathlib.Core.Option
use proxmox_desk_display.Base.{
  [], ◌∷◌, some, none, suc, zero, ℕ, List, ◌*◌, if◌then◌else◌, Option, ◌+◌, ltb, get_elem?, min,
  ◌/◌, ◌-◌, length, ◌++◌, String,
}
use proxmox_desk_display.Provider.Api.Guests.{RrdPoint}
use proxmox_desk_display.Base.Text.{Text, codes}
use proxmox_desk_display.Base.Int.{ℤ, pos}
use proxmox_desk_display.Provider.Json.{
  Floats, pct_float, pct_float_ratio, first_positive_float, kib_rate,
}
use proxmox_desk_display.Display.Inventory.{MetricTrend}
use proxmox_desk_display.Provider.Client.{Client}
use proxmox_desk_display.Provider.Convert.Repositories.{join}
use proxmox_desk_display.Display.Hosts.{Host}
use proxmox_desk_display.Display.Guests.{Guest}

abbrev pub max_trend_samples : ℕ
max_trend_samples = 24

-- int(math.Round(a / b)): the halves are exact, since `b` is below 24, and any other quotient is
-- farther from a half than its rounding to a float64.
abbrev pub round_div : ℕ → ℕ → ℕ
round_div a b = (2 * a + b) / (2 * b)

-- The index of the sample `i` of `samples` among `n` points.
unfoldable pub sample_index : ℕ → ℕ → ℕ → ℕ
sample_index n samples i = if ltb 1 samples then round_div (i * (n - 1)) (samples - 1) else 0

-- The samples from `i` on; `none` is an index out of range, at which the code would panic.
unfoldable pub samples_from : (RrdPoint → ℤ) → List RrdPoint → ℕ → ℕ → ℕ → Option (List ℤ)
unfolding sample_index
samples_from value points samples i zero = some []
samples_from value points samples i (suc left) =
    elim (get_elem? points (sample_index (length points) samples i)) [
      | none ↦ none
      | some p ↦ Option.map (◌∷◌ (value p)) (samples_from value points samples (i + 1) left)
    ]

unfoldable pub trend_values : List RrdPoint → (RrdPoint → ℤ) → Option (List ℤ)
unfolding samples_from
trend_values points value =
    let samples = min max_trend_samples (length points) in
    samples_from value points samples 0 samples

pub record MetricTrendBase : Type 0 where
  pub source_id : Text
  pub host_id : Text
  pub guest_id : Text
  pub resource_type : Text
  pub resource_name : Text
  pub timeframe : Text

abbrev pub last_of : ℤ → List ℤ → ℤ
last_of n [] = n
last_of n (m ∷ rest) = last_of m rest

-- No trend where the code would panic.
unfoldable pub trend :
    MetricTrendBase → Text → Text → List RrdPoint → (RrdPoint → ℤ) → List MetricTrend
unfolding trend_values
trend base metric unit points value = elim (trend_values points value) [
  | none ↦ []
  | some values ↦
      record {
        id =
            join (codes "/")
              (base.source_id ∷ base.resource_type ∷ base.resource_name ∷ metric ∷ []);
        source_id = base.source_id;
        host_id = base.host_id;
        guest_id = base.guest_id;
        resource_type = base.resource_type;
        resource_name = base.resource_name;
        metric = metric;
        unit = unit;
        timeframe = base.timeframe;
        last = last_of (pos 0) values;
        values = values;
      }
      ∷ []
]

-- A metric, its unit and its value at a point.
pub record TrendSpec : Type 0 where
  pub metric : Text
  pub unit : Text
  pub value : RrdPoint → ℤ

-- The trends of a list of metrics.
unfoldable pub trends : MetricTrendBase → List RrdPoint → List TrendSpec → List MetricTrend
unfolding trend
trends base points [] = []
trends base points (t ∷ rest) = trend base t.metric t.unit points t.value ++ trends base points rest

abbrev pub host_base : Client → Host → MetricTrendBase
host_base client h = record {
  source_id = client.id;
  host_id = h.id;
  guest_id = [];
  resource_type = codes "host";
  resource_name = h.name;
  timeframe = codes "hour";
}

abbrev pub spec : String → String → (RrdPoint → ℤ) → TrendSpec
spec metric unit value = record { metric = codes metric; unit = codes unit; value = value }

abbrev pub node_specs : Floats → List TrendSpec
node_specs f =
    spec "cpu_pct" "%" (λ p. pos (pct_float f p.cpu))
    ∷ spec "memory_pct" "%" (λ p. pos (
        pct_float_ratio f (first_positive_float f (p.mem_used ∷ p.mem ∷ []))
          (first_positive_float f (p.mem_total ∷ p.max_mem ∷ []))))
    ∷ spec "root_pct" "%" (λ p. pos (pct_float_ratio f p.root_used p.root_total))
    ∷ spec "net_in_kib_s" "KiB/s" (λ p. kib_rate f p.net_in)
    ∷ spec "net_out_kib_s" "KiB/s" (λ p. kib_rate f p.net_out)
    ∷ spec "iowait_pct" "%" (λ p. pos (pct_float f p.io_wait))
    ∷ []

unfoldable pub node_metric_trends : Floats → Client → Host → List RrdPoint → List MetricTrend
unfolding trends
node_metric_trends f client h points = trends (host_base client h) points (node_specs f)

abbrev pub guest_base : Client → Guest → MetricTrendBase
guest_base client g = record {
  source_id = client.id;
  host_id = g.host_id;
  guest_id = g.id;
  resource_type = g.type;
  resource_name = g.name;
  timeframe = codes "hour";
}

abbrev pub guest_specs : Floats → List TrendSpec
guest_specs f =
    spec "cpu_pct" "%" (λ p. pos (pct_float f p.cpu))
    ∷ spec "memory_pct" "%" (λ p. pos (pct_float_ratio f p.mem p.max_mem))
    ∷ spec "disk_pct" "%" (λ p. pos (pct_float_ratio f p.disk p.max_disk))
    ∷ spec "net_in_kib_s" "KiB/s" (λ p. kib_rate f p.net_in)
    ∷ spec "net_out_kib_s" "KiB/s" (λ p. kib_rate f p.net_out)
    ∷ spec "disk_read_kib_s" "KiB/s" (λ p. kib_rate f p.disk_read)
    ∷ spec "disk_write_kib_s" "KiB/s" (λ p. kib_rate f p.disk_write)
    ∷ []

unfoldable pub guest_metric_trends : Floats → Client → Guest → List RrdPoint → List MetricTrend
unfolding trends
guest_metric_trends f client g points = trends (guest_base client g) points (guest_specs f)
