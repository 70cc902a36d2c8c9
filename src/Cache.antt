-- ===== src/Cache.antt =====
-- The cache of the collected state (apps/bridge/internal/store/cache.go), over any type of
-- collectors. What a call of Collect returned and the time of a call are arguments. The locks make
-- each operation below atomic; a Refresh is two of them, `begin` and `refresh`, with the call of
-- Collect between (Cache/Concurrency.antt).
pub mod Serving
pub mod Polling
pub mod Concurrency
pub mod Tests
use proxmox_desk_display.Base.{[], ◌∷◌, some, none, true, false, Bool, Option, if◌then◌else◌, not}
use proxmox_desk_display.Errors.{ok, err, Result, Error, no_state_yet}
use proxmox_desk_display.Base.Int.{ℤ, ltb_ℤ, pos, ◌-ℤ◌}
use proxmox_desk_display.Display.State.{State}
use proxmox_desk_display.Display.Finalize.{zero_state, finalize, new_state}
use proxmox_desk_display.Display.Inventory.{Alert}
use proxmox_desk_display.Base.Text.{codes}
use proxmox_desk_display.Display.Health.{warning}

pub record Cache (C : Type 0) : Type 0 where
  pub collector : C
  pub poll_interval : ℤ
  pub stale_after : ℤ
  pub state : State
  pub last_ok : ℤ
  pub last_err : Option Error
  pub has_state : Bool

module _ {C : Type 0} where
  unfoldable pub new_cache : C → ℤ → ℤ → Cache C
  new_cache collector poll stale = record {
    collector = collector;
    poll_interval = poll;
    stale_after = stale;
    state = zero_state;
    last_ok = pos 0;
    last_err = none;
    has_state = false;
  }

  -- Refresh after Collect has returned: the error that it returns, and the cache.
  unfoldable pub refresh : Result State → ℤ → Cache C → Option Error × Cache C
  refresh (err e) now c = (some e, record c { last_err = some e })
  refresh (ok s) now c =
      (none, record c { state = finalize s; last_ok = now; last_err = none; has_state = true })

  unfoldable pub reconfigure : C → ℤ → ℤ → Cache C → Cache C
  reconfigure collector poll stale c = record c {
    collector = collector;
    poll_interval = poll;
    stale_after = stale;
  }

  -- `time.Since(c.lastOK) > c.staleAfter`
  unfoldable pub is_stale : ℤ → Cache C → Bool
  is_stale now c = ltb_ℤ c.stale_after (now -ℤ c.last_ok)

  -- State
  unfoldable pub cached_state : ℤ → Cache C → Result State
  unfolding is_stale
  cached_state now c =
      if not c.has_state
      then elim c.last_err [ some e ↦ err e | none ↦ err no_state_yet ]
      else ok (if is_stale now c then record c.state { stale = true } else c.state)

pub record Metadata : Type 0 where
  pub has_state : Bool
  pub last_ok : ℤ
  pub poll_interval : ℤ
  pub stale_after : ℤ
  pub last_error : Option Error

pub metadata : {C : Type 0} → Cache C → Metadata
metadata c = record {
  has_state = c.has_state;
  last_ok = c.last_ok;
  poll_interval = c.poll_interval;
  stale_after = c.stale_after;
  last_error = c.last_err;
}

-- The collector of a bridge without sources: EmptyCollector.Collect at the time `now`.
unfoldable pub collect_empty : ℤ → Result State
collect_empty now = ok (finalize (record (new_state now) { alerts = some (setup ∷ []) }))
  where
    setup : Alert
    setup = record {
      id = codes "setup-required";
      source_id = [];
      host_id = [];
      guest_id = [];
      severity = warning;
      title = codes "Bridge setup required";
      message = codes "Open the bridge admin page and add at least one Proxmox source.";
    }
