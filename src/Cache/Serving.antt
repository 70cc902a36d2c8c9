-- ===== src/Cache/Serving.antt =====
-- What the cache serves (apps/bridge/internal/store/cache.go).
use proxmox_desk_display.Base.{some, none, true, refl, ◌≡◌, arith, if◌then◌else◌, ◌⊎◌}
use proxmox_desk_display.Errors.{ok, err, Error}
use proxmox_desk_display.Cache.{refresh, cached_state, Cache}
use proxmox_desk_display.Display.State.{State}
use proxmox_desk_display.Base.Int.{ℤ, ◌-ℤ◌, ◌≤ℤ◌, ◌<ℤ◌}
use proxmox_desk_display.Display.Finalize.{finalize}

-- A failed Refresh returns its error and keeps what is served, once there is a state; before that,
-- the error itself is what is served.
pub refresh_err :
    {C : Type 0} (e : Error) (now later : ℤ) (c : Cache C)
    → ((refresh (err e) now c).0 ≡ some e)
      × (cached_state later (refresh (err e) now c).1
          ≡ (if c.has_state then cached_state later c else err e))
unfolding refresh cached_state
refresh_err e now later c = (refl, ground arith)

-- After a successful Refresh the finalized state is served: as it is until `stale_after` has passed,
-- and marked as stale from then on. An earlier error is forgotten.
pub refresh_ok :
    {C : Type 0} (s : State) (now later : ℤ) (c : Cache C)
    → ((refresh (ok s) now c).0 ≡ none)
      × ((refresh (ok s) now c).1.last_err ≡ none)
      × (((later -ℤ now ≤ℤ c.stale_after)
            × (cached_state later (refresh (ok s) now c).1 ≡ ok (finalize s)))
          ⊎ ((c.stale_after <ℤ later -ℤ now)
              × (cached_state later (refresh (ok s) now c).1
                  ≡ ok (record (finalize s) { stale = true }))))
unfolding refresh cached_state
refresh_ok s now later c = (refl, refl, served)
  where
    served :
        ((later -ℤ now ≤ℤ c.stale_after)
          × (cached_state later (refresh (ok s) now c).1 ≡ ok (finalize s)))
        ⊎ ((c.stale_after <ℤ later -ℤ now)
            × (cached_state later (refresh (ok s) now c).1
                ≡ ok (record (finalize s) { stale = true })))
    served = ground arith
