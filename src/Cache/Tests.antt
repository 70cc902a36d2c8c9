-- ===== src/Cache/Tests.antt =====
-- Runs of package store on concrete caches. The collectors are numbers.
use proxmox_desk_display.Cache.{Cache, new_cache}
use proxmox_desk_display.Cache.Concurrency.{
  System, IsSourced, Reach, here, first, begins, none_yet, then_step, Reach-IsSourced,
  old_result_wins,
}
use proxmox_desk_display.Display.Finalize.{new_state, finalize}
use proxmox_desk_display.Base.{[], ◌∷◌, true, refl, ◌≡◌, ℕ, false, some, List}
use proxmox_desk_display.Errors.{ok, Result, err, no_state_yet}
use proxmox_desk_display.Display.State.{State}
use proxmox_desk_display.Base.Int.{pos}
use proxmox_desk_display.Cache.Polling.{
  last_success, Serves, Turn, start, tick, start-Serves, changed,
}

abbrev fresh : Cache ℕ
fresh = new_cache 1 (pos 10) (pos 45)

abbrev sample : State
sample = new_state (pos 7)

-- Collector n finds the sample.
abbrev Finds : ℕ → Result State → Type 0
Finds n r = r ≡ ok sample

abbrev system : System ℕ
system = record { cache = fresh; running = []; configured = 1 ∷ [] }

no : false ≡ true → ⊥
no h = cc

system-IsSourced : IsSourced Finds system
unfolding new_cache
system-IsSourced = record {
  current = here;
  flying = λ c m. elim m [ ];
  sourced = λ h. absurd (no h);
}

abbrev begun : System ℕ
begun = record system { running = 1 ∷ [] }

run_of_begun : Reach Finds system begun
unfolding new_cache
run_of_begun = then_step none_yet begins

Reach-IsSourced_example : IsSourced Finds begun
Reach-IsSourced_example = Reach-IsSourced Finds system-IsSourced run_of_begun

old_result_wins_example :
    (t : System ℕ) × Reach Finds begun t
    × (t.cache.collector ≡ 2)
    × (t.cache.state ≡ finalize sample)
    × (t.cache.has_state ≡ true)
old_result_wins_example =
    old_result_wins Finds begun 1 2 [] sample (pos 10) (pos 45) (pos 5) first refl

-- A success, a change of the configuration and a failure.
abbrev turns : List (Turn ℕ)
turns = tick (ok sample) (pos 7) ∷ changed 2 (pos 5) (pos 30) ∷ tick (err no_state_yet) (pos 8) ∷ []

turns-last : last_success turns ≡ some (sample, pos 7)
unfolding last_success
turns-last = refl

start-Serves_example : Serves sample (pos 7) (pos 9) (start turns fresh)
start-Serves_example = start-Serves turns fresh sample (pos 7) (pos 9) turns-last
