-- ===== src/Cache/Concurrency.antt =====
-- Interleavings of Refresh and Reconfigure. Refresh reads the collector under the read lock, calls
-- Collect with no lock, and takes the write lock: other calls may come between.
use proxmox_desk_display.Base.{◌∷◌, true, refl, ◌≡◌, List}
use proxmox_desk_display.Errors.{ok, err, Result}
use proxmox_desk_display.Cache.{Cache, refresh, reconfigure}
use proxmox_desk_display.Display.State.{State}
use proxmox_desk_display.Base.Int.{ℤ}
use proxmox_desk_display.Display.Finalize.{finalize}

-- The cache with the collectors of the calls of Collect that are under way. `configured` is history:
-- every collector that was ever the cache's.
pub record System (C : Type 0) : Type 0 where
  pub cache : Cache C
  pub running : List C
  pub configured : List C

module _ {C : Type 0} where
  pub data Member (c : C) : List C → Type 0 where
    here : {rest : List C} → Member c (c ∷ rest)
    there : {d : C} {rest : List C} → Member c rest → Member c (d ∷ rest)

  -- One of a list, and the others.
  pub data Picks (c : C) : List C → List C → Type 0 where
    first : {rest : List C} → Picks c (c ∷ rest) rest
    later : {d : C} {xs rest : List C} → Picks c xs rest → Picks c (d ∷ xs) (d ∷ rest)

  -- `Collects c r`: a call of Collect on `c` may return `r`.
  module _ (Collects : C → Result State → Type 0) where
    pub data Step (s : System C) : System C → Type 0 where
      begins : Step s (record s { running = s.cache.collector ∷ s.running })
      finishes :
          (c : C) (rest : List C) (r : Result State) (now : ℤ)
          → Picks c s.running rest
          → Collects c r
          → Step s (record s { cache = (refresh r now s.cache).1; running = rest })
      reconfigures :
          (c : C) (poll stale : ℤ)
          → Step s
              (record s { cache = reconfigure c poll stale s.cache; configured = c ∷ s.configured })

    pub data Reach (s : System C) : System C → Type 0 where
      none_yet : Reach s s
      then_step : {t u : System C} → Reach s t → Step t u → Reach s u

    -- What is cached was collected by a collector that the cache had.
    pub record IsSourced (s : System C) : Type 0 where
      pub current : Member s.cache.collector s.configured
      pub flying : (c : C) → Member c s.running → Member c s.configured
      pub sourced :
          s.cache.has_state ≡ true
          → (c : C) × (r : State) × Member c s.configured
            × Collects c (ok r)
            × (s.cache.state ≡ finalize r)

    Picks-Member : {c : C} {xs rest : List C} → Picks c xs rest → Member c xs
    Picks-Member first = here
    Picks-Member (later p) = there (Picks-Member p)

    Picks-rest :
        {c : C} {xs rest : List C} → Picks c xs rest → (d : C) → Member d rest → Member d xs
    Picks-rest first d m = there m
    Picks-rest (later p) d here = here
    Picks-rest (later p) d (there m) = there (Picks-rest p d m)

    push-Member :
        {x : C} {xs ys : List C}
        → Member x ys
        → ((c : C) → Member c xs → Member c ys)
        → (c : C) → Member c (x ∷ xs)
        → Member c ys
    push-Member h hs c here = h
    push-Member h hs c (there m) = hs c m

    refresh-sourced :
        (c : C) (r : Result State) (now : ℤ) (s : System C)
        → IsSourced s
        → Member c s.configured
        → Collects c r
        → (refresh r now s.cache).1.has_state ≡ true
        → (d : C) × (t : State) × Member d s.configured
          × Collects d (ok t)
          × ((refresh r now s.cache).1.state ≡ finalize t)
    unfolding refresh
    refresh-sourced c (err e) now s i m k h = i.sourced h
    refresh-sourced c (ok t) now s i m k h = (c, t, m, k, refl)

    refresh-collector :
        (r : Result State) (now : ℤ) (c : Cache C) → (refresh r now c).1.collector ≡ c.collector
    unfolding refresh
    refresh-collector (err e) now c = refl
    refresh-collector (ok t) now c = refl

    Step-IsSourced : {s t : System C} → IsSourced s → Step s t → IsSourced t
    unfolding reconfigure
    Step-IsSourced i begins = record {
      current = i.current;
      flying = push-Member i.current i.flying;
      sourced = i.sourced;
    }
    Step-IsSourced {s} i (finishes c rest r now p k) = record {
      current = rw refresh-collector i.current;
      flying = λ d m. i.flying d (Picks-rest p d m);
      sourced = refresh-sourced c r now s i (i.flying c (Picks-Member p)) k;
    }
    Step-IsSourced i (reconfigures c poll stale) = record {
      current = here;
      flying = λ d m. there (i.flying d m);
      sourced = λ h. let (d, t, m, k, e) = i.sourced h in (d, t, there m, k, e);
    }

    -- Whatever the interleaving of refreshes and reconfigurations: if at its beginning the collectors
    -- under way and the cached state are from collectors that the cache has had, then at its end a
    -- cached state is the finalized result of a successful Collect of a collector that it has had.
    pub Reach-IsSourced : {s t : System C} → IsSourced s → Reach s t → IsSourced t
    Reach-IsSourced i none_yet = i
    Reach-IsSourced i (then_step r st) = Step-IsSourced (Reach-IsSourced i r) st

    -- The race: a Collect that is under way when the cache is reconfigured still replaces the state.
    -- For every system with a Collect of `old` under way that may return `r`, and every new
    -- collector, a run leads to a cache with the new collector and the old one's state.
    pub old_result_wins :
        (s : System C) (old new : C) (rest : List C) (r : State) (poll stale now : ℤ)
        → Picks old s.running rest
        → Collects old (ok r)
        → (t : System C) × Reach s t
          × (t.cache.collector ≡ new)
          × (t.cache.state ≡ finalize r)
          × (t.cache.has_state ≡ true)
    unfolding refresh reconfigure
    old_result_wins s old new rest r poll stale now p k = (
      _,
      then_step (then_step none_yet (reconfigures new poll stale))
          (finishes old rest (ok r) now p k),
      refl,
      refl,
      refl,
    )
