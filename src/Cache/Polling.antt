-- ===== src/Cache/Polling.antt =====
-- The loop of Start (apps/bridge/internal/store/cache.go) with the changes of the configuration that
-- come between its turns. The time that a turn waits is not modelled: a turn is a tick of its timer,
-- and the end of the list is the end of the context.
use proxmox_desk_display.Base.{
  [], ◌∷◌, some, none, true, inl, inr, refl, ◌≡◌, ◌⊎◌, ◌∙◌, Option, List, none-ne-some, arith,
  Option-cases, sym, ap,
}
use proxmox_desk_display.Base.Int.{ℤ, ◌-ℤ◌, ◌≤ℤ◌, ◌<ℤ◌}
use proxmox_desk_display.Cache.{Cache, refresh, reconfigure, cached_state}
use proxmox_desk_display.Display.Finalize.{finalize}
use proxmox_desk_display.Display.State.{State}
use proxmox_desk_display.Errors.{Result, ok, err}

pub data Turn (C : Type 0) : Type 0 where
  -- the timer fires, Collect returns, and the time is that of Refresh's end
  tick : Result State → ℤ → Turn C
  -- Reconfigure
  changed : C → ℤ → ℤ → Turn C

some_inj : {A : Type 0} (a b : A) → some a ≡ some b → a ≡ b
some_inj a b h = cc

module _ {C : Type 0} where
  unfoldable pub turn : Turn C → Cache C → Cache C
  turn (tick result at) c = (refresh result at c).1
  turn (changed collector poll stale) c = reconfigure collector poll stale c

  unfoldable pub start : List (Turn C) → Cache C → Cache C
  unfolding turn
  start [] c = c
  start (t ∷ rest) c = start rest (turn t c)

  -- What the last tick with a success has collected, and when.
  unfoldable pub last_success : List (Turn C) → Option (State × ℤ)
  last_success [] = none
  last_success (tick (ok s) at ∷ rest) =
      let later = last_success rest in elim later [ none ↦ some (s, at) | some x ↦ some x ]
  last_success (tick (err e) at ∷ rest) = last_success rest
  last_success (changed collector poll stale ∷ rest) = last_success rest

  newest :
      (s : State) (at : ℤ) (rest : List (Turn C))
      → last_success rest ≡ none
      → last_success (tick (ok s) at ∷ rest) ≡ some (s, at)
  unfolding last_success
  newest s at rest q = rw (q, last_success) refl

  newer :
      (s : State) (at : ℤ) (rest : List (Turn C)) (x : State × ℤ)
      → last_success rest ≡ some x
      → last_success (tick (ok s) at ∷ rest) ≡ some x
  unfolding last_success
  newer s at rest x q = rw (q, last_success) refl

  -- The cache has a state, and it is the finalized `s` of the time `at`.
  pub record Has (s : State) (at : ℤ) (c : Cache C) : Type 0 where
    pub state : c.state ≡ finalize s
    pub at_time : c.last_ok ≡ at
    pub there : c.has_state ≡ true

  start-Has :
      (turns : List (Turn C)) (c : Cache C) (s : State) (at : ℤ)
      → (last_success turns ≡ some (s, at)) ⊎ ((last_success turns ≡ none) × Has s at c)
      → Has s at (start turns c)
  unfolding start last_success refresh reconfigure
  start-Has [] c s at (inl p) = absurd (none-ne-some (s, at) p)
  start-Has [] c s at (inr (n, h)) = h
  start-Has (tick (ok s') at' ∷ rest) c s at (inl p) = elim (Option-cases (last_success rest)) [
    | inl q ↦
        let same = some_inj (s', at') (s, at) (sym (newest s' at' rest q) ∙ p) in
        start-Has rest (refresh (ok s') at' c).1 s at (
          inr (
            q,
            record {
              state = ap (λ x. finalize x.0) same;
              at_time = ap (λ x. x.1) same;
              there = refl;
            },
          ))
    | inr (x, q) ↦
        start-Has rest (refresh (ok s') at' c).1 s at (inl (q ∙ sym (newer s' at' rest x q) ∙ p))
  ]
  start-Has (tick (ok s') at' ∷ rest) c s at (inr (n, h)) =
      elim (Option-cases (last_success rest)) [
        | inl q ↦ absurd (none-ne-some (s', at') (sym n ∙ newest s' at' rest q))
        | inr (x, q) ↦ absurd (none-ne-some x (sym n ∙ newer s' at' rest x q))
      ]
  start-Has (tick (err e) at' ∷ rest) c s at (inl p) =
      start-Has rest (refresh (err e) at' c).1 s at (inl p)
  start-Has (tick (err e) at' ∷ rest) c s at (inr (n, h)) =
      start-Has rest (refresh (err e) at' c).1 s at
        (inr (n, record { state = h.state; at_time = h.at_time; there = h.there }))
  start-Has (changed k poll stale ∷ rest) c s at (inl p) =
      start-Has rest (reconfigure k poll stale c) s at (inl p)
  start-Has (changed k poll stale ∷ rest) c s at (inr (n, h)) =
      start-Has rest (reconfigure k poll stale c) s at
        (inr (n, record { state = h.state; at_time = h.at_time; there = h.there }))

  -- What a cache with a state serves.
  abbrev pub Serves : State → ℤ → ℤ → Cache C → Type 0
  Serves s at later c =
      ((later -ℤ at ≤ℤ c.stale_after) × (cached_state later c ≡ ok (finalize s)))
      ⊎ ((c.stale_after <ℤ later -ℤ at)
          × (cached_state later c ≡ ok (record (finalize s) { stale = true })))

  Has-Serves : (s : State) (at later : ℤ) (c : Cache C) → Has s at c → Serves s at later c
  unfolding cached_state
  Has-Serves s at later c h = rw (h.there, h.state, h.at_time) (ground arith)

  -- Once a Collect of the loop of Start has succeeded, State never returns an error again: it gives the
  -- finalized result of the last success, marked as stale exactly where more time than the configured
  -- limit has passed since then, whatever fails in later turns and however the cache is reconfigured
  -- between them.
  pub start-Serves :
      (turns : List (Turn C)) (c : Cache C) (s : State) (at later : ℤ)
      → last_success turns ≡ some (s, at)
      → Serves s at later (start turns c)
  start-Serves turns c s at later p =
      Has-Serves s at later (start turns c) (start-Has turns c s at (inl p))
