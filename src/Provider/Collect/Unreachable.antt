-- ===== src/Provider/Collect/Unreachable.antt =====
-- A source that does not answer (apps/bridge/internal/proxmox/provider.go).
use proxmox_desk_display.Base.Order.Perms.{any-Perm}
use proxmox_desk_display.Display.Samples.{zero_host}
use proxmox_desk_display.Display.Health.{Health}
use proxmox_desk_display.Display.Finalize.Summaries.{is_critical, health-finalize}
use proxmox_desk_display.Provider.Collect.{Sorter, IsSort, gather, merged, collect, alert_less}
use proxmox_desk_display.Provider.Client.{Client}
use proxmox_desk_display.Base.{
  [], ◌∷◌, some, true, false, refl, ◌≡◌, any, Bool, List, ◌++◌, Slice, arith, false-ne-true, elems,
  ◌∙◌,
}
use proxmox_desk_display.Base.Text.{Text, codes}
use proxmox_desk_display.Base.Int.{ℤ}
use proxmox_desk_display.Display.State.{State}
use proxmox_desk_display.Display.Finalize.{new_state}

-- The state that collectSource returns for an error of its first call.
unfoldable pub unreachable : Client → Text → ℤ → State
unreachable client message now = record (new_state now) {
  hosts = some (
      record zero_host {
        id = client.id ++ codes "/unreachable";
        name = client.name;
        source_id = client.id;
        node = client.name;
        online = false;
        health = Health.critical;
        error = some message;
      }
      ∷ []);
  alerts = some (
      record {
        id = client.id ++ codes "/source-offline";
        source_id = client.id;
        host_id = client.id ++ codes "/unreachable";
        guest_id = [];
        severity = Health.critical;
        title = client.name ++ codes " offline";
        message = message;
      }
      ∷ []);
}

any-append :
    {A : Type 0} (p : A → Bool) (xs ys : List A) → any p ys ≡ true → any p (xs ++ ys) ≡ true
unfolding any
any-append p [] ys h = h
any-append p (x ∷ xs) ys h = ground (arith, any-append p xs ys h)

any-head : {A : Type 0} (p : A → Bool) (xs ys : List A) → any p xs ≡ true → any p (xs ++ ys) ≡ true
unfolding any
any-head p [] ys h = absurd (false-ne-true h)
any-head p (x ∷ xs) ys h = ground (arith, any-head p xs ys)

-- What passes a test in one source passes it in all that is gathered.
any-gather :
    {A : Type 0} (p : A → Bool) (f : State → Slice A) (before after : List State) (s : State)
    → any p (elems (f s)) ≡ true
    → any p (gather f (before ++ s ∷ after)) ≡ true
unfolding gather
any-gather p f [] after s h = any-head p (elems (f s)) (gather f after) h
any-gather p f (t ∷ before) after s h =
    any-append p (elems (f t)) (gather f (before ++ s ∷ after)) (any-gather p f before after s h)

-- A source that does not answer makes the health of the collected state critical, whatever the other
-- sources say and in whatever order they end, where the sort permutes its input.
pub collect-unreachable :
    (s : Sorter) (laws : IsSort s) (now : ℤ) (before after : List State) (client : Client)
    (message : Text) (at : ℤ)
    → (collect s now (before ++ unreachable client message at ∷ after)).summary.health
      ≡ Health.critical
unfolding collect merged unreachable any
collect-unreachable s laws now before after client message at =
    health-finalize (merged s now sources) ∙ rw seen refl
  where
    sources : List State
    sources = before ++ unreachable client message at ∷ after

    seen : any is_critical (elems (merged s now sources).alerts) ≡ true
    seen =
        any-Perm is_critical (laws.perm alert_less (gather (λ x. x.alerts) sources))
        ∙ any-gather is_critical (λ x. x.alerts) before after (unreachable client message at) refl
