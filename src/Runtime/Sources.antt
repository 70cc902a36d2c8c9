-- ===== src/Runtime/Sources.antt =====
-- The sources and the tokens of the manager as tables with the ids as keys
-- (apps/bridge/internal/runtime/manager.go, configstore/store.go).
use mathlib.Core.Option
use proxmox_desk_display.Base.{
  keep_if, List, Option, [], ◌∷◌, some, none, refl, inl, inr, ◌≡◌, if◌then◌else◌, arith, Bool-cases,
  sym, ◌≢◌, suc, ℕ, ◌∙◌, ap,
}
use proxmox_desk_display.Runtime.Source.{source_index}
use proxmox_desk_display.Config.{ProxmoxHost}
use proxmox_desk_display.ConfigStore.Secrets.{TokenMap, token_for, set_token, delete_token}
use proxmox_desk_display.Base.Text.{Text, text_eq}
use proxmox_desk_display.Runtime.Manager.{put_source, remove_source, put_at}
use proxmox_desk_display.Base.Text.Laws.{text_eq_refl, text_eq-ne, text_eq_iff}

-- The first source with an id.
unfoldable pub host_for : Text → List ProxmoxHost → Option ProxmoxHost
host_for id [] = none
host_for id (h ∷ rest) = let after = host_for id rest in if text_eq h.id id then some h else after

-- `put_source` without the index: the first source with the id is replaced, or a new one appended.
unfoldable pub replace_source : ProxmoxHost → List ProxmoxHost → List ProxmoxHost
replace_source h [] = h ∷ []
replace_source h (k ∷ rest) =
    let after = replace_source h rest in if text_eq k.id h.id then h ∷ rest else k ∷ after

put_at-suc :
    (h k : ProxmoxHost) (rest : List ProxmoxHost) (o : Option ℕ)
    → put_at h (k ∷ rest) (Option.map suc o) ≡ k ∷ put_at h rest o
put_at-suc h k rest none = refl
put_at-suc h k rest (some i) = refl

pub put_source-replace_source :
    (h : ProxmoxHost) (hosts : List ProxmoxHost) → put_source h hosts ≡ replace_source h hosts
unfolding put_source replace_source source_index
put_source-replace_source h [] = refl
put_source-replace_source h (k ∷ rest) = elim (Bool-cases (text_eq k.id h.id)) [
  | inl p ↦ rw p refl
  | inr p ↦ rw p (
      put_at-suc h k rest (source_index rest h.id)
      ∙ ap (λ l. k ∷ l) (put_source-replace_source h rest))
]

-- A source that is put is found under its id, and no other source changes.
pub put_source-host_for :
    (h : ProxmoxHost) (hosts : List ProxmoxHost) → host_for h.id (put_source h hosts) ≡ some h
unfolding host_for replace_source
put_source-host_for h hosts = rw (put_source-replace_source h hosts) (go hosts)
  where
    go : (hosts : List ProxmoxHost) → host_for h.id (replace_source h hosts) ≡ some h
    go [] = ground (arith, text_eq_refl h.id)
    go (k ∷ rest) = ground (arith, text_eq_refl h.id, go rest)

pub put_source-host_for_other :
    (h : ProxmoxHost) (hosts : List ProxmoxHost) (id : Text)
    → id ≢ h.id
    → host_for id (put_source h hosts) ≡ host_for id hosts
unfolding host_for replace_source
put_source-host_for_other h hosts id ne = rw (put_source-replace_source h hosts) (go hosts)
  where
    go : (hosts : List ProxmoxHost) → host_for id (replace_source h hosts) ≡ host_for id hosts
    go [] = rw (text_eq-ne h.id id (λ e. ne (sym e))) refl
    go (k ∷ rest) = elim (Bool-cases (text_eq k.id h.id)) [
      | inl p ↦
          (let e = (text_eq_iff k.id h.id).0 p in
            rw (p, e, text_eq-ne h.id id (λ e. ne (sym e))) refl)
      | inr p ↦ rw (p, go rest) refl
    ]

-- A source that is removed is not found, and no other source changes.
pub remove_source-host_for :
    (id : Text) (hosts : List ProxmoxHost) → host_for id (remove_source id hosts) ≡ none
unfolding host_for remove_source keep_if
remove_source-host_for id [] = refl
remove_source-host_for id (h ∷ rest) = elim (Bool-cases (text_eq h.id id)) [
  | inl p ↦ rw p (remove_source-host_for id rest)
  | inr p ↦ rw (p, p) (remove_source-host_for id rest)
]

pub remove_source-host_for_other :
    (id : Text) (hosts : List ProxmoxHost) (other : Text)
    → other ≢ id
    → host_for other (remove_source id hosts) ≡ host_for other hosts
unfolding host_for remove_source keep_if
remove_source-host_for_other id [] other ne = refl
remove_source-host_for_other id (h ∷ rest) other ne = elim (Bool-cases (text_eq h.id id)) [
  | inl p ↦
      rw
        (
          p,
          (text_eq_iff h.id id).0 p,
          text_eq-ne id other (λ e. ne (sym e)),
          remove_source-host_for_other id rest other ne,
        )
        refl
  | inr p ↦ rw (p, remove_source-host_for_other id rest other ne) refl
]

-- A token that is deleted reads as the empty string, and no other token changes.
pub delete_token-token_for : (id : Text) (m : TokenMap) → token_for id (delete_token id m) ≡ []
unfolding token_for delete_token
delete_token-token_for id [] = refl
delete_token-token_for id ((j, t) ∷ rest) = elim (Bool-cases (text_eq j id)) [
  | inl p ↦ rw p (delete_token-token_for id rest)
  | inr p ↦ rw (p, p) (delete_token-token_for id rest)
]

pub delete_token-token_for_other :
    (id other : Text) (m : TokenMap)
    → other ≢ id
    → token_for other (delete_token id m) ≡ token_for other m
unfolding token_for delete_token
delete_token-token_for_other id other [] ne = refl
delete_token-token_for_other id other ((j, t) ∷ rest) ne = elim (Bool-cases (text_eq j id)) [
  | inl p ↦
      rw
        (
          p,
          (text_eq_iff j id).0 p,
          text_eq-ne id other (λ e. ne (sym e)),
          delete_token-token_for_other id other rest ne,
        )
        refl
  | inr p ↦ rw (p, delete_token-token_for_other id other rest ne) refl
]

-- A token that is set is read back, and no other token changes.
pub set_token-token_for :
    (id token : Text) (m : TokenMap) → token_for id (set_token id token m) ≡ token
unfolding token_for set_token
set_token-token_for id token m = rw (text_eq_refl id) refl

pub set_token-token_for_other :
    (id token other : Text) (m : TokenMap)
    → other ≢ id
    → token_for other (set_token id token m) ≡ token_for other m
unfolding token_for set_token
set_token-token_for_other id token other m ne =
    rw (text_eq-ne id other (λ e. ne (sym e))) (delete_token-token_for_other id other m ne)
