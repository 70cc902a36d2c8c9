-- ===== src/Server/Forms.antt =====
-- The values of the admin's forms (apps/bridge/internal/server/server.go).
use proxmox_desk_display.Base.{
  Bool, List, ◌&&◌, not, if◌then◌else◌, ℕ, [], ◌∷◌, some, none, true, false, ◌==◌, map, any,
}
use proxmox_desk_display.Base.Text.{Text, codes, text_eq, is_empty, trim_space, to_lower}
use proxmox_desk_display.Base.Int.{ℤ, pos}
use proxmox_desk_display.Runtime.Source.{SourceUpdate}
use proxmox_desk_display.Runtime.Manager.{ServerUpdate}
use proxmox_desk_display.Server.{Request}
use proxmox_desk_display.Runtime.Snapshot.{SourceSnapshot}
use proxmox_desk_display.Base.Numbers.{atoi}

unfoldable pub atoi_default : Text → ℕ → ℤ
unfolding atoi
atoi_default value fallback = elim (atoi (trim_space value)) [ none ↦ pos fallback | some n ↦ n ]

unfoldable pub source_update_from_form : Request → SourceUpdate
source_update_from_form r = record {
  id = r.post_value (codes "id");
  name = r.post_value (codes "name");
  base_url = r.post_value (codes "base_url");
  token = r.post_value (codes "token");
  tls_mode = r.post_value (codes "tls_mode");
  fingerprint = r.post_value (codes "fingerprint");
  ca_file = r.post_value (codes "ca_file");
}

-- The update that adminSettings makes.
unfoldable pub server_update_from_form : Request → ServerUpdate
unfolding atoi_default
server_update_from_form r = record {
  poll_interval_seconds = atoi_default (r.form_value (codes "poll_interval_seconds")) 10;
  stale_after_seconds = atoi_default (r.form_value (codes "stale_after_seconds")) 45;
  display_token = r.form_value (codes "display_token");
  admin_token = r.form_value (codes "admin_token");
  memory_warning_pct = atoi_default (r.form_value (codes "memory_warning_pct")) 85;
  memory_critical_pct = atoi_default (r.form_value (codes "memory_critical_pct")) 95;
  storage_warning_pct = atoi_default (r.form_value (codes "storage_warning_pct")) 80;
  storage_critical_pct = atoi_default (r.form_value (codes "storage_critical_pct")) 90;
}

-- The source that the admin page's form shows.
pub record SourceDraft : Type 0 where
  pub editing : Bool
  pub id : Text
  pub name : Text
  pub base_url : Text
  pub tls_mode : Text
  pub fingerprint : Text
  pub ca_file : Text
  pub token_hint : Text

abbrev pub required_hint : Text
required_hint = codes "required for new source"

abbrev pub saved_hint : Text
saved_hint = codes "saved, leave blank to keep"

-- configstoreID
unfoldable pub configstore_id : Text → Text
configstore_id value = map (λ c. if c == b'_' then b'-' else c) (to_lower (trim_space value))

-- The loop over the sources for the `edit` parameter, which ends at the first source with the id.
unfoldable pub draft_of_source : Text → List SourceSnapshot → SourceDraft → SourceDraft
draft_of_source id [] draft = draft
draft_of_source id (s ∷ rest) draft =
    let after = draft_of_source id rest draft in
    if text_eq s.id id
    then record {
      editing = true;
      id = s.id;
      name = s.name;
      base_url = s.base_url;
      tls_mode = s.tls_mode;
      fingerprint = s.fingerprint;
      ca_file = s.ca_file;
      token_hint = saved_hint;
    }
    else after

-- The hint of the second loop, for a draft that is not one of a source's.
unfoldable pub hinted : List SourceSnapshot → SourceDraft → SourceDraft
hinted sources draft =
    if not (is_empty draft.id)
      && text_eq draft.token_hint required_hint
      && any (λ s. text_eq s.id draft.id && s.token_set) sources
    then record draft { token_hint = saved_hint }
    else draft

unfoldable pub source_draft_from_request : Request → List SourceSnapshot → SourceDraft
unfolding configstore_id draft_of_source hinted
source_draft_from_request r sources =
    let mode = r.query (codes "tls_mode") in
    let edit = configstore_id (r.query (codes "edit")) in
    let draft : SourceDraft = record {
      editing = false;
      id = r.query (codes "id");
      name = r.query (codes "name");
      base_url = r.query (codes "base_url");
      tls_mode = if is_empty mode then codes "fingerprint" else mode;
      fingerprint = r.query (codes "fingerprint");
      ca_file = r.query (codes "ca_file");
      token_hint = required_hint;
    } in
    hinted sources (if is_empty edit then draft else draft_of_source edit sources draft)
