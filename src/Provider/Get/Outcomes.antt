-- ===== src/Provider/Get/Outcomes.antt =====
-- What a call of Get comes to, and the capability that the collector records for it
-- (apps/bridge/internal/proxmox/client.go).
use proxmox_desk_display.Base.{
  none, true, false, inl, inr, refl, ◌≡◌, ◌≤◌, ◌⊎◌, ◌↔◌, ℕ, Bool-cases, arith, ◌++◌, sym, ◌∙◌, ap,
  subst, ◌<◌, Option-cases,
}
use proxmox_desk_display.Base.Text.{Text, is_empty, codes, trim_space}
use proxmox_desk_display.Base.Numbers.{decimal}
use proxmox_desk_display.Provider.Api.{Call, answered, failed}
use proxmox_desk_display.Provider.Calls.{CallError, other_error, api_error}
use proxmox_desk_display.Provider.Client.{Client}
use proxmox_desk_display.Provider.Get.{
  Http, Exchange, broken, replied, get, read_body, request_of, is_success, missing_text,
}

-- The body holds an answer.
abbrev pub Holds : {A : Type 0} → Http → (Text → Text ⊎ A) → Text → A → Type 0
Holds http decode body a =
    (raw : Text) × (http.envelope body ≡ inr raw) × (is_empty raw ≡ false) × (decode raw ≡ inr a)

Sum-cases : {A B : Type 0} (x : A ⊎ B) → ((a : A) × (x ≡ inl a)) ⊎ ((b : B) × (x ≡ inr b))
Sum-cases (inl a) = inl (a, refl)
Sum-cases (inr b) = inr (b, refl)

Exchange-cases :
    (x : Exchange)
    → ((e : Text) × (x ≡ broken e)) ⊎ ((code : ℕ) × (body : Text) × (x ≡ replied code body))
Exchange-cases (broken e) = inl (e, refl)
Exchange-cases (replied code body) = inr (code, body, refl)

failed-ne-answered : {A : Type 0} (e : CallError) (a : A) → ¬ (failed e ≡ answered a)
failed-ne-answered e a h = cc

answered_inj : {A : Type 0} (a b : A) → answered a ≡ answered b → a ≡ b
answered_inj a b h = cc

-- A call that is known to fail is not answered.
not_both :
    {A : Type 0} {B : Type 0} (x : Call A) (e : CallError) (a : A)
    → x ≡ failed e
    → x ≡ answered a
    → B
not_both x e a p h = absurd (failed-ne-answered e a (sym p ∙ h))

success_bounds : (code : ℕ) → is_success code ≡ true → (200 ≤ code) × (code ≤ 299)
unfolding is_success
success_bounds code h = (ground arith, ground arith)

bounds_success : (code : ℕ) → 200 ≤ code → code ≤ 299 → is_success code ≡ true
unfolding is_success
bounds_success code low high = ground arith

out_success : (code : ℕ) → (code < 200) ⊎ (299 < code) → is_success code ≡ false
unfolding is_success
out_success code h = ground arith

success_out : (code : ℕ) → is_success code ≡ false → (code < 200) ⊎ (299 < code)
unfolding is_success
success_out code h = ground arith

other-ne-api :
    {A B : Type 0} (x : Call A) (e : Text) (code : ℕ) (t : Text)
    → x ≡ failed (other_error e)
    → x ≡ failed (api_error code t)
    → B
other-ne-api x e code t p h = cc

api_error_inj :
    {A : Type 0} (x : Call A) (m n : ℕ) (s t : Text)
    → x ≡ failed (api_error m s)
    → x ≡ failed (api_error n t)
    → (m ≡ n) × (s ≡ t)
api_error_inj x m n s t p h = (cc, cc)

module _ {A : Type 0} (http : Http) (decode : Text → Text ⊎ A) (c : Client) (path : Text) where
  -- The server answers a request for the path below the base URL, with the token of the client.
  abbrev pub Replies : ℕ → Text → Type 0
  Replies code body =
      (http.url_error (c.base_url ++ path) ≡ none)
      × (http.exchange (record {
        url = c.base_url ++ path;
        authorization = c.token;
        accept = codes "application/json";
      })
          ≡ replied code body)

  -- What is told of an answer with another code.
  abbrev pub refusal : ℕ → Text → Text
  refusal code body =
      codes "proxmox "
      ++ c.id
      ++ codes " returned HTTP "
      ++ decimal code
      ++ codes ": "
      ++ trim_space body

  read_body_complete :
      (body : Text) (a : A) → Holds http decode body a → read_body http decode c body ≡ answered a
  unfolding read_body
  read_body_complete body a (raw, e, n, d) = rw (e, n, d, read_body) refl

  read_body_sound :
      (body : Text) (a : A) → read_body http decode c body ≡ answered a → Holds http decode body a
  unfolding read_body
  read_body_sound body a h = elim (Sum-cases (http.envelope body)) [
    | inl (e, p) ↦
        not_both (read_body http decode c body) (other_error e) a (rw (p, read_body) refl) h
    | inr (raw, p) ↦ elim (Bool-cases (is_empty raw)) [
      | inl q ↦
          not_both (read_body http decode c body) (other_error (missing_text c)) a
            (rw (p, q, read_body) refl) h
      | inr q ↦ elim (Sum-cases (decode raw)) [
        | inl (e, r) ↦
            not_both (read_body http decode c body) (other_error e) a (rw (p, q, r, read_body) refl)
              h
        | inr (b, r) ↦ (
          raw,
          p,
          q,
          r ∙ ap inr (answered_inj b a (sym (read_body_complete body b (raw, p, q, r)) ∙ h)),
        )
      ]
    ]
  ]

  get-replied :
      (code : ℕ) (body : Text)
      → Replies code body
      → is_success code ≡ true
      → get http decode c path ≡ read_body http decode c body
  unfolding get
  get-replied code body (u, x) s = rw (u, x, s, get) refl

  get-refused :
      (code : ℕ) (body : Text)
      → Replies code body
      → is_success code ≡ false
      → get http decode c path ≡ failed (api_error code (refusal code body))
  unfolding get
  get-refused code body (u, x) s = rw (u, x, s, get) refl

  answered-replied :
      (a : A)
      → get http decode c path ≡ answered a
      → (code : ℕ) × (body : Text) × Replies code body
        × (is_success code ≡ true)
        × Holds http decode body a
  unfolding get
  answered-replied a h = elim (Option-cases (http.url_error (c.base_url ++ path))) [
    | inr (e, p) ↦ not_both (get http decode c path) (other_error e) a (rw (p, get) refl) h
    | inl p ↦ elim (Exchange-cases (http.exchange (request_of c path))) [
      | inl (e, x) ↦ not_both (get http decode c path) (other_error e) a (rw (p, x, get) refl) h
      | inr (code, body, x) ↦ elim (Bool-cases (is_success code)) [
        | inr n ↦
            not_both (get http decode c path) (api_error code (refusal code body)) a
              (get-refused code body (p, x) n) h
        | inl y ↦ (
          code,
          body,
          (p, x),
          y,
          read_body_sound body a (sym (get-replied code body (p, x) y) ∙ h),
        )
      ]
    ]
  ]

  read_body_other :
      (body : Text)
      → ((e : Text) × (read_body http decode c body ≡ failed (other_error e)))
        ⊎ ((a : A) × (read_body http decode c body ≡ answered a))
  unfolding read_body
  read_body_other body = elim (Sum-cases (http.envelope body)) [
    | inl (e, p) ↦ inl (e, rw (p, read_body) refl)
    | inr (raw, p) ↦ elim (Bool-cases (is_empty raw)) [
      | inl q ↦ inl (missing_text c, rw (p, q, read_body) refl)
      | inr q ↦ elim (Sum-cases (decode raw)) [
        | inl (e, r) ↦ inl (e, rw (p, q, r, read_body) refl)
        | inr (a, r) ↦ inr (a, rw (p, q, r, read_body) refl)
      ]
    ]
  ]

  -- An API error is that of an answer with another code.
  refused-replied :
      (code : ℕ) (t : Text)
      → get http decode c path ≡ failed (api_error code t)
      → (body : Text) × Replies code body × (is_success code ≡ false) × (t ≡ refusal code body)
  unfolding get
  refused-replied code t h = elim (Option-cases (http.url_error (c.base_url ++ path))) [
    | inr (e, p) ↦ other-ne-api (get http decode c path) e code t (rw (p, get) refl) h
    | inl p ↦ elim (Exchange-cases (http.exchange (request_of c path))) [
      | inl (e, x) ↦ other-ne-api (get http decode c path) e code t (rw (p, x, get) refl) h
      | inr (n, body, x) ↦ elim (Bool-cases (is_success n)) [
        | inl y ↦ elim (read_body_other body) [
          | inl (e, z) ↦
              other-ne-api (get http decode c path) e code t (get-replied n body (p, x) y ∙ z) h
          | inr (a, z) ↦
              not_both (get http decode c path) (api_error code t) a h
                (get-replied n body (p, x) y ∙ z)
        ]
        | inr y ↦
            let same =
              api_error_inj (get http decode c path) n code (refusal n body) t
                (get-refused n body (p, x) y) h in
            subst (λ k. (b : Text) × Replies k b × (is_success k ≡ false) × (t ≡ refusal k b))
              same.0 (body, (p, x), y, sym same.1)
      ]
    ]
  ]

  -- Get gives a value exactly where the server answers the request, which is for the path below the
  -- client's base URL and bears its token, with a status code in 200..299 and a body in whose envelope
  -- there is data that decodes to the value. It fails with an API error exactly where the server
  -- answers this request with another code, and the error is that code and a text that names the
  -- source's id, the code and the trimmed body.
  pub get_answered_iff :
      ((a : A)
        → (get http decode c path ≡ answered a) ↔ (
            (code : ℕ) × (body : Text) × Replies code body
            × (200 ≤ code)
            × (code ≤ 299)
            × Holds http decode body a))
      × ((code : ℕ) (t : Text)
          → (get http decode c path ≡ failed (api_error code t)) ↔ (
              (body : Text) × Replies code body
              × ((code < 200) ⊎ (299 < code))
              × (t ≡ refusal code body)))
  get_answered_iff = (
    λ a. (
      λ h.
          let r = answered-replied a h in
          (r.0, r.1, r.2, (success_bounds r.0 r.3).0, (success_bounds r.0 r.3).1, r.4),
      λ (code, body, r, low, high, holds).
          get-replied code body r (bounds_success code low high) ∙ read_body_complete body a holds,
    ),
    λ code t. (
      λ h. let (body, r, n, e) = refused-replied code t h in (body, r, success_out code n, e),
      λ (body, r, out, e).
          get-refused code body r (out_success code out)
          ∙ ap (λ x. failed (api_error code x)) (sym e),
    ),
  )
