-- ===== src/Server/Access.antt =====
-- Who passes the two checks (apps/bridge/internal/server/server.go).
use proxmox_desk_display.Server.{
  Request, UrlHost, bearer, has_bearer, has_basic, token_equal, auth_passes, admin_auth, admitted,
  cross_origin, unauthenticated, is_post, same_origin,
}
use proxmox_desk_display.Base.Text.{
  Text, codes, text_eq, is_empty, has_prefix, trim_prefix, drop_prefix,
}
use proxmox_desk_display.Base.Text.Laws.{
  has_prefix-drop_prefix, has_prefix-append, drop_prefix-append, text_eq_refl, text_eq_iff,
  text_eq-ne,
}
use proxmox_desk_display.Server.Origin.{IsOfSameOrigin, same_origin_iff}
use proxmox_desk_display.Config.Validation.Accepts.{ne_nil}
use proxmox_desk_display.Base.{
  [], ◌∷◌, true, refl, ◌≡◌, ◌↔◌, ◌≢◌, false-ne-true, ◌++◌, and-parts, ◌∙◌, ap, some, false, inl,
  inr, sym, Bool, ◌⊎◌, or-cases, ◌&&◌, or-true, none, Option, ℕ, if◌then◌else◌, not, ◌||◌,
  Bool-cases,
}

token_equal_iff : (got want : Text) → (token_equal got want ≡ true) ↔ ((want ≢ []) × (got ≡ want))
unfolding token_equal
token_equal_iff got want = (fore got want, back got want)
  where
    fore : (got want : Text) → token_equal got want ≡ true → (want ≢ []) × (got ≡ want)
    fore [] want h = absurd (false-ne-true h)
    fore (c ∷ got) [] h = absurd (false-ne-true h)
    fore (c ∷ got) (d ∷ want) h = ((λ e. cc), (text_eq_iff (c ∷ got) (d ∷ want)).0 h)

    back : (got want : Text) → (want ≢ []) × (got ≡ want) → token_equal got want ≡ true
    back got [] (ne, e) = absurd (ne refl)
    back got (d ∷ want) (ne, e) = rw e (text_eq_refl (d ∷ want))

has_bearer_iff :
    (header token : Text)
    → (has_bearer header token ≡ true) ↔ ((token ≢ []) × (header ≡ bearer ++ token))
unfolding has_bearer trim_prefix
has_bearer_iff header token = (fore, back)
  where
    fore : has_bearer header token ≡ true → (token ≢ []) × (header ≡ bearer ++ token)
    fore h =
        let (p, q) = and-parts (has_prefix header bearer) _ h in
        let cut : trim_prefix header bearer ≡ drop_prefix header bearer = rw p refl in
        let (ne, e) =
          (token_equal_iff (drop_prefix header bearer) token).0
            (ap (λ x. token_equal x token) (sym cut) ∙ q) in
        (ne, has_prefix-drop_prefix header bearer p ∙ ap (λ t. bearer ++ t) e)

    back : (token ≢ []) × (header ≡ bearer ++ token) → has_bearer header token ≡ true
    back (ne, e) =
        rw (e, has_prefix-append bearer token, drop_prefix-append bearer token)
          ((token_equal_iff token token).1 (ne, refl))

-- auth lets a request pass exactly in mock mode without a display token, or with the header
-- "Bearer " and the token, which is not empty.
pub auth_passes_iff :
    (mock : Bool) (token : Text) (r : Request)
    → (auth_passes mock token r ≡ true)
      ↔ (((mock ≡ true) × (token ≡ [])) ⊎ ((token ≢ []) × (r.authorization ≡ bearer ++ token)))
unfolding auth_passes
auth_passes_iff mock token r = (fore, back)
  where
    empty-nil : (s : Text) → is_empty s ≡ true → s ≡ []
    empty-nil [] h = refl
    empty-nil (c ∷ s) h = absurd (false-ne-true h)

    fore :
        auth_passes mock token r ≡ true
        → ((mock ≡ true) × (token ≡ [])) ⊎ ((token ≢ []) × (r.authorization ≡ bearer ++ token))
    fore h = elim (or-cases (mock && is_empty token) (has_bearer r.authorization token) h) [
      | inl p ↦ (let (m, e) = and-parts mock (is_empty token) p in inl (m, empty-nil token e))
      | inr p ↦ inr ((has_bearer_iff r.authorization token).0 p)
    ]

    back :
        ((mock ≡ true) × (token ≡ [])) ⊎ ((token ≢ []) × (r.authorization ≡ bearer ++ token))
        → auth_passes mock token r ≡ true
    back (inl (m, e)) = rw (m, e) refl
    back (inr p) =
        rw ((has_bearer_iff r.authorization token).1 p) (or-true (mock && is_empty token))

has_basic_iff :
    (basic : Option (Text × Text)) (token : Text)
    → (has_basic basic token ≡ true) ↔ ((token ≢ []) × (basic ≡ some (codes "admin", token)))
unfolding has_basic text_eq
has_basic_iff basic token = (fore basic, back)
  where
    fore :
        (basic : Option (Text × Text))
        → has_basic basic token ≡ true
        → (token ≢ []) × (basic ≡ some (codes "admin", token))
    fore none h = absurd (false-ne-true h)
    fore (some (user, pass)) h =
        let (p, q) = and-parts (text_eq user (codes "admin")) (token_equal pass token) h in
        let (ne, e) = (token_equal_iff pass token).0 q in
        (ne, λ i. some ((text_eq_iff user (codes "admin")).0 p i, e i))

    back : (token ≢ []) × (basic ≡ some (codes "admin", token)) → has_basic basic token ≡ true
    back (ne, e) = rw e ((token_equal_iff token token).1 (ne, refl))

cross-ne-admitted : cross_origin ≡ admitted → ⊥
cross-ne-admitted h = cc

out-ne-admitted : unauthenticated ≡ admitted → ⊥
out-ne-admitted h = cc

cons-ne-nil : (c : ℕ) (s : Text) → c ∷ s ≡ [] → ⊥
cons-ne-nil c s h = cc

-- The three outcomes of adminAuth as a choice between two tests.
chosen :
    (x y : Bool)
    → ((if x then cross_origin else if y then admitted else unauthenticated) ≡ admitted)
      ↔ ((x ≡ false) × (y ≡ true))
chosen true y = ((λ h. absurd (cross-ne-admitted h)), λ h. absurd (false-ne-true (sym h.0)))
chosen false true = ((λ h. (refl, refl)), λ h. refl)
chosen false false = ((λ h. absurd (out-ne-admitted h)), λ h. absurd (false-ne-true h.1))

nand_iff : (a b : Bool) → ((a && not b) ≡ false) ↔ ((a ≡ false) ⊎ (b ≡ true))
nand_iff false b = ((λ h. inl refl), λ h. refl)
nand_iff true true = ((λ h. inr refl), λ h. refl)
nand_iff true false =
    ((λ h. absurd (false-ne-true (sym h))), λ h. elim h [ inl p ↦ p | inr p ↦ sym p ])

any_of : (a b c : Bool) → (a ≡ true) ⊎ (b ≡ true) ⊎ (c ≡ true) → (a || b || c) ≡ true
any_of a b c (inl p) = rw p refl
any_of a b c (inr (inl p)) = rw (p, or-true a) refl
any_of a b c (inr (inr p)) = rw p (or-true (a || b))

empty_iff : (s : Text) → (is_empty s ≡ true) ↔ (s ≡ [])
empty_iff [] = ((λ h. refl), λ h. refl)
empty_iff (c ∷ s) = ((λ h. absurd (false-ne-true h)), λ h. absurd (cons-ne-nil c s h))

-- A request is a POST exactly by its method.
is_post_iff : (r : Request) → (is_post r ≡ false) ↔ (r.method ≢ codes "POST")
unfolding text_eq
is_post_iff r = (
  (λ h e. false-ne-true (sym h ∙ (text_eq_iff r.method (codes "POST")).1 e)),
  text_eq-ne r.method (codes "POST"),
)

-- adminAuth admits a request exactly if two conditions hold. It is no POST, or the host of the URL in
-- its Origin header is the one that it was sent to, up to case, or it has no Origin and that is so of
-- its Referer header, or it has neither. And there is no admin token, or the request has it as a bearer
-- token, or as the password of the user `admin`.
pub admin_auth_iff :
    (url_host : UrlHost) (token : Text) (r : Request)
    → (admin_auth url_host token r ≡ admitted) ↔ (
        ((r.method ≢ codes "POST") ⊎ IsOfSameOrigin url_host r)
        × ((token ≡ [])
            ⊎ (r.authorization ≡ bearer ++ token)
            ⊎ (r.basic_auth ≡ some (codes "admin", token))))
unfolding admin_auth
admin_auth_iff url_host token r = (fore, back)
  where
    Origin : Type 0
    Origin = (r.method ≢ codes "POST") ⊎ IsOfSameOrigin url_host r

    to_origin : (is_post r ≡ false) ⊎ (same_origin url_host r ≡ true) → Origin
    to_origin (inl p) = inl ((is_post_iff r).0 p)
    to_origin (inr p) = inr ((same_origin_iff url_host r).0 p)

    from_origin : Origin → (is_post r ≡ false) ⊎ (same_origin url_host r ≡ true)
    from_origin (inl p) = inl ((is_post_iff r).1 p)
    from_origin (inr p) = inr ((same_origin_iff url_host r).1 p)

    Proof : Type 0
    Proof =
        (token ≡ [])
        ⊎ (r.authorization ≡ bearer ++ token)
        ⊎ (r.basic_auth ≡ some (codes "admin", token))

    empty : Bool
    empty = is_empty token

    by_bearer : Bool
    by_bearer = has_bearer r.authorization token

    by_basic : Bool
    by_basic = has_basic r.basic_auth token

    proved : (empty || by_bearer || by_basic) ≡ true → Proof
    proved h = elim (or-cases (empty || by_bearer) by_basic h) [
      | inl p ↦ elim (or-cases empty by_bearer p) [
        | inl q ↦ inl ((empty_iff token).0 q)
        | inr q ↦ inr (inl ((has_bearer_iff r.authorization token).0 q).1)
      ]
      | inr q ↦ inr (inr ((has_basic_iff r.basic_auth token).0 q).1)
    ]

    proving : Proof → (empty || by_bearer || by_basic) ≡ true
    proving (inl e) = any_of empty by_bearer by_basic (inl ((empty_iff token).1 e))
    proving (inr p) = elim (Bool-cases empty) [
      | inl q ↦ any_of empty by_bearer by_basic (inl q)
      | inr q ↦ any_of empty by_bearer by_basic (
          inr (elim p [
            | inl e ↦ inl ((has_bearer_iff r.authorization token).1 ((ne_nil token).0 q, e))
            | inr e ↦ inr ((has_basic_iff r.basic_auth token).1 ((ne_nil token).0 q, e))
          ]))
    ]

    fore : admin_auth url_host token r ≡ admitted → Origin × Proof
    fore h =
        let (x, y) =
          (chosen (is_post r && not (same_origin url_host r)) (empty || by_bearer || by_basic)).0
            h in
        (to_origin ((nand_iff (is_post r) (same_origin url_host r)).0 x), proved y)

    back : Origin × Proof → admin_auth url_host token r ≡ admitted
    back (o, p) =
        (chosen (is_post r && not (same_origin url_host r)) (empty || by_bearer || by_basic)).1
          ((nand_iff (is_post r) (same_origin url_host r)).1 (from_origin o), proving p)
