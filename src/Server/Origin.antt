-- ===== src/Server/Origin.antt =====
-- When a request counts as one of the same origin (apps/bridge/internal/server/server.go).
use proxmox_desk_display.Server.{Request, UrlHost, origin_matches_host, same_origin}
use proxmox_desk_display.Base.Text.{Text, fold_rune, equal_fold, is_empty}
use proxmox_desk_display.Base.Text.Laws.{text_eq_iff}
use proxmox_desk_display.Config.Validation.Accepts.{ne_nil}
use proxmox_desk_display.Base.{
  leb, ◌==◌, ◌+◌, ◌-◌, ◌&&◌, sym, ◌∙◌, ap, subst, [], ◌∷◌, true, refl, ◌≡◌, ◌↔◌, ◌≢◌, false-ne-true,
  some, false, inl, inr, ◌⊎◌, ℕ, Bool-cases, map, ◌<◌, arith, Option-cases,
}

-- The runes that are the n-th letter: the small one, the capital one, and the Kelvin sign and the
-- long s as forms of K and S.
abbrev pub IsLetter : ℕ → ℕ → Type 0
IsLetter n c = (c ≡ 65 + n) ⊎ (c ≡ 97 + n) ⊎ ((n ≡ 10) × (c ≡ 8490)) ⊎ ((n ≡ 18) × (c ≡ 383))

-- The same rune, or two forms of one letter.
abbrev pub IsSameRune : ℕ → ℕ → Type 0
IsSameRune a b = (a ≡ b) ⊎ ((n : ℕ) × (n < 26) × IsLetter n a × IsLetter n b)

-- Rune by rune the same.
abbrev pub IsSameText : Text → Text → Type 0
IsSameText [] [] = Unit {0}
IsSameText [] (d ∷ t) = ⊥
IsSameText (c ∷ s) [] = ⊥
IsSameText (c ∷ s) (d ∷ t) = IsSameRune c d × IsSameText s t

-- The URL has a host, which is the one of the request up to case.
abbrev pub IsOfHost : UrlHost → Text → Text → Type 0
IsOfHost url_host raw host = (h : Text) × (url_host raw ≡ some h) × IsSameText h host

-- The request's Origin, or without one its Referer, is of the request's host, or it has neither.
abbrev pub IsOfSameOrigin : UrlHost → Request → Type 0
IsOfSameOrigin url_host r =
    ((r.origin ≢ []) × IsOfHost url_host r.origin r.host)
    ⊎ ((r.origin ≡ []) × (r.referer ≢ []) × IsOfHost url_host r.referer r.host)
    ⊎ ((r.origin ≡ []) × (r.referer ≡ []))

empty-nil : (s : Text) → is_empty s ≡ true → s ≡ []
empty-nil [] h = refl
empty-nil (c ∷ s) h = absurd (false-ne-true h)

letter_fold : (n c : ℕ) → n < 26 → IsLetter n c → fold_rune c ≡ 97 + n
unfolding fold_rune
letter_fold n c h (inl e) = ground arith
letter_fold n c h (inr (inl e)) = ground arith
letter_fold n c h (inr (inr (inl (k, e)))) = ground arith
letter_fold n c h (inr (inr (inr (k, e)))) = ground arith

capital : (c : ℕ) → (leb 65 c && leb c 90) ≡ true → (n : ℕ) × (n < 26) × IsLetter n c
capital c h = (c - 65, ground arith, inl (ground arith))

small : (c : ℕ) → (leb 97 c && leb c 122) ≡ true → (n : ℕ) × (n < 26) × IsLetter n c
small c h = (c - 97, ground arith, inr (inl (ground arith)))

-- Folding keeps a rune that is no form of a letter.
kept :
    (c : ℕ)
    → (leb 65 c && leb c 90) ≡ false
    → (leb 97 c && leb c 122) ≡ false
    → (c == 8490) ≡ false
    → (c == 383) ≡ false
    → (fold_rune c ≡ c) × ((c < 97) ⊎ (122 < c))
unfolding fold_rune
kept c p q r s = (rw (p, r, s) refl, ground arith)

-- A rune is a form of a letter, or folding keeps it and does not make it one.
rune_cases :
    (c : ℕ) → ((n : ℕ) × (n < 26) × IsLetter n c) ⊎ ((fold_rune c ≡ c) × ((c < 97) ⊎ (122 < c)))
rune_cases c = elim (Bool-cases (leb 65 c && leb c 90)) [
  | inl p ↦ inl (capital c p)
  | inr p ↦ elim (Bool-cases (leb 97 c && leb c 122)) [
    | inl q ↦ inl (small c q)
    | inr q ↦ elim (Bool-cases (c == 8490)) [
      | inl r ↦ inl (10, omega arith, inr (inr (inl (refl, ground arith))))
      | inr r ↦ elim (Bool-cases (c == 383)) [
        | inl t ↦ inl (18, omega arith, inr (inr (inr (refl, ground arith))))
        | inr t ↦ inr (kept c p q r t)
      ]
    ]
  ]
]

fold_rune_iff : (a b : ℕ) → (fold_rune a ≡ fold_rune b) ↔ IsSameRune a b
fold_rune_iff a b = (fore, back)
  where
    apart : (m x : ℕ) → m < 26 → (x < 97) ⊎ (122 < x) → 97 + m ≡ x → ⊥
    apart m x h k e = ground arith

    same : (m n : ℕ) → m < 26 → 97 + m ≡ 97 + n → m ≡ n
    same m n h e = omega (arith, e)

    fore : fold_rune a ≡ fold_rune b → IsSameRune a b
    fore h = elim (rune_cases a) [
      | inl (m, lm, fm) ↦ elim (rune_cases b) [
        | inl (n, ln, fn) ↦
            let e = same m n lm (sym (letter_fold m a lm fm) ∙ h ∙ letter_fold n b ln fn) in
            inr (n, ln, subst (λ k. IsLetter k a) e fm, fn)
        | inr (k, out) ↦ absurd (apart m b lm out (sym (letter_fold m a lm fm) ∙ h ∙ k))
      ]
      | inr (k, out) ↦ elim (rune_cases b) [
        | inl (n, ln, fn) ↦ absurd (apart n a ln out (sym (letter_fold n b ln fn) ∙ sym h ∙ k))
        | inr (k', out') ↦ inl (sym k ∙ h ∙ k')
      ]
    ]

    back : IsSameRune a b → fold_rune a ≡ fold_rune b
    back (inl e) = ap fold_rune e
    back (inr (n, h, x, y)) = letter_fold n a h x ∙ sym (letter_fold n b h y)

equal_fold_iff : (s t : Text) → (equal_fold s t ≡ true) ↔ IsSameText s t
unfolding equal_fold
equal_fold_iff s t = (
  λ h. fore s t ((text_eq_iff (map fold_rune s) (map fold_rune t)).0 h),
  λ h. (text_eq_iff (map fold_rune s) (map fold_rune t)).1 (back s t h),
)
  where
    head_same : (c d : ℕ) (s t : Text) → c ∷ s ≡ d ∷ t → c ≡ d
    head_same c d s t h = cc

    tail_same : (c d : ℕ) (s t : Text) → c ∷ s ≡ d ∷ t → s ≡ t
    tail_same c d s t h = cc

    fore : (s t : Text) → map fold_rune s ≡ map fold_rune t → IsSameText s t
    fore [] [] h = tt
    fore [] (d ∷ t) h = cc
    fore (c ∷ s) [] h = cc
    fore (c ∷ s) (d ∷ t) h = (
      (fold_rune_iff c d).0 (head_same _ _ (map fold_rune s) (map fold_rune t) h),
      fore s t (tail_same (fold_rune c) (fold_rune d) _ _ h),
    )

    back : (s t : Text) → IsSameText s t → map fold_rune s ≡ map fold_rune t
    back [] [] h = refl
    back [] (d ∷ t) h = absurd h
    back (c ∷ s) [] h = absurd h
    back (c ∷ s) (d ∷ t) (h, k) = λ i. (fold_rune_iff c d).1 h i ∷ back s t k i

origin_matches_host_iff :
    (url_host : UrlHost) (raw host : Text)
    → (origin_matches_host url_host raw host ≡ true) ↔ IsOfHost url_host raw host
unfolding origin_matches_host
origin_matches_host_iff url_host raw host = (fore, back)
  where
    fore : origin_matches_host url_host raw host ≡ true → IsOfHost url_host raw host
    fore h = elim (Option-cases (url_host raw)) [
      | inl p ↦ absurd (false-ne-true (sym (rw (p, origin_matches_host) refl) ∙ h))
      | inr (x, p) ↦ (x, p, (equal_fold_iff x host).0 (sym (rw (p, origin_matches_host) refl) ∙ h))
    ]

    back : IsOfHost url_host raw host → origin_matches_host url_host raw host ≡ true
    back (x, p, k) = rw (p, origin_matches_host) ((equal_fold_iff x host).1 k)

pub same_origin_iff :
    (url_host : UrlHost) (r : Request) → (same_origin url_host r ≡ true) ↔ IsOfSameOrigin url_host r
unfolding same_origin
same_origin_iff url_host r = (fore, back)
  where
    fore : same_origin url_host r ≡ true → IsOfSameOrigin url_host r
    fore h = elim (Bool-cases (is_empty r.origin)) [
      | inr p ↦ inl (
        (ne_nil r.origin).0 p,
        (origin_matches_host_iff url_host r.origin r.host).0
            (sym (rw (p, origin_matches_host) refl) ∙ h),
      )
      | inl p ↦ elim (Bool-cases (is_empty r.referer)) [
        | inr q ↦ inr (
            inl (
              empty-nil r.origin p,
              (ne_nil r.referer).0 q,
              (origin_matches_host_iff url_host r.referer r.host).0 (sym (rw (p, q) refl) ∙ h),
            ))
        | inl q ↦ inr (inr (empty-nil r.origin p, empty-nil r.referer q))
      ]
    ]

    back : IsOfSameOrigin url_host r → same_origin url_host r ≡ true
    back (inl (ne, k)) =
        rw ((ne_nil r.origin).1 ne) ((origin_matches_host_iff url_host r.origin r.host).1 k)
    back (inr (inl (e, ne, k))) =
        rw (e, (ne_nil r.referer).1 ne) ((origin_matches_host_iff url_host r.referer r.host).1 k)
    back (inr (inr (e, k))) = rw (e, k) refl
