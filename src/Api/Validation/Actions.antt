-- ===== src/Api/Validation/Actions.antt =====
-- What a valid action is, by its type.
use customrouter.Base.{
  ℕ, ◌+◌, ◌≤◌, Text, codes, text_eq, text_eq_iff, All, is_empty, Bool, true, false, ◌||◌, List, [],
  ◌∷◌, Option, none, some, ◌≡◌, ◌≢◌, ◌⊎◌, ◌↔◌, inl, inr, refl, arith, Bool-cases,
}
use customrouter.Base.Int.{int_lt, ℤ, pos, negsuc}
use customrouter.Api.{
  Action, ActionType, RedirectConfig, RewriteConfig, HeaderConfig, MirrorConfig, CorsConfig,
}
use customrouter.Api.Validation.Origin.{IsOrigin, is_valid_cors_origin_iff}
use customrouter.Api.Validation.{
  int_le, is_valid_cors_origin, scan_origins, check_wildcard, validate_redirect_action,
  validate_rewrite_action, validate_header_action, validate_header_remove_action, bad_percent,
  validate_mirror_action, validate_cors_action, validate_action, fail_if, ◌then_check◌,
}

abbrev pub IsValidRedirect : Option RedirectConfig → Type 0
IsValidRedirect none = ⊥
IsValidRedirect (some r) = (r.scheme ≢ []) ⊎ (r.hostname ≢ []) ⊎ (r.path ≢ []) ⊎ (r.port ≢ none)

abbrev pub IsValidRewrite : Option RewriteConfig → Type 0
IsValidRewrite none = ⊥
IsValidRewrite (some r) = (r.path ≢ []) ⊎ (r.hostname ≢ [])

abbrev pub IsValidHeader : Option HeaderConfig → Type 0
IsValidHeader none = ⊥
IsValidHeader (some h) = h.name ≢ []

-- A number between two bounds.
abbrev pub IsWithin : ℕ → ℕ → ℤ → Type 0
IsWithin lo hi (pos n) = (lo ≤ n) × (n ≤ hi)
IsWithin lo hi (negsuc n) = ⊥

abbrev pub IsValidPercent : Option ℤ → Type 0
IsValidPercent none = Unit
IsValidPercent (some p) = IsWithin 0 100 p

abbrev pub IsValidMirror : Option MirrorConfig → Type 0
IsValidMirror none = ⊥
IsValidMirror (some m) =
    (m.backend_ref.name ≢ [])
    × (m.backend_ref.namespace ≢ [])
    × IsWithin 1 65535 m.backend_ref.port
    × IsValidPercent m.percent

abbrev pub IsWildcard : Text → Type 0
IsWildcard origin = origin ≡ codes "*"

-- At least one origin, each "*" or valid, and no "*" with credentials.
abbrev pub IsValidCors : Option CorsConfig → Type 0
IsValidCors none = ⊥
IsValidCors (some c) =
    (c.allow_origins ≢ [])
    × All (λ o. IsWildcard o ⊎ IsOrigin o) c.allow_origins
    × ((c.allow_credentials ≡ false) ⊎ All (λ o. ¬ IsWildcard o) c.allow_origins)

abbrev pub IsValidAction : ActionType → Action → Type 0
IsValidAction ActionType.redirect a = IsValidRedirect a.redirect
IsValidAction ActionType.rewrite a = IsValidRewrite a.rewrite
IsValidAction ActionType.header_set a = IsValidHeader a.header
IsValidAction ActionType.header_add a = IsValidHeader a.header
IsValidAction ActionType.response_header_set a = IsValidHeader a.header
IsValidAction ActionType.response_header_add a = IsValidHeader a.header
IsValidAction ActionType.header_remove a = a.header_name ≢ []
IsValidAction ActionType.response_header_remove a = a.header_name ≢ []
IsValidAction ActionType.request_mirror a = IsValidMirror a.mirror
IsValidAction ActionType.cors a = IsValidCors a.cors
IsValidAction (ActionType.other t) a = ⊥

redirect_iff : (o : Option RedirectConfig) → (validate_redirect_action o ≡ none) ↔ IsValidRedirect o
unfolding validate_redirect_action
redirect_iff none = (λ h. cc, λ h. absurd h)
redirect_iff (some r) = (λ h. ground (arith, h), λ h. ground (arith, h))

rewrite_iff : (o : Option RewriteConfig) → (validate_rewrite_action o ≡ none) ↔ IsValidRewrite o
unfolding validate_rewrite_action
rewrite_iff none = (λ h. cc, λ h. absurd h)
rewrite_iff (some r) = (λ h. ground (arith, h), λ h. ground (arith, h))

header_iff : (o : Option HeaderConfig) → (validate_header_action o ≡ none) ↔ IsValidHeader o
unfolding validate_header_action
header_iff none = (λ h. cc, λ h. absurd h)
header_iff (some r) = (λ h. ground (arith, h), λ h. ground (arith, h))

header_remove_iff : (name : Text) → (validate_header_remove_action name ≡ none) ↔ (name ≢ [])
unfolding validate_header_remove_action
header_remove_iff name = (λ h. ground (arith, h), λ h. ground (arith, h))

-- The checks of a chain all pass, or the chain fails.
pub then_check_iff {ℓ} :
    {E : Type ℓ} (a b : Option E) → ((a then_check b) ≡ none) ↔ ((a ≡ none) × (b ≡ none))
then_check_iff none b = (λ h. (refl, h), λ h. h.1)
then_check_iff (some e) b = (λ h. cc, λ h. cc)

pub fail_if_iff {ℓ} : {E : Type ℓ} (b : Bool) (e : E) → (fail_if b e ≡ none) ↔ (b ≡ false)
fail_if_iff true e = (λ h. cc, λ h. cc)
fail_if_iff false e = (λ h. refl, λ h. refl)

is_empty_iff {ℓ} : {A : Type ℓ} (s : List A) → (is_empty s ≡ false) ↔ (s ≢ [])
is_empty_iff s = (λ h. ground (arith, h), λ h. ground (arith, h))

port_iff : (p : ℤ) → ((int_le p (pos 0) || int_lt (pos 65535) p) ≡ false) ↔ IsWithin 1 65535 p
port_iff (pos n) = (λ h. (ground (arith, h), ground (arith, h)), λ (a, b). ground (arith, a, b))
port_iff (negsuc n) = (λ h. cc, λ h. absurd h)

percent_iff : (o : Option ℤ) → (bad_percent o ≡ false) ↔ IsValidPercent o
percent_iff none = (λ h. tt, λ h. refl)
percent_iff (some (pos n)) = (λ h. (omega arith, ground (arith, h)), λ (a, b). ground (arith, a, b))
percent_iff (some (negsuc n)) = (λ h. cc, λ h. absurd h)

mirror_iff : (o : Option MirrorConfig) → (validate_mirror_action o ≡ none) ↔ IsValidMirror o
unfolding validate_mirror_action
mirror_iff none = (λ h. cc, λ h. absurd h)
mirror_iff (some m) =
    simp (then_check_iff, fail_if_iff, is_empty_iff, port_iff, percent_iff)
      (λ t. (t.0, t.1.0, t.1.1.0, t.1.1.1), λ t. (t.0, (t.1, (t.2, t.3))))

-- The loop's answer, for any index and any flag so far.
abbrev Scanned : Bool → Bool → List Text → Type 0
Scanned wildcard credentials origins =
    All (λ o. IsWildcard o ⊎ IsOrigin o) origins
    × ((credentials ≡ false) ⊎ ((wildcard ≡ false) × All (λ o. ¬ IsWildcard o) origins))

not-IsWildcard : (o : Text) → text_eq o (codes "*") ≡ false → ¬ IsWildcard o
not-IsWildcard o e x = ground (arith, e, (text_eq_iff o (codes "*")).1 x)

tail_of_wildcard :
    (o : Text) (origins : List Text) (w credentials : Bool)
    → text_eq o (codes "*") ≡ true
    → Scanned w credentials (o ∷ origins)
    → Scanned true credentials origins
tail_of_wildcard o origins w credentials e h =
    (h.0.1, elim h.1 [ inl f ↦ inl f | inr p ↦ absurd (p.1.0 ((text_eq_iff _ _).0 e)) ])

scan_sound :
    (i : ℕ) (origins : List Text) (w credentials : Bool)
    → check_wildcard (scan_origins i origins w) credentials ≡ none
    → Scanned w credentials origins
unfolding scan_origins
scan_sound i [] w credentials h = (tt, ground (arith, h))
scan_sound i (o ∷ origins) w credentials h = elim (Bool-cases (text_eq o (codes "*"))) [
  | inl e ↦
      let (all, rest) = scan_sound (i + 1) origins true credentials (rw e at h) in
      ((inl ((text_eq_iff _ _).0 e), all), ground (arith, rest))
  | inr e ↦ elim (Bool-cases (is_valid_cors_origin o)) [
    | inr v ↦ absurd (ground (arith, h, e, v))
    | inl v ↦
        let (all, rest) = scan_sound (i + 1) origins w credentials (rw (e, v) at h) in
        (
          (inr ((is_valid_cors_origin_iff o).0 v), all),
          elim rest [ inl f ↦ inl f | inr p ↦ inr (p.0, (not-IsWildcard o e, p.1)) ],
        )
  ]
]

scan_complete :
    (i : ℕ) (origins : List Text) (w credentials : Bool)
    → Scanned w credentials origins
    → check_wildcard (scan_origins i origins w) credentials ≡ none
unfolding scan_origins
scan_complete i [] w credentials h = ground (arith, h)
scan_complete i (o ∷ origins) w credentials h = elim (Bool-cases (text_eq o (codes "*"))) [
  | inl e ↦ rw e (
      scan_complete (i + 1) origins true credentials (tail_of_wildcard o origins w credentials e h))
  | inr e ↦
      let valid : is_valid_cors_origin o ≡ true = elim h.0.0 [
        | inl x ↦ absurd (not-IsWildcard o e x)
        | inr x ↦ (is_valid_cors_origin_iff o).1 x
      ] in
      let rest : Scanned w credentials origins =
        (h.0.1, elim h.1 [ inl f ↦ inl f | inr p ↦ inr (p.0, p.1.1) ]) in
      rw (e, valid) (scan_complete (i + 1) origins w credentials rest)
]

cors_iff : (o : Option CorsConfig) → (validate_cors_action o ≡ none) ↔ IsValidCors o
unfolding validate_cors_action
cors_iff none = (λ h. cc, λ h. absurd h)
cors_iff (some c) =
    simp (then_check_iff, fail_if_iff, is_empty_iff)
      (
        λ t.
            let (all, rest) = scan_sound 0 c.allow_origins false c.allow_credentials t.1 in
            (t.0, all, elim rest [ inl f ↦ inl f | inr p ↦ inr p.1 ]),
        λ t. (
          t.0,
          scan_complete 0 c.allow_origins false c.allow_credentials
              (t.1, elim t.2 [ inl f ↦ inl f | inr p ↦ inr (refl, p) ]),
        ),
      )

-- An action is accepted exactly when it is valid for its type: a configuration of that type is
-- there, with at least one field, a name, a port and a percentage in range, or origins that
-- browsers accept; an unknown type is never accepted.
pub validate_action_iff :
    (t : ActionType) (a : Action) → (validate_action t a ≡ none) ↔ IsValidAction t a
unfolding validate_action
validate_action_iff ActionType.redirect a = redirect_iff a.redirect
validate_action_iff ActionType.rewrite a = rewrite_iff a.rewrite
validate_action_iff ActionType.header_set a = header_iff a.header
validate_action_iff ActionType.header_add a = header_iff a.header
validate_action_iff ActionType.response_header_set a = header_iff a.header
validate_action_iff ActionType.response_header_add a = header_iff a.header
validate_action_iff ActionType.header_remove a = header_remove_iff a.header_name
validate_action_iff ActionType.response_header_remove a = header_remove_iff a.header_name
validate_action_iff ActionType.request_mirror a = mirror_iff a.mirror
validate_action_iff ActionType.cors a = cors_iff a.cors
validate_action_iff (ActionType.other t) a = (λ h. cc, λ h. absurd h)
