-- ===== src/Webhook/Specific.antt =====
-- What it means that one match is at least as specific as another.
use customrouter.Base.{
  Text, text_eq_iff, All, any, is_empty, Bool, true, false, not, ◌&&◌, &&_iff, List, [], ◌∷◌,
  Option, ◌≡◌, inl, inr, arith, Bool-cases, equal_fold, to_lower,
}
use customrouter.Routes.{Matcher, RequestMatch}
use customrouter.Routes.Match.{match_method}
use customrouter.Webhook.{
  HeaderMatch, QueryParamMatch, RouteMatch, bool_eq, same_header, headers_subsume, same_query_param,
  query_params_subsume, at_least_as_specific,
}
use customrouter.Webhook.Compat.{MeetsHeader, MeetsQueryParam, Satisfies}

bool_eq→eq : (a b : Bool) → bool_eq a b ≡ true → a ≡ b
bool_eq→eq a b h = ground (arith, h)

method-subsumes :
    (a b method : Text)
    → (not (is_empty b) && not (equal_fold a b)) ≡ false
    → match_method a method ≡ true
    → match_method b method ≡ true
unfolding match_method equal_fold
method-subsumes a b method h k = ground (
  arith,
  h,
  k,
  text_eq_iff (to_lower a) (to_lower b),
  text_eq_iff (to_lower a) (to_lower method),
  text_eq_iff (to_lower b) (to_lower method),
)

module _ (compile : Text → Option Matcher) (req : RequestMatch) where
  same_header-MeetsHeader :
      (s p : HeaderMatch)
      → same_header s p ≡ true
      → MeetsHeader compile req p
      → MeetsHeader compile req s
  unfolding equal_fold
  same_header-MeetsHeader s p e h =
      let (ab, c) = (&&_iff _ _).0 e in
      let (a, b) = (&&_iff _ _).0 ab in
      rw
        (
          (text_eq_iff (to_lower p.name) (to_lower s.name)).0 a,
          (text_eq_iff p.value s.value).0 b,
          bool_eq→eq p.is_regex s.is_regex c,
        )
        at h

  any-MeetsHeader :
      (s : HeaderMatch) (sup : List HeaderMatch)
      → any (same_header s) sup ≡ true
      → All (MeetsHeader compile req) sup
      → MeetsHeader compile req s
  unfolding any
  any-MeetsHeader s [] h _ = cc
  any-MeetsHeader s (p ∷ sup) h (now, later) = elim (Bool-cases (same_header s p)) [
    | inl e ↦ same_header-MeetsHeader s p e now
    | inr e ↦ any-MeetsHeader s sup (rw e at h) later
  ]

  headers_subsume-MeetsHeader :
      (sup sub : List HeaderMatch)
      → headers_subsume sup sub ≡ true
      → All (MeetsHeader compile req) sup
      → All (MeetsHeader compile req) sub
  unfolding headers_subsume
  headers_subsume-MeetsHeader sup [] h met = tt
  headers_subsume-MeetsHeader sup (s ∷ sub) h met = elim (Bool-cases (any (same_header s) sup)) [
    | inl e ↦ (any-MeetsHeader s sup e met, headers_subsume-MeetsHeader sup sub (rw e at h) met)
    | inr e ↦ absurd (ground (arith, h, e))
  ]

  same_query_param-MeetsQueryParam :
      (s p : QueryParamMatch)
      → same_query_param s p ≡ true
      → MeetsQueryParam compile req p
      → MeetsQueryParam compile req s
  same_query_param-MeetsQueryParam s p e h =
      let (ab, c) = (&&_iff _ _).0 e in
      let (a, b) = (&&_iff _ _).0 ab in
      rw
        (
          (text_eq_iff p.name s.name).0 a,
          (text_eq_iff p.value s.value).0 b,
          bool_eq→eq p.is_regex s.is_regex c,
        )
        at h

  any-MeetsQueryParam :
      (s : QueryParamMatch) (sup : List QueryParamMatch)
      → any (same_query_param s) sup ≡ true
      → All (MeetsQueryParam compile req) sup
      → MeetsQueryParam compile req s
  unfolding any
  any-MeetsQueryParam s [] h _ = cc
  any-MeetsQueryParam s (p ∷ sup) h (now, later) = elim (Bool-cases (same_query_param s p)) [
    | inl e ↦ same_query_param-MeetsQueryParam s p e now
    | inr e ↦ any-MeetsQueryParam s sup (rw e at h) later
  ]

  query_params_subsume-MeetsQueryParam :
      (sup sub : List QueryParamMatch)
      → query_params_subsume sup sub ≡ true
      → All (MeetsQueryParam compile req) sup
      → All (MeetsQueryParam compile req) sub
  unfolding query_params_subsume
  query_params_subsume-MeetsQueryParam sup [] h met = tt
  query_params_subsume-MeetsQueryParam sup (s ∷ sub) h met =
      elim (Bool-cases (any (same_query_param s) sup)) [
        | inl e ↦ (
          any-MeetsQueryParam s sup e met,
          query_params_subsume-MeetsQueryParam sup sub (rw e at h) met,
        )
        | inr e ↦ absurd (ground (arith, h, e))
      ]

  -- A match that is at least as specific as another is stronger: every request that satisfies it
  -- satisfies the other, in method, headers and query parameters.
  pub at_least_as_specific-Satisfies :
      (a b : RouteMatch)
      → at_least_as_specific a b ≡ true
      → Satisfies compile req a
      → Satisfies compile req b
  unfolding at_least_as_specific
  at_least_as_specific-Satisfies a b h s = record {
    method = method-subsumes a.method b.method req.method (ground (arith, h)) s.method;
    headers = headers_subsume-MeetsHeader a.headers b.headers (ground (arith, h)) s.headers;
    query_params =
        query_params_subsume-MeetsQueryParam a.query_params b.query_params (ground (arith, h))
          s.query_params;
  }
