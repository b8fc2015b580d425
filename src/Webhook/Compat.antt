-- ===== src/Webhook/Compat.antt =====
-- The check is sound: two matches that some request satisfies are compatible.
use customrouter.Base.{
  some-inj, Text, text_eq, text_eq_iff, All, Table, lookup, insert, lookup-insert, Bool, true,
  false, List, [], ◌∷◌, Option, none, some, ◌≡◌, inl, inr, refl, sym, subst, ◌∙◌, arith, Bool-cases,
  equal_fold, to_lower,
}
use customrouter.Routes.{Matcher, MatchMode, RequestMatch}
use customrouter.Routes.Match.{match_value, match_method, match_found}
use customrouter.Webhook.{
  HeaderMatch, QueryParamMatch, RouteMatch, header_map, header_agrees, headers_agree,
  headers_compatible, query_param_map, query_param_agrees, query_params_agree,
  query_params_compatible, methods_compatible, matches_request_compat,
}

-- The mode in which the route table compares.
abbrev pub mode : Bool → MatchMode
mode true = MatchMode.regex
mode false = MatchMode.other []

-- Two exact criteria that one value meets ask for the same value.
same_value :
    (compile : Text → Option Matcher) (x y : Text) (o : Option Text)
    → match_found compile (MatchMode.other []) none x o ≡ true
    → match_found compile (MatchMode.other []) none y o ≡ true
    → text_eq x y ≡ true
unfolding match_found match_value
same_value compile x y none h k = cc
same_value compile x y (some v) h k =
    (text_eq_iff x y).1 (sym ((text_eq_iff v x).0 h) ∙ (text_eq_iff v y).0 k)

methods-compatible :
    (a b method : Text)
    → match_method a method ≡ true
    → match_method b method ≡ true
    → methods_compatible a b ≡ true
unfolding match_method methods_compatible equal_fold
methods-compatible a b method h k = ground (
  arith,
  h,
  k,
  text_eq_iff (to_lower a) (to_lower b),
  text_eq_iff (to_lower a) (to_lower method),
  text_eq_iff (to_lower b) (to_lower method),
)

module _ (compile : Text → Option Matcher) (req : RequestMatch) where
  -- A request meets a criterion as the route table tests it.
  abbrev pub MeetsHeader : HeaderMatch → Type 0
  MeetsHeader h =
      match_found compile (mode h.is_regex) none h.value (lookup (to_lower h.name) req.headers)
      ≡ true

  abbrev pub MeetsQueryParam : QueryParamMatch → Type 0
  MeetsQueryParam q =
      match_found compile (mode q.is_regex) none q.value (lookup q.name req.query_params) ≡ true

  pub record Satisfies (m : RouteMatch) : Type 0 where
    pub method : match_method m.method req.method ≡ true
    pub headers : All MeetsHeader m.headers
    pub query_params : All MeetsQueryParam m.query_params

  -- The entries of the map are criteria that the request meets, under their own names.
  abbrev IsMetHeader : Text → HeaderMatch → Type 0
  IsMetHeader k h = (to_lower h.name ≡ k) × MeetsHeader h

  header_map-IsMetHeader :
      (hs : List HeaderMatch) (m : Table HeaderMatch)
      → All MeetsHeader hs
      → ((k : Text) (h : HeaderMatch) → lookup k m ≡ some h → IsMetHeader k h)
      → (k : Text) (h : HeaderMatch) → lookup k (header_map hs m) ≡ some h
      → IsMetHeader k h
  unfolding header_map
  header_map-IsMetHeader [] m _ met = met
  header_map-IsMetHeader (g ∷ hs) m (now, later) met =
      header_map-IsMetHeader hs (insert (to_lower g.name) g m) later (λ k h e.
        elim (Bool-cases (text_eq (to_lower g.name) k)) [
          | inl t ↦
              let same : g ≡ h =
                some-inj (sym (lookup-insert (to_lower g.name) k g m ∙ rw t refl) ∙ e) in
              subst (IsMetHeader k) same ((text_eq_iff (to_lower g.name) k).0 t, now)
          | inr t ↦ met k h (sym (lookup-insert (to_lower g.name) k g m ∙ rw t refl) ∙ e)
        ])

  meets-header_agrees :
      (h : HeaderMatch) (o : Option HeaderMatch)
      → MeetsHeader h
      → ((b : HeaderMatch) → o ≡ some b → IsMetHeader (to_lower h.name) b)
      → header_agrees h o ≡ true
  meets-header_agrees h none _ _ = refl
  meets-header_agrees h (some b) now met =
      let (key, other) = met b refl in
      elim (Bool-cases h.is_regex) [
        | inl e ↦ rw e refl
        | inr e ↦ elim (Bool-cases b.is_regex) [
          | inl f ↦ rw (e, f) refl
          | inr f ↦
              rw (e, f)
                (same_value compile b.value h.value (lookup (to_lower h.name) req.headers)
                  (rw (f, key) at other) (rw e at now))
        ]
      ]

  meets-headers_agree :
      (m : Table HeaderMatch) (hs : List HeaderMatch)
      → All MeetsHeader hs
      → ((k : Text) (h : HeaderMatch) → lookup k m ≡ some h → IsMetHeader k h)
      → headers_agree m hs ≡ true
  unfolding headers_agree
  meets-headers_agree m [] _ met = refl
  meets-headers_agree m (h ∷ hs) (now, later) met =
      rw
        (
          meets-header_agrees h (lookup (to_lower h.name) m) now (met (to_lower h.name)),
          meets-headers_agree m hs later met,
        )
        refl

  no_header : (k : Text) (h : HeaderMatch) → lookup k [] ≡ some h → IsMetHeader k h
  unfolding lookup
  no_header k h e = cc

  meets-headers_compatible :
      (a b : List HeaderMatch)
      → All MeetsHeader a
      → All MeetsHeader b
      → headers_compatible a b ≡ true
  unfolding headers_compatible
  meets-headers_compatible a b ha hb =
      rw (meets-headers_agree (header_map b []) a ha (header_map-IsMetHeader b [] hb no_header))
        (ground arith)

  -- The same for the query parameters, whose names keep their case.
  abbrev IsMetQueryParam : Text → QueryParamMatch → Type 0
  IsMetQueryParam k h = (h.name ≡ k) × MeetsQueryParam h

  query_param_map-IsMetQueryParam :
      (hs : List QueryParamMatch) (m : Table QueryParamMatch)
      → All MeetsQueryParam hs
      → ((k : Text) (h : QueryParamMatch) → lookup k m ≡ some h → IsMetQueryParam k h)
      → (k : Text) (h : QueryParamMatch) → lookup k (query_param_map hs m) ≡ some h
      → IsMetQueryParam k h
  unfolding query_param_map
  query_param_map-IsMetQueryParam [] m _ met = met
  query_param_map-IsMetQueryParam (g ∷ hs) m (now, later) met =
      query_param_map-IsMetQueryParam hs (insert (g.name) g m) later (λ k h e.
        elim (Bool-cases (text_eq (g.name) k)) [
          | inl t ↦
              let same : g ≡ h = some-inj (sym (lookup-insert (g.name) k g m ∙ rw t refl) ∙ e) in
              subst (IsMetQueryParam k) same ((text_eq_iff (g.name) k).0 t, now)
          | inr t ↦ met k h (sym (lookup-insert (g.name) k g m ∙ rw t refl) ∙ e)
        ])

  meets-query_param_agrees :
      (h : QueryParamMatch) (o : Option QueryParamMatch)
      → MeetsQueryParam h
      → ((b : QueryParamMatch) → o ≡ some b → IsMetQueryParam (h.name) b)
      → query_param_agrees h o ≡ true
  meets-query_param_agrees h none _ _ = refl
  meets-query_param_agrees h (some b) now met =
      let (key, other) = met b refl in
      elim (Bool-cases h.is_regex) [
        | inl e ↦ rw e refl
        | inr e ↦ elim (Bool-cases b.is_regex) [
          | inl f ↦ rw (e, f) refl
          | inr f ↦
              rw (e, f)
                (same_value compile b.value h.value (lookup (h.name) req.query_params)
                  (rw (f, key) at other) (rw e at now))
        ]
      ]

  meets-query_params_agree :
      (m : Table QueryParamMatch) (hs : List QueryParamMatch)
      → All MeetsQueryParam hs
      → ((k : Text) (h : QueryParamMatch) → lookup k m ≡ some h → IsMetQueryParam k h)
      → query_params_agree m hs ≡ true
  unfolding query_params_agree
  meets-query_params_agree m [] _ met = refl
  meets-query_params_agree m (h ∷ hs) (now, later) met =
      rw
        (
          meets-query_param_agrees h (lookup (h.name) m) now (met (h.name)),
          meets-query_params_agree m hs later met,
        )
        refl

  no_query_param : (k : Text) (h : QueryParamMatch) → lookup k [] ≡ some h → IsMetQueryParam k h
  unfolding lookup
  no_query_param k h e = cc

  meets-query_params_compatible :
      (a b : List QueryParamMatch)
      → All MeetsQueryParam a
      → All MeetsQueryParam b
      → query_params_compatible a b ≡ true
  unfolding query_params_compatible
  meets-query_params_compatible a b ha hb =
      rw
        (meets-query_params_agree (query_param_map b []) a ha
          (query_param_map-IsMetQueryParam b [] hb no_query_param))
        (ground arith)

  -- Two route matches of one path type and path that a request satisfies both, each tested as the
  -- route table tests it, are never found incompatible: no possible overlap is missed.
  pub Satisfies-matches_request_compat :
      (a b : RouteMatch)
      → a.path_type ≡ b.path_type
      → a.path ≡ b.path
      → Satisfies a
      → Satisfies b
      → matches_request_compat a b ≡ true
  unfolding matches_request_compat
  Satisfies-matches_request_compat a b t p sa sb =
      rw
        (
          (text_eq_iff a.path_type b.path_type).1 t,
          (text_eq_iff a.path b.path).1 p,
          methods-compatible a.method b.method req.method sa.method sb.method,
          meets-headers_compatible a.headers b.headers sa.headers sb.headers,
          meets-query_params_compatible a.query_params b.query_params sa.query_params
              sb.query_params,
        )
        refl
