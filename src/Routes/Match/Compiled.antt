-- ===== src/Routes/Match/Compiled.antt =====
-- `CompileRegexes` only moves the work: a compiled route matches what the route as loaded matches.
use customrouter.Base.{
  ◌∙◌, sym, ap, subst, Text, lookup, Table, List, [], ◌∷◌, Option, none, some, ◌≡◌, refl, arith,
  All, to_lower,
}
use customrouter.Routes.{
  RequestMatch, Matcher, MatchMode, Route, RouteHeaderMatch, RouteQueryParamMatch, RouteType,
}
use customrouter.Routes.Match.{
  match_query_params, compile_query_params, compile_route, matches, ◌>>=◌, match_path, match_value,
  match_found, match_headers, compile_path, compile_value, compile_headers,
}

-- A route as decoded from JSON, which holds no compiled expression.
pub record IsFresh (r : Route) : Type 0 where
  pub path : r.compiled_regex ≡ none
  pub headers : All (λ (h : RouteHeaderMatch). h.compiled_regex ≡ none) r.headers
  pub params : All (λ (q : RouteQueryParamMatch). q.compiled_regex ≡ none) r.query_params

pub bind-eq-some {ℓ κ} :
    {A : Type ℓ} {B : Type κ} (m : Option A) (f : A → Option B) {b : B}
    → (m >>= f) ≡ some b
    → (a : A) × (m ≡ some a) × (f a ≡ some b)
bind-eq-some none f h = cc
bind-eq-some (some a) f h = (a, refl, h)

module _ (compile : Text → Option Matcher) where
  match_value-compiled :
      (t : MatchMode) (pattern value : Text) (re : Option Matcher)
      → compile_value compile t pattern none ≡ some re
      → match_value compile t re pattern value ≡ match_value compile t none pattern value
  unfolding match_value compile_value
  match_value-compiled MatchMode.exact pattern value re h = refl
  match_value-compiled (MatchMode.other t) pattern value re h = refl
  match_value-compiled MatchMode.regex pattern value re h =
      let (m, e, same) = bind-eq-some (compile pattern) (λ m. some (some m)) h in
      ground (arith, e, same)

  match_found-compiled :
      (t : MatchMode) (pattern : Text) (o : Option Text) (re : Option Matcher)
      → compile_value compile t pattern none ≡ some re
      → match_found compile t re pattern o ≡ match_found compile t none pattern o
  unfolding match_found
  match_found-compiled t pattern none re h = refl
  match_found-compiled t pattern (some v) re h = match_value-compiled t pattern v re h

  match_path-compiled :
      (t : RouteType) (pattern path : Text) (re : Option Matcher)
      → compile_path compile t pattern none ≡ some re
      → match_path compile t re pattern path ≡ match_path compile t none pattern path
  unfolding match_path compile_path
  match_path-compiled RouteType.regex pattern path re h =
      let (m, e, same) = bind-eq-some (compile pattern) (λ m. some (some m)) h in
      ground (arith, e, same)
  match_path-compiled _ pattern path re h = refl

  match_headers-compiled :
      (request : Table Text) (hs : List RouteHeaderMatch) (hs' : List RouteHeaderMatch)
      → All (λ (h : RouteHeaderMatch). h.compiled_regex ≡ none) hs
      → compile_headers compile hs ≡ some hs'
      → match_headers compile request hs' ≡ match_headers compile request hs
  unfolding match_headers compile_headers
  match_headers-compiled request [] hs' f e = ground arith
  match_headers-compiled request (h ∷ hs) hs' (fresh, f) e =
      let (re, e₁, k) =
        bind-eq-some (compile_value compile h.type h.value h.compiled_regex)
          (λ re. do
            rest ← compile_headers compile hs
            some (record h { compiled_regex = re } ∷ rest))
          e in
      let (rest, e₂, same) =
        bind-eq-some (compile_headers compile hs)
          (λ rest. some (record h { compiled_regex = re } ∷ rest)) k in
      let ih = match_headers-compiled request hs rest f e₂ in
      let now = match_found-compiled h.type h.value (lookup (to_lower h.name) request) re in
      ground (arith, same, ih, now, fresh, e₁)

  match_query_params-compiled :
      (request : Table Text) (qs qs' : List RouteQueryParamMatch)
      → All (λ (q : RouteQueryParamMatch). q.compiled_regex ≡ none) qs
      → compile_query_params compile qs ≡ some qs'
      → match_query_params compile request qs' ≡ match_query_params compile request qs
  unfolding match_query_params compile_query_params
  match_query_params-compiled request [] qs' f e = ground arith
  match_query_params-compiled request (q ∷ qs) qs' (fresh, f) e =
      let (re, e₁, k) =
        bind-eq-some (compile_value compile q.type q.value q.compiled_regex)
          (λ re. do
            rest ← compile_query_params compile qs
            some (record q { compiled_regex = re } ∷ rest))
          e in
      let (rest, e₂, same) =
        bind-eq-some (compile_query_params compile qs)
          (λ rest. some (record q { compiled_regex = re } ∷ rest)) k in
      let ih = match_query_params-compiled request qs rest f e₂ in
      let now = match_found-compiled q.type q.value (lookup q.name request) re in
      ground (arith, same, ih, now, fresh, e₁)

  -- The three compiled parts of a route.
  abbrev pub Compiled : Route → Route → Type 0
  Compiled r r' =
      (re : Option Matcher) × (hs : List RouteHeaderMatch) × (qs : List RouteQueryParamMatch)
      × (compile_path compile r.type r.path r.compiled_regex ≡ some re)
      × (compile_headers compile r.headers ≡ some hs)
      × (compile_query_params compile r.query_params ≡ some qs)
      × (record r { compiled_regex = re; headers = hs; query_params = qs } ≡ r')

  pub compile_route-Compiled : (r r' : Route) → compile_route compile r ≡ some r' → Compiled r r'
  unfolding compile_route
  compile_route-Compiled r r' e =
      let (re, e₁, k₁) =
        bind-eq-some (compile_path compile r.type r.path r.compiled_regex)
          (λ re. do
            hs ← compile_headers compile r.headers
            qs ← compile_query_params compile r.query_params
            some (record r { compiled_regex = re; headers = hs; query_params = qs }))
          e in
      let (hs, e₂, k₂) =
        bind-eq-some (compile_headers compile r.headers)
          (λ hs. do
            qs ← compile_query_params compile r.query_params
            some (record r { compiled_regex = re; headers = hs; query_params = qs }))
          k₁ in
      let (qs, e₃, k₃) =
        bind-eq-some (compile_query_params compile r.query_params)
          (λ qs. some (record r { compiled_regex = re; headers = hs; query_params = qs })) k₂ in
      (re, hs, qs, e₁, e₂, e₃, ground (arith, k₃))

  -- Compiling a route that holds no compiled expression yet changes neither which requests it
  -- matches nor its path, type, backend, priority, method and actions.
  pub matches-compile_route :
      (r r' : Route) (req : RequestMatch)
      → IsFresh r
      → compile_route compile r ≡ some r'
      → (matches compile req r' ≡ matches compile req r)
        × (r'.path ≡ r.path)
        × (r'.type ≡ r.type)
        × (r'.backend ≡ r.backend)
        × (r'.priority ≡ r.priority)
        × (r'.method ≡ r.method)
        × (r'.actions ≡ r.actions)
  unfolding matches
  matches-compile_route r r' req f e =
      let (re, hs, qs, e₁, e₂, e₃, same) = compile_route-Compiled r r' e in
      let p =
        match_path-compiled r.type r.path req.path re
          (subst (λ o. compile_path compile r.type r.path o ≡ some re) f.path e₁) in
      let h = match_headers-compiled req.headers r.headers hs f.headers e₂ in
      let q = match_query_params-compiled req.query_params r.query_params qs f.params e₃ in
      let kept : matches compile req
            (record r { compiled_regex = re; headers = hs; query_params = qs })
          ≡ matches compile req r =
        rw (h, q, f.path, p) in
      (
        ap (matches compile req) (sym same) ∙ kept,
        ap (λ (x : Route). x.path) (sym same),
        ap (λ (x : Route). x.type) (sym same),
        ap (λ (x : Route). x.backend) (sym same),
        ap (λ (x : Route). x.priority) (sym same),
        ap (λ (x : Route). x.method) (sym same),
        ap (λ (x : Route). x.actions) (sym same),
      )
