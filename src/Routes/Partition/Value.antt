-- ===== src/Routes/Partition/Value.antt =====
-- What the partition value of a route says about the requests that it matches.
use customrouter.Routes.Partition.{is_regex, scan_value, route_partition_value}
use customrouter.Routes.{MatchMode, Route, Matcher, RouteHeaderMatch}
use customrouter.Base.{
  ℕ, ◌+◌, Text, text_eq_iff, Table, lookup, true, false, &&_iff, List, [], ◌∷◌, Option, none, some,
  ◌≡◌, ◌⊎◌, inl, inr, refl, ap, ap₂, subst, ◌∙◌, arith, Bool-cases, equal_fold, to_lower,
}
use customrouter.Routes.Match.{match_value, match_found, match_headers}

pub to_lower_idem : (s : Text) → to_lower (to_lower s) ≡ to_lower s
unfolding to_lower
to_lower_idem [] = refl
to_lower_idem (c ∷ s) = ap₂ ◌∷◌ (ground arith) (to_lower_idem s)

module _ (compile : Text → Option Matcher) (header : Text) (lowered : to_lower header ≡ header)
    (request : Table Text) where
  -- One exact criterion that the request meets.
  exact_found :
      (h : RouteHeaderMatch)
      → equal_fold h.name header ≡ true
      → is_regex h.type ≡ false
      → match_found compile h.type h.compiled_regex h.value (lookup (to_lower h.name) request)
        ≡ true
      → lookup header request ≡ some h.value
  unfolding match_found match_value equal_fold
  exact_found h e x m =
      let same : to_lower h.name ≡ header = (text_eq_iff _ _).0 e ∙ lowered in
      let m' =
        subst (λ n. match_found compile h.type h.compiled_regex h.value (lookup n request) ≡ true)
          same m in
      go (lookup header request) h.type x m'
    where
      go :
          (o : Option Text) (t : MatchMode)
          → is_regex t ≡ false
          → match_found compile t h.compiled_regex h.value o ≡ true
          → o ≡ some h.value
      go none t x m = cc
      go (some v) MatchMode.regex x m = cc
      go (some v) MatchMode.exact x m = ap some ((text_eq_iff v h.value).0 m)
      go (some v) (MatchMode.other t) x m = ap some ((text_eq_iff v h.value).0 m)

  -- With the loop's state: either nothing was found before, or the value found is the request's.
  scan_value-lookup :
      (hs : List RouteHeaderMatch) (value : Text) (count : ℕ) (w : Text)
      → ((count ≡ 0) ⊎ (lookup header request ≡ some value))
      → match_headers compile request hs ≡ true
      → scan_value header hs value count ≡ some w
      → lookup header request ≡ some w
  unfolding scan_value match_headers
  scan_value-lookup [] value count w (inl e) m s = absurd (ground arith)
  scan_value-lookup [] value count w (inr e) m s = ground arith
  scan_value-lookup (h ∷ hs) value count w f m s =
      let (now, later) = (&&_iff _ _).0 m in
      elim (Bool-cases (equal_fold h.name header)) [
        | inr e ↦ scan_value-lookup hs value count w f later (ground (arith, s, e))
        | inl e ↦ elim (Bool-cases (is_regex h.type)) [
          | inl x ↦ absurd (ground (arith, s, e, x))
          | inr x ↦
              scan_value-lookup hs h.value (count + 1) w (inr (exact_found h e x now)) later
                (ground (arith, s, e, x))
        ]
      ]

  -- A route that matches a request has no partition value, or the request's own.
  pub route_partition_value-lookup :
      (r : Route) (w : Text)
      → match_headers compile request r.headers ≡ true
      → route_partition_value r header ≡ some w
      → lookup header request ≡ some w
  unfolding route_partition_value
  route_partition_value-lookup r w m s = scan_value-lookup r.headers [] 0 w (inl refl) m s
