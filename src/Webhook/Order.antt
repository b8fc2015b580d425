-- ===== src/Webhook/Order.antt =====
-- A pair of matches that the check lets pass since one is more specific is strictly ordered by
-- `SortRoutes`.
use customrouter.Base.{
  false≢true, ℕ, ◌≤◌, Text, text_eq, text_eq_iff, length, All, any, is_empty, Bool, true, false,
  not, ◌&&◌, List, [], ◌∷◌, ◌≡◌, ◌↔◌, inl, inr, refl, sym, ◌∙◌, arith, ◌==◌, if◌then◌else◌,
  Bool-cases, equal_fold, to_lower,
}
use customrouter.Base.Int.{ℤ, int_lt}
use customrouter.Routes.{Route}
use customrouter.Routes.Sort.{
  less, by_priority, by_type, by_count, type_priority, route_method_specificity,
}
use customrouter.Webhook.{
  HeaderMatch, QueryParamMatch, RouteMatch, same_header, headers_subsume, same_query_param,
  query_params_subsume, at_least_as_specific, specificity_resolvable, effective_priority,
}
use customrouter.Webhook.Counting.{DistinctBy, Covered-length, Covered-back}

-- The route that the table holds for a match: its effective priority, its method and as many
-- criteria.
pub record IsRouteOf (m : RouteMatch) (r : Route) : Type 0 where
  pub priority : r.priority ≡ effective_priority m
  pub method : r.method ≡ m.method
  pub headers : length r.headers ≡ length m.headers
  pub query_params : length r.query_params ≡ length m.query_params

abbrev pub header_key : HeaderMatch → Text
header_key h = to_lower h.name

abbrev pub query_param_key : QueryParamMatch → Text
query_param_key q = q.name

same_header-key : (s p : HeaderMatch) → same_header s p ≡ true → header_key s ≡ header_key p
unfolding equal_fold
same_header-key s p h =
    sym ((text_eq_iff (to_lower p.name) (to_lower s.name)).0 (ground (arith, h)))

same_header-sym : (s p : HeaderMatch) → same_header s p ≡ true → same_header p s ≡ true
unfolding equal_fold
same_header-sym s p h = ground (
  arith,
  h,
  text_eq_iff (to_lower p.name) (to_lower s.name),
  text_eq_iff (to_lower s.name) (to_lower p.name),
  text_eq_iff p.value s.value,
  text_eq_iff s.value p.value,
)

same_query_param-key :
    (s p : QueryParamMatch) → same_query_param s p ≡ true → query_param_key s ≡ query_param_key p
same_query_param-key s p h = sym ((text_eq_iff p.name s.name).0 (ground (arith, h)))

same_query_param-sym :
    (s p : QueryParamMatch) → same_query_param s p ≡ true → same_query_param p s ≡ true
same_query_param-sym s p h = ground (
  arith,
  h,
  text_eq_iff p.name s.name,
  text_eq_iff s.name p.name,
  text_eq_iff p.value s.value,
  text_eq_iff s.value p.value,
)

headers_subsume-Covered :
    (sup sub : List HeaderMatch)
    → (headers_subsume sup sub ≡ true) ↔ All (λ s. any (same_header s) sup ≡ true) sub
unfolding headers_subsume
headers_subsume-Covered sup [] = (λ _. tt, λ _. refl)
headers_subsume-Covered sup (s ∷ sub) =
    let ih = headers_subsume-Covered sup sub in
    (λ h. (ground (arith, h), ih.0 (ground (arith, h))), λ (e, h). rw (e, ih.1 h) refl)

query_params_subsume-Covered :
    (sup sub : List QueryParamMatch)
    → (query_params_subsume sup sub ≡ true) ↔ All (λ s. any (same_query_param s) sup ≡ true) sub
unfolding query_params_subsume
query_params_subsume-Covered sup [] = (λ _. tt, λ _. refl)
query_params_subsume-Covered sup (s ∷ sub) =
    let ih = query_params_subsume-Covered sup sub in
    (λ h. (ground (arith, h), ih.0 (ground (arith, h))), λ (e, h). rw (e, ih.1 h) refl)

-- 1 for a method, 0 for none.
abbrev specificity : Text → ℕ
specificity method = if is_empty method then 0 else 1

abbrev method_differs : Text → Text → Bool
method_differs a b = not (is_empty b) && not (equal_fold a b)

method_differs-le : (a b : Text) → method_differs a b ≡ false → specificity b ≤ specificity a
unfolding equal_fold to_lower text_eq
method_differs-le [] [] h = omega arith
method_differs-le [] (c ∷ b) h = cc
method_differs-le (x ∷ a) [] h = omega arith
method_differs-le (x ∷ a) (c ∷ b) h = omega arith

method_differs-back :
    (a b : Text)
    → method_differs a b ≡ false
    → specificity a ≡ specificity b
    → method_differs b a ≡ false
unfolding equal_fold
method_differs-back a b h e =
    ground
      (arith, h, e, text_eq_iff (to_lower a) (to_lower b), text_eq_iff (to_lower b) (to_lower a))

by_count-le : (x y : ℕ) (rest : Bool) → y ≤ x → (x ≡ y → rest ≡ true) → by_count x y rest ≡ true
by_count-le x y rest le tie = elim (Bool-cases (x == y)) [
  | inl e ↦ rw e (tie (ground arith))
  | inr e ↦ ground arith
]

by_priority-le :
    (x y : ℤ) (rest : Bool) → int_lt x y ≡ false → rest ≡ true → by_priority x y rest ≡ true
by_priority-le (ℤ.pos a) (ℤ.pos b) rest h e = ground (arith, h, e)
by_priority-le (ℤ.pos a) (ℤ.negsuc b) rest h e = refl
by_priority-le (ℤ.negsuc a) (ℤ.pos b) rest h e = cc
by_priority-le (ℤ.negsuc a) (ℤ.negsuc b) rest h e = ground (arith, h, e)

by_type-tie : (x y : ℕ) (rest : Bool) → x ≡ y → rest ≡ true → by_type x y rest ≡ true
by_type-tie x y rest e h = ground arith

-- The criteria of one kind, of the less specific match, are not more.
module _ (a b : RouteMatch) (more : at_least_as_specific a b ≡ true) where
  method-differs : method_differs a.method b.method ≡ false
  unfolding at_least_as_specific
  method-differs = ground (arith, more)

  headers-covered : All (λ s. any (same_header s) a.headers ≡ true) b.headers
  unfolding at_least_as_specific
  headers-covered = (headers_subsume-Covered a.headers b.headers).0 (ground (arith, more))

  query_params-covered : All (λ s. any (same_query_param s) a.query_params ≡ true) b.query_params
  unfolding at_least_as_specific
  query_params-covered =
      (query_params_subsume-Covered a.query_params b.query_params).0 (ground (arith, more))

  -- As many criteria of each kind: the two are equally specific.
  equally_specific :
      DistinctBy header_key b.headers
      → DistinctBy query_param_key b.query_params
      → specificity a.method ≡ specificity b.method
      → length a.headers ≡ length b.headers
      → length a.query_params ≡ length b.query_params
      → at_least_as_specific b a ≡ true
  unfolding at_least_as_specific
  equally_specific dh dq em eh eq =
      let m = method_differs-back a.method b.method method-differs em in
      let h = (headers_subsume-Covered b.headers a.headers).1 (
        Covered-back same_header header_key same_header-key same_header-sym b.headers a.headers dh
          headers-covered (omega (arith, eh))) in
      let q = (query_params_subsume-Covered b.query_params a.query_params).1 (
        Covered-back same_query_param query_param_key same_query_param-key same_query_param-sym
          b.query_params a.query_params dq query_params-covered (omega (arith, eq))) in
      rw (m, h, q) refl

  -- A pair that the check lets pass because one match is more specific: on routes of one type whose
  -- paths are equally long, and with distinct header names, up to case, and parameter names in the
  -- less specific match, `SortRoutes` puts the more specific route strictly first.
  pub specificity_resolvable-less :
      (ra rb : Route)
      → IsRouteOf a ra
      → IsRouteOf b rb
      → type_priority ra.type ≡ type_priority rb.type
      → length ra.path ≡ length rb.path
      → DistinctBy header_key b.headers
      → DistinctBy query_param_key b.query_params
      → at_least_as_specific b a ≡ false
      → specificity_resolvable a b ≡ true
      → less ra rb ≡ true
  unfolding less specificity_resolvable route_method_specificity
  specificity_resolvable-less ra rb ia ib et ep dh dq strict h =
      let priority : int_lt (effective_priority a) (effective_priority b) ≡ false =
        ground (arith, h, more, strict) in
      let m = method_differs-le a.method b.method method-differs in
      let hs =
        Covered-length same_header header_key same_header-key same_header-sym b.headers a.headers dh
          headers-covered in
      let qs =
        Covered-length same_query_param query_param_key same_query_param-key same_query_param-sym
          b.query_params a.query_params dq query_params-covered in
      rw
        (
          ia.priority, ib.priority, ia.method, ib.method, ia.headers, ib.headers, ia.query_params,
          ib.query_params,
        )
        (by_priority-le (effective_priority a) (effective_priority b) _ priority (
          by_type-tie (type_priority ra.type) (type_priority rb.type) _ et (
            by_count-le (length ra.path) (length rb.path) _ (omega (arith, ep)) (λ _.
              by_count-le (specificity a.method) (specificity b.method) _ m (λ em.
                by_count-le (length a.headers) (length b.headers) _ hs (λ eh.
                  by_count-le (length a.query_params) (length b.query_params) _ qs
                    (λ eq. absurd (false≢true (sym strict ∙ equally_specific dh dq em eh eq)))))))))
