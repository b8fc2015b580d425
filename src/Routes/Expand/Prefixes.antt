-- ===== src/Routes/Expand/Prefixes.antt =====
-- The policy Required: no expanded route serves a path outside the prefixes.
use customrouter.Routes.Actions.{actions_need_preserve_prefix, apply_preserve_prefix}
use customrouter.Base.{
  length-append, ℕ, zero, suc, ◌+◌, ◌-◌, Text, codes, text_eq, text_eq_iff, length, All, any, true,
  false, List, [], ◌∷◌, ◌++◌, append_assoc, append-nil, Option, none, ◌≡◌, ◌≢◌, ◌⊎◌, inl, inr, refl,
  sym, ap, subst, ◌∙◌, arith, if◌then◌else◌, Bool-cases, has_prefix, has_suffix, trim_suffix, take,
  drop, has_prefix→append,
}
use customrouter.Api.{PathMatch, PathPrefixPolicy, MatchType}
use customrouter.Routes.{Matcher, RouteType, RouteAction, RequestMatch}
use customrouter.Routes.Match.{match_prefix, match_path, matches}
use customrouter.Routes.Match.Path.{IsUnder, match_prefix_iff, trim_suffix_of_open}
use customrouter.Routes.Policy.{should_expand_match_type}
use customrouter.Routes.Expand.{
  prefix_path, route_for, prefixed_routes, by_policy, expand_match, is_regex_match, get_match_type,
}

take-append_add : (xs ys : Text) (n : ℕ) → take (length xs + n) (xs ++ ys) ≡ xs ++ take n ys
take-append_add [] ys n = let e : 0 + n ≡ n = omega arith in ap (λ k. take k ys) e
take-append_add (x ∷ xs) ys n =
    let e : suc (length xs) + n ≡ suc (length xs + n) = omega arith in
    ap (λ k. take k (x ∷ (xs ++ ys))) e ∙ ap (◌∷◌ x) (take-append_add xs ys n)

IsUnder-take : (base rest : Text) (n : ℕ) → IsUnder base (base ++ take n (b'/' ∷ rest))
IsUnder-take base rest zero = inl (append-nil base)
IsUnder-take base rest (suc n) = inr (take n rest, refl)

-- A prefix route for a path behind the base matches only paths under the base.
match_prefix-IsUnder :
    (base rest path : Text) → match_prefix (base ++ b'/' ∷ rest) path ≡ true → IsUnder base path
unfolding match_prefix trim_suffix
match_prefix-IsUnder base rest path m = elim (Bool-cases (has_prefix path (base ++ b'/' ∷ rest))) [
  | inl p ↦
      let whole = base ++ b'/' ∷ rest in
      inr (
        rest ++ drop (length whole) path,
        has_prefix→append path whole p ∙ append_assoc base (b'/' ∷ rest) (drop (length whole) path),
      )
  | inr p ↦
      let same : path ≡ take (length (base ++ b'/' ∷ rest) - 1) (base ++ b'/' ∷ rest) =
        (text_eq_iff _ _).0 (ground (arith, m, p)) in
      let count : length (base ++ b'/' ∷ rest) - 1 ≡ length base + length rest =
        omega (arith, length-append base (b'/' ∷ rest)) in
      let cut : path ≡ base ++ take (length rest) (b'/' ∷ rest) =
        same
        ∙ ap (λ k. take k (base ++ b'/' ∷ rest)) count
        ∙ take-append_add base (b'/' ∷ rest) (length rest) in
      subst (IsUnder base) (sym cut) (IsUnder-take base rest (length rest))
]

-- The path of a prefixed route is the prefix as a segment, with or without more behind it.
prefix_path-cases :
    (prefix rest : Text)
    → (prefix_path prefix (b'/' ∷ rest) ≡ b'/' ∷ prefix)
      ⊎ (prefix_path prefix (b'/' ∷ rest) ≡ (b'/' ∷ prefix) ++ b'/' ∷ rest)
unfolding prefix_path
prefix_path-cases prefix rest = elim (Bool-cases (text_eq (b'/' ∷ rest) (codes "/"))) [
  | inl e ↦ inl (rw e)
  | inr e ↦ inr (rw e)
]

-- The path lies under one of the prefixes.
abbrev pub IsUnderSome : List Text → Text → Type 0
IsUnderSome [] path = ⊥
IsUnderSome (prefix ∷ prefixes) path = IsUnder (b'/' ∷ prefix) path ⊎ IsUnderSome prefixes path

get_match_type-ne-regex :
    (t : MatchType) → is_regex_match t ≡ false → get_match_type t ≢ RouteType.regex
unfolding get_match_type
get_match_type-ne-regex MatchType.regex h = cc
get_match_type-ne-regex MatchType.exact h = cc
get_match_type-ne-regex MatchType.path_prefix h = cc
get_match_type-ne-regex (MatchType.other t) h = cc

module _ (compile : Text → Option Matcher) where
  match_path-IsUnder :
      (type : RouteType) (prefix rest path : Text)
      → type ≢ RouteType.regex
      → has_suffix (b'/' ∷ prefix) (codes "/") ≡ false
      → match_path compile type none (prefix_path prefix (b'/' ∷ rest)) path ≡ true
      → IsUnder (b'/' ∷ prefix) path
  unfolding match_path
  match_path-IsUnder RouteType.exact prefix rest path t e m = elim (prefix_path-cases prefix rest) [
    | inl p ↦ inl ((text_eq_iff _ _).0 m ∙ p)
    | inr p ↦ inr (rest, (text_eq_iff _ _).0 m ∙ p)
  ]
  match_path-IsUnder RouteType.prefix prefix rest path t e m =
      elim (prefix_path-cases prefix rest) [
        | inl p ↦
            subst (λ b. IsUnder b path) (trim_suffix_of_open (b'/' ∷ prefix) e)
              ((match_prefix_iff (b'/' ∷ prefix) path).0
                (subst (λ x. match_prefix x path ≡ true) p m))
        | inr p ↦
            match_prefix-IsUnder (b'/' ∷ prefix) rest path
              (subst (λ x. match_prefix x path ≡ true) p m)
      ]
  match_path-IsUnder RouteType.regex prefix rest path t e m = absurd (t refl)
  match_path-IsUnder (RouteType.other o) prefix rest path t e m = cc

  matches-route_for :
      (backend : Text) (m : PathMatch) (path : Text) (actions : List RouteAction)
      (req : RequestMatch)
      → matches compile req (route_for backend m path actions) ≡ true
      → match_path compile (get_match_type m.type) none path req.path ≡ true
  unfolding matches route_for
  matches-route_for backend m path actions req h = ground (arith, h)

  prefixed_routes-IsUnderSome :
      (backend : Text) (m : PathMatch) (actions : List RouteAction) (prefixes : List Text)
      (rest : Text) (req : RequestMatch)
      → is_regex_match m.type ≡ false
      → m.path ≡ b'/' ∷ rest
      → All (λ p. has_suffix (b'/' ∷ p) (codes "/") ≡ false) prefixes
      → any (matches compile req) (prefixed_routes backend m actions prefixes) ≡ true
      → IsUnderSome prefixes req.path
  unfolding any prefixed_routes
  prefixed_routes-IsUnderSome backend m actions [] rest req t e h f = cc
  prefixed_routes-IsUnderSome backend m actions (p ∷ prefixes) rest req t e (hp, h) f =
      let actions' =
        if actions_need_preserve_prefix actions then apply_preserve_prefix actions p else actions in
      let r = route_for backend m (prefix_path p m.path) actions' in
      elim (Bool-cases (matches compile req r)) [
        | inl now ↦ inl (
            match_path-IsUnder (get_match_type m.type) p rest req.path
              (get_match_type-ne-regex m.type t) hp
              (subst
                (λ x.
                  match_path compile (get_match_type m.type) none (prefix_path p x) req.path ≡ true)
                e (matches-route_for backend m (prefix_path p m.path) actions' req now)))
        | inr later ↦ inr (
            prefixed_routes-IsUnderSome backend m actions prefixes rest req t e h
              (ground (arith, f, later)))
      ]

  -- Under the policy Required, a match of type Exact or PathPrefix that is expanded and whose path
  -- begins with a slash serves only requests whose path lies under one of the prefixes, as a whole
  -- segment. The prefixes are not empty and do not end in a slash.
  pub expand_match-IsUnderSome :
      (types : List MatchType) (prefixes : List Text) (backend : Text) (actions : List RouteAction)
      (m : PathMatch) (rest : Text) (req : RequestMatch)
      → should_expand_match_type m.type types ≡ true
      → is_regex_match m.type ≡ false
      → m.path ≡ b'/' ∷ rest
      → All (λ p. has_suffix (b'/' ∷ p) (codes "/") ≡ false) prefixes
      → any
          (matches compile req)
          (expand_match PathPrefixPolicy.required types prefixes backend actions m)
        ≡ true
      → IsUnderSome prefixes req.path
  unfolding expand_match by_policy
  expand_match-IsUnderSome types prefixes backend actions m rest req s t e h f =
      prefixed_routes-IsUnderSome backend m actions prefixes rest req t e h
        (ground (arith, f, s, t))
