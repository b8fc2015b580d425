-- ===== src/Routes/Loader/Compiled.antt =====
-- Compiling the expressions keeps a table sorted and its hosts distinct.
use customrouter.Base.{
  Text, text_eq, length, All, Table, lookup, false, List, [], ◌∷◌, Option, none, some, ◌≡◌, inl,
  inr, refl, subst, ◌∙◌, arith, Bool-cases, IsMap, some-inj,
}
use customrouter.Base.Sorting.{IsSorted}
use customrouter.Routes.{Matcher, Route, RouteHeaderMatch, RouteQueryParamMatch}
use customrouter.Routes.Match.{
  ◌>>=◌, compile_value, compile_headers, compile_query_params, compile_route, compile_routes,
  compile_hosts,
}
use customrouter.Routes.Match.Compiled.{bind-eq-some, compile_route-Compiled}
use customrouter.Routes.Sort.{less}

-- Every list of a table is sorted.
abbrev pub IsSortedTable : Table (List Route) → Type 0
IsSortedTable hosts = All (λ entry. IsSorted less entry.1) hosts

module _ (compile : Text → Option Matcher) where
  length-compile_headers :
      (hs hs' : List RouteHeaderMatch)
      → compile_headers compile hs ≡ some hs'
      → length hs' ≡ length hs
  unfolding compile_headers
  length-compile_headers [] hs' e = ground arith
  length-compile_headers (h ∷ hs) hs' e =
      let (re, e₁, k) =
        bind-eq-some (compile_value compile h.type h.value h.compiled_regex)
          (λ re. do
            rest ← compile_headers compile hs
            some (record h { compiled_regex = re } ∷ rest))
          e in
      let (rest, e₂, same) =
        bind-eq-some (compile_headers compile hs)
          (λ rest. some (record h { compiled_regex = re } ∷ rest)) k in
      ground (arith, same, length-compile_headers hs rest e₂)

  length-compile_query_params :
      (qs qs' : List RouteQueryParamMatch)
      → compile_query_params compile qs ≡ some qs'
      → length qs' ≡ length qs
  unfolding compile_query_params
  length-compile_query_params [] qs' e = ground arith
  length-compile_query_params (q ∷ qs) qs' e =
      let (re, e₁, k) =
        bind-eq-some (compile_value compile q.type q.value q.compiled_regex)
          (λ re. do
            rest ← compile_query_params compile qs
            some (record q { compiled_regex = re } ∷ rest))
          e in
      let (rest, e₂, same) =
        bind-eq-some (compile_query_params compile qs)
          (λ rest. some (record q { compiled_regex = re } ∷ rest)) k in
      ground (arith, same, length-compile_query_params qs rest e₂)

  -- The order reads nothing that compiling changes.
  less-compiled :
      (a b a' b' : Route)
      → compile_route compile a ≡ some a'
      → compile_route compile b ≡ some b'
      → less a' b' ≡ less a b
  unfolding less
  less-compiled a b a' b' ea eb =
      let (_, hs, qs, _, h, q, same) = compile_route-Compiled compile a a' ea in
      let (_, hs', qs', _, h', q', same') = compile_route-Compiled compile b b' eb in
      rw (
        ← same,
        ← same',
        length-compile_headers a.headers hs h,
        length-compile_headers b.headers hs' h',
        length-compile_query_params a.query_params qs q,
        length-compile_query_params b.query_params qs' q',
      )

  -- Two lists of routes, each of the second the compiled one of the first.
  data Compiles : List Route → List Route → Type 0 where
    nil : Compiles [] []
    cons :
        {r r' : Route} {rs rs' : List Route}
        → compile_route compile r ≡ some r'
        → Compiles rs rs'
        → Compiles (r ∷ rs) (r' ∷ rs')

  compile_routes-Compiles :
      (rs rs' : List Route) → compile_routes compile rs ≡ some rs' → Compiles rs rs'
  unfolding compile_routes
  compile_routes-Compiles [] rs' e = subst (Compiles []) (some-inj e) nil
  compile_routes-Compiles (r ∷ rs) rs' e =
      let (r', er, k) =
        bind-eq-some (compile_route compile r)
          (λ r'. do rest ← compile_routes compile rs; some (r' ∷ rest)) e in
      let (rest, e₂, same) =
        bind-eq-some (compile_routes compile rs) (λ rest. some (r' ∷ rest)) k in
      subst (Compiles (r ∷ rs)) (some-inj same) (cons er (compile_routes-Compiles rs rest e₂))

  not_before-compiled :
      (x x' : Route) {rs rs' : List Route}
      → compile_route compile x ≡ some x'
      → Compiles rs rs'
      → All (λ y. less y x ≡ false) rs
      → All (λ y. less y x' ≡ false) rs'
  not_before-compiled x x' ex nil h = tt
  not_before-compiled x x' ex (cons {r = r} {r' = r'} er c) (p, h) =
      (less-compiled r x r' x' er ex ∙ p, not_before-compiled x x' ex c h)

  compiled-IsSorted : {rs rs' : List Route} → Compiles rs rs' → IsSorted less rs → IsSorted less rs'
  compiled-IsSorted nil s = tt
  compiled-IsSorted (cons er c) (below, s) =
      (not_before-compiled _ _ er c below, compiled-IsSorted c s)

  pub compile_hosts-IsSortedTable :
      (hosts hosts' : Table (List Route))
      → compile_hosts compile hosts ≡ some hosts'
      → IsSortedTable hosts
      → IsSortedTable hosts'
  unfolding compile_hosts
  compile_hosts-IsSortedTable [] hosts' e h = subst IsSortedTable (some-inj e) tt
  compile_hosts-IsSortedTable ((host, rs) ∷ more) hosts' e (s, h) =
      let (rs', er, k) =
        bind-eq-some (compile_routes compile rs)
          (λ rs'. do rest ← compile_hosts compile more; some ((host, rs') ∷ rest)) e in
      let (rest, e₂, same) =
        bind-eq-some (compile_hosts compile more) (λ rest. some ((host, rs') ∷ rest)) k in
      subst IsSortedTable (some-inj same) (
        compiled-IsSorted (compile_routes-Compiles rs rs' er) s,
        compile_hosts-IsSortedTable more rest e₂ h,
      )

  compile_hosts-lookup-none :
      (host : Text) (hosts hosts' : Table (List Route))
      → compile_hosts compile hosts ≡ some hosts'
      → lookup host hosts ≡ none
      → lookup host hosts' ≡ none
  unfolding compile_hosts lookup
  compile_hosts-lookup-none host [] hosts' e h = subst (λ m. lookup host m ≡ none) (some-inj e) refl
  compile_hosts-lookup-none host ((k, rs) ∷ more) hosts' e h =
      let (rs', er, c) =
        bind-eq-some (compile_routes compile rs)
          (λ rs'. do rest ← compile_hosts compile more; some ((k, rs') ∷ rest)) e in
      let (rest, e₂, same) =
        bind-eq-some (compile_hosts compile more) (λ rest. some ((k, rs') ∷ rest)) c in
      subst (λ m. lookup host m ≡ none) (some-inj same)
        (elim (Bool-cases (text_eq k host)) [
          | inl t ↦ absurd (ground (arith, h, t))
          | inr t ↦ rw t (compile_hosts-lookup-none host more rest e₂ (ground (arith, h, t)))
        ])

  pub compile_hosts-IsMap :
      (hosts hosts' : Table (List Route))
      → compile_hosts compile hosts ≡ some hosts'
      → IsMap hosts
      → IsMap hosts'
  unfolding compile_hosts
  compile_hosts-IsMap [] hosts' e h = subst IsMap (some-inj e) tt
  compile_hosts-IsMap ((k, rs) ∷ more) hosts' e (fresh, h) =
      let (rs', er, c) =
        bind-eq-some (compile_routes compile rs)
          (λ rs'. do rest ← compile_hosts compile more; some ((k, rs') ∷ rest)) e in
      let (rest, e₂, same) =
        bind-eq-some (compile_hosts compile more) (λ rest. some ((k, rs') ∷ rest)) c in
      subst IsMap (some-inj same)
        (compile_hosts-lookup-none k more rest e₂ fresh, compile_hosts-IsMap more rest e₂ h)
