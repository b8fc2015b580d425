-- ===== src/Extproc/Forward/Laws.antt =====
-- What the forwarding response holds, described action by action without the loop's variables.
use customrouter.Base.{
  Text, is_empty, true, List, [], ◌∷◌, ◌++◌, append_assoc, append-nil, ◌≡◌, inl, inr, refl,
  Bool-cases,
}
use customrouter.Api.{ActionType}
use customrouter.Routes.{Route, RouteAction}
use customrouter.Extproc.{RequestVars, ProcessingResponse, HeaderValueOption, AppendAction}
use customrouter.Extproc.Forward.{
  Forward, apply_typed, apply_actions, apply_rewrite, apply_header, apply_remove, forwarded,
  build_forward_response,
}
use customrouter.Extproc.Forward.Asked.{
  last_or, last_or-append, collect, hostname_of, path_of, named_header, header_of, removal_of,
  envoy_headers, new_authority, new_path, rewritten_path_lem, base_headers_lem,
  authority_headers_lem, path_headers_lem,
}

abbrev add : List Text → List Text → List HeaderValueOption → List Text → Forward → Forward
add hosts paths headers removals f = record {
  final_authority = last_or f.final_authority hosts;
  final_path = last_or f.final_path paths;
  set_headers = f.set_headers ++ headers;
  remove_headers = f.remove_headers ++ removals;
}

module _ (route : Route) (vars : RequestVars) where
  abbrev add_action : RouteAction → Forward → Forward
  add_action a =
      add (hostname_of a.type a) (path_of route vars a.type a) (header_of vars a.type a)
        (removal_of a.type a)

  add-nil : (f : Forward) → f ≡ add [] [] [] [] f
  add-nil f = rw (append-nil f.set_headers, append-nil f.remove_headers) refl

  apply_rewrite-add :
      (a : RouteAction) (f : Forward)
      → apply_rewrite route vars a f
        ≡ add (hostname_of ActionType.rewrite a) (path_of route vars ActionType.rewrite a) [] [] f
  unfolding apply_rewrite
  apply_rewrite-add a f =
      rw (append-nil f.set_headers, append-nil f.remove_headers, rewritten_path_lem route vars a)
        (elim (Bool-cases (is_empty a.rewrite_path)) [
          | inl e ↦ elim (Bool-cases (is_empty a.rewrite_hostname)) [
            | inl h ↦ rw (e, h) refl
            | inr h ↦ rw (e, h) refl
          ]
          | inr e ↦ elim (Bool-cases (is_empty a.rewrite_hostname)) [
            | inl h ↦ rw (e, h) refl
            | inr h ↦ rw (e, h) refl
          ]
        ])

  apply_header-add :
      (append : AppendAction) (a : RouteAction) (f : Forward)
      → apply_header route vars append a f ≡ add [] [] (named_header append a vars) [] f
  unfolding apply_header
  apply_header-add append a f = elim (Bool-cases (is_empty a.header_name)) [
    | inl e ↦ rw (e, append-nil f.set_headers, append-nil f.remove_headers) refl
    | inr e ↦ rw (e, append-nil f.remove_headers) refl
  ]

  apply_remove-add :
      (a : RouteAction) (f : Forward)
      → apply_remove route vars a f ≡ add [] [] [] (removal_of ActionType.header_remove a) f
  unfolding apply_remove
  apply_remove-add a f = elim (Bool-cases (is_empty a.header_name)) [
    | inl e ↦ rw (e, append-nil f.set_headers, append-nil f.remove_headers) refl
    | inr e ↦ rw (e, append-nil f.set_headers) refl
  ]

  apply_typed-add :
      (t : ActionType) (a : RouteAction) (f : Forward)
      → apply_typed route vars t a f
        ≡ add (hostname_of t a) (path_of route vars t a) (header_of vars t a) (removal_of t a) f
  unfolding apply_typed
  apply_typed-add ActionType.rewrite a f = apply_rewrite-add a f
  apply_typed-add ActionType.header_set a f = apply_header-add _ a f
  apply_typed-add ActionType.header_add a f = apply_header-add _ a f
  apply_typed-add ActionType.header_remove a f = apply_remove-add a f
  apply_typed-add ActionType.redirect a f = add-nil f
  apply_typed-add ActionType.request_mirror a f = add-nil f
  apply_typed-add ActionType.cors a f = add-nil f
  apply_typed-add ActionType.response_header_set a f = add-nil f
  apply_typed-add ActionType.response_header_add a f = add-nil f
  apply_typed-add ActionType.response_header_remove a f = add-nil f
  apply_typed-add (ActionType.other t) a f = add-nil f

  apply_actions-add :
      (actions : List RouteAction) (f : Forward)
      → apply_actions route vars actions f
        ≡ add
            (collect (λ a. hostname_of a.type a) actions)
            (collect (λ a. path_of route vars a.type a) actions)
            (collect (λ a. header_of vars a.type a) actions)
            (collect (λ a. removal_of a.type a) actions)
            f
  unfolding apply_actions
  apply_actions-add [] f = add-nil f
  apply_actions-add (a ∷ actions) f =
      rw
        (
          apply_typed-add a.type a f,
          apply_actions-add actions (add_action a f),
          last_or-append f.final_authority (hostname_of a.type a)
              (collect (λ b. hostname_of b.type b) actions),
          last_or-append f.final_path (path_of route vars a.type a)
              (collect (λ b. path_of route vars b.type b) actions),
          append_assoc f.set_headers (header_of vars a.type a)
              (collect (λ b. header_of vars b.type b) actions),
          append_assoc f.remove_headers (removal_of a.type a)
              (collect (λ b. removal_of b.type b) actions),
        )
        refl

  forwarded-add :
      (authority : Text)
      → forwarded route vars authority ≡ record {
        final_authority = last_or route.backend (collect (λ a. hostname_of a.type a) route.actions);
        final_path = last_or vars.path (collect (λ a. path_of route vars a.type a) route.actions);
        set_headers =
            envoy_headers route authority ++ collect (λ a. header_of vars a.type a) route.actions;
        remove_headers = collect (λ a. removal_of a.type a) route.actions;
      }
  unfolding forwarded
  forwarded-add authority =
      rw (base_headers_lem route vars authority) (apply_actions-add route.actions _)

  -- The forwarding response sets the four headers of the match, then the headers of the set and add
  -- actions that name one, in the order of the actions, then the authority and host headers if the
  -- last hostname of a rewrite is not the backend, then the path headers if the path of the last
  -- rewrite that names one is not the request's; it removes the headers of the remove actions that
  -- name one, in order, and clears the route cache.
  pub build_forward_response-collect :
      (authority : Text)
      → build_forward_response route vars authority
        ≡ ProcessingResponse.request_headers true (record {
          set_headers =
              (envoy_headers route authority
                ++ collect (λ a. header_of vars a.type a) route.actions)
              ++ new_authority route.backend
                  (last_or route.backend (collect (λ a. hostname_of a.type a) route.actions))
              ++ new_path vars.path
                  (last_or vars.path (collect (λ a. path_of route vars a.type a) route.actions));
          remove_headers = collect (λ a. removal_of a.type a) route.actions;
        })
  unfolding build_forward_response
  build_forward_response-collect authority =
      let f = forwarded route vars authority in
      rw
        (
          authority_headers_lem route vars f.final_authority,
          path_headers_lem route vars f.final_path,
        )
        (rw (forwarded-add authority) refl)
