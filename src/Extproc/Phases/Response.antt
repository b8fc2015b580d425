-- ===== src/Extproc/Phases/Response.antt =====
-- What the response phase changes, described action by action.
use customrouter.Base.{
  Text, is_empty, Bool, not, ◌&&◌, List, [], ◌∷◌, ◌++◌, append_assoc, append-nil, Option, none,
  some, ◌≡◌, inl, inr, refl, if◌then◌else◌, Bool-cases,
}
use customrouter.Api.{ActionType}
use customrouter.Routes.{Route, RouteAction}
use customrouter.Extproc.{
  RequestVars, HeaderMutation, HeaderValueOption, AppendAction, ProcessingResponse,
}
use customrouter.Extproc.Variables.{substitute_variables}
use customrouter.Extproc.Forward.{header_option}
use customrouter.Extproc.Forward.Asked.{collect, unless_empty}
use customrouter.Extproc.Phases.{
  response_action, response_mutation, response_set, response_remove, response_of, response_for,
}

abbrev pub named_response : AppendAction → RouteAction → Option RequestVars → List HeaderValueOption
named_response append a vars =
    unless_empty a.header_name
      (header_option a.header_name (substitute_variables a.value vars) append)

abbrev pub response_header_of :
    Option RequestVars → ActionType → RouteAction → List HeaderValueOption
response_header_of vars ActionType.response_header_set a =
    named_response AppendAction.overwrite_if_exists_or_add a vars
response_header_of vars ActionType.response_header_add a =
    named_response AppendAction.append_if_exists_or_add a vars
response_header_of vars _ a = []

abbrev pub response_removal_of : ActionType → RouteAction → List Text
response_removal_of ActionType.response_header_remove a = unless_empty a.header_name a.header_name
response_removal_of _ a = []

abbrev add : List HeaderValueOption → List Text → HeaderMutation → HeaderMutation
add headers removals m = record {
  set_headers = m.set_headers ++ headers;
  remove_headers = m.remove_headers ++ removals;
}

add-nil : (m : HeaderMutation) → m ≡ add [] [] m
add-nil m = rw (append-nil m.set_headers, append-nil m.remove_headers) refl

module _ (vars : Option RequestVars) where
  response_set-add :
      (append : AppendAction) (a : RouteAction) (m : HeaderMutation)
      → response_set append a vars m ≡ add (named_response append a vars) [] m
  unfolding response_set
  response_set-add append a m = elim (Bool-cases (is_empty a.header_name)) [
    | inl e ↦ rw (e, append-nil m.set_headers, append-nil m.remove_headers) refl
    | inr e ↦ rw (e, append-nil m.remove_headers) refl
  ]

  response_remove-add :
      (a : RouteAction) (m : HeaderMutation)
      → response_remove a m ≡ add [] (response_removal_of ActionType.response_header_remove a) m
  unfolding response_remove
  response_remove-add a m = elim (Bool-cases (is_empty a.header_name)) [
    | inl e ↦ rw (e, append-nil m.set_headers, append-nil m.remove_headers) refl
    | inr e ↦ rw (e, append-nil m.set_headers) refl
  ]

  response_action-add :
      (t : ActionType) (a : RouteAction) (m : HeaderMutation)
      → response_action t a vars m ≡ add (response_header_of vars t a) (response_removal_of t a) m
  unfolding response_action
  response_action-add ActionType.response_header_set a m = response_set-add _ a m
  response_action-add ActionType.response_header_add a m = response_set-add _ a m
  response_action-add ActionType.response_header_remove a m = response_remove-add a m
  response_action-add ActionType.redirect a m = add-nil m
  response_action-add ActionType.rewrite a m = add-nil m
  response_action-add ActionType.header_set a m = add-nil m
  response_action-add ActionType.header_add a m = add-nil m
  response_action-add ActionType.header_remove a m = add-nil m
  response_action-add ActionType.request_mirror a m = add-nil m
  response_action-add ActionType.cors a m = add-nil m
  response_action-add (ActionType.other t) a m = add-nil m

  response_mutation-add :
      (actions : List RouteAction) (m : HeaderMutation)
      → response_mutation actions vars m
        ≡ add
            (collect (λ a. response_header_of vars a.type a) actions)
            (collect (λ a. response_removal_of a.type a) actions)
            m
  unfolding response_mutation
  response_mutation-add [] m = add-nil m
  response_mutation-add (a ∷ actions) m =
      rw
        (
          response_action-add a.type a m,
          response_mutation-add actions
              (add (response_header_of vars a.type a) (response_removal_of a.type a) m),
          append_assoc m.set_headers (response_header_of vars a.type a)
              (collect (λ b. response_header_of vars b.type b) actions),
          append_assoc m.remove_headers (response_removal_of a.type a)
              (collect (λ b. response_removal_of b.type b) actions),
        )
        refl

  abbrev pub changes_response : List RouteAction → Bool
  changes_response actions = not (
      is_empty (collect (λ a. response_header_of vars a.type a) actions)
      && is_empty (collect (λ a. response_removal_of a.type a) actions))

  -- For a route, the response phase sets the headers of the set and add actions for responses that
  -- name one, in the order of the actions, and removes those of the remove actions for responses
  -- that name one, in order; when that is nothing at all, it answers without a mutation.
  pub response_for-collect :
      (route : Route)
      → response_for (some route) vars
        ≡ ProcessingResponse.response_headers (
            if changes_response route.actions
            then some (record {
              set_headers = collect (λ a. response_header_of vars a.type a) route.actions;
              remove_headers = collect (λ a. response_removal_of a.type a) route.actions;
            })
            else none)
  unfolding response_for response_of
  response_for-collect route =
      rw (response_mutation-add route.actions (record { set_headers = []; remove_headers = [] }))
        (elim (Bool-cases (
          is_empty (collect (λ a. response_header_of vars a.type a) route.actions)
          && is_empty (collect (λ a. response_removal_of a.type a) route.actions))) [
            | inl e ↦ rw e refl
            | inr e ↦ rw e refl
          ])
