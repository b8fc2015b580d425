-- ===== src/Reconciler/Annotations.antt =====
-- The annotations that track a CustomHTTPRoute's state: `ensureAnnotations` and what it calls, and
-- the axes of `ReconcileObject`, of internal/controller/customhttproute/sync.go.
use customrouter.Base.{
  text_eq_comm, subst, some-inj, Bool-cases, text_eq_refl, arith, ◌&&◌, ◌∙◌, not, ◌||◌,
  lookup-insert, is_empty, ◌≡◌, List, if◌then◌else◌, codes, Bool, any, text_eq, lookup, Table, Text,
  Option, insert, [], ◌∷◌, none, some, inl, inr, refl, true, false,
}
use customrouter.Api.{CustomHttpRoute, Rule, Action, ActionType}
use customrouter.Reconciler.{remove}
use customrouter.Reconciler.Cluster.{or_empty}
use customrouter.Reconciler.Maps.{lookup-remove}

abbrev pub last_target_annotation : Text
last_target_annotation = codes "customrouter.freepik.com/last-target"

abbrev pub had_catch_all_annotation : Text
had_catch_all_annotation = codes "customrouter.freepik.com/had-catch-all"

abbrev pub had_mirror_annotation : Text
had_mirror_annotation = codes "customrouter.freepik.com/had-mirror"

abbrev pub had_cors_annotation : Text
had_cors_annotation = codes "customrouter.freepik.com/had-cors"

abbrev pub annotation_value_true : Text
annotation_value_true = codes "true"

abbrev is_cors_type : ActionType → Bool
is_cors_type ActionType.cors = true
is_cors_type _ = false

abbrev is_mirror_type : ActionType → Bool
is_mirror_type ActionType.request_mirror = true
is_mirror_type _ = false

unfoldable pub any_action : (ActionType → Bool) → List Rule → Bool
unfolding any
any_action p [] = false
any_action p (rule ∷ rules) = any (λ (a : Action). p a.type) rule.actions || any_action p rules

unfoldable pub route_has_cors_action : CustomHttpRoute → Bool
unfolding any_action
route_has_cors_action cr = any_action is_cors_type cr.spec.rules

unfoldable pub route_has_mirror_action : CustomHttpRoute → Bool
unfolding any_action
route_has_mirror_action cr = any_action is_mirror_type cr.spec.rules

abbrev pub is_current : Bool → Option Text → Bool
is_current true none = false
is_current true (some v) = text_eq v annotation_value_true
is_current false none = true
is_current false (some v) = is_empty v

unfoldable pub bool_annotation_current : Table Text → Text → Bool → Bool
unfolding lookup text_eq
bool_annotation_current ann key desired = is_current desired (lookup key ann)

unfoldable pub set_bool_annotation : Table Text → Text → Bool → Table Text
unfolding insert remove
set_bool_annotation ann key value =
    if value then insert key annotation_value_true ann else remove key ann

-- The annotations may be nil.
unfoldable pub annotations_up_to_date : Option (Table Text) → Text → Bool → Bool → Bool → Bool
unfolding lookup text_eq bool_annotation_current
annotations_up_to_date none target has_catch_all has_mirror has_cors = false
annotations_up_to_date (some ann) target has_catch_all has_mirror has_cors =
    if not (text_eq (or_empty (lookup last_target_annotation ann)) target)
    then false
    else bool_annotation_current ann had_catch_all_annotation has_catch_all
      && bool_annotation_current ann had_mirror_annotation has_mirror
      && bool_annotation_current ann had_cors_annotation has_cors

abbrev pub or_nil_map : Option (Table Text) → Table Text
or_nil_map none = []
or_nil_map (some ann) = ann

unfoldable pub tracked : Option (Table Text) → Text → Bool → Bool → Bool → Table Text
unfolding insert set_bool_annotation
tracked ann target has_catch_all has_mirror has_cors =
    set_bool_annotation
      (set_bool_annotation
        (set_bool_annotation (insert last_target_annotation target (or_nil_map ann))
          had_catch_all_annotation has_catch_all)
        had_mirror_annotation has_mirror)
      had_cors_annotation has_cors

-- The annotations that `ensureAnnotations` sends to the server, if it sends any.
unfoldable pub ensure_annotations :
    Option (Table Text) → Text → Bool → Bool → Bool → Option (Table Text)
unfolding annotations_up_to_date tracked
ensure_annotations ann target has_catch_all has_mirror has_cors =
    if annotations_up_to_date ann target has_catch_all has_mirror has_cors
    then none
    else some (tracked ann target has_catch_all has_mirror has_cors)

lookup-set_bool_annotation :
    (ann : Table Text) (key j : Text) (value : Bool)
    → lookup j (set_bool_annotation ann key value) ≡ (
        if text_eq key j
        then (if value then some annotation_value_true else none)
        else lookup j ann)
unfolding set_bool_annotation
lookup-set_bool_annotation ann key j true = lookup-insert key j annotation_value_true ann
lookup-set_bool_annotation ann key j false = lookup-remove j key ann ∙ rw (text_eq_comm j key) refl

lookup-tracked :
    (ann : Option (Table Text)) (target : Text) (a b c : Bool) (j : Text)
    → lookup j (tracked ann target a b c) ≡ (
        if text_eq had_cors_annotation j
        then (if c then some annotation_value_true else none)
        else if text_eq had_mirror_annotation j
        then (if b then some annotation_value_true else none)
        else if text_eq had_catch_all_annotation j
        then (if a then some annotation_value_true else none)
        else if text_eq last_target_annotation j
        then some target
        else lookup j (or_nil_map ann))
unfolding tracked
lookup-tracked ann target a b c j =
    rw
      (
        lookup-set_bool_annotation, lookup-set_bool_annotation, lookup-set_bool_annotation,
        lookup-insert,
      )
      refl

current-set : (v : Bool) → is_current v (if v then some annotation_value_true else none) ≡ true
unfolding text_eq
current-set true = refl
current-set false = refl

tracked-lookups :
    (ann : Option (Table Text)) (target : Text) (a b c : Bool)
    → (lookup last_target_annotation (tracked ann target a b c) ≡ some target)
      × (lookup had_catch_all_annotation (tracked ann target a b c)
          ≡ (if a then some annotation_value_true else none))
      × (lookup had_mirror_annotation (tracked ann target a b c)
          ≡ (if b then some annotation_value_true else none))
      × (lookup had_cors_annotation (tracked ann target a b c)
          ≡ (if c then some annotation_value_true else none))
unfolding text_eq
tracked-lookups ann target a b c = (
  lookup-tracked ann target a b c last_target_annotation,
  lookup-tracked ann target a b c had_catch_all_annotation,
  lookup-tracked ann target a b c had_mirror_annotation,
  lookup-tracked ann target a b c had_cors_annotation,
)

tracked-UpToDate :
    (ann : Option (Table Text)) (target : Text) (a b c : Bool)
    → annotations_up_to_date (some (tracked ann target a b c)) target a b c ≡ true
unfolding annotations_up_to_date bool_annotation_current
tracked-UpToDate ann target a b c =
    let (l, ca, m, co) = tracked-lookups ann target a b c in
    rw (l, ca, m, co) (rw (text_eq_refl target, current-set a, current-set b, current-set c) refl)

-- What is sent to the server is up to date for the same route, so that the reconcile that the
-- update causes sends nothing.
pub ensure_annotations-Settled :
    (ann : Option (Table Text)) (target : Text) (a b c : Bool)
    → ensure_annotations (some (tracked ann target a b c)) target a b c ≡ none
unfolding ensure_annotations
ensure_annotations-Settled ann target a b c = rw (tracked-UpToDate ann target a b c) refl

other_key :
    (ann : Table Text) (j target : Text) (a b c : Bool)
    → any (text_eq j) (
        had_cors_annotation ∷ had_mirror_annotation ∷ had_catch_all_annotation
        ∷ last_target_annotation ∷ [])
      ≡ false
    → (if text_eq had_cors_annotation j
        then (if c then some annotation_value_true else none)
        else if text_eq had_mirror_annotation j
        then (if b then some annotation_value_true else none)
        else if text_eq had_catch_all_annotation j
        then (if a then some annotation_value_true else none)
        else if text_eq last_target_annotation j
        then some target
        else lookup j ann)
      ≡ lookup j ann
unfolding any
other_key ann j target a b c h =
    let k1 : text_eq had_cors_annotation j ≡ false =
      text_eq_comm had_cors_annotation j ∙ ground (arith, h) in
    let k2 : text_eq had_mirror_annotation j ≡ false =
      text_eq_comm had_mirror_annotation j ∙ ground (arith, h) in
    let k3 : text_eq had_catch_all_annotation j ≡ false =
      text_eq_comm had_catch_all_annotation j ∙ ground (arith, h) in
    let k4 : text_eq last_target_annotation j ≡ false =
      text_eq_comm last_target_annotation j ∙ ground (arith, h) in
    rw (k1, k2, k3, k4) refl

-- What is sent keeps every annotation but the four.
pub ensure_annotations-kept :
    (ann : Option (Table Text)) (target : Text) (a b c : Bool) (sent : Table Text) (j : Text)
    → ensure_annotations ann target a b c ≡ some sent
    → any (text_eq j) (
        had_cors_annotation ∷ had_mirror_annotation ∷ had_catch_all_annotation
        ∷ last_target_annotation ∷ [])
      ≡ false
    → lookup j sent ≡ lookup j (or_nil_map ann)
unfolding ensure_annotations
ensure_annotations-kept ann target a b c sent j h other =
    elim (Bool-cases (annotations_up_to_date ann target a b c)) [
      | inl e ↦ absurd (let no : none ≡ some sent = rw e at h in cc)
      | inr e ↦
          let same : tracked ann target a b c ≡ sent = some-inj (rw e at h) in
          subst (λ m. lookup j m ≡ lookup j (or_nil_map ann)) same
            (lookup-tracked ann target a b c j ∙ other_key (or_nil_map ann) j target a b c other)
    ]
