-- ===== src/Routes/Expand/Hosts.antt =====
-- The table of an expansion: every hostname of the resource, with the same sorted routes.
use customrouter.Base.{◌<◌, Text, Table, none, ◌≡◌, ◌↔◌, arith}
use customrouter.Api.{CustomHttpRoute}
use customrouter.Routes.Expand.{max_routes_per_crd, estimated_routes, expand_routes}

-- The expansion is refused exactly when the estimate is over the limit.
pub expand_routes-eq-none :
    (cr : CustomHttpRoute) (names : Table Text)
    → (expand_routes cr names ≡ none) ↔ (max_routes_per_crd < estimated_routes cr)
unfolding expand_routes
expand_routes-eq-none cr names = (λ e. ground (arith, e), λ h. ground (arith, h))
