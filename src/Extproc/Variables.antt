-- ===== src/Extproc/Variables.antt =====
-- `substituteVariables` of internal/extproc/router.go. The variables come by pointer; nil is `none`.
use customrouter.Base.{
  ℕ, ◌+◌, Text, codes, is_empty, List, [], ◌∷◌, ◌++◌, Option, none, some, if◌then◌else◌,
  replace_all, itoa_nat,
}
use customrouter.Extproc.{RequestVars}

-- The loop over the path segments, from segment `i` on.
unfoldable pub substitute_segments : ℕ → List Text → Text → Text
unfolding replace_all itoa_nat
substitute_segments i [] result = result
substitute_segments i (segment ∷ segments) result =
    substitute_segments (i + 1) segments
      (replace_all result (codes "${path.segment." ++ itoa_nat i ++ codes "}") segment)

unfoldable pub substitute_all : RequestVars → Text → Text
unfolding substitute_segments replace_all
substitute_all vars value =
    let ip = replace_all value (codes "${client_ip}") vars.client_ip in
    let id = replace_all ip (codes "${request_id}") vars.request_id in
    let host = replace_all id (codes "${host}") vars.host in
    let path = replace_all host (codes "${path}") vars.path in
    let method = replace_all path (codes "${method}") vars.method in
    let scheme = replace_all method (codes "${scheme}") vars.scheme in
    substitute_segments 0 vars.path_segments scheme

unfoldable pub substitute_variables : Text → Option RequestVars → Text
unfolding substitute_all
substitute_variables value none = value
substitute_variables value (some vars) = if is_empty value then value else substitute_all vars value
