-- ===== src/Routes/Loader.antt =====
-- The file loader of the external processor: pkg/routes/loader.go. `read` stands for reading and
-- decoding one file, with `none` for an error of either; `files` are the names of the set, in the
-- order in which Go takes them. The watcher and the mutex are left out: `load` and `find_route` are
-- the two critical sections.
pub mod Compiled
pub mod Best
use customrouter.Base.{
  before_any, ℕ, zero, suc, ◌+◌, ◌-◌, ◌*◌, ◌≤◌, ◌<◌, Text, codes, text_eq, text_eq_iff,
  text_eq_refl, length, All, All-append, All-imp, select, any, first, Table, lookup, insert,
  lookup-insert, is_empty, Bool, true, false, not, ◌&&◌, ◌||◌, &&_iff, List, [], ◌∷◌, ◌++◌, map,
  append_assoc, append-nil, Option, none, some, ◌≡◌, ◌≢◌, ◌⊎◌, ◌↔◌, inl, inr, refl, sym, ap, ap₂,
  subst, ◌∙◌, arith, ◌==◌, ltb, leb, if◌then◌else◌, Bool-cases, Option-cases,
}
use customrouter.Routes.{Matcher, Route, RoutesConfig, RequestMatch}
use customrouter.Routes.Match.{◌>>=◌, compile_regexes}
use customrouter.Routes.Merge.{merge_configs, sort_hosts, plain_config}
use customrouter.Routes.Partition.{build_partition_index}
use customrouter.Routes.Partition

pub record Loader : Type 0 where
  pub config : RoutesConfig
  pub partition_header : Text

-- `NewLoader`
abbrev pub new_loader : Loader
new_loader = record { config = plain_config []; partition_header = [] }

module _ (read : Text → Option (Table (List Route))) where
  pub read_files : List Text → Option (List (Table (List Route)))
  read_files [] = some []
  read_files (file ∷ files) = do hosts ← read file; rest ← read_files files; some (hosts ∷ rest)

module _ (compile : Text → Option Matcher) (read : Text → Option (Table (List Route))) where
  -- The new configuration, or `none` for an error.
  unfoldable pub loaded : Text → List Text → Option RoutesConfig
  unfolding read_files
  loaded header files = do
    tables ← read_files read files
    compiled ← compile_regexes compile (plain_config (sort_hosts (merge_configs [] tables)))
    some (build_partition_index header compiled)

  -- `Load`: an error leaves the loader as it was. The flag tells whether there was none.
  unfoldable pub load : List Text → Loader → Loader × Bool
  load files l = elim (loaded l.partition_header files) [
    | none ↦ (l, false)
    | some config ↦ (record l { config = config }, true)
  ]

module _ (compile : Text → Option Matcher) where
  -- `FindRoute` of the loader: the port is cut off first.
  unfoldable pub find_route : Loader → Text → RequestMatch → Option Route
  find_route l host req =
      Partition.find_route compile l.config (before_any (λ c. c == b':') host) req
