-- ===== src/Extproc/Reading/Laws.antt =====
-- What is known of a request after its headers have been read.
use customrouter.Base.{
  Text, codes, text_eq, Table, is_empty, false, ◌&&◌, List, [], ◌∷◌, Option, none, some, ◌≡◌, inl,
  inr, refl, ◌==◌, Bool-cases,
}
use customrouter.Extproc.{HttpHeader}
use customrouter.Extproc.Target.{strip_query_string, split_path, extract_query_params}
use customrouter.Extproc.Reading.{
  Reading, no_reading, store_header, read_path, read_key, read_header, read_headers, default_scheme,
  read_request, header_value,
}

module _ (parse_query : Text → Option (Table (List Text))) where
  -- What the route is looked up by and what the placeholders stand for come from the same values.
  pub record IsConsistent (r : Reading) : Type 0 where
    pub path : r.path ≡ strip_query_string r.vars.path
    pub segments : r.vars.path_segments ≡ split_path r.vars.path
    pub query : r.request_query_params ≡ extract_query_params parse_query r.vars.path
    pub host : r.authority ≡ r.vars.host
    pub method : r.method ≡ r.vars.method

  no_reading-IsConsistent : IsConsistent no_reading
  unfolding strip_query_string split_path extract_query_params
  no_reading-IsConsistent = record {
    path = refl;
    segments = refl;
    query = refl;
    host = refl;
    method = refl;
  }

  store_header-IsConsistent :
      (key value : Text) (r : Reading) → IsConsistent r → IsConsistent (store_header key value r)
  unfolding store_header
  store_header-IsConsistent [] value r c = c
  store_header-IsConsistent (x ∷ key) value r c = elim (Bool-cases (x == b':')) [
    | inl e ↦ rw e c
    | inr e ↦ rw e (record {
      path = c.path;
      segments = c.segments;
      query = c.query;
      host = c.host;
      method = c.method;
    })
  ]

  read_key-IsConsistent :
      (key value : Text) (r : Reading)
      → IsConsistent r
      → IsConsistent (read_key parse_query key value r)
  unfolding read_key read_path
  read_key-IsConsistent key value r c = elim (Bool-cases (text_eq key (codes ":authority"))) [
    | inl e ↦ rw e (record {
      path = c.path;
      segments = c.segments;
      query = c.query;
      host = refl;
      method = c.method;
    })
    | inr e ↦ rw e (elim (Bool-cases (text_eq key (codes ":path"))) [
      | inl e ↦
          rw e (record {
            path = refl;
            segments = refl;
            query = refl;
            host = c.host;
            method = c.method;
          })
      | inr e ↦ rw e (elim (Bool-cases (text_eq key (codes ":method"))) [
        | inl e ↦ rw e (record {
          path = c.path;
          segments = c.segments;
          query = c.query;
          host = c.host;
          method = refl;
        })
        | inr e ↦ rw e (elim (Bool-cases (text_eq key (codes ":scheme"))) [
          | inl e ↦ rw e (record {
            path = c.path;
            segments = c.segments;
            query = c.query;
            host = c.host;
            method = c.method;
          })
          | inr e ↦ rw e (elim (Bool-cases (text_eq key (codes "x-forwarded-for"))) [
            | inl e ↦ rw e (record {
              path = c.path;
              segments = c.segments;
              query = c.query;
              host = c.host;
              method = c.method;
            })
            | inr e ↦ rw e (elim (Bool-cases (text_eq key (codes "x-request-id"))) [
              | inl e ↦ rw e (record {
                path = c.path;
                segments = c.segments;
                query = c.query;
                host = c.host;
                method = c.method;
              })
              | inr e ↦
                  rw e
                    (elim (Bool-cases
                      (text_eq key (codes "x-forwarded-proto") && is_empty r.vars.scheme)) [
                        | inl e ↦ rw e (record {
                          path = c.path;
                          segments = c.segments;
                          query = c.query;
                          host = c.host;
                          method = c.method;
                        })
                        | inr e ↦ rw e c
                      ])
            ])
          ])
        ])
      ])
    ])
  ]

  read_headers-IsConsistent :
      (hs : List HttpHeader) (r : Reading)
      → IsConsistent r
      → IsConsistent (read_headers parse_query hs r)
  unfolding read_headers read_header
  read_headers-IsConsistent [] r c = c
  read_headers-IsConsistent (h ∷ hs) r c = read_headers-IsConsistent hs _ (
      read_key-IsConsistent h.key (header_value h) (store_header h.key (header_value h) r)
        (store_header-IsConsistent h.key (header_value h) r c))

  default_scheme-IsConsistent :
      (r : Reading) → IsConsistent r → IsConsistent (default_scheme parse_query r)
  default_scheme-IsConsistent r c = elim (Bool-cases (is_empty r.vars.scheme)) [
    | inl e ↦ rw e (record {
      path = c.path;
      segments = c.segments;
      query = c.query;
      host = c.host;
      method = c.method;
    })
    | inr e ↦ rw e c
  ]

  default_scheme-scheme :
      (r : Reading) → is_empty (default_scheme parse_query r).vars.scheme ≡ false
  default_scheme-scheme r = elim (Bool-cases (is_empty r.vars.scheme)) [
    | inl e ↦ rw e refl
    | inr e ↦ rw e e
  ]

  -- Whatever headers a request has, in whatever order and how often: the path, query parameters,
  -- host and method by which the route is looked up are those of the variables that placeholders,
  -- redirects and rewrites use, and the scheme is not empty.
  pub read_request-IsConsistent :
      (headers : Option (List HttpHeader))
      → IsConsistent (read_request parse_query headers)
        × (is_empty (read_request parse_query headers).vars.scheme ≡ false)
  unfolding read_request
  read_request-IsConsistent none = (
    default_scheme-IsConsistent no_reading no_reading-IsConsistent,
    default_scheme-scheme no_reading,
  )
  read_request-IsConsistent (some hs) = (
    default_scheme-IsConsistent (read_headers parse_query hs no_reading)
        (read_headers-IsConsistent hs no_reading no_reading-IsConsistent),
    default_scheme-scheme (read_headers parse_query hs no_reading),
  )
