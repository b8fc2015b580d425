-- ===== src/Extproc/Reading.antt =====
-- How `processRequestHeaders` of internal/extproc/router.go reads the request: the loop over the
-- headers. `parse_query` stands for `url.ParseQuery`.
pub mod Laws
use customrouter.Base.{
  Text, codes, text_eq, Table, insert, is_empty, Bool, true, ◌&&◌, List, [], ◌∷◌, Option, none,
  some, ◌==◌, if◌then◌else◌, to_lower,
}
use customrouter.Routes.{RequestMatch}
use customrouter.Extproc.{RequestVars, HttpHeader}
use customrouter.Extproc.Target.{
  extract_first_ip, strip_query_string, extract_query_params, split_path,
}

-- The variables of the loop over the request headers.
pub record Reading : Type 0 where
  pub authority : Text
  pub path : Text
  pub method : Text
  pub vars : RequestVars
  pub request_headers : Table Text
  pub request_query_params : Table Text

abbrev pub no_reading : Reading
no_reading = record {
  authority = [];
  path = [];
  method = [];
  vars = record {
    client_ip = [];
    request_id = [];
    host = [];
    path = [];
    method = [];
    scheme = [];
    path_segments = [];
  };
  request_headers = [];
  request_query_params = [];
}

-- `Value`, or `RawValue` when it is empty.
abbrev pub header_value : HttpHeader → Text
header_value h = if is_empty h.value then h.raw_value else h.value

-- A pseudo header's key starts with a colon; an empty key counts with them.
abbrev pub is_pseudo : Text → Bool
is_pseudo [] = true
is_pseudo (c ∷ key) = c == b':'

unfoldable pub store_header : Text → Text → Reading → Reading
unfolding insert to_lower
store_header key value r =
    if is_pseudo key
    then r
    else record r { request_headers = insert (to_lower key) value r.request_headers }

module _ (parse_query : Text → Option (Table (List Text))) where
  unfoldable pub read_path : Text → Reading → Reading
  unfolding strip_query_string split_path extract_query_params
  read_path value r = record r {
    path = strip_query_string value;
    vars = record r.vars { path = value; path_segments = split_path value };
    request_query_params = extract_query_params parse_query value;
  }

  -- The `switch` on the key.
  unfoldable pub read_key : Text → Text → Reading → Reading
  unfolding read_path extract_first_ip text_eq
  read_key key value r =
      if text_eq key (codes ":authority")
      then record r { authority = value; vars = record r.vars { host = value } }
      else if text_eq key (codes ":path")
      then read_path value r
      else if text_eq key (codes ":method")
      then record r { method = value; vars = record r.vars { method = value } }
      else if text_eq key (codes ":scheme")
      then record r { vars = record r.vars { scheme = value } }
      else if text_eq key (codes "x-forwarded-for")
      then record r { vars = record r.vars { client_ip = extract_first_ip value } }
      else if text_eq key (codes "x-request-id")
      then record r { vars = record r.vars { request_id = value } }
      else if text_eq key (codes "x-forwarded-proto") && is_empty r.vars.scheme
      then record r { vars = record r.vars { scheme = value } }
      else r

  unfoldable pub read_header : HttpHeader → Reading → Reading
  unfolding store_header read_key
  read_header h r = read_key h.key (header_value h) (store_header h.key (header_value h) r)

  unfoldable pub read_headers : List HttpHeader → Reading → Reading
  unfolding read_header
  read_headers [] r = r
  read_headers (h ∷ hs) r = read_headers hs (read_header h r)

  abbrev pub default_scheme : Reading → Reading
  default_scheme r =
      if is_empty r.vars.scheme
      then record r { vars = record r.vars { scheme = codes "https" } }
      else r

  -- What the headers say; nil headers say nothing.
  unfoldable pub read_request : Option (List HttpHeader) → Reading
  unfolding read_headers
  read_request none = default_scheme no_reading
  read_request (some headers) = default_scheme (read_headers headers no_reading)

  abbrev pub request_match : Reading → RequestMatch
  request_match r = record {
    path = r.path;
    method = r.method;
    headers = r.request_headers;
    query_params = r.request_query_params;
  }
