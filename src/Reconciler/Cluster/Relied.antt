-- ===== src/Reconciler/Cluster/Relied.antt =====
-- What the controller of internal/controller/customhttproute/sync.go relies on: the API server, the
-- client of the manager, which reads from a cache, and `retry.OnError`.
use customrouter.Base.{
  false, if◌then◌else◌, text_eq, true, ◌≡◌, Option, Bool, Text, List, none, some,
}
use customrouter.Base.Results.{Result}
use customrouter.Reconciler.Cluster.{is_failure, is_retriable, Client, ApiError, ConfigMap}

-- The runs of an action that is tried again after the errors that pass a test.
pub data Runs {W : Type 0} (retriable : ApiError → Bool) (act : W → Option ApiError × W)
    : W → Option ApiError × W → Type 0 where
  once : {w : W} {out : Option ApiError × W} → act w ≡ out → Runs retriable act w out
  again :
      {w v : W} {out : Option ApiError × W} (e : ApiError)
      → act w ≡ (some e, v)
      → retriable e ≡ true
      → Runs retriable act v out
      → Runs retriable act w out

-- What is relied on: `stored` is what the server holds under a name. A write that succeeds does what
-- it says, reading changes nothing, nor does a write that is refused for a conflict or because the
-- object exists; `retry` runs the action until it succeeds or gives it up. No other client writes in
-- between.
pub record IsClient {W : Type 0} (client : Client W) (stored : W → Text → Option ConfigMap)
    : Type 0 where
  pub get_ok :
      (k : Text) (w v : W) (cm : ConfigMap)
      → client.get k w ≡ (Result.ok cm, v)
      → (cm.name ≡ k) × ((j : Text) → stored v j ≡ stored w j)
  pub get_error :
      (k : Text) (w v : W) (e : ApiError)
      → client.get k w ≡ (Result.error e, v)
      → (j : Text) → stored v j ≡ stored w j
  pub create_ok :
      (cm : ConfigMap) (w v : W)
      → client.create cm w ≡ (none, v)
      → (j : Text) → stored v j ≡ (if text_eq cm.name j then some cm else stored w j)
  pub create_refused :
      (cm : ConfigMap) (w v : W) (e : ApiError)
      → client.create cm w ≡ (some e, v)
      → is_retriable e ≡ true
      → (j : Text) → stored v j ≡ stored w j
  pub update_ok :
      (cm : ConfigMap) (w v : W)
      → client.update cm w ≡ (none, v)
      → (j : Text) → stored v j ≡ (if text_eq cm.name j then some cm else stored w j)
  pub update_refused :
      (cm : ConfigMap) (w v : W) (e : ApiError)
      → client.update cm w ≡ (some e, v)
      → is_retriable e ≡ true
      → (j : Text) → stored v j ≡ stored w j
  pub delete_ok :
      (k : Text) (w v : W) (e : Option ApiError)
      → client.delete k w ≡ (e, v)
      → is_failure client e ≡ false
      → (j : Text) → stored v j ≡ (if text_eq k j then none else stored w j)
  pub list_ok :
      (target : Text) (w v : W) (cms : List ConfigMap)
      → client.list target w ≡ (Result.ok cms, v)
      → (j : Text) → stored v j ≡ stored w j
  pub retry_runs :
      (retriable : ApiError → Bool) (act : W → Option ApiError × W) (w : W)
      → Runs retriable act w (client.retry retriable act w)

-- The cache that the manager's client reads from, which may lag behind the server: a read returns
-- what it holds, and when it is current for a name it stays so until the name is written.
pub record IsCache {W : Type 0} (client : Client W) (stored cached : W → Text → Option ConfigMap)
    : Type 0 where
  pub get_cached :
      (k : Text) (w v : W) (cm : ConfigMap)
      → client.get k w ≡ (Result.ok cm, v)
      → cached w k ≡ some cm
  pub get_keeps :
      (k j : Text) (w v : W) (got : Result ApiError ConfigMap)
      → client.get k w ≡ (got, v)
      → stored v j ≡ stored w j
      → cached w j ≡ stored w j
      → cached v j ≡ stored v j
  pub create_keeps :
      (cm : ConfigMap) (j : Text) (w v : W) (e : Option ApiError)
      → client.create cm w ≡ (e, v)
      → stored v j ≡ stored w j
      → cached w j ≡ stored w j
      → cached v j ≡ stored v j
  pub update_keeps :
      (cm : ConfigMap) (j : Text) (w v : W) (e : Option ApiError)
      → client.update cm w ≡ (e, v)
      → stored v j ≡ stored w j
      → cached w j ≡ stored w j
      → cached v j ≡ stored v j
