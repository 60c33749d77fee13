-- ===== src/Api/Server.antt =====
-- The endpoints that NewAPI of api/api_gomux.go registers for entities and changes, each behind its
-- wrappers. The choice of the endpoint by method and path is net/http's.
use Prim.Native.String.{◌++◌ as concat}
use etre.Base.{ℕ, ◌-◌, ◌^◌, Option, none, some, if◌then◌else◌}
use etre.Metrics.{Metric}
use etre.Metrics.Store.{Call}
use etre.Api.{
  etre_error, Request, Api, is_write_request, err_internal, err_cdc_disabled,
  err_endpoint_not_found,
}
use etre.Api.Action.{gets, on_gm, on_world, respond, ◌>>=◌, ◌>>◌, Body}
use etre.Api.Reply.{Handler, read_error}
use etre.Api.Read.{get_entities_handler, get_entity_handler, get_labels_handler}
use etre.Api.Write.{
  post_entities_handler, put_entities_handler, delete_entities_handler, post_entity_handler,
  put_entity_handler, delete_entity_handler, delete_label_handler,
}
use etre.Api.Wrapper.{request_wrapper, cdc_wrapper, id}

pub data Endpoint : Type 0 where
  get_entities post_entities put_entities delete_entities : Endpoint
  post_entity get_entity put_entity delete_entity get_labels delete_label : Endpoint
  changes unknown : Endpoint

module _ (api : Api) where
  open api use {es, cdc_disabled, upgrade, run_client}
  open es use {World}

  -- A deferred call on the group metrics.
  unfoldable pub deferring : Call → Handler api → Handler api
  deferring c m s = let (s', o) = m s in ((on_gm c s').0, o)

  -- Behind the upgrade. The response to an upgrade belongs to the websocket.
  unfoldable pub stream_changes : Request → Handler api
  unfolding deferring
  stream_changes r = do
    respond 101 Body.hijacked
    on_gm (Call.inc Metric.cdc_clients 1)
    name ← gets (λ rc. rc.caller.name)
    deferring (Call.inc Metric.cdc_clients (2 ^ 64 - 1))
        (on_world (run_client (concat name (concat "@" r.remote_addr))))

  -- A failed upgrade has sent its response before its error is reported.
  unfoldable pub after_upgrade : Request → Option ℕ → Handler api
  unfolding stream_changes
  after_upgrade r none = stream_changes r
  after_upgrade r (some status) = do
    respond status Body.hijacked
    read_error api (etre_error err_internal)

  unfoldable pub changes_handler : Request → Handler api
  unfolding after_upgrade
  changes_handler r =
      if cdc_disabled
      then read_error api (etre_error err_cdc_disabled)
      else after_upgrade r (upgrade r)

  -- The handler of all other paths.
  unfoldable pub not_found : Request → Handler api
  not_found r = respond 404 (
      if is_write_request r.method
      then Body.write_result none (some err_endpoint_not_found)
      else Body.error err_endpoint_not_found)

  unfoldable pub serve : Endpoint → Request → Handler api
  unfolding request_wrapper cdc_wrapper id changes_handler not_found
  serve get_entities r = request_wrapper api (get_entities_handler api r) r
  serve post_entities r = request_wrapper api (post_entities_handler api r) r
  serve put_entities r = request_wrapper api (put_entities_handler api r) r
  serve delete_entities r = request_wrapper api (delete_entities_handler api r) r
  serve post_entity r = request_wrapper api (post_entity_handler api r) r
  serve get_entity r = request_wrapper api (id api (get_entity_handler api r) r) r
  serve put_entity r = request_wrapper api (id api (put_entity_handler api r) r) r
  serve delete_entity r = request_wrapper api (id api (delete_entity_handler api r) r) r
  serve get_labels r = request_wrapper api (id api (get_labels_handler api r) r) r
  serve delete_label r = request_wrapper api (id api (delete_label_handler api r) r) r
  serve changes r = cdc_wrapper api (changes_handler r) r
  serve unknown r = not_found r
