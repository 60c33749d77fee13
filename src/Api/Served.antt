-- ===== src/Api/Served.antt =====
-- The calls on metrics of a whole request, whichever its endpoint is.
use etre.Base.{String, ◌≡◌, refl, true, false, ◌⊎◌, inl, inr, none, List, []}
use etre.Etre.{Returns}
use etre.Metrics.{GoMetrics}
use etre.Metrics.Store.{MetricsStore, new_group, run_calls}
use etre.Metrics.Store.Shared.{run_calls-Fit}
use etre.Api.{Request, Api}
use etre.Api.Action.{State, respond}
use etre.Api.Reply.{Handler}
use etre.Api.Read.{get_entities_handler, get_entity_handler, get_labels_handler}
use etre.Api.Write.{
  post_entities_handler, put_entities_handler, delete_entities_handler, post_entity_handler,
  put_entity_handler, delete_entity_handler, delete_label_handler,
}
use etre.Api.Wrapper.{request_wrapper, id}
use etre.Api.Server.{
  Endpoint, get_entities, post_entities, put_entities, delete_entities, post_entity, get_entity,
  put_entity, delete_entity, get_labels, delete_label, changes, unknown, changes_handler, not_found,
  serve,
}
use etre.Api.Calls.{Logged, respond-Leads, loads}
use etre.Api.Handled.{Stays}
use etre.Api.Handled.Reads.{
  get_entities_handler-Stays, get_entity_handler-Stays, get_labels_handler-Stays,
}
use etre.Api.Handled.Writes.{
  post_entities_handler-Stays, put_entities_handler-Stays, delete_entities_handler-Stays,
  post_entity_handler-Stays, put_entity_handler-Stays, delete_entity_handler-Stays,
  delete_label_handler-Stays,
}
use etre.Api.Wrapped.{Sound-Logged, id-Stays}
use etre.Api.Loaded.{up, up_and_down, Balanced, request_wrapper-Balanced}
use etre.Api.Streamed.{cdc_wrapper-Balanced, changes_handler-Ends}

module _ (api : Api) where
  open api use {es, auth}
  open es use {World}

  by_id :
      (handler : Handler api) (r : Request) (s : State World)
      → Stays api up true handler
      → Logged false [] s
      → Balanced api (request_wrapper api (id api handler r) r s).0
  by_id handler r s h =
      request_wrapper-Balanced api (id api handler r) r s (id-Stays api up handler h r)

  not_found-Balanced :
      (r : Request) (s : State World) → Logged false [] s → Balanced api (not_found api r s).0
  unfolding not_found respond
  not_found-Balanced r s l = inl (Sound-Logged api [] false _ (respond-Leads false [] 404 _ s l))

  serve-Balanced :
      (e : Endpoint) (r : Request) (s : State World)
      → Logged false [] s
      → Balanced api (serve api e r s).0
  unfolding serve
  serve-Balanced get_entities r s =
      request_wrapper-Balanced api (get_entities_handler api r) r s
        (get_entities_handler-Stays api up r)
  serve-Balanced post_entities r s =
      request_wrapper-Balanced api (post_entities_handler api r) r s
        (post_entities_handler-Stays api up r)
  serve-Balanced put_entities r s =
      request_wrapper-Balanced api (put_entities_handler api r) r s
        (put_entities_handler-Stays api up r)
  serve-Balanced delete_entities r s =
      request_wrapper-Balanced api (delete_entities_handler api r) r s
        (delete_entities_handler-Stays api up r)
  serve-Balanced post_entity r s =
      request_wrapper-Balanced api (post_entity_handler api r) r s
        (post_entity_handler-Stays api up r)
  serve-Balanced get_entity r s =
      by_id (get_entity_handler api r) r s (get_entity_handler-Stays api up r)
  serve-Balanced put_entity r s =
      by_id (put_entity_handler api r) r s (put_entity_handler-Stays api up r)
  serve-Balanced delete_entity r s =
      by_id (delete_entity_handler api r) r s (delete_entity_handler-Stays api up r)
  serve-Balanced get_labels r s =
      by_id (get_labels_handler api r) r s (get_labels_handler-Stays api up r)
  serve-Balanced delete_label r s =
      by_id (delete_label_handler api r) r s (delete_label_handler-Stays api up r)
  serve-Balanced changes r s =
      cdc_wrapper-Balanced api (changes_handler api r) r s (changes_handler-Ends api r)
  serve-Balanced unknown r s = not_found-Balanced r s

  -- For every request to the endpoints of entities and of changes, or to a path that is no endpoint,
  -- a panic in it included: the calls on the group metrics, made on the metrics of any groups, do not
  -- panic, and the load metric is left alone or raised by one and lowered by one.
  pub serve-Accounted :
      (e : Endpoint) (r : Request) (s : State World) (M : GoMetrics) (groups : List String)
      (store : MetricsStore M)
      → s.calls ≡ []
      → s.system ≡ []
      → Returns
          (λ _. Unit)
          (run_calls M groups none (serve api e r s).0.calls (new_group M groups store))
        × ((loads (serve api e r s).0.system ≡ [])
            ⊎ (loads (serve api e r s).0.system ≡ up_and_down))
  serve-Accounted e r s M groups store c m =
      let logged : Logged false [] s = record {
        fit = rw c tt;
        bound = rw c refl;
        changes = rw m refl;
      } in
      elim (serve-Balanced e r s logged) [
        | inl h ↦ (run_calls-Fit M groups _ store h.logged.fit, inl h.logged.changes)
        | inr h ↦ (run_calls-Fit M groups _ store h.logged.fit, inr h.logged.changes)
      ]
