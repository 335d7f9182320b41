-- ===== src/Server/Directory/Publishing.antt =====
-- `handlePublishRequest` and the two requests that only read, seen in the directory.
use verteilte_systeme_bbps.Prelude.{
  ℕ, ◌≡◌, refl, Option-cases, inl, inr, map, none, some, Text, ok, text_eq,
}
use verteilte_systeme_bbps.Protocol.Identifiers.{CommandIdentifiers, parameter_eq, Statuscode}
use verteilte_systeme_bbps.Server.State.{connection_eq, Server}
use verteilte_systeme_bbps.Server.Topic.{set_message}
use verteilte_systeme_bbps.Server.Requests.{
  find_topic, handle_publish_request, handle_get_topic_status, topic_status_response,
  endpoint_string,
}
use verteilte_systeme_bbps.Server.Invariant.{Returns, Invariant}
use verteilte_systeme_bbps.Server.Invariant.Subscribing.{respond}
use verteilte_systeme_bbps.Server.Invariant.Requests.{find_topic-Found, handle_get_topic_status_lem}
use verteilte_systeme_bbps.Server.Directory.{view, find_view, publish_spec}
use verteilte_systeme_bbps.Server.Directory.Views.{find_view-none, find_view-some, views-store}

module _ (s : Server) (v : Invariant s) (name : Text) where
  -- In a server whose objects are in order, a publish request is answered as the directory's
  -- specification of publishing says, which also gives the directory afterwards: the message of
  -- the topic is the new one, with the time, and a topic that is not there is an invalid
  -- parameter.
  pub handle_publish_request_refines :
      (now later : ℕ) (message : Text)
      → let (status, d) = publish_spec now message name (view s) in
        Returns
          (λ response s'. (response ≡ respond CommandIdentifiers.publish status) × (view s' ≡ d))
          (handle_publish_request now later name message s)
  unfolding handle_publish_request publish_spec set_message
  handle_publish_request_refines now later message =
      elim (Option-cases (find_topic name s.topics)) [
        | inl e ↦
            rw (find_view-none s.client_connections name s.topics e, publish_spec)
              (rw (e, handle_publish_request) (refl, refl))
        | inr (p, e) ↦
            let f = find_topic-Found s name p v e in
            rw
              (
                find_view-some s.client_connections name s.topics p f.topic
                    v.well_formed.topics_distinct e f.there,
                publish_spec,
              )
              (rw (e, handle_publish_request)
                (rw f.there (
                  refl,
                  views-store s.client_connections name s.topics p
                      (set_message message now later f.topic).1 v.well_formed.topics_distinct e,
                )))
      ]

  -- In a server whose objects are in order, the answer to a status request shows the topic of the
  -- directory: its timestamp and all its subscribers. A topic that is not there is an invalid
  -- parameter. Nothing changes.
  pub handle_get_topic_status-view :
      handle_get_topic_status name s
      ≡ ok (
        elim (find_view name (view s)) [
          | none ↦ respond CommandIdentifiers.get_topic_status Statuscode.invalid_parameter
          | some t ↦ topic_status_response t.message_timestamp (map endpoint_string t.subscribers)
        ],
        s,
      )
  unfolding handle_get_topic_status
  handle_get_topic_status-view = elim (Option-cases (find_topic name s.topics)) [
    | inl e ↦
        rw (find_view-none s.client_connections name s.topics e)
          (rw (e, handle_get_topic_status) refl)
    | inr (p, e) ↦
        let f = find_topic-Found s name p v e in
        rw
          (find_view-some s.client_connections name s.topics p f.topic v.well_formed.topics_distinct
            e f.there)
          (handle_get_topic_status_lem s v name p e)
  ]
