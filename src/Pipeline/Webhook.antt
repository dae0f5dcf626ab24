-- ===== src/Pipeline/Webhook.antt =====
-- main.rs: a webhook under settings that pass `validate`.
use simple_alert_proxy.Prelude.{
  ℕ, ◌+◌, String, Option, none, some, List, [], ◌∷◌, ◌++◌, map, length, ◌≡◌, refl, sym, ap, subst,
  ◌∙◌, arith, All, All-mono, All-keep_of, length-append, Option-cases, inl, inr,
}
use mathlib.Core.List.{append-nil, append_assoc}
use simple_alert_proxy.Alert.{AlertEvent}
use simple_alert_proxy.Routing.{
  Engines, Delivery, RouteConfig, CompiledRoute, RouteEngine, route_new, routes_new, engine_new,
  route_delivery, plan,
}
use simple_alert_proxy.Routing.Plan.{plan_lem, or_default, All-until_stop}
use simple_alert_proxy.Config.{AppConfig}
use simple_alert_proxy.Config.Outside.{Outside}
use simple_alert_proxy.Config.Parts.{KnowsReceiver, RouteIsValid}
use simple_alert_proxy.Config.Sound.{IsValid, validate-IsValid}
use simple_alert_proxy.Config.Checks.{Check}
use simple_alert_proxy.Config.Validate.{validate}
use simple_alert_proxy.Storage.{ok}
use simple_alert_proxy.Pipeline.{
  State, pure, Context, own, deliveries_with_receiver_ownership, first_owner_team, planned,
  deliver_all, deliver_events, process_generic_events, answer,
}
use simple_alert_proxy.Pipeline.Queued.{Gives, next_of-Gives, Sized}
use simple_alert_proxy.Pipeline.Delivered.{
  Anything, receivers_of, AllKnown, Gives-cast, deliver_all-Gives,
}

own_receiver : (config : AppConfig) (d : Delivery) → (own config d).receiver ≡ d.receiver
own_receiver config d = ground arith

receivers-ownership :
    (config : AppConfig) (ds : List Delivery)
    → receivers_of (deliveries_with_receiver_ownership config ds) ≡ receivers_of ds
unfolding deliveries_with_receiver_ownership
receivers-ownership config [] = refl
receivers-ownership config (d ∷ ds) =
    let one = own_receiver config d in let rest = receivers-ownership config ds in cc

length-ownership :
    (config : AppConfig) (ds : List Delivery)
    → length (deliveries_with_receiver_ownership config ds) ≡ length (receivers_of ds)
unfolding deliveries_with_receiver_ownership
length-ownership config [] = refl
length-ownership config (d ∷ ds) = omega (arith, length-ownership config ds)

AllKnown-ownership :
    (config : AppConfig) (ds : List Delivery)
    → AllKnown config ds
    → AllKnown config (deliveries_with_receiver_ownership config ds)
unfolding deliveries_with_receiver_ownership
AllKnown-ownership config [] h = tt
AllKnown-ownership config (d ∷ ds) h = (
  subst (KnowsReceiver config) (sym (own_receiver config d)) h.0,
  AllKnown-ownership config ds h.1,
)

module _ (lib : Engines) where
  route_new-receiver :
      (route : RouteConfig) (r : CompiledRoute lib)
      → route_new lib route ≡ some r
      → r.receiver ≡ route.receiver
  unfolding route_new
  route_new-receiver route r e = ground arith

  routes_new-All :
      (P : String → Type 0) (routes : List RouteConfig) (rs : List (CompiledRoute lib))
      → routes_new lib routes ≡ some rs
      → All (λ r. P r.receiver) routes
      → All (λ r. P r.receiver) rs
  unfolding routes_new
  routes_new-All P [] rs e h =
      let empty : rs ≡ [] = cc in subst (All (λ r. P r.receiver)) (sym empty) tt
  routes_new-All P (route ∷ rest) rs e h = elim (Option-cases (route_new lib route)) [
    | inl f ↦ ground arith
    | inr (c, f) ↦ elim (Option-cases (routes_new lib rest)) [
      | inl g ↦ ground arith
      | inr (cs, g) ↦
          let both : rs ≡ c ∷ cs = ground arith in
          subst (All (λ r. P r.receiver)) (sym both)
            (subst P (sym (route_new-receiver route c f)) h.0, routes_new-All P rest cs g h.1)
    ]
  ]

  engine_new-parts :
      (routes : List RouteConfig) (default : Option String) (router : RouteEngine lib)
      → engine_new lib routes default ≡ some router
      → (routes_new lib routes ≡ some router.routes) × (router.default_receiver ≡ default)
  unfolding engine_new
  engine_new-parts routes default router e = ground arith

  AllKnown-map :
      (config : AppConfig) (rs : List (CompiledRoute lib))
      → All (λ r. KnowsReceiver config r.receiver) rs
      → AllKnown config (map (route_delivery lib) rs)
  AllKnown-map config [] h = tt
  AllKnown-map config (r ∷ rs) h = (h.0, AllKnown-map config rs h.1)

  AllKnown-or_default :
      (config : AppConfig) (default : Option String) (ds : List Delivery)
      → ((name : String) → default ≡ some name → KnowsReceiver config name)
      → AllKnown config ds
      → AllKnown config (or_default lib default ds)
  AllKnown-or_default config none ds f h = h
  AllKnown-or_default config (some r) [] f h = (f r refl, tt)
  AllKnown-or_default config (some r) (d ∷ ds) f h = h

  -- Under settings that pass `validate`, every planned delivery is to a receiver that is there.
  pub plan-AllKnown :
      (outside : Outside) (config : AppConfig) (router : RouteEngine lib) (event : AlertEvent)
      → IsValid outside config
      → engine_new lib config.routing.routes config.routing.default_receiver ≡ some router
      → AllKnown config (plan lib router event)
  plan-AllKnown outside config router event valid built =
      let (routes, default) =
        engine_new-parts config.routing.routes config.routing.default_receiver router built in
      let known = routes_new-All (KnowsReceiver config) config.routing.routes router.routes routes (
        All-mono (RouteIsValid config) (λ r. KnowsReceiver config r.receiver)
          (λ r v. v.receiver_known) config.routing.routes valid.routes) in
      subst (AllKnown config) (sym (plan_lem lib router event)) (
        AllKnown-or_default config router.default_receiver _
          (λ name e. valid.default_known name (sym default ∙ e))
          (AllKnown-map config _ (
            All-until_stop lib (λ r. KnowsReceiver config r.receiver) _
              (All-keep_of _ _ router.routes known))))

  -- The receivers of the plans of the events, in order.
  abbrev pub planned_receivers : RouteEngine lib → List AlertEvent → List String
  planned_receivers router [] = []
  planned_receivers router (event ∷ rest) =
      receivers_of (plan lib router event) ++ planned_receivers router rest

  module _ (context : Context) (router : RouteEngine lib) where
    open context use {config}

    deliver_events-Gives :
        (events : List AlertEvent) (delivered : List String) (n : ℕ) (s : State)
        → All (Sized context) events
        → ((event : AlertEvent) → AllKnown config (plan lib router event))
        → s.db.deliveries.seq ≡ n
        → Gives
            (delivered ++ planned_receivers router events)
            (n + length (planned_receivers router events))
            Anything
            (deliver_events lib context router events delivered s)
    unfolding deliver_events
    deliver_events-Gives [] delivered n s sizes known e = record {
      value = ap (λ l. ok l) (sym (append-nil delivered));
      records = omega (arith, e);
      holds = tt;
    }
    deliver_events-Gives (event ∷ rest) delivered n s sizes known e =
        let ds = planned lib context router event in
        let here = receivers_of (plan lib router event) in
        let more = planned_receivers router rest in
        let same : receivers_of ds ≡ here = receivers-ownership config (plan lib router event) in
        let count : length ds ≡ length here = length-ownership config (plan lib router event) in
        next_of-Gives (delivered ++ receivers_of ds) (delivered ++ (here ++ more)) (n + length ds)
          (n + length (here ++ more)) Anything Anything
          (λ l. deliver_events lib context router rest l)
          (deliver_all context event (first_owner_team ds) none ds delivered s)
          (deliver_all-Gives context event (first_owner_team ds) none n ds delivered s sizes.0
            (AllKnown-ownership config (plan lib router event) (known event)) e tt)
          (λ t f g.
            Gives-cast ((delivered ++ receivers_of ds) ++ more) (delivered ++ (here ++ more))
              (n + length ds + length more) (n + length (here ++ more)) Anything
              (deliver_events lib context router rest (delivered ++ receivers_of ds) t)
              (append_assoc delivered (receivers_of ds) more
                ∙ ap (λ l. delivered ++ (l ++ more)) same)
              (omega (arith, count, length-append here more))
              (deliver_events-Gives rest (delivered ++ receivers_of ds) (n + length ds) t sizes.1
                known f))

    -- Under settings that pass `validate`, with sizes that are `i64`s, a webhook succeeds on every
    -- database: it answers with the receivers of the plans of its events, in order and without
    -- leaving one out, and gives out one delivery id for each of them.
    pub process_generic_events_delivers :
        (outside : Outside) (events : List AlertEvent) (s : State)
        → validate outside config ≡ Check.ok
        → engine_new lib config.routing.routes config.routing.default_receiver ≡ some router
        → All (Sized context) events
        → let r = process_generic_events lib context router events s in
          let receivers = planned_receivers router events in
          (r.0 ≡ ok (answer context receivers))
          × (r.1.db.deliveries.seq ≡ s.db.deliveries.seq + length receivers)
    unfolding process_generic_events
    process_generic_events_delivers outside events s valid built sizes =
        let done =
          next_of-Gives (planned_receivers router events)
            (answer context (planned_receivers router events))
            (s.db.deliveries.seq + length (planned_receivers router events))
            (s.db.deliveries.seq + length (planned_receivers router events)) Anything Anything
            (λ delivered. pure (answer context delivered))
            (deliver_events lib context router events [] s)
            (deliver_events-Gives events [] s.db.deliveries.seq s sizes
              (λ event.
                plan-AllKnown outside config router event (validate-IsValid outside config valid)
                  built)
              refl)
            (λ t f g. record { value = refl; records = f; holds = tt }) in
        (done.value, done.records)
