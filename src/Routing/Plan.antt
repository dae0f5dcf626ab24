-- ===== src/Routing/Plan.antt =====
-- Which deliveries `plan` makes.
use simple_alert_proxy.Prelude.{
  ◌<◌, String, Option, none, some, List, [], ◌∷◌, ◌++◌, map, keep, All, length, if◌then◌else◌, ◌≡◌,
  refl, arith, Bool-cases, inl, inr,
}
use mathlib.Core.List.{append-nil, append_assoc}
use simple_alert_proxy.Alert.{AlertEvent}
use simple_alert_proxy.Routing.{
  Engines, Delivery, CompiledRoute, RouteEngine, route_matches, route_delivery, plan_end, plan_loop,
  plan,
}

module _ (lib : Engines) where
  -- The routes up to the first that does not ask to continue, that one included.
  abbrev pub until_stop : List (CompiledRoute lib) → List (CompiledRoute lib)
  until_stop [] = []
  until_stop (r ∷ rest) =
      let others = until_stop rest in if r.continue_matching then r ∷ others else r ∷ []

  abbrev pub matching : AlertEvent → List (CompiledRoute lib) → List (CompiledRoute lib)
  matching event = keep (λ r. route_matches lib r event)

  abbrev pub or_default : Option String → List Delivery → List Delivery
  or_default = plan_end lib

  or_default_of_snoc :
      (default : Option String) (ds : List Delivery) (d : Delivery) (es : List Delivery)
      → or_default default (ds ++ d ∷ es) ≡ ds ++ d ∷ es
  or_default_of_snoc none ds d es = refl
  or_default_of_snoc (some r) [] d es = refl
  or_default_of_snoc (some r) (x ∷ ds) d es = refl

  plan_loop_lem :
      (default : Option String) (event : AlertEvent) (routes : List (CompiledRoute lib))
      (ds : List Delivery)
      → plan_loop lib default event routes ds
        ≡ or_default default (ds ++ map (route_delivery lib) (until_stop (matching event routes)))
  unfolding plan_loop
  plan_loop_lem default event [] ds = rw append-nil
  plan_loop_lem default event (r ∷ rest) ds = ground (
    arith,
    or_default_of_snoc default ds (route_delivery lib r) [],
    plan_loop_lem default event rest ds,
    plan_loop_lem default event rest (ds ++ route_delivery lib r ∷ []),
    append_assoc ds (route_delivery lib r ∷ [])
        (map (route_delivery lib) (until_stop (matching event rest))),
  )

  -- The plan is the matching routes in their order, cut after the first that does not continue, and
  -- the default receiver alone if no route matches.
  pub plan_lem :
      (engine : RouteEngine lib) (event : AlertEvent)
      → plan lib engine event
        ≡ or_default engine.default_receiver
            (map (route_delivery lib) (until_stop (matching event engine.routes)))
  unfolding plan
  plan_lem engine event = plan_loop_lem engine.default_receiver event engine.routes []

  pub All-until_stop :
      (P : CompiledRoute lib → Type 0) (routes : List (CompiledRoute lib))
      → All P routes
      → All P (until_stop routes)
  All-until_stop P [] h = h
  All-until_stop P (r ∷ rest) h = elim (Bool-cases r.continue_matching) [
    | inr stop ↦ simp stop (h.0, tt)
    | inl go ↦ simp go (h.0, All-until_stop P rest h.1)
  ]

  -- Where there is a default receiver, the plan of every event has at least one delivery.
  plan_nonempty :
      (engine : RouteEngine lib) (event : AlertEvent) (receiver : String)
      → engine.default_receiver ≡ some receiver
      → 0 < length (plan lib engine event)
  plan_nonempty engine event receiver e = rw (plan_lem engine event) (rw e (nonempty _))
    where
      nonempty : (ds : List Delivery) → 0 < length (or_default (some receiver) ds)
      nonempty [] = omega arith
      nonempty (d ∷ ds) = omega arith
