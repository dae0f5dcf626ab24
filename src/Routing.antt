-- ===== src/Routing.antt =====
-- routing.rs: routes in order, each a conjunction of matchers, and the default receiver.
pub mod Plan
use Prim.Native.Char.{code}
use Prim.Native.String
use simple_alert_proxy.Prelude.{
  ℕ, String, Bool, true, false, ◌&&◌, Option, none, some, List, [], ◌∷◌, ◌++◌, str_eq, all, not,
  if◌then◌else◌, or_else, ◌==◌, ◌||◌,
}
use simple_alert_proxy.Prelude.Text.{strip_prefix, has_prefix, contains, append}
use simple_alert_proxy.Json.{Value, number, string, bool}
use simple_alert_proxy.Alert.{AlertEvent, map_get}

pub record Delivery : Type 0 where
  pub route_name : String
  pub receiver : String
  pub owner_team : Option String
  pub escalation_policy : Option String
  pub group_by : List String

pub record MatcherConfig : Type 0 where
  pub field : String
  pub equals : Option String
  pub regex : Option String
  pub contains : Option String

pub record RouteConfig : Type 0 where
  pub name : String
  pub receiver : String
  pub owner_team : Option String
  pub escalation_policy : Option String
  pub continue_matching : Bool
  pub group_by : List String
  pub matchers : List MatcherConfig

-- What the crates regex and serde_json give: `Regex::new` (`none` is its error), `is_match`, and
-- `Value::pointer`.
pub record Engines : Type 1 where
  pub Regex : Type 0
  pub regex_new : String → Option Regex
  pub is_match : Regex → String → Bool
  pub pointer : Value → String → Option Value

-- `pointer.replace('.', "/")`
unfoldable pub dots_to_slashes : String → String
dots_to_slashes String.[] = String.[]
dots_to_slashes (String.◌∷◌ c s) =
    if code c == b'.' then append "/" (dots_to_slashes s) else String.◌∷◌ c (dots_to_slashes s)

-- The closure that turns a JSON scalar into text.
abbrev pub scalar_text : Value → Option String
scalar_text (string s) = some s
scalar_text (number s) = some s
scalar_text (bool true) = some "true"
scalar_text (bool false) = some "false"
scalar_text _ = none

abbrev pub payload_pointer : String → String
payload_pointer path = if has_prefix "/" path then path else append "/" (dots_to_slashes path)

abbrev pub bind_text : Option Value → Option String
bind_text none = none
bind_text (some v) = scalar_text v

module _ (lib : Engines) where
  open lib use {Regex, regex_new, is_match, pointer}

  pub record CompiledMatcher : Type 0 where
    pub field : String
    pub equals : Option String
    pub contains : Option String
    pub regex : Option Regex

  pub record CompiledRoute : Type 0 where
    pub name : String
    pub receiver : String
    pub owner_team : Option String
    pub escalation_policy : Option String
    pub group_by : List String
    pub continue_matching : Bool
    pub matchers : List CompiledMatcher

  pub record RouteEngine : Type 0 where
    pub routes : List CompiledRoute
    pub default_receiver : Option String

  -- The prefixes `label.`, `annotation.` and `payload.` of a field name.
  prefixed_value : AlertEvent → String → Option String
  prefixed_value event field = elim (strip_prefix "label." field) [
    | some name ↦ map_get event.labels name
    | none ↦ elim (strip_prefix "annotation." field) [
      | some name ↦ map_get event.annotations name
      | none ↦ elim (strip_prefix "payload." field) [
        | some path ↦ bind_text (pointer event.raw_payload (payload_pointer path))
        | none ↦ none
      ]
    ]
  ]

  unfoldable pub field_value : AlertEvent → String → Option String
  unfolding prefixed_value
  field_value event field =
      if str_eq field "integration"
      then some event.integration
      else if str_eq field "source"
      then some event.source
      else if str_eq field "status"
      then some event.status
      else if str_eq field "severity"
      then some event.severity
      else if str_eq field "title" || str_eq field "alertname"
      then some event.title
      else if str_eq field "fingerprint"
      then some event.fingerprint
      else prefixed_value event field

  -- One `if let Some(expected) = …` of `matches`: an absent condition holds.
  abbrev pub holds {ℓ} : {A : Type ℓ} → Option A → (A → Bool) → Bool
  holds none test = true
  holds (some a) test = test a

  -- `CompiledMatcher::matches`
  unfoldable pub matcher_matches : CompiledMatcher → AlertEvent → Bool
  matcher_matches m event = elim (field_value event m.field) [
    | none ↦ false
    | some value ↦
        if not (holds m.equals (λ expected. str_eq value expected))
        then false
        else if not (holds m.contains (λ needle. contains value needle))
        then false
        else if not (holds m.regex (λ regex. is_match regex value))
        then false
        else true
  ]

  -- `CompiledRoute::matches`
  unfoldable pub route_matches : CompiledRoute → AlertEvent → Bool
  route_matches route event = all (λ m. matcher_matches m event) route.matchers

  abbrev pub route_delivery : CompiledRoute → Delivery
  route_delivery route = record {
    route_name = route.name;
    receiver = route.receiver;
    owner_team = route.owner_team;
    escalation_policy = route.escalation_policy;
    group_by = route.group_by;
  }

  abbrev pub default_delivery : String → Delivery
  default_delivery receiver = record {
    route_name = "default";
    receiver = receiver;
    owner_team = none;
    escalation_policy = none;
    group_by = [];
  }

  -- What follows the loop of `plan`.
  abbrev pub plan_end : Option String → List Delivery → List Delivery
  plan_end (some receiver) [] = default_delivery receiver ∷ []
  plan_end _ deliveries = deliveries

  -- The loop of `plan`, with the deliveries so far.
  unfoldable pub plan_loop :
      Option String → AlertEvent → List CompiledRoute → List Delivery → List Delivery
  plan_loop default event [] deliveries = plan_end default deliveries
  plan_loop default event (route ∷ routes) deliveries = elim (route_matches route event) [
    | false ↦ plan_loop default event routes deliveries
    | true ↦ elim route.continue_matching [
      | false ↦ deliveries ++ route_delivery route ∷ []
      | true ↦ plan_loop default event routes (deliveries ++ route_delivery route ∷ [])
    ]
  ]

  -- `RouteEngine::plan`
  unfoldable pub plan : RouteEngine → AlertEvent → List Delivery
  plan engine event = plan_loop engine.default_receiver event engine.routes []

  abbrev compiled : MatcherConfig → Option Regex → CompiledMatcher
  compiled m r = record { field = m.field; equals = m.equals; contains = m.contains; regex = r }

  -- `CompiledMatcher::new`; `none` is an invalid expression
  unfoldable pub matcher_new : MatcherConfig → Option CompiledMatcher
  matcher_new m = elim m.regex [
    | none ↦ some (compiled m none)
    | some raw ↦ elim (regex_new raw) [ none ↦ none | some r ↦ some (compiled m (some r)) ]
  ]

  unfoldable pub matchers_new : List MatcherConfig → Option (List CompiledMatcher)
  matchers_new [] = some []
  matchers_new (m ∷ rest) = elim (matcher_new m) [
    | none ↦ none
    | some c ↦ elim (matchers_new rest) [ none ↦ none | some cs ↦ some (c ∷ cs) ]
  ]

  -- `CompiledRoute::new`
  unfoldable pub route_new : RouteConfig → Option CompiledRoute
  route_new route = elim (matchers_new route.matchers) [
    | none ↦ none
    | some ms ↦ some (record {
      name = route.name;
      receiver = route.receiver;
      owner_team = route.owner_team;
      escalation_policy = route.escalation_policy;
      group_by = route.group_by;
      continue_matching = route.continue_matching;
      matchers = ms;
    })
  ]

  unfoldable pub routes_new : List RouteConfig → Option (List CompiledRoute)
  routes_new [] = some []
  routes_new (r ∷ rest) = elim (route_new r) [
    | none ↦ none
    | some c ↦ elim (routes_new rest) [ none ↦ none | some cs ↦ some (c ∷ cs) ]
  ]

  -- `RouteEngine::new`, of the configuration's routes and default receiver
  unfoldable pub engine_new : List RouteConfig → Option String → Option RouteEngine
  engine_new routes default = elim (routes_new routes) [
    | none ↦ none
    | some rs ↦ some (record { routes = rs; default_receiver = default })
  ]
