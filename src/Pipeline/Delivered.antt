-- ===== src/Pipeline/Delivered.antt =====
-- main.rs: what a webhook delivers, against the plans of its events.
use simple_alert_proxy.Prelude.{
  ℕ, ◌+◌, String, Option, none, some, List, [], ◌∷◌, ◌++◌, map, length, ◌≡◌, sym, ap, subst, ◌∙◌,
  arith, All, Option-cases, inl, inr,
}
use mathlib.Core.List.{append-nil, append_assoc}
use simple_alert_proxy.Prelude.Maps.{get, contains_key}
use simple_alert_proxy.Alert.{AlertEvent}
use simple_alert_proxy.Routing.{Delivery}
use simple_alert_proxy.Config.{AppConfig, ReceiverConfig}
use simple_alert_proxy.Config.Parts.{KnowsReceiver}
use simple_alert_proxy.Storage.{Db, Result, ok}
use simple_alert_proxy.Storage.Groups.{store_event_with_team}
use simple_alert_proxy.Pipeline.{
  State, Step, Context, queue_event_delivery, deliver_one, deliver_all,
}
use simple_alert_proxy.Pipeline.Anchors.{
  IsAnchored, IsAnchored-same, store_event_with_team-IsAnchored,
}
use simple_alert_proxy.Pipeline.Queued.{Gives, next_of-Gives, Sized, queue_event_delivery-Gives}

abbrev pub Anything : Db → Type 0
Anything db = Unit

abbrev pub receivers_of : List Delivery → List String
receivers_of = map (λ d. d.receiver)

pub Gives-cast :
    {A : Type 0} (a b : A) (n m : ℕ) (P : Db → Type 0) (r : Result A × State)
    → a ≡ b
    → n ≡ m
    → Gives a n P r
    → Gives b m P r
Gives-cast a b n m P r e f g = record {
  value = g.value ∙ ap (λ x. ok x) e;
  records = g.records ∙ f;
  holds = g.holds;
}

pub known_receiver :
    (config : AppConfig) (name : String)
    → KnowsReceiver config name
    → (r : ReceiverConfig) × (get name config.receivers ≡ some r)
unfolding contains_key
known_receiver config name h = elim (Option-cases (get name config.receivers)) [
  | inl e ↦ ground arith
  | inr f ↦ f
]

abbrev pub AllKnown : AppConfig → List Delivery → Type 0
AllKnown config = All (λ d. KnowsReceiver config d.receiver)

module _ (context : Context) where
  open context use {config, serde, clock}

  -- The event is stored with its group if it has an id.
  abbrev Stored : Option ℕ → Db → Type 0
  Stored none db = Unit
  Stored (some id) db = IsAnchored id db

  -- One delivery whose receiver is there: one record more, and the loop goes on with the event stored.
  deliver_one-Gives :
      (event : AlertEvent) (team : Option String) (id : Option ℕ) (n m : ℕ) (d : Delivery)
      (b : List String) (skip : Step (List String)) (next : ℕ → Step (List String))
      (receiver : ReceiverConfig) (s : State)
      → Sized context event
      → s.db.deliveries.seq ≡ n
      → Stored id s.db
      → ((i : ℕ) (t : State)
          → t.db.deliveries.seq ≡ n + 1
          → IsAnchored i t.db
          → Gives b m Anything (next i t))
      → Gives b m Anything (deliver_one context event team id d skip next (some receiver) s)
  unfolding store_event_with_team
  deliver_one-Gives event team (some i) n m d b skip next receiver s fit e h f =
      next_of-Gives tt b (n + 1) m (IsAnchored i) Anything (λ _. next i)
        (queue_event_delivery context event i receiver d s)
        (queue_event_delivery-Gives context i (IsAnchored i) (IsAnchored-same i) (λ db h. h) event n
          receiver d s fit e h)
        (f i)
  deliver_one-Gives event team none n m d b skip next receiver s fit e h f =
      let now = clock s.db in
      let i = (store_event_with_team serde now event team s.db).0 in
      let t : State = record s { db = (store_event_with_team serde now event team s.db).1 } in
      next_of-Gives tt b (n + 1) m (IsAnchored i) Anything (λ _. next i)
        (queue_event_delivery context event i receiver d t)
        (queue_event_delivery-Gives context i (IsAnchored i) (IsAnchored-same i) (λ db h. h) event n
          receiver d t fit e (store_event_with_team-IsAnchored serde now event team s.db))
        (f i)

  pub deliver_all-Gives :
      (event : AlertEvent) (team : Option String) (id : Option ℕ) (n : ℕ) (ds : List Delivery)
      (delivered : List String) (s : State)
      → Sized context event
      → AllKnown config ds
      → s.db.deliveries.seq ≡ n
      → Stored id s.db
      → Gives
          (delivered ++ receivers_of ds)
          (n + length ds)
          Anything
          (deliver_all context event team id ds delivered s)
  unfolding deliver_all
  deliver_all-Gives event team id n [] delivered s fit known e h = record {
    value = ap (λ l. ok l) (sym (append-nil delivered));
    records = omega (arith, e);
    holds = tt;
  }
  deliver_all-Gives event team id n (d ∷ rest) delivered s fit known e h =
      let (receiver, r) = known_receiver config d.receiver known.0 in
      let one = delivered ++ d.receiver ∷ [] in
      let skip = deliver_all context event team id rest delivered in
      let next : ℕ → Step (List String) = λ i. deliver_all context event team (some i) rest one in
      subst
        (λ o.
          Gives (delivered ++ receivers_of (d ∷ rest)) (n + length (d ∷ rest)) Anything
            (deliver_one context event team id d skip next o s))
        (sym r)
        (deliver_one-Gives event team id n (n + length (d ∷ rest)) d
          (delivered ++ receivers_of (d ∷ rest)) skip next receiver s fit e h
          (λ i t f g.
            Gives-cast (one ++ receivers_of rest) (delivered ++ receivers_of (d ∷ rest))
              (n + 1 + length rest) (n + length (d ∷ rest)) Anything (next i t)
              (append_assoc delivered (d.receiver ∷ []) (receivers_of rest)) (omega arith)
              (deliver_all-Gives event team (some i) (n + 1) rest one t fit known.1 f g)))
