-- ===== src/Storage/Groups/Lifecycle.antt =====
-- storage.rs, `store_event_with_team`: what an event does to the groups.
use simple_alert_proxy.Prelude.{
  ℕ, ◌+◌, ◌-◌, ◌≤◌, String, Bool, true, false, ◌&&◌, Option, none, some, List, [], ◌∷◌, ◌==◌,
  str_eq, str_eq_iff, if◌then◌else◌, ◌≡◌, refl, arith, Option-cases, Bool-cases, inl, inr, ◌⊎◌,
  ==_refl,
}
use simple_alert_proxy.Prelude.Int.{ℤ}
use simple_alert_proxy.Table.{Table, find, update_where, at}
use simple_alert_proxy.Table.Laws.{Fresh, IsFresh, AllRows}
use simple_alert_proxy.Alert.{AlertEvent, EventSerde}
use simple_alert_proxy.Storage.{Db, GroupRow, GroupStatus}
use simple_alert_proxy.Storage.Groups.Counts.{find_group-AllRows}
use simple_alert_proxy.Storage.Groups.{
  has_key, find_group, touch_group, new_group, upsert_alert_group, owner_team_id,
  store_event_with_team, group_status,
}

abbrev pub key_is : String → String → AlertEvent → Bool
key_is ns fp event = str_eq event.group_namespace ns && str_eq event.fingerprint fp

abbrev pub touched : AlertEvent → Option ℕ → ℤ → Option (ℕ × GroupRow) → ℕ → Option (ℕ × GroupRow)
touched event team now none fresh = some (fresh, new_group event team now)
touched event team now (some (i, g)) fresh = some (i, touch_group event team now g)

find_group-update :
    (ns fp : String) (k : ℕ) (f : GroupRow → GroupRow)
    → ((g : GroupRow) → has_key ns fp (f g) ≡ has_key ns fp g)
    → (l : List (ℕ × GroupRow))
    → find_group ns fp (update_where (at k) f l) ≡ elim (find_group ns fp l) [
      | none ↦ none
      | some (i, g) ↦ some (i, if i == k then f g else g)
    ]
unfolding find_group update_where
find_group-update ns fp k f keeps [] = refl
find_group-update ns fp k f keeps ((i, g) ∷ rest) =
    ground (arith, keeps g, find_group-update ns fp k f keeps rest)

-- Where ids are distinct, the group that a key selects is the row of its id.
find_group-find :
    (n : ℕ) (ns fp : String) (l : List (ℕ × GroupRow)) {i : ℕ} {g : GroupRow}
    → Fresh n l
    → find_group ns fp l ≡ some (i, g)
    → (find i l ≡ some g) × (1 ≤ i) × (i ≤ n)
unfolding find_group find
find_group-find n ns fp [] f e = absurd (cc)
find_group-find n ns fp ((j, x) ∷ rest) {i} {g} f e = elim (Bool-cases (has_key ns fp x)) [
  | inl t ↦ ground arith
  | inr t ↦ ground (arith, find_group-find (j - 1) ns fp rest {i = i} {g = g} f.2)
]

-- A key other than the event's selects another row than the event's key does.
other_row :
    (n : ℕ) (event : AlertEvent) (ns fp : String) (l : List (ℕ × GroupRow)) (i j : ℕ)
    (g x : GroupRow)
    → Fresh n l
    → find_group event.group_namespace event.fingerprint l ≡ some (i, g)
    → find_group ns fp l ≡ some (j, x)
    → key_is ns fp event ≡ false
    → (j == i) ≡ false
other_row n event ns fp l i j g x f e d k = ground (
  arith,
  find_group-find n event.group_namespace event.fingerprint l {i = i} {g = g} f e,
  find_group-find n ns fp l {i = j} {g = x} f d,
  find_group-AllRows (λ _ _. Unit {0}) event.group_namespace event.fingerprint l {i = i} {g = g}
      (everything l) e,
  find_group-AllRows (λ _ _. Unit {0}) ns fp l {i = j} {g = x} (everything l) d,
  str_eq_iff event.group_namespace ns,
  str_eq_iff event.fingerprint fp,
)
  where
    everything : (rows : List (ℕ × GroupRow)) → AllRows (λ _ _. Unit {0}) rows
    everything [] = tt
    everything (r ∷ rest) = (tt, everything rest)

same_key :
    (event : AlertEvent) (ns fp : String) (l : List (ℕ × GroupRow))
    → key_is ns fp event ≡ true
    → find_group ns fp l ≡ find_group event.group_namespace event.fingerprint l
same_key event ns fp l k =
    let p : ns ≡ event.group_namespace = ground (arith, str_eq_iff event.group_namespace ns) in
    let q : fp ≡ event.fingerprint = ground (arith, str_eq_iff event.fingerprint fp) in cc

module _ (event : AlertEvent) (team_id : Option ℕ) (now : ℤ) (groups : Table GroupRow) where
  abbrev rows_after : List (ℕ × GroupRow)
  rows_after = (upsert_alert_group event team_id now groups).1.rows

  touch-has_key :
      (ns fp : String) (g : GroupRow)
      → has_key ns fp (touch_group event team_id now g) ≡ has_key ns fp g
  unfolding touch_group
  touch-has_key ns fp g = refl

  rows_known :
      (i : ℕ) (g : GroupRow)
      → find_group event.group_namespace event.fingerprint groups.rows ≡ some (i, g)
      → rows_after ≡ update_where (at i) (touch_group event team_id now) groups.rows
  unfolding upsert_alert_group
  rows_known i g e = ground arith

  rows_new :
      find_group event.group_namespace event.fingerprint groups.rows ≡ none
      → rows_after ≡ (groups.seq + 1, new_group event team_id now) ∷ groups.rows
  unfolding upsert_alert_group
  rows_new e = ground arith

  -- After an event its key selects the touched group, or a new one if there was none, and every
  -- other key selects what it selected before.
  pub find_group-upsert :
      (ns fp : String)
      → IsFresh groups
      → find_group ns fp rows_after ≡ (
          if key_is ns fp event
          then touched event team_id now (find_group ns fp groups.rows) (groups.seq + 1)
          else find_group ns fp groups.rows)
  unfolding find_group new_group
  find_group-upsert ns fp f =
      elim (Option-cases (find_group event.group_namespace event.fingerprint groups.rows)) [
        | inl e ↦ rw (rows_new e) (elim (Bool-cases (key_is ns fp event)) [
          | inl k ↦ rw (k, same_key event ns fp groups.rows k, e)
          | inr k ↦ rw k
        ])
        | inr ((i, g), e) ↦ rw (rows_known i g e) (
            rw
              (find_group-update ns fp i (touch_group event team_id now) (touch-has_key ns fp)
                groups.rows)
              (elim (Bool-cases (key_is ns fp event)) [
                | inl k ↦ rw (k, same_key event ns fp groups.rows k, e) (ground (arith, ==_refl i))
                | inr k ↦ rw k (untouched i g e k (find_group ns fp groups.rows) refl)
              ]))
      ]
    where
      untouched :
          (i : ℕ) (g : GroupRow)
          → find_group event.group_namespace event.fingerprint groups.rows ≡ some (i, g)
          → key_is ns fp event ≡ false
          → (o : Option (ℕ × GroupRow)) → find_group ns fp groups.rows ≡ o
          → elim o [
            | none ↦ none
            | some (j, x) ↦ some (j, if j == i then touch_group event team_id now x else x)
          ]
            ≡ o
      untouched i g e k none q = refl
      untouched i g e k (some (j, x)) q =
          rw (other_row groups.seq event ns fp groups.rows i j g x f e q k)

-- Where group ids are unique: after an event is stored its key selects the touched group, or a
-- new one if there was none, and every other key, of another namespace or fingerprint, selects
-- what it selected before.
pub find_group-store_event_with_team :
    (serde : EventSerde) (now : ℤ) (event : AlertEvent) (owner_team : Option String) (db : Db)
    (ns fp : String)
    → IsFresh db.groups
    → find_group ns fp (store_event_with_team serde now event owner_team db).1.groups.rows ≡ (
        if key_is ns fp event
        then touched event
            (owner_team_id db owner_team)
            now
            (find_group ns fp db.groups.rows)
            (db.groups.seq + 1)
        else find_group ns fp db.groups.rows)
unfolding store_event_with_team
find_group-store_event_with_team serde now event owner_team db ns fp f =
    find_group-upsert event (owner_team_id db owner_team) now db.groups ns fp f

-- What an event does to a group that it finds.
pub record Repeated (event : AlertEvent) (g g' : GroupRow) : Type 0 where
  pub count : g'.event_count ≡ g.event_count + 1
  pub status : g'.status ≡ group_status event
  pub first : g'.first_event_at ≡ g.first_event_at
  pub owner : (team : ℕ) → g.team_id ≡ some team → g'.team_id ≡ some team
  pub reactivated :
      g.status ≡ GroupStatus.resolved
      → group_status event ≡ GroupStatus.active
      → (g'.acknowledged_at ≡ none) × (g'.silenced_until ≡ none)
  pub kept :
      (g.status ≡ GroupStatus.active) ⊎ (group_status event ≡ GroupStatus.resolved)
      → (g'.acknowledged_at ≡ g.acknowledged_at) × (g'.silenced_until ≡ g.silenced_until)

-- Where group ids are unique, an event whose key selects a group adds one to its count and sets
-- its status, and keeps its first time and its owning team. The acknowledgement and the silence
-- are cleared if the event makes a resolved group active, and kept otherwise.
pub store_event_with_team-Repeated :
    (serde : EventSerde) (now : ℤ) (event : AlertEvent) (owner_team : Option String) (db : Db)
    (id : ℕ) (g : GroupRow)
    → IsFresh db.groups
    → find_group event.group_namespace event.fingerprint db.groups.rows ≡ some (id, g)
    → (g' : GroupRow) × (find_group event.group_namespace event.fingerprint
          (store_event_with_team serde now event owner_team db).1.groups.rows
        ≡ some (id, g'))
      × Repeated event g g'
unfolding touch_group
store_event_with_team-Repeated serde now event owner_team db id g f e = (
  touch_group event (owner_team_id db owner_team) now g,
  rw
      (find_group-store_event_with_team serde now event owner_team db event.group_namespace
        event.fingerprint f)
      (rw (key_is_self event, e)),
  record {
    count = refl;
    status = refl;
    first = refl;
    owner = λ team q. rw q;
    reactivated = λ p q. ground arith;
    kept = λ p. ground arith;
  },
)
  where
    key_is_self : (x : AlertEvent) → key_is x.group_namespace x.fingerprint x ≡ true
    key_is_self x = ground (
      arith,
      str_eq_iff x.group_namespace x.group_namespace,
      str_eq_iff x.fingerprint x.fingerprint,
    )
