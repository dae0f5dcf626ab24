-- ===== src/Storage/Groups/Counts.antt =====
-- storage.rs, events and groups: group keys, and `event_count` against the stored events.
use simple_alert_proxy.Prelude.{
  ℕ, ◌+◌, ◌≤◌, String, Bool, false, Option, none, some, List, [], ◌∷◌, ◌==◌, str_eq_iff,
  if◌then◌else◌, ◌≡◌, refl, sym, arith, Option-cases, Bool-cases, inl, inr, subst,
}
use simple_alert_proxy.Prelude.Int.{ℤ}
use simple_alert_proxy.Table
use simple_alert_proxy.Table.{Table, find, update_where, count_where, at}
use simple_alert_proxy.Table.Laws.{
  IsFresh, AllRows, AllRows-mono, AllRows-and, Fresh-AllRows, AllRows-update_where_into,
  Fresh-update_where, insert-IsFresh, count-zero_of_AllRows,
}
use simple_alert_proxy.Alert.{AlertEvent, EventSerde}
use simple_alert_proxy.Storage.{Db, EventRow, GroupRow, AuditActor}
use simple_alert_proxy.Storage.Groups.{
  has_key, find_group, touch_group, new_group, upsert_alert_group, owner_team_id, event_row,
  store_event_with_team, update_group, acknowledge_group_as, resolve_group_as, silence_group_as,
  group_exists,
}
use simple_alert_proxy.Storage

-- WHERE alert_group_id = g
abbrev pub in_group : ℕ → ℕ → EventRow → Bool
in_group g _ e = elim e.alert_group_id [ none ↦ false | some h ↦ h == g ]

abbrev pub GroupAtMost : ℕ → ℕ → EventRow → Type 0
GroupAtMost n _ e = (g : ℕ) → e.alert_group_id ≡ some g → g ≤ n

-- No two groups share their namespace and fingerprint.
abbrev pub UniqueKeys : List (ℕ × GroupRow) → Type 0
UniqueKeys [] = Unit
UniqueKeys ((i, g) ∷ rest) =
    (find_group g.group_namespace g.fingerprint rest ≡ none) × UniqueKeys rest

abbrev pub Counted : List (ℕ × EventRow) → ℕ → GroupRow → Type 0
Counted events i g = g.event_count ≡ count_where (in_group i) events

pub record IsCounted (db : Db) : Type 0 where
  pub groups_fresh : IsFresh db.groups
  pub events_fresh : IsFresh db.events
  pub owned : AllRows (GroupAtMost db.groups.seq) db.events.rows
  pub counted : AllRows (Counted db.events.rows) db.groups.rows
  pub unique : UniqueKeys db.groups.rows

-- An UPDATE that keeps the key keeps what a key selects.
find_group-update_none :
    (ns fp : String) (k : ℕ) (f : GroupRow → GroupRow)
    → ((g : GroupRow) → has_key ns fp (f g) ≡ has_key ns fp g)
    → (l : List (ℕ × GroupRow)) → find_group ns fp l ≡ none
    → find_group ns fp (update_where (at k) f l) ≡ none
unfolding find_group update_where
find_group-update_none ns fp k f keeps [] h = refl
find_group-update_none ns fp k f keeps ((i, g) ∷ rest) h =
    ground (arith, keeps g, find_group-update_none ns fp k f keeps rest)

UniqueKeys-update :
    (k : ℕ) (f : GroupRow → GroupRow)
    → ((g : GroupRow)
        → ((f g).group_namespace ≡ g.group_namespace) × ((f g).fingerprint ≡ g.fingerprint))
    → (l : List (ℕ × GroupRow)) → UniqueKeys l
    → UniqueKeys (update_where (at k) f l)
unfolding update_where
UniqueKeys-update k f keeps [] h = h
UniqueKeys-update k f keeps ((i, g) ∷ rest) h = elim (Bool-cases (i == k)) [
  | inl e ↦
      rw (e, (keeps g).0, (keeps g).1)
        (find_group-update_none _ _ k f same rest h.0, UniqueKeys-update k f keeps rest h.1)
  | inr e ↦
      rw e (find_group-update_none _ _ k f same rest h.0, UniqueKeys-update k f keeps rest h.1)
]
  where
    same :
        (x : GroupRow)
        → has_key g.group_namespace g.fingerprint (f x) ≡ has_key g.group_namespace g.fingerprint x
    same x = rw ((keeps x).0, (keeps x).1)

-- A selected group is a row of the table, with the key that was asked for.
pub find_group-AllRows :
    (P : ℕ → GroupRow → Type 0) (ns fp : String) (l : List (ℕ × GroupRow)) {i : ℕ} {g : GroupRow}
    → AllRows P l
    → find_group ns fp l ≡ some (i, g)
    → P i g × (g.group_namespace ≡ ns) × (g.fingerprint ≡ fp)
unfolding find_group
find_group-AllRows P ns fp [] h e = absurd (cc)
find_group-AllRows P ns fp ((j, x) ∷ rest) {i} {g} h e = elim (Bool-cases (has_key ns fp x)) [
  | inl t ↦
      let ij : j ≡ i = ground arith in
      let xg : x ≡ g = ground arith in
      (
        subst (λ y. P y g) ij (subst (λ y. P j y) xg h.0),
        ground (arith, str_eq_iff x.group_namespace ns),
        ground (arith, str_eq_iff x.fingerprint fp),
      )
  | inr t ↦ find_group-AllRows P ns fp rest h.1 (ground arith)
]

not-in_group : (n i : ℕ) (e : EventRow) → GroupAtMost n i e → in_group (n + 1) i e ≡ false
not-in_group n i e h = elim (Option-cases e.alert_group_id) [
  | inl q ↦ rw q
  | inr (g, q) ↦ ground (arith, h g q)
]

-- A group id that no event has yet counts no event.
count-zero :
    (n : ℕ) (events : List (ℕ × EventRow))
    → AllRows (GroupAtMost n) events
    → count_where (in_group (n + 1)) events ≡ 0
count-zero n events o = count-zero_of_AllRows _ events (AllRows-mono _ _ (not-in_group n) events o)

-- A new event counts for its own group only.
counted_after :
    (serde : EventSerde) (event : AlertEvent) (now : ℤ) (id n i : ℕ) (events : List (ℕ × EventRow))
    → count_where (in_group i) ((n, event_row serde event id now) ∷ events)
      ≡ (if i == id then 1 else 0) + count_where (in_group i) events
unfolding count_where
counted_after serde event now id n i events = ground arith

module _ (serde : EventSerde) (now : ℤ) (event : AlertEvent) (team_id : Option ℕ) (db : Db) where
  abbrev stored : ℕ → Table GroupRow → Db
  stored id groups = record db {
    groups = groups;
    events = Table.insert (event_row serde event id now) db.events;
  }

  abbrev upserted : ℕ × Table GroupRow
  upserted = upsert_alert_group event team_id now db.groups

  upsert_new :
      find_group event.group_namespace event.fingerprint db.groups.rows ≡ none
      → upserted ≡ (db.groups.seq + 1, Table.insert (new_group event team_id now) db.groups)
  unfolding upsert_alert_group
  upsert_new e = ground arith

  upsert_known :
      (id : ℕ) (g : GroupRow)
      → find_group event.group_namespace event.fingerprint db.groups.rows ≡ some (id, g)
      → upserted ≡ (
        id,
        Table.with_rows db.groups
            (update_where (at id) (touch_group event team_id now) db.groups.rows),
      )
  unfolding upsert_alert_group
  upsert_known id g e = ground arith

  owned_after :
      (n id : ℕ)
      → db.groups.seq ≤ n
      → id ≤ n
      → AllRows (GroupAtMost db.groups.seq) db.events.rows
      → AllRows (GroupAtMost n) (Table.insert (event_row serde event id now) db.events).rows
  unfolding Table.insert
  owned_after n id h k o = (
    λ g e. ground arith,
    AllRows-mono _ (GroupAtMost n) (λ i a f g e. omega (arith, f g e)) db.events.rows o,
  )

  new-IsCounted :
      find_group event.group_namespace event.fingerprint db.groups.rows ≡ none
      → IsCounted db
      → IsCounted
          (stored (db.groups.seq + 1) (Table.insert (new_group event team_id now) db.groups))
  unfolding Table.insert new_group
  new-IsCounted e h = record {
    groups_fresh = insert-IsFresh (new_group event team_id now) db.groups h.groups_fresh;
    events_fresh =
        insert-IsFresh (event_row serde event (db.groups.seq + 1) now) db.events h.events_fresh;
    owned = owned_after (db.groups.seq + 1) (db.groups.seq + 1) (omega arith) (omega arith) h.owned;
    counted = (
      ground (
        arith,
        counted_after serde event now (db.groups.seq + 1) (db.events.seq + 1) (db.groups.seq + 1)
            db.events.rows,
        count-zero db.groups.seq db.events.rows h.owned,
      ),
      AllRows-mono _ _
          (λ i a p. ground (
            arith,
            counted_after serde event now (db.groups.seq + 1) (db.events.seq + 1) i db.events.rows,
            p.0,
            p.1,
          ))
          db.groups.rows
          (AllRows-and _ _ db.groups.rows h.counted
            (Fresh-AllRows db.groups.seq db.groups.rows h.groups_fresh)),
    );
    unique = (e, h.unique);
  }

  known-IsCounted :
      (id : ℕ) (g : GroupRow)
      → find_group event.group_namespace event.fingerprint db.groups.rows ≡ some (id, g)
      → IsCounted db
      → IsCounted (
          stored id (
            Table.with_rows db.groups
              (update_where (at id) (touch_group event team_id now) db.groups.rows)))
  unfolding Table.insert touch_group
  known-IsCounted id g e h = record {
    groups_fresh = Fresh-update_where db.groups.seq (at id) _ db.groups.rows h.groups_fresh;
    events_fresh = insert-IsFresh (event_row serde event id now) db.events h.events_fresh;
    owned =
        owned_after db.groups.seq id (omega arith)
          (find_group-AllRows _ _ _ db.groups.rows
            (Fresh-AllRows db.groups.seq db.groups.rows h.groups_fresh) e).0.1
          h.owned;
    counted =
        AllRows-update_where_into _ _ (at id) _
          (λ i a c.
            ground (arith, counted_after serde event now id (db.events.seq + 1) i db.events.rows))
          db.groups.rows h.counted;
    unique = UniqueKeys-update id _ (λ x. (refl, refl)) db.groups.rows h.unique;
  }

  upserted-IsCounted : IsCounted db → IsCounted (stored upserted.0 upserted.1)
  upserted-IsCounted h =
      elim (Option-cases (find_group event.group_namespace event.fingerprint db.groups.rows)) [
        | inl e ↦
            subst (λ (u : ℕ × Table GroupRow). IsCounted (stored u.0 u.1)) (sym (upsert_new e))
              (new-IsCounted e h)
        | inr ((id, g), e) ↦
            subst (λ (u : ℕ × Table GroupRow). IsCounted (stored u.0 u.1))
              (sym (upsert_known id g e)) (known-IsCounted id g e h)
      ]

-- Storing an event keeps the invariant that ids and group keys are unique, that events belong to
-- groups that were created, and that every group counts exactly its stored events.
pub store_event_with_team-IsCounted :
    (serde : EventSerde) (now : ℤ) (event : AlertEvent) (owner_team : Option String) (db : Db)
    → IsCounted db
    → IsCounted (store_event_with_team serde now event owner_team db).1
unfolding store_event_with_team
store_event_with_team-IsCounted serde now event owner_team db h =
    upserted-IsCounted serde now event (owner_team_id db owner_team) db h

-- An UPDATE of one group that keeps its key and its count keeps the invariant.
update_group-IsCounted :
    (id : ℕ) (f : GroupRow → GroupRow) (db : Db)
    → ((g : GroupRow)
        → ((f g).group_namespace ≡ g.group_namespace) × ((f g).fingerprint ≡ g.fingerprint))
    → ((g : GroupRow) → (f g).event_count ≡ g.event_count)
    → IsCounted db
    → IsCounted (update_group id f db)
update_group-IsCounted id f db keeps same h = record {
  groups_fresh = Fresh-update_where db.groups.seq (at id) f db.groups.rows h.groups_fresh;
  events_fresh = h.events_fresh;
  owned = h.owned;
  counted =
      AllRows-update_where_into _ _ (at id) f (λ i a c. ground (arith, same a)) db.groups.rows
        h.counted;
  unique = UniqueKeys-update id f keeps db.groups.rows h.unique;
}

-- The invariant reads only the groups and the events.
IsCounted-cong : (a b : Db) → a.groups ≡ b.groups → a.events ≡ b.events → IsCounted a → IsCounted b
IsCounted-cong a b p q h = record {
  groups_fresh = subst (λ (t : Table GroupRow). IsFresh t) p h.groups_fresh;
  events_fresh = subst (λ (t : Table EventRow). IsFresh t) q h.events_fresh;
  owned =
      subst (λ (t : Table GroupRow). AllRows (GroupAtMost t.seq) b.events.rows) p
        (subst (λ (t : Table EventRow). AllRows (GroupAtMost a.groups.seq) t.rows) q h.owned);
  counted =
      subst (λ (t : Table GroupRow). AllRows (Counted b.events.rows) t.rows) p
        (subst (λ (t : Table EventRow). AllRows (Counted t.rows) a.groups.rows) q h.counted);
  unique = subst (λ (t : Table GroupRow). UniqueKeys t.rows) p h.unique;
}

-- The lifecycle actions of an operator keep the invariant, whether they find the group or not.
lifecycle-IsCounted :
    (now : ℤ) (id : ℕ) (actor : AuditActor) (db : Db)
    → IsCounted db
    → IsCounted (acknowledge_group_as now id actor db).1
      × IsCounted (resolve_group_as now id actor db).1
      × IsCounted (silence_group_as now id actor db).1
unfolding acknowledge_group_as resolve_group_as silence_group_as
lifecycle-IsCounted now id actor db h = elim (Bool-cases (group_exists db id)) [
  | inr missing ↦ rw missing (h, h, h)
  | inl found ↦ rw found (
    IsCounted-cong _ _ refl refl (update_group-IsCounted id _ db (λ g. (refl, refl)) (λ g. refl) h),
    IsCounted-cong _ _ refl refl (update_group-IsCounted id _ db (λ g. (refl, refl)) (λ g. refl) h),
    IsCounted-cong _ _ refl refl (update_group-IsCounted id _ db (λ g. (refl, refl)) (λ g. refl) h),
  )
]

pub empty-IsCounted : IsCounted Storage.empty
empty-IsCounted = record {
  groups_fresh = tt;
  events_fresh = tt;
  owned = tt;
  counted = tt;
  unique = tt;
}
