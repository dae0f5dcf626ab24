-- ===== src/Storage/Retention/Events.antt =====
-- storage.rs, retention: what is left of the events and the groups.
use simple_alert_proxy.Prelude.{
  ℕ, ◌+◌, String, Bool, false, ◌&&◌, not, none, some, List, [], ◌∷◌, if◌then◌else◌, ◌≡◌, refl,
  arith, Bool-cases, inl, inr, length,
}
use simple_alert_proxy.Prelude.Int.{ℤ}
use simple_alert_proxy.Table.{find, update_with, delete_where, count_where, exists_where}
use simple_alert_proxy.Table.Laws.{
  IsFresh, AllRows, AllRows-mono, AllRows-and, AllRows-delete_where, Fresh-delete_where,
  Fresh-found, delete_where-gone,
}
use simple_alert_proxy.Table.Deletes.{
  Fresh-update_with, AllRows-update_with, count-delete_where, find-delete_where, exists-id,
}
use simple_alert_proxy.Storage.{Db, EventRow, GroupRow}
use simple_alert_proxy.Storage.Groups.{find_group}
use simple_alert_proxy.Storage.Groups.Counts.{in_group, GroupAtMost, UniqueKeys, Counted, IsCounted}
use simple_alert_proxy.Storage.Retention.{
  is_old, old_event, touched_group, orphan_group, recount_group, prune_deliveries, prune_events,
  prune_alerts_before,
}

-- The rows' keys are kept by a DELETE, and by an UPDATE that keeps each row's key.
find_group-delete_none :
    (ns fp : String) (p : ℕ → GroupRow → Bool) (l : List (ℕ × GroupRow))
    → find_group ns fp l ≡ none
    → find_group ns fp (delete_where p l) ≡ none
unfolding find_group delete_where
find_group-delete_none ns fp p [] h = refl
find_group-delete_none ns fp p ((i, g) ∷ rest) h =
    ground (arith, find_group-delete_none ns fp p rest)

UniqueKeys-delete :
    (p : ℕ → GroupRow → Bool) (l : List (ℕ × GroupRow))
    → UniqueKeys l
    → UniqueKeys (delete_where p l)
unfolding delete_where
UniqueKeys-delete p [] h = h
UniqueKeys-delete p ((i, g) ∷ rest) h = elim (Bool-cases (p i g)) [
  | inl e ↦ rw e (UniqueKeys-delete p rest h.1)
  | inr e ↦ rw e (
    find_group-delete_none g.group_namespace g.fingerprint p rest h.0,
    UniqueKeys-delete p rest h.1,
  )
]

find_group-recount_none :
    (ns fp : String) (events : List (ℕ × EventRow)) (p : ℕ → GroupRow → Bool)
    (l : List (ℕ × GroupRow))
    → find_group ns fp l ≡ none
    → find_group ns fp (update_with p (recount_group events) l) ≡ none
unfolding find_group update_with recount_group
find_group-recount_none ns fp events p [] h = refl
find_group-recount_none ns fp events p ((i, g) ∷ rest) h =
    ground (arith, find_group-recount_none ns fp events p rest)

UniqueKeys-recount :
    (events : List (ℕ × EventRow)) (p : ℕ → GroupRow → Bool) (l : List (ℕ × GroupRow))
    → UniqueKeys l
    → UniqueKeys (update_with p (recount_group events) l)
unfolding update_with recount_group
UniqueKeys-recount events p [] h = h
UniqueKeys-recount events p ((i, g) ∷ rest) h = elim (Bool-cases (p i g)) [
  | inl e ↦ rw e (
    find_group-recount_none g.group_namespace g.fingerprint events p rest h.0,
    UniqueKeys-recount events p rest h.1,
  )
  | inr e ↦ rw e (
    find_group-recount_none g.group_namespace g.fingerprint events p rest h.0,
    UniqueKeys-recount events p rest h.1,
  )
]

pub exists-none :
    {A : Type 0} (q : ℕ → A → Bool) (l : List (ℕ × A))
    → exists_where q l ≡ false
    → AllRows (λ i a. q i a ≡ false) l
unfolding exists_where
exists-none q [] h = tt
exists-none q ((i, a) ∷ rest) h = (ground arith, exists-none q rest (ground arith))

length-delete_where :
    {A : Type 0} (q p : ℕ → A → Bool) (l : List (ℕ × A))
    → AllRows (λ i a. p i a ≡ q i a) l
    → count_where q l + length (delete_where p l) ≡ length l
unfolding count_where delete_where
length-delete_where q p [] h = refl
length-delete_where q p ((i, a) ∷ rest) h = ground (arith, h.0, length-delete_where q p rest h.1)

module _ (cutoff : ℤ) (db : Db) where
  -- The id of an event is one of an old event if the event is old.
  old_event-row :
      IsFresh db.events → AllRows (λ i e. old_event cutoff db i ≡ is_old cutoff i e) db.events.rows
  unfolding old_event
  old_event-row h =
      AllRows-mono (λ i e. find i db.events.rows ≡ some e)
        (λ i e. old_event cutoff db i ≡ is_old cutoff i e)
        (λ i e f. ground (arith, f, exists-id db.events.seq i (is_old cutoff) db.events.rows h))
        db.events.rows (Fresh-found db.events.seq db.events.rows h)

  -- A group with no old event keeps its events.
  untouched_count :
      (g : ℕ)
      → IsFresh db.events
      → touched_group cutoff db g ≡ false
      → count_where (in_group g) (delete_where (λ i _. old_event cutoff db i) db.events.rows)
        ≡ count_where (in_group g) db.events.rows
  unfolding touched_group
  untouched_count g h untouched =
      count-delete_where (in_group g) (λ i _. old_event cutoff db i) db.events.rows
        (AllRows-mono _ _ (λ i e both. λ q. ground (arith, both.0, both.1, q)) db.events.rows
          (AllRows-and (λ i e. old_event cutoff db i ≡ is_old cutoff i e)
            (λ i e. (in_group g i e && is_old cutoff i e) ≡ false) db.events.rows (old_event-row h)
            (exists-none (λ i e. in_group g i e && is_old cutoff i e) db.events.rows untouched)))

  recounted :
      (i : ℕ) (g : GroupRow)
      → IsFresh db.events
      → (orphan_group cutoff db (delete_where (λ i _. old_event cutoff db i) db.events.rows) i
          ≡ false)
        × Counted db.events.rows i g
      → Counted (delete_where (λ i _. old_event cutoff db i) db.events.rows) i (
          if touched_group cutoff db i
            && not (
                orphan_group cutoff db
                  (delete_where (λ i _. old_event cutoff db i) db.events.rows)
                  i)
          then recount_group (delete_where (λ i _. old_event cutoff db i) db.events.rows) i g
          else g)
  unfolding recount_group
  recounted i g h both = elim (Bool-cases (touched_group cutoff db i)) [
    | inl e ↦ ground (arith, e, both.0)
    | inr e ↦ ground (arith, e, both.1, untouched_count i h e)
  ]

  -- The retention job keeps unique ids and group keys, events in groups that were created, and event
  -- counts that are those of the stored events.
  pub prune_alerts_before-IsCounted : IsCounted db → IsCounted (prune_alerts_before cutoff db).1
  unfolding prune_alerts_before prune_events prune_deliveries
  prune_alerts_before-IsCounted h =
      let remaining = delete_where (λ i _. old_event cutoff db i) db.events.rows in
      let orphan : ℕ → GroupRow → Bool = λ i _. orphan_group cutoff db remaining i in
      let kept = delete_where orphan db.groups.rows in
      let changed : ℕ → GroupRow → Bool =
        λ i _. touched_group cutoff db i && not (orphan_group cutoff db remaining i) in
      record {
        groups_fresh =
            Fresh-update_with db.groups.seq changed (recount_group remaining) kept
              (Fresh-delete_where db.groups.seq orphan db.groups.rows h.groups_fresh);
        events_fresh =
            Fresh-delete_where db.events.seq (λ i _. old_event cutoff db i) db.events.rows
              h.events_fresh;
        owned =
            AllRows-delete_where (GroupAtMost db.groups.seq) (λ i _. old_event cutoff db i)
              db.events.rows h.owned;
        counted =
            AllRows-update_with (λ i g. (orphan i g ≡ false) × Counted db.events.rows i g)
              (Counted remaining) changed (recount_group remaining)
              (λ i g both. recounted i g h.events_fresh both) kept
              (AllRows-and (λ i g. orphan i g ≡ false) (Counted db.events.rows) kept
                (delete_where-gone orphan db.groups.rows)
                (AllRows-delete_where (Counted db.events.rows) orphan db.groups.rows h.counted));
        unique =
            UniqueKeys-recount remaining changed kept
              (UniqueKeys-delete orphan db.groups.rows h.unique);
      }

  found :
      IsFresh db.events
      → (k : ℕ)
      → find k (delete_where (λ i _. old_event cutoff db i) db.events.rows)
        ≡ elim (find k db.events.rows) [
          | none ↦ none
          | some e ↦ if is_old cutoff k e then none else some e
        ]
  unfolding old_event
  found h k = ground (
    arith,
    find-delete_where db.events.seq k (λ i _. old_event cutoff db i) db.events.rows h,
    exists-id db.events.seq k (is_old cutoff) db.events.rows h,
  )

  -- Where event ids are distinct, the retention job deletes the events before the cutoff and no
  -- other, and answers with their number.
  pub prune_alerts_before_deletes :
      IsFresh db.events
      → ((k : ℕ)
          → find k (prune_alerts_before cutoff db).1.events.rows ≡ elim (find k db.events.rows) [
            | none ↦ none
            | some e ↦ if is_old cutoff k e then none else some e
          ])
        × ((prune_alerts_before cutoff db).0 + length (prune_alerts_before cutoff db).1.events.rows
            ≡ length db.events.rows)
  unfolding prune_alerts_before prune_events prune_deliveries
  prune_alerts_before_deletes h = (
    found h,
    length-delete_where (is_old cutoff) (λ i _. old_event cutoff db i) db.events.rows
        (old_event-row h),
  )
