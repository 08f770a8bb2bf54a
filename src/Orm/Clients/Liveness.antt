-- ===== src/Orm/Clients/Liveness.antt =====
-- The rows of src/ORM/client/client.service.ts over any sequence of its operations.
use hc_pool.Base.{
  ℕ, ◌≡◌, refl, sym, subst, ◌∙◌, Bool, false, inl, inr, some, Option-cases, List, [], ◌∷◌,
  if◌then◌else◌, Bool-cases, arith,
}
use hc_pool.Base.Text.{Text}
use hc_pool.Orm.ClientStatistics.{Key}
use hc_pool.Orm.Clients.{
  ClientRow, PartialClient, ClientService, row_of, has_key, insert_all, insert_clients, insert,
  update_where, delete_where, kill_dead_clients, heartbeat, delete, delete_all, delete_old_clients,
  update_best_difficulty,
}

-- What can be asked of the service, each at its time.
pub data Op : Type 0 where
  queue : PartialClient → Op
  flush kill delete_every purge : ℕ → Op
  beat_at : Key → ℕ → ℕ → Op
  remove : Text → ℕ → Op
  best : Text → ℕ → ℕ → Op

pub apply : Op → ClientService → ClientService
apply (queue c) s = (insert c s).1
apply (flush now) s = (insert_clients now s).1
apply (kill now) s = kill_dead_clients now s
apply (delete_every now) s = delete_all now s
apply (purge now) s = delete_old_clients now s
apply (beat_at key hash_rate now) s = heartbeat key hash_rate now s
apply (remove session_id now) s = delete session_id now s
apply (best session_id difficulty now) s = update_best_difficulty session_id difficulty now s

pub run : List Op → ClientService → ClientService
run [] s = s
run (op ∷ ops) s = run ops (apply op s)

-- No key stands in two rows.
abbrev pub AreDistinct : List ClientRow → Type 0
AreDistinct [] = Unit {0}
AreDistinct (r ∷ rows) = (has_key r.key rows ≡ false) × AreDistinct rows

-- A change that leaves the key as it is.
abbrev KeepsKey : (ClientRow → ClientRow) → Type 0
KeepsKey change = (r : ClientRow) → (change r).key ≡ r.key

has_key-update_where :
    (key : Key) (test : ClientRow → Bool) (change : ClientRow → ClientRow) (rows : List ClientRow)
    → KeepsKey change
    → has_key key (update_where test change rows) ≡ has_key key rows
unfolding has_key update_where
has_key-update_where key test change [] k = refl
has_key-update_where key test change (r ∷ rows) k =
    ground (arith, k r, has_key-update_where key test change rows k)

update_where-AreDistinct :
    (test : ClientRow → Bool) (change : ClientRow → ClientRow) (rows : List ClientRow)
    → KeepsKey change
    → AreDistinct rows
    → AreDistinct (update_where test change rows)
unfolding update_where
update_where-AreDistinct test change [] k h = tt
update_where-AreDistinct test change (r ∷ rows) k (h, hs) =
    let same : (if test r then change r else r).key ≡ r.key = ground (arith, k r) in
    (
      rw same (has_key-update_where r.key test change rows k ∙ h),
      update_where-AreDistinct test change rows k hs,
    )

has_key-delete_where :
    (key : Key) (test : ClientRow → Bool) (rows : List ClientRow)
    → has_key key rows ≡ false
    → has_key key (delete_where test rows) ≡ false
unfolding has_key delete_where
has_key-delete_where key test [] h = refl
has_key-delete_where key test (r ∷ rows) h = ground (arith, has_key-delete_where key test rows)

delete_where-AreDistinct :
    (test : ClientRow → Bool) (rows : List ClientRow)
    → AreDistinct rows
    → AreDistinct (delete_where test rows)
unfolding delete_where
delete_where-AreDistinct test [] h = tt
delete_where-AreDistinct test (r ∷ rows) (h, hs) = elim (Bool-cases (test r)) [
  | inl gone ↦ rw gone (delete_where-AreDistinct test rows hs)
  | inr kept ↦
      rw kept (has_key-delete_where r.key test rows h, delete_where-AreDistinct test rows hs)
]

insert_all-AreDistinct :
    (now : ℕ) (cs : List PartialClient) (rows after : List ClientRow)
    → AreDistinct rows
    → insert_all now cs rows ≡ some after
    → AreDistinct after
unfolding insert_all
insert_all-AreDistinct now [] rows after h e =
    let same : rows ≡ after = cc in subst AreDistinct same h
insert_all-AreDistinct now (c ∷ cs) rows after h e = elim (Bool-cases (has_key c.key rows)) [
  | inl twice ↦ absurd (ground (arith, twice))
  | inr new ↦
      insert_all-AreDistinct now cs (row_of now c ∷ rows) after (unfold row_of in new, h)
        (ground (arith, new))
]

insert_clients-AreDistinct :
    (now : ℕ) (s : ClientService) → AreDistinct s.rows → AreDistinct (insert_clients now s).1.rows
unfolding insert_clients
insert_clients-AreDistinct now s h =
    let after = (insert_clients now s).1.rows in
    elim (Option-cases (insert_all now s.insert_queue s.rows)) [
      | inl refused ↦
          let same : after ≡ s.rows = ground (arith, refused) in subst AreDistinct (sym same) h
      | inr (rows, done) ↦
          let same : after ≡ rows = ground (arith, done) in
          subst AreDistinct (sym same)
            (insert_all-AreDistinct now s.insert_queue s.rows rows h done)
    ]

apply-AreDistinct :
    (op : Op) (s : ClientService) → AreDistinct s.rows → AreDistinct (apply op s).rows
unfolding apply insert kill_dead_clients delete_all delete_old_clients heartbeat delete
    update_best_difficulty
apply-AreDistinct (queue c) s h = h
apply-AreDistinct (flush now) s h = insert_clients-AreDistinct now s h
apply-AreDistinct (kill now) s h = update_where-AreDistinct _ _ s.rows (λ r. refl) h
apply-AreDistinct (delete_every now) s h = update_where-AreDistinct _ _ s.rows (λ r. refl) h
apply-AreDistinct (purge now) s h = delete_where-AreDistinct _ s.rows h
apply-AreDistinct (beat_at key hash_rate now) s h =
    update_where-AreDistinct _ _ s.rows (λ r. refl) h
apply-AreDistinct (remove session_id now) s h = update_where-AreDistinct _ _ s.rows (λ r. refl) h
apply-AreDistinct (best session_id difficulty now) s h =
    update_where-AreDistinct _ _ s.rows (λ r. refl) h

-- Whatever sessions come and go, no session of a client has two rows.
pub run-AreDistinct :
    (ops : List Op) (s : ClientService) → AreDistinct s.rows → AreDistinct (run ops s).rows
unfolding run
run-AreDistinct [] s h = h
run-AreDistinct (op ∷ ops) s h = run-AreDistinct ops (apply op s) (apply-AreDistinct op s h)
