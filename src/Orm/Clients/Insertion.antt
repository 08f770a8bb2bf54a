-- ===== src/Orm/Clients/Insertion.antt =====
-- The queue of src/ORM/client/client.service.ts: what happens to a session between `insert` and
-- `insertClients`.
use mathlib.Core.Option
use hc_pool.Base.{ℕ, ◌≡◌, refl, false, some, List, [], ◌∷◌, arith}
use hc_pool.Base.Text.{Text, text_eq}
use hc_pool.Orm.ClientStatistics.{Key, key_eq}
use hc_pool.Orm.ClientStatistics.Ledger.{key_eq_refl}
use hc_pool.Orm.Clients.{
  ClientRow, PartialClient, ClientService, row_of, has_key, insert_all, insert_clients, insert,
  update_where, update_best_difficulty, get_by_session_id, first_row, delete_where, connected,
}

-- No row of the table is of the session.
abbrev pub NoSession : Text → List ClientRow → Type 0
NoSession session_id [] = Unit {0}
NoSession session_id (r ∷ rows) =
    (text_eq r.key.session_id session_id ≡ false) × NoSession session_id rows

update_where-same :
    (session_id : Text) (change : ClientRow → ClientRow) (rows : List ClientRow)
    → NoSession session_id rows
    → update_where (λ r. text_eq r.key.session_id session_id) change rows ≡ rows
unfolding update_where
update_where-same session_id change [] h = refl
update_where-same session_id change (r ∷ rows) (h, hs) =
    rw (h, update_where-same session_id change rows hs) refl

has_key-NoSession :
    (key : Key) (rows : List ClientRow) → NoSession key.session_id rows → has_key key rows ≡ false
unfolding has_key key_eq
has_key-NoSession key [] h = refl
has_key-NoSession key (r ∷ rows) (h, hs) = ground (arith, h, has_key-NoSession key rows hs)

insert_clients-one :
    (now : ℕ) (c : PartialClient) (rows : List ClientRow)
    → has_key c.key rows ≡ false
    → insert_clients now (record { insert_queue = c ∷ []; rows = rows })
      ≡ (some tt, record { insert_queue = []; rows = row_of now c ∷ rows })
unfolding insert_clients insert_all
insert_clients-one now c rows h = ground (arith, h)

-- The best difficulty of a session that is still in the queue is not stored: `insert` returns at
-- once, the update finds no row, and the row that comes later has the value of `insert`. The
-- session's row was not in the table before, and nothing else waits in the queue.
pub best_difficulty_lost :
    (c : PartialClient) (best_difficulty now later : ℕ) (s : ClientService)
    → s.insert_queue ≡ []
    → NoSession c.key.session_id s.rows
    → let queued = (insert c s).1 in
      let updated = update_best_difficulty c.key.session_id best_difficulty now queued in
      let r = insert_clients later updated in
      (r.0 ≡ some tt)
      × (Option.map (λ (row : ClientRow). row.best_difficulty) (get_by_session_id c.key r.1)
          ≡ some c.best_difficulty)
unfolding insert update_best_difficulty get_by_session_id first_row delete_where connected row_of
best_difficulty_lost c best_difficulty now later s empty fresh =
    let change =
      λ (r : ClientRow). record r { best_difficulty = best_difficulty; updated_at = now } in
    let unchanged = update_where-same c.key.session_id change s.rows fresh in
    let flushed = insert_clients-one later c s.rows (has_key-NoSession c.key s.rows fresh) in
    rw (unchanged, empty, flushed, key_eq_refl c.key) (refl, refl)
