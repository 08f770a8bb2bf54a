-- ===== src/Orm/Clients.antt =====
-- src/ORM/client/client.service.ts: the table of the clients, and the queue of those that are still
-- to be inserted. Difficulties and hash rates are in grains.
pub mod Insertion
pub mod Liveness
use hc_pool.Base.{
  ℕ, ◌+◌, ◌-◌, ◌*◌, Bool, true, false, not, ◌&&◌, ◌||◌, Option, none, some, List, [], ◌∷◌, ◌++◌,
  length, ltb, leb, ◌==◌, if◌then◌else◌, is_some, maximum,
}
use hc_pool.Base.Text.{Text, text_eq}
use hc_pool.Orm.ClientStatistics.{Key, key_eq, day}

-- `ClientEntity` with the dates of `TrackedEntity`.
pub record ClientRow : Type 0 where
  pub key : Key
  pub user_agent : Option Text
  pub start_time : ℕ
  pub best_difficulty : ℕ
  pub hash_rate : ℕ
  pub created_at : ℕ
  pub updated_at : ℕ
  pub deleted_at : Option ℕ

-- What a session gives to `insert`.
pub record PartialClient : Type 0 where
  pub key : Key
  pub user_agent : Option Text
  pub start_time : ℕ
  pub best_difficulty : ℕ

pub record ClientService : Type 0 where
  pub insert_queue : List PartialClient
  pub rows : List ClientRow

unfoldable pub row_of : ℕ → PartialClient → ClientRow
row_of now c = record {
  key = c.key;
  user_agent = c.user_agent;
  start_time = c.start_time;
  best_difficulty = c.best_difficulty;
  hash_rate = 0;
  created_at = now;
  updated_at = now;
  deleted_at = none;
}

unfoldable pub has_key : Key → List ClientRow → Bool
has_key key [] = false
has_key key (r ∷ rows) = key_eq r.key key || has_key key rows

-- One INSERT of several rows: all are inserted, or none where a key would stand twice.
unfoldable pub insert_all : ℕ → List PartialClient → List ClientRow → Option (List ClientRow)
insert_all now [] rows = some rows
insert_all now (c ∷ cs) rows =
    let rest = insert_all now cs (row_of now c ∷ rows) in if has_key c.key rows then none else rest

-- `insertClients`, every 5 seconds. The queue is emptied before the insertion, which may throw.
unfoldable pub insert_clients : ℕ → ClientService → Option (Unit {0}) × ClientService
insert_clients now s = elim (insert_all now s.insert_queue s.rows) [
  | none ↦ (none, record { insert_queue = []; rows = s.rows })
  | some rows ↦ (some tt, record { insert_queue = []; rows = rows })
]

-- `insert`: a `BehaviorSubject` has its first value, null, at once, so that the call returns what
-- it was given without waiting for the insertion.
unfoldable pub insert : PartialClient → ClientService → PartialClient × ClientService
insert c s = (c, record s { insert_queue = s.insert_queue ++ c ∷ [] })

-- UPDATE of the rows that pass a test.
unfoldable pub update_where :
    (ClientRow → Bool) → (ClientRow → ClientRow) → List ClientRow → List ClientRow
update_where test change [] = []
update_where test change (r ∷ rows) =
    (if test r then change r else r) ∷ update_where test change rows

unfoldable pub delete_where : (ClientRow → Bool) → List ClientRow → List ClientRow
delete_where test [] = []
delete_where test (r ∷ rows) =
    let rest = delete_where test rows in if test r then rest else r ∷ rest

abbrev pub five_minutes : ℕ
five_minutes = 5 * 60 * 1000

abbrev pub is_dead : ℕ → ClientRow → Bool
is_dead now r = not (is_some r.deleted_at) && ltb (r.updated_at + five_minutes) now

-- TypeORM writes the date of an update unless the update has one.
unfoldable pub kill_dead_clients : ℕ → ClientService → ClientService
kill_dead_clients now s = record s {
  rows =
      update_where (is_dead now) (λ r. record r { deleted_at = some now; updated_at = now }) s.rows;
}

unfoldable pub heartbeat : Key → ℕ → ℕ → ClientService → ClientService
heartbeat key hash_rate updated_at s = record s {
  rows =
      update_where (λ r. key_eq r.key key)
        (λ r. record r { hash_rate = hash_rate; deleted_at = none; updated_at = updated_at })
        s.rows;
}

abbrev of_session : Text → ClientRow → Bool
of_session session_id r = text_eq r.key.session_id session_id

-- `delete`: the row is marked.
unfoldable pub delete : Text → ℕ → ClientService → ClientService
delete session_id now s = record s {
  rows =
      update_where (of_session session_id)
        (λ r. record r { deleted_at = some now; updated_at = now }) s.rows;
}

unfoldable pub delete_all : ℕ → ClientService → ClientService
delete_all now s = record s {
  rows =
      update_where (λ r. true) (λ r. record r { deleted_at = some now; updated_at = now }) s.rows;
}

abbrev is_old : ℕ → ClientRow → Bool
is_old now r = elim r.deleted_at [ none ↦ false | some t ↦ ltb (t + day) now ]

unfoldable pub delete_old_clients : ℕ → ClientService → ClientService
delete_old_clients now s = record s { rows = delete_where (is_old now) s.rows }

unfoldable pub update_best_difficulty : Text → ℕ → ℕ → ClientService → ClientService
update_best_difficulty session_id best_difficulty now s = record s {
  rows =
      update_where (of_session session_id)
        (λ r. record r { best_difficulty = best_difficulty; updated_at = now }) s.rows;
}

-- What `find` and `count` see: the rows that are not marked as deleted.
unfoldable pub connected : List ClientRow → List ClientRow
connected rows = delete_where (λ r. is_some r.deleted_at) rows

unfoldable pub connected_client_count : ClientService → ℕ
connected_client_count s = length (connected s.rows)

unfoldable pub get_by_address : Text → ClientService → List ClientRow
get_by_address address s =
    delete_where (λ r. not (text_eq r.key.address address)) (connected s.rows)

unfoldable pub get_by_name : Text → Text → ClientService → List ClientRow
get_by_name address client_name s =
    delete_where (λ r. not (text_eq r.key.address address && text_eq r.key.client_name client_name))
      (connected s.rows)

unfoldable pub first_row : List ClientRow → Option ClientRow
first_row [] = none
first_row (r ∷ rows) = some r

unfoldable pub get_by_session_id : Key → ClientService → Option ClientRow
get_by_session_id key s = first_row (delete_where (λ r. not (key_eq r.key key)) (connected s.rows))

-- One row of `getUserAgents`; COUNT leaves a missing agent out.
pub record UserAgent : Type 0 where
  pub user_agent : Option Text
  pub count : ℕ
  pub best_difficulty : ℕ
  pub total_hash_rate : ℕ

unfoldable pub agent_eq : Option Text → Option Text → Bool
agent_eq none none = true
agent_eq (some a) (some b) = text_eq a b
agent_eq _ _ = false

abbrev pub counted : Option Text → ℕ
counted none = 0
counted (some agent) = 1

unfoldable pub add_to_group : ClientRow → List UserAgent → List UserAgent
add_to_group r [] =
    record {
      user_agent = r.user_agent;
      count = counted r.user_agent;
      best_difficulty = r.best_difficulty;
      total_hash_rate = r.hash_rate;
    }
    ∷ []
add_to_group r (g ∷ gs) =
    if agent_eq g.user_agent r.user_agent
    then record g {
      count = g.count + counted r.user_agent;
      best_difficulty = maximum g.best_difficulty r.best_difficulty;
      total_hash_rate = g.total_hash_rate + r.hash_rate;
    }
      ∷ gs
    else g ∷ add_to_group r gs

unfoldable pub group_agents : List ClientRow → List UserAgent
group_agents [] = []
group_agents (r ∷ rows) = add_to_group r (group_agents rows)

-- ORDER BY count DESC
unfoldable pub insert_by_count : UserAgent → List UserAgent → List UserAgent
insert_by_count a [] = a ∷ []
insert_by_count a (b ∷ bs) = if leb b.count a.count then a ∷ b ∷ bs else b ∷ insert_by_count a bs

unfoldable pub order_by_count : List UserAgent → List UserAgent
order_by_count [] = []
order_by_count (a ∷ as') = insert_by_count a (order_by_count as')

unfoldable pub get_user_agents : ClientService → List UserAgent
get_user_agents s = order_by_count (group_agents (connected s.rows))

-- ORDER BY updatedAt DESC
unfoldable pub insert_by_update : ClientRow → List ClientRow → List ClientRow
insert_by_update a [] = a ∷ []
insert_by_update a (b ∷ bs) =
    if leb b.updated_at a.updated_at then a ∷ b ∷ bs else b ∷ insert_by_update a bs

unfoldable pub order_by_update : List ClientRow → List ClientRow
order_by_update [] = []
order_by_update (a ∷ rows) = insert_by_update a (order_by_update rows)

unfoldable pub get_active_clients : ClientService → List ClientRow
get_active_clients s = order_by_update (connected s.rows)
