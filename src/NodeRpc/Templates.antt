-- ===== src/NodeRpc/Templates.antt =====
-- `getBlockTemplate` of src/services/bitcoin-rpc.service.ts in several processes that share the rows
-- of src/ORM/rpc-block/rpc-block.service.ts: every await is a step, and the steps of the processes
-- come in any order. The table is TypeORM's and JSON is the language's, both parameters here.
pub mod Own
use hc_pool.Base.{
  ℕ, Bool, true, false, not, Option, none, some, List, [], ◌∷◌, if◌then◌else◌, ◌==◌, is_some,
  or_else,
}
use hc_pool.Base.Text.{Text, text_eq}

-- `RpcBlockEntity`, without its key, the height.
pub record RpcBlock : Type 0 where
  pub data_text : Option Text
  pub locked_by : Option Text

-- The repository: `save` throws where the database refuses it, `update` leaves a missing row
-- missing, and `delete_below` deletes nothing where the bound is null.
pub record Repository : Type 1 where
  pub Store : Type 0
  pub find_one : Store → ℕ → Option RpcBlock
  pub save : Store → ℕ → RpcBlock → Option Store
  pub update : Store → ℕ → Text → Store
  pub max_height : Store → Option ℕ
  pub delete_below : Store → Option ℕ → Store

-- What a process waits for in `getBlockTemplate`, for a type of templates.
pub data Phase (Template : Type 0) : Type 0 where
  reading locking waiting loading : Phase Template
  saving finished : Template → Phase Template
  failed : Phase Template

-- The answer of `getblocktemplate`: an exception, null, or a template.
pub data Answer (Template : Type 0) : Type 0 where
  thrown empty : Answer Template
  template : Template → Answer Template

-- `JSON.stringify` and `JSON.parse`, which throws.
pub record Codec (Template : Type 0) : Type 0 where
  pub stringify : Template → Text
  pub parse : Text → Option Template

module _ (repository : Repository) where
  open repository use {Store, find_one, save, update, max_height, delete_below}

  -- `RpcBlockService`
  unfoldable pub get_block : ℕ → Store → Option RpcBlock
  get_block block_height store = find_one store block_height

  unfoldable pub lock_block : ℕ → Text → Store → Option Store
  lock_block block_height process store =
      save store block_height (record { data_text = none; locked_by = some process })

  unfoldable pub save_block : ℕ → Text → Store → Store
  save_block block_height text store = update store block_height text

  unfoldable pub delete_old_blocks : Store → Store
  delete_old_blocks store = delete_below store (max_height store)

abbrev pub data_of : Option RpcBlock → Option Text
data_of none = none
data_of (some block) = block.data_text

abbrev owner_is : Option RpcBlock → Option Text → Bool
owner_is (some block) (some process) = elim block.locked_by [
  | none ↦ false
  | some owner ↦ text_eq owner process
]
owner_is (some block) none = not (is_some block.locked_by)
owner_is none process = false

module _ {Template : Type 0} (repository : Repository) (codec : Codec Template)
    (instance_of : Option Text) (block_height : ℕ) where
  open repository use {Store}

  abbrev parsed : Text → Phase Template
  parsed text = elim (codec.parse text) [ none ↦ failed | some t ↦ finished t ]

  -- Behind the first `getBlock`: a block of this process is refreshed, one of another process is
  -- returned, and a missing one is locked if the processes are numbered.
  unfoldable pub read_block : Option RpcBlock → Phase Template
  read_block block = elim (data_of block) [
    | some text ↦ if owner_is block instance_of then loading else parsed text
    | none ↦ if is_some instance_of then locking else loading
  ]

  unfoldable pub lock : Store → Phase Template × Store
  lock store = elim (lock_block repository block_height (or_else instance_of []) store) [
    | some locked ↦ (loading, locked)
    | none ↦ (waiting, store)
  ]

  -- One round of `waitForBlock`. What it returns is assigned to `result`, and the next statement
  -- assigns what `loadBlockTemplate` returns.
  unfoldable pub wait_for_block : Option RpcBlock → Phase Template
  wait_for_block block = elim (data_of block) [
    | none ↦ waiting
    | some text ↦ elim (codec.parse text) [ none ↦ failed | some t ↦ loading ]
  ]

  -- One round of the loop of `loadBlockTemplate`.
  unfoldable pub load_block_template : Answer Template → Phase Template
  load_block_template thrown = failed
  load_block_template empty = loading
  load_block_template (template t) = saving t

  -- The next step of a process; the answer is used only if the step asks the node.
  unfoldable pub step : Answer Template → Phase Template → Store → Phase Template × Store
  step answer reading store = (read_block (get_block repository block_height store), store)
  step answer locking store = lock store
  step answer waiting store = (wait_for_block (get_block repository block_height store), store)
  step answer loading store = (load_block_template answer, store)
  step answer (saving t) store =
      (finished t, save_block repository block_height (codec.stringify t) store)
  step answer (finished t) store = (finished t, store)
  step answer failed store = (failed, store)
