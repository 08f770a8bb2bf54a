-- ===== src/Orm/Blocks.antt =====
-- src/ORM/blocks/blocks.service.ts: the blocks that the pool found.
use hc_pool.Base.{ℕ, List, [], ◌∷◌, ◌++◌, map, if◌then◌else◌}
use hc_pool.Base.Text.{Text, text_eq}

-- `BlocksEntity`, without its generated key and dates.
pub record BlockRow : Type 0 where
  pub height : ℕ
  pub miner_address : Text
  pub worker : Text
  pub session_id : Text
  pub block_data : Text

-- The columns that are read.
pub record FoundBlock : Type 0 where
  pub height : ℕ
  pub miner_address : Text
  pub worker : Text
  pub session_id : Text

-- A block without a key is inserted.
unfoldable pub save : BlockRow → List BlockRow → List BlockRow
save block rows = rows ++ block ∷ []

abbrev pub found_block : BlockRow → FoundBlock
found_block r = record {
  height = r.height;
  miner_address = r.miner_address;
  worker = r.worker;
  session_id = r.session_id;
}

unfoldable pub get_found_blocks : List BlockRow → List FoundBlock
get_found_blocks rows = map found_block rows

unfoldable pub get_found_blocks_by_address : Text → List BlockRow → List FoundBlock
get_found_blocks_by_address address [] = []
get_found_blocks_by_address address (r ∷ rows) =
    let rest = get_found_blocks_by_address address rows in
    if text_eq r.miner_address address then found_block r ∷ rest else rest
