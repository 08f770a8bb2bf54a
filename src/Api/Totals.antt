-- ===== src/Api/Totals.antt =====
-- The totals that src/app.controller.ts computes from the groups of
-- src/ORM/client/client.service.ts.
use hc_pool.Base.{ℕ, ◌+◌, ◌%◌, ◌<◌, ◌≤◌, ◌≡◌, refl, Option, none, List, [], ◌∷◌, arith}
use hc_pool.Base.Text.{Text}
use hc_pool.Base.Hex.{ℤ}
use hc_pool.NodeRpc.{MiningInfo}
use hc_pool.Orm.Blocks.{BlockRow}
use hc_pool.Orm.Clients.{
  ClientRow, ClientService, UserAgent, counted, add_to_group, group_agents, insert_by_count,
  order_by_count, get_user_agents, connected,
}
use hc_pool.Api.{sum_counts, sum_hash_rates, with_cache, pool, blocks_till_halving, halving_blocks}

-- The rows that name their agent, and the hash rate of all rows.
pub count_named : List ClientRow → ℕ
count_named [] = 0
count_named (r ∷ rows) = counted r.user_agent + count_named rows

pub sum_rates : List ClientRow → ℕ
sum_rates [] = 0
sum_rates (r ∷ rows) = r.hash_rate + sum_rates rows

add_to_group-sums :
    (r : ClientRow) (groups : List UserAgent)
    → (sum_counts (add_to_group r groups) ≡ counted r.user_agent + sum_counts groups)
      × (sum_hash_rates (add_to_group r groups) ≡ r.hash_rate + sum_hash_rates groups)
unfolding add_to_group sum_counts sum_hash_rates
add_to_group-sums r [] = omega arith
add_to_group-sums r (g ∷ groups) = ground (arith, add_to_group-sums r groups)

group_agents-sums :
    (rows : List ClientRow)
    → (sum_counts (group_agents rows) ≡ count_named rows)
      × (sum_hash_rates (group_agents rows) ≡ sum_rates rows)
unfolding group_agents count_named sum_rates sum_counts sum_hash_rates
group_agents-sums [] = (refl, refl)
group_agents-sums (r ∷ rows) =
    omega (arith, add_to_group-sums r (group_agents rows), group_agents-sums rows)

insert_by_count-sums :
    (a : UserAgent) (groups : List UserAgent)
    → (sum_counts (insert_by_count a groups) ≡ a.count + sum_counts groups)
      × (sum_hash_rates (insert_by_count a groups) ≡ a.total_hash_rate + sum_hash_rates groups)
unfolding insert_by_count sum_counts sum_hash_rates
insert_by_count-sums a [] = (refl, refl)
insert_by_count-sums a (g ∷ groups) = ground (arith, insert_by_count-sums a groups)

order_by_count-sums :
    (groups : List UserAgent)
    → (sum_counts (order_by_count groups) ≡ sum_counts groups)
      × (sum_hash_rates (order_by_count groups) ≡ sum_hash_rates groups)
unfolding order_by_count sum_counts sum_hash_rates
order_by_count-sums [] = (refl, refl)
order_by_count-sums (g ∷ groups) =
    omega (arith, insert_by_count-sums g (order_by_count groups), order_by_count-sums groups)

-- Where nothing is cached, `pool` reports as miners the connected clients that name their agent,
-- and as hash rate the sum over all connected clients, however the clients fall into groups.
pub pool-totals :
    (clients : ClientService) (blocks : List BlockRow) (info : MiningInfo) (address : Option Text)
    (percent : Option ℤ)
    → let answer = (pool none clients blocks info address percent).answer in
      (answer.total_miners ≡ count_named (connected clients.rows))
      × (answer.total_hash_rate ≡ sum_rates (connected clients.rows))
unfolding pool with_cache get_user_agents
pool-totals clients blocks info address percent =
    let rows = connected clients.rows in
    omega (arith, order_by_count-sums (group_agents rows), group_agents-sums rows)

-- The halving that is reported is the next one: the first height above the current that is a
-- multiple of 210,000.
pub blocks_till_halving-next :
    (height : ℕ)
    → 0 < height
    → ((height + blocks_till_halving height) % halving_blocks ≡ 0)
      × (0 < blocks_till_halving height)
      × (blocks_till_halving height ≤ halving_blocks)
unfolding blocks_till_halving
blocks_till_halving-next height h = ground arith
