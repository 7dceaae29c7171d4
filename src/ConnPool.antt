-- ===== src/ConnPool.antt =====
-- pool/connpool/connection_pool.go: the pool of connections to one address, as its critical
-- sections. A connection is its number in the order of dialling. The list of idle connections is a
-- list from head to tail.
pub mod Tasks
pub mod Places
pub mod Counters
pub mod Size
mod Tests
use trpc_go.Common.{
  ℕ, zero, suc, ◌+◌, ◌-◌, Bool, true, false, not, ◌||◌, List, [], ◌∷◌, ◌++◌, Option, none, some,
  length, ◌==◌, ltb, leb, if◌then◌else◌,
}
use trpc_go.Common.Int.{ℤ, pos, ◌+ℤ◌, ◌-ℤ◌, pos_part, neg_part, is_positive}

-- The options that a pool keeps. The three numbers are not negative; 0 for `max_active` is no limit.
pub record Config : Type 0 where
  pub min_idle : ℕ
  pub max_idle : ℕ
  pub max_active : ℕ
  pub wait : Bool
  pub push_idle_conn_to_tail : Bool
  pub force_closed : Bool

-- ConnectionPool. `token` counts the elements of the channel, and `used` is an int32, here its 32 bits
-- as a number. The last three are no fields of the
-- code: the number of connections dialled, those closed, and the calls of Get that have failed
-- after the token was taken.
pub record Pool : Type 0 where
  pub closed : Bool
  pub token : ℕ
  pub idle_size : ℤ
  pub idle : List ℕ
  pub used : ℕ
  pub dialled : ℕ
  pub shut : List ℕ
  pub failed : ℕ

-- What pool.Get makes, before keepMinIdles.
unfoldable pub new_pool : Pool
new_pool = record {
  closed = false;
  token = 0;
  idle_size = pos 0;
  idle = [];
  used = 0;
  dialled = 0;
  shut = [];
  failed = 0;
}

-- connList.popHead at a list that is not empty
unfoldable pub pop_head : List ℕ → Option (ℕ × List ℕ)
pop_head [] = none
pop_head (pc ∷ rest) = some (pc, rest)

-- connList.popTail at a list that is not empty
unfoldable pub pop_tail : List ℕ → Option (ℕ × List ℕ)
pop_tail [] = none
pop_tail (pc ∷ rest) = elim (pop_tail rest) [
  | none ↦ some (pc, [])
  | some (last, kept) ↦ some (last, pc ∷ kept)
]

-- connList.pushHead or connList.pushTail, as PushIdleConnToTail says
unfoldable pub push : Config → ℕ → List ℕ → List ℕ
push c pc idle = if c.push_idle_conn_to_tail then idle ++ (pc ∷ []) else pc ∷ idle

-- getToken where it does not wait: `none` if the channel is full.
unfoldable pub get_token : Config → Pool → Option Pool
get_token c p =
    if c.max_active == 0
    then some p
    else if ltb p.token c.max_active
    then some (record p { token = suc p.token })
    else none

-- freeToken
unfoldable pub free_token : Config → Pool → Pool
free_token c p = if c.max_active == 0 then p else record p { token = p.token - 1 }

-- A round of getIdleConn under the lock.
unfoldable pub take_idle : Pool → Option (ℕ × Pool)
take_idle p = elim (pop_head p.idle) [
  | none ↦ none
  | some (pc, rest) ↦ some (pc, record p { idle = rest; idle_size = p.idle_size -ℤ pos 1 })
]

-- pc.Conn.Close() and pc.closed = true
unfoldable pub close_conn : ℕ → Pool → Pool
close_conn pc p = record p { shut = pc ∷ p.shut }

-- get, where getNewConn returns an error
unfoldable pub get_fails : Config → Pool → Pool
get_fails c p = let freed = free_token c p in record freed { failed = suc freed.failed }

-- A dial that succeeds.
unfoldable pub dial : Pool → Pool
dial p = record p { dialled = suc p.dialled }

-- put under the lock: the pool, and the connection that it goes on to close.
unfoldable pub put_locked : Config → Bool → ℕ → Pool → Pool × Option ℕ
put_locked c force_close pc p =
    let idle = push c pc p.idle in
    if p.closed || force_close
    then (p, some pc)
    else if is_positive (pos c.max_idle -ℤ p.idle_size)
    then (record p { idle = idle; idle_size = p.idle_size +ℤ pos 1 }, none)
    else (elim (pop_tail idle) [
      | none ↦ (record p { idle = idle }, none)
      | some (last, rest) ↦ (record p { idle = rest }, some last)
    ])

-- put behind the lock, but for the counter of used connections
unfoldable pub release : Config → Option ℕ → Pool → Pool
release c none p = free_token c p
release c (some pc) p = free_token c (close_conn pc p)

-- Close under the lock; it closes the connections of the list afterwards.
unfoldable pub close_locked : Pool → Pool × List ℕ
close_locked p =
    if p.closed then (p, []) else (record p { closed = true; idle_size = pos 0; idle = [] }, p.idle)

-- keepMinIdles under the lock: the pool, and how many connections it goes on to add.
unfoldable pub keep_min_idles : Config → Pool → Pool × ℕ
keep_min_idles c p =
    let count = pos c.min_idle -ℤ p.idle_size in
    (record p { idle_size = p.idle_size +ℤ pos (pos_part count) }, pos_part count)

-- addIdleConn under its second lock
unfoldable pub add_locked : Config → ℕ → Pool → Pool
add_locked c pc p = if p.closed then close_conn pc p else record p { idle = push c pc p.idle }

-- A healthy connection is put back by checkHealthOnce.
unfoldable pub put_back : ℕ → Pool → Pool
put_back pc p = record p { idle = p.idle ++ (pc ∷ []); idle_size = p.idle_size +ℤ pos 1 }
