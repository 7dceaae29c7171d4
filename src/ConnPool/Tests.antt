-- ===== src/ConnPool/Tests.antt =====
-- Witnesses for the theorems on pool/connpool.
use trpc_go.Common.{
  ◌%◌, ◌^◌, ◌-◌, ◌+◌, ℕ, ◌+◌, ◌≤◌, ◌≡◌, refl, true, false, List, [], ◌∷◌, ◌++◌, length, arith, ltb,
  if◌then◌else◌,
}
use trpc_go.Common.Int.{pos}
use trpc_go.ConnPool.{Config, Pool, new_pool}
use trpc_go.ConnPool.Tasks.{
  Task, asleep, in_use, adding, takes_token, counts, finds_none, may_dial, dials, first_keeps,
  Reachable, first, steps, gets, weight,
}
use trpc_go.ConnPool.Places.{count, held, one_place}
use trpc_go.ConnPool.Counters.{token_of, use_of}
use trpc_go.ConnPool.Counters.Token.{token_counts}
use trpc_go.ConnPool.Counters.Used.{used_counts}
use trpc_go.ConnPool.Size.{pending}
use trpc_go.ConnPool.Size.Bounds.{idle_size_bounds}

abbrev config : Config
config = record {
  min_idle = 1;
  max_idle = 2;
  max_active = 1;
  wait = false;
  push_idle_conn_to_tail = false;
  force_closed = false;
}

-- One connection in use, another one to be added.
abbrev busy : Pool
busy = record {
  closed = false;
  token = 1;
  idle_size = pos 1;
  idle = [];
  used = 1;
  dialled = 1;
  shut = [];
  failed = 0;
}

abbrev tasks : List Task
tasks = in_use 0 ∷ asleep ∷ adding ∷ []

abbrev kept : Pool
kept = record busy { token = 0; used = 0; dialled = 0 }

abbrev admitted : Pool
admitted = record busy { used = 0; dialled = 0 }

abbrev searched : Pool
searched = record busy { dialled = 0 }

abbrev others : List Task
others = asleep ∷ adding ∷ []

kept-Reachable : Reachable config kept others
unfolding trpc_go.ConnPool.keep_min_idles trpc_go.Common.Int.◌-ℤ◌ trpc_go.Common.Int.◌+ℤ◌
    trpc_go.ConnPool.new_pool
kept-Reachable = steps (asleep ∷ []) [] first (first_keeps new_pool)

busy-Reachable : Reachable config busy tasks
unfolding trpc_go.ConnPool.get_token trpc_go.ConnPool.take_idle trpc_go.ConnPool.pop_head
    trpc_go.ConnPool.dial
busy-Reachable =
    steps [] others
      (steps [] others
        (steps [] others
          (steps [] others (steps [] others (gets kept-Reachable) (takes_token kept admitted refl))
            (counts admitted))
          (finds_none searched refl))
        (may_dial searched refl))
      (dials searched)

one_place_example : count 0 busy.idle + count 0 busy.shut + weight (held 0) tasks ≡ 1
one_place_example = one_place 0 busy-Reachable

token_counts_example : (busy.token ≡ weight token_of tasks) × (busy.token ≤ 1)
token_counts_example = token_counts {c = config} (omega arith) busy-Reachable

used_counts_example : busy.used ≡ (weight use_of tasks + busy.failed) % 2 ^ 32
used_counts_example = used_counts busy-Reachable

idle_size_bounds_example :
    (busy.idle_size ≡ pos (length busy.idle + weight pending tasks))
    × (length busy.idle + weight pending tasks ≤ 2 + 1)
idle_size_bounds_example =
    idle_size_bounds {c = config} 2 (omega arith) (omega arith) busy-Reachable refl
