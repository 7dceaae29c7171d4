-- ===== src/LoadBalance/Tests.antt =====
-- Runs of naming/loadbalance, and witnesses for its theorems.
use trpc_go.Common.{
  ℕ, zero, suc, ◌*◌, ◌<◌, ◌≡◌, refl, List, [], ◌∷◌, Option, some, length, arith, All, map,
}
use trpc_go.Common.Int.{pos, negsuc}
use trpc_go.LoadBalance.Weighted.{Node, Server, WrrPicker, pick, pick_all, total, get_servers}
use trpc_go.LoadBalance.Balanced.{up, down}
use trpc_go.LoadBalance.Rounds.{
  IsBetween, IsSelection, select_server-IsBalanced, get_servers-IsBalanced, weights_bounded,
}

abbrev node : ℕ → ℕ → Node
node address weight = record { address = address; weight = weight }

-- Weights of 5, 1 and 1.
abbrev nodes : List Node
nodes = node 1 5 ∷ node 2 1 ∷ node 3 1 ∷ []

abbrev fresh : WrrPicker
fresh = record { list = []; age = 0; interval = 10 }

abbrev picks : ℕ → WrrPicker → List (Option Node)
picks zero p = []
picks (suc n) p = let (p', o) = pick nodes p in o ∷ picks n p'

-- The heavy node is not picked five times in a row.
smooth :
    picks 7 fresh
    ≡ some (node 1 5)
      ∷ some (node 1 5)
      ∷ some (node 2 1)
      ∷ some (node 1 5)
      ∷ some (node 3 1)
      ∷ some (node 1 5)
      ∷ some (node 1 5)
      ∷ []
unfolding pick trpc_go.LoadBalance.Weighted.pick_from trpc_go.LoadBalance.Weighted.select_server
    trpc_go.LoadBalance.Weighted.selected trpc_go.LoadBalance.Weighted.raise_all
    trpc_go.LoadBalance.Weighted.update_state get_servers trpc_go.LoadBalance.Weighted.improved
    trpc_go.Common.Int.is_positive trpc_go.Common.Int.◌-ℤ◌ trpc_go.LoadBalance.Weighted.raise
    trpc_go.Common.Int.◌+ℤ◌ trpc_go.LoadBalance.Weighted.server_of
    trpc_go.LoadBalance.Weighted.reduce total
smooth = refl

select_server-IsBalanced_example : IsSelection (get_servers nodes)
unfolding get_servers
select_server-IsBalanced_example =
    select_server-IsBalanced (get_servers nodes) (omega arith) (get_servers-IsBalanced nodes)

abbrev calls : List (List Node × ℕ)
calls = (nodes, 0) ∷ (nodes, 3) ∷ (node 4 0 ∷ nodes, 4) ∷ []

weights_bounded_example :
    (up (pick_all calls fresh).list ≡ down (pick_all calls fresh).list)
    × All
        (IsBetween
          (total (pick_all calls fresh).list)
          (length (pick_all calls fresh).list * total (pick_all calls fresh).list))
        (pick_all calls fresh).list
weights_bounded_example = weights_bounded 10 calls
