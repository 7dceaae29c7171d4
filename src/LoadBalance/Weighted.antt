-- ===== src/LoadBalance/Weighted.antt =====
-- naming/loadbalance/weightroundrobin: the picker of the smooth weighted round robin. Weights are not
-- negative; a node of weight 0 has the default. The time since the last update is an argument.
use trpc_go.Common.{
  ℕ, zero, suc, ◌+◌, ◌==◌, ltb, not, ◌||◌, List, [], ◌∷◌, Option, none, some, length, get_elem?,
  if◌then◌else◌,
}
use mathlib.Core.Option
use trpc_go.Common.Int.{ℤ, pos, ◌+ℤ◌, ◌-ℤ◌, is_positive}

-- registry.Node, of which the picker reads the weight.
pub record Node : Type 0 where
  pub address : ℕ
  pub weight : ℕ

-- Server. The weights are 64-bit ints in the code and unbounded here.
pub record Server : Type 0 where
  pub node : Node
  pub weight : ℕ
  pub current_weight : ℤ
  pub effect_weight : ℕ

-- The state of a wrrPicker; `age` is the time since `updated`.
pub record WrrPicker : Type 0 where
  pub list : List Server
  pub age : ℕ
  pub interval : ℕ

unfoldable pub server_of : Node → Server
server_of n =
    let weight = if n.weight == 0 then 1000 else n.weight in
    record { node = n; weight = weight; current_weight = pos 0; effect_weight = weight }

-- getServers
unfoldable pub get_servers : List Node → List Server
get_servers [] = []
get_servers (n ∷ ns) = server_of n ∷ get_servers ns

-- updateState
unfoldable pub update_state : List Node → WrrPicker → WrrPicker
update_state list p =
    if (length p.list == 0) || (not (length p.list == length list) || ltb p.interval p.age)
    then record p { list = get_servers list; age = 0 }
    else p

-- What a round of the loop of selectServer does to its server.
unfoldable pub raise : Server → Server
raise s = record s {
  current_weight = s.current_weight +ℤ pos s.effect_weight;
  effect_weight = if ltb s.effect_weight s.weight then suc s.effect_weight else s.effect_weight;
}

unfoldable pub raise_all : List Server → List Server
raise_all [] = []
raise_all (s ∷ rest) = raise s ∷ raise_all rest

-- total
unfoldable pub total : List Server → ℕ
total [] = 0
total (s ∷ rest) = s.effect_weight + total rest

-- Where `selected` is moved to by the rounds over raised servers, if it is: to the last that has a
-- greater weight than the one selected before it.
unfoldable pub improved : ℤ → List Server → Option ℕ
improved c [] = none
improved c (s ∷ rest) =
    let better = improved (s.current_weight) rest in
    let same = improved c rest in
    if is_positive (s.current_weight -ℤ c)
    then elim better [ none ↦ some 0 | some k ↦ some (suc k) ]
    else elim same [ none ↦ none | some k ↦ some (suc k) ]

-- `selected` after the loop: the first server is taken without a comparison.
unfoldable pub selected : List Server → Option ℕ
selected [] = none
selected (s ∷ rest) = elim (improved (s.current_weight) rest) [
  | none ↦ some 0
  | some k ↦ some (suc k)
]

-- selected.currentWeight -= total
unfoldable pub reduce : ℕ → ℕ → List Server → List Server
reduce sum k [] = []
reduce sum zero (s ∷ rest) = record s { current_weight = s.current_weight -ℤ pos sum } ∷ rest
reduce sum (suc k) (s ∷ rest) = s ∷ reduce sum k rest

-- selectServer: the servers afterwards and the index of the one selected.
unfoldable pub select_server : List Server → Option (List Server × ℕ)
select_server servers =
    let raised = raise_all servers in
    elim (selected raised) [ none ↦ none | some k ↦ some (reduce (total servers) k raised, k) ]

-- Pick behind updateState; `none` is ErrNoServerAvailable.
unfoldable pub pick_from : WrrPicker → WrrPicker × Option Node
pick_from p = elim (select_server p.list) [
  | none ↦ (p, none)
  | some (servers, k) ↦
      (record p { list = servers }, Option.map (λ s. s.node) (get_elem? servers k))
]

-- Pick
unfoldable pub pick : List Node → WrrPicker → WrrPicker × Option Node
pick list p = pick_from (update_state list p)

-- A picker at the end of a sequence of calls of Pick, each with its nodes and the time since the
-- last update.
unfoldable pub pick_all : List (List Node × ℕ) → WrrPicker → WrrPicker
pick_all [] p = p
pick_all ((list, age) ∷ rest) p = pick_all rest ((pick list (record p { age = age })).0)
