-- ===== src/LoadBalance/PlainTests.antt =====
-- Witnesses for the theorems on naming/loadbalance/roundrobin.
use trpc_go.Common.{◌≡◌, refl, List, [], ◌∷◌, arith}
use trpc_go.LoadBalance.Weighted.{Node}
use trpc_go.LoadBalance.Plain.{RrPicker, gives, pick_each, every_node}

abbrev one : Node
one = record { address = 1; weight = 0 }

abbrev two : Node
two = record { address = 2; weight = 0 }

abbrev three : Node
three = record { address = 3; weight = 0 }

abbrev nodes : List Node
nodes = one ∷ two ∷ three ∷ []

abbrev picker : RrPicker
picker = record { list = nodes; age = 3; next = 0; interval = 10 }

every_node_example :
    pick_each (nodes ∷ nodes ∷ nodes ∷ []) picker
    ≡ (picker, gives one ∷ gives two ∷ gives three ∷ [])
every_node_example =
    every_node (nodes ∷ nodes ∷ nodes ∷ []) picker (refl, (refl, (refl, tt))) refl refl
      (omega arith) (omega arith)
