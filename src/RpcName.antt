-- ===== src/RpcName.antt =====
-- codec/message_impl.go: the names of remote procedures, /service/method.
pub mod Form
pub mod Service
pub mod Parts
pub mod Tests
use trpc_go.Common.{
  ℕ, zero, suc, ◌+◌, ◌-◌, Bool, true, false, not, ◌||◌, List, [], ◌∷◌, Option, none, some, length,
  take, drop, ◌==◌, if◌then◌else◌,
}
use trpc_go.Wire.BigEndian.{Bytes}

-- strings.Index for one byte; `none` stands for -1.
unfoldable pub index : ℕ → Bytes → Option ℕ
index c [] = none
index c (d ∷ s) =
    let rest = index c s in
    if d == c then some 0 else (elim rest [ none ↦ none | some i ↦ some (suc i) ])

-- strings.Contains and strings.ContainsAny, one byte at a time
unfoldable pub contains : ℕ → Bytes → Bool
contains c [] = false
contains c (d ∷ s) = (d == c) || contains c s

-- The end of rpcNameIsTRPCForm, from the second slash on; `s` is the name behind its first slash.
unfoldable pub second_part : Bytes → ℕ → ℕ → Bool
second_part s first_dot second_slash =
    let method = drop (first_dot + second_slash + 1) s in
    if second_slash == 1
    then false
    else if 1 + first_dot + second_slash == length s
    then false
    else if contains b'/' method || contains b'.' method
    then false
    else true

-- The part between the dot and the second slash.
unfoldable pub first_part : Bytes → ℕ → Bool
first_part s first_dot =
    if first_dot == 0
    then false
    else if contains b'/' (take first_dot s)
    then false
    else (elim (index b'/' (drop first_dot s)) [
      | none ↦ false
      | some second_slash ↦ second_part s first_dot second_slash
    ])

-- rpcNameIsTRPCForm
unfoldable pub rpc_name_is_trpc_form : Bytes → Bool
rpc_name_is_trpc_form [] = false
rpc_name_is_trpc_form (c ∷ s) =
    if not (c == b'/')
    then false
    else (elim (index b'.' s) [ none ↦ false | some first_dot ↦ first_part s first_dot ])

-- methodFromRPCName: what stands behind the last slash, the whole name if there is none.
unfoldable pub method_from_rpc_name : Bytes → Bytes
method_from_rpc_name [] = []
method_from_rpc_name (c ∷ s) =
    let rest = method_from_rpc_name s in
    if contains b'/' s then rest else if c == b'/' then s else c ∷ s
