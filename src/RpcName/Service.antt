-- ===== src/RpcName/Service.antt =====
-- codec/message_impl.go: the parts of a service name, trpc.app.server.service, and the setters of
-- a message that take names apart.
use trpc_go.Common.{
  ℕ, suc, [], ◌∷◌, Option, none, some, take, drop, leb, ◌==◌, if◌then◌else◌, str_eq,
}
use trpc_go.Wire.BigEndian.{Bytes}
use trpc_go.RpcName.{index, rpc_name_is_trpc_form, method_from_rpc_name}

-- strings.Count for one byte
unfoldable pub count : ℕ → Bytes → ℕ
count c [] = 0
count c (d ∷ s) = let rest = count c s in if d == c then suc rest else rest

-- What stands before and behind the first dot.
unfoldable pub split_dot : Bytes → Option (Bytes × Bytes)
split_dot s = elim (index b'.' s) [ none ↦ none | some i ↦ some (take i s, drop (suc i) s) ]

-- app, server and service, one dot after the other
unfoldable pub sections : Bytes → Bytes × Bytes × Bytes
sections s = elim (split_dot s) [
  | none ↦ (s, [], [])
  | some (app, s1) ↦ elim (split_dot s1) [
    | none ↦ (app, s1, [])
    | some (server, service) ↦ (app, server, service)
  ]
]

-- getAppServerService; with three dots or more, the first section is left out.
unfoldable pub get_app_server_service : Bytes → Bytes × Bytes × Bytes
get_app_server_service s =
    if leb 3 (count b'.' s)
    then (elim (split_dot s) [ none ↦ sections s | some (first, rest) ↦ sections rest ])
    else sections s

-- The callee's names in a message.
pub record Callee : Type 0 where
  pub service_name : Bytes
  pub app : Bytes
  pub server : Bytes
  pub service : Bytes

-- WithCalleeServiceName
unfoldable pub with_callee_service_name : Bytes → Callee → Callee
with_callee_service_name s m =
    let parts = get_app_server_service s in
    if str_eq (m.service_name) s
    then m
    else if str_eq s (b'*' ∷ [])
    then record { service_name = s; app = m.app; server = m.server; service = m.service }
    else record { service_name = s; app = parts.0; server = parts.1; service = parts.2 }

-- updateMethodNameUsingRPCName: the callee's method behind it.
unfoldable pub update_method_name : Bytes → Bytes → Bytes
update_method_name s callee_method =
    if rpc_name_is_trpc_form s
    then method_from_rpc_name s
    else if str_eq callee_method []
    then s
    else callee_method
