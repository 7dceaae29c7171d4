-- ===== src/RpcName/Parts.antt =====
-- codec/message_impl.go: getAppServerService on names that are joined by dots.
use trpc_go.Common.{
  ℕ, suc, ◌≤◌, ◌≡◌, refl, false, true, [], ◌∷◌, ◌++◌, some, length, leb, drop, arith, take-length,
}
use trpc_go.Wire.BigEndian.{Bytes}
use trpc_go.RpcName.{contains}
use trpc_go.RpcName.Form.{Lacks, index-append}
use trpc_go.RpcName.Service.{count, split_dot, sections, get_app_server_service}

abbrev pub joined : Bytes → Bytes → Bytes
joined s t = s ++ (b'.' ∷ t)

drop-suc : (s t : Bytes) (c : ℕ) → drop (suc (length s)) (s ++ (c ∷ t)) ≡ t
drop-suc [] t c = refl
drop-suc (d ∷ s) t c = drop-suc s t c

split_dot-joined : (s t : Bytes) → Lacks b'.' s → split_dot (joined s t) ≡ some (s, t)
unfolding split_dot
split_dot-joined s t h =
    rw (split_dot, index-append b'.' s t h, take-length s (b'.' ∷ t), drop-suc s t b'.')

count-joined : (s t : Bytes) → suc (count b'.' t) ≤ count b'.' (joined s t)
unfolding count
count-joined [] t = omega arith
count-joined (c ∷ s) t = ground (arith, count-joined s t)

count_without : (s t : Bytes) → Lacks b'.' s → count b'.' (joined s t) ≡ suc (count b'.' t)
unfolding count contains
count_without [] t h = refl
count_without (c ∷ s) t h = ground (arith, count_without s t)

count_none : (s : Bytes) → Lacks b'.' s → count b'.' s ≡ 0
unfolding count contains
count_none [] h = refl
count_none (c ∷ s) h = ground (arith, count_none s)

sections-joined :
    (app server service : Bytes)
    → Lacks b'.' app
    → Lacks b'.' server
    → sections (joined app (joined server service)) ≡ (app, server, service)
unfolding sections
sections-joined app server service h k =
    rw (sections, split_dot-joined app (joined server service) h, split_dot-joined server service k)

-- getAppServerService takes apart what the framework joins: of a name trpc.app.server.service, where
-- only the service may have dots, whatever stands before the first dot, it returns the last three
-- parts; and of a name app.server.plain without a part in front it returns all three if `plain` has no
-- dot either.
pub get_app_server_service-joined :
    (first app server service plain : Bytes)
    → Lacks b'.' first
    → Lacks b'.' app
    → Lacks b'.' server
    → Lacks b'.' plain
    → (get_app_server_service (joined first (joined app (joined server service)))
        ≡ (app, server, service))
      × (get_app_server_service (joined app (joined server plain)) ≡ (app, server, plain))
unfolding get_app_server_service
get_app_server_service-joined first app server service plain f h k n =
    let rest = joined app (joined server service) in
    let many : leb 3 (count b'.' (joined first rest)) ≡ true = ground (
      arith,
      count-joined first rest,
      count-joined app (joined server service),
      count-joined server service,
    ) in
    let few : leb 3 (count b'.' (joined app (joined server plain))) ≡ false = ground (
      arith,
      count_without app (joined server plain) h,
      count_without server plain k,
      count_none plain n,
    ) in
    (
      rw (get_app_server_service, many, split_dot-joined first rest f)
          (sections-joined app server service h k),
      rw (get_app_server_service, few) (sections-joined app server plain h k),
    )
