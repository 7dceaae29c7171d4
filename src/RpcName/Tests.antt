-- ===== src/RpcName/Tests.antt =====
-- Runs of codec/message_impl.go on names of procedures.
use trpc_go.Common.{◌≡◌, refl, codes, true, false, ◌↔◌}
use trpc_go.Wire.BigEndian.{Bytes}
use trpc_go.RpcName.{index, contains, second_part, first_part, rpc_name_is_trpc_form}
use trpc_go.RpcName.Form.{IsTrpcForm, rpc_name_is_trpc_form_iff}

abbrev name : Bytes
name = codes "/trpc.app.server.Greeter/SayHello"

name-accepted : rpc_name_is_trpc_form name ≡ true
unfolding rpc_name_is_trpc_form first_part second_part index contains
name-accepted = refl

two_methods-rejected : rpc_name_is_trpc_form (codes "/a.b/c/d") ≡ false
unfolding rpc_name_is_trpc_form first_part second_part index contains
two_methods-rejected = refl

rpc_name_is_trpc_form_iff_example : (rpc_name_is_trpc_form name ≡ true) ↔ IsTrpcForm name
rpc_name_is_trpc_form_iff_example = rpc_name_is_trpc_form_iff name

name_form : IsTrpcForm name
unfolding contains
name_form = record {
  prefix = codes "trpc";
  service = codes "app.server.Greeter";
  method = codes "SayHello";
  parts = refl;
  nonempty = (λ e. cc, λ e. cc, λ e. cc);
  prefix_plain = (refl, refl);
  service_plain = refl;
  method_plain = (refl, refl);
}
