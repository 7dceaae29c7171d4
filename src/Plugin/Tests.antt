-- ===== src/Plugin/Tests.antt =====
-- Runs of plugin/setup.go on a small configuration.
use trpc_go.Common.{ℕ, ◌≡◌, ◌≢◌, refl, Bool, true, false, [], ◌∷◌, none, some, codes, str_eq}
use mathlib.Core.List.{Perm}
use trpc_go.Common.Dict.{Dict, insert, lookup}
use trpc_go.Plugin.Setup.{
  ok, fail, returned, Factory, PluginInfo, SetupState, key, check_dependence, flex_dependence,
  has_dependence, setup, add_close, defer, advance, setup_next, setup_round, setup_loop,
  setup_plugins, get, load_plugin, load_type, load_plugins, out_of_fuel, blocked,
}
use trpc_go.Plugin.Ends.{setup_plugins-Perm, setup_plugins_ends}
use trpc_go.Plugin.Order.{Ordered, setup_in_order}

-- A log plugin that needs a selector, and would wait for a tracing plugin if there was one.
abbrev log_factory : Factory ℕ
log_factory = record {
  setup_end = λ n c. returned;
  depends_on = some (codes "selector-dns" ∷ []);
  flex_depends_on = some (codes "tracing-any" ∷ []);
  on_finish = none;
  close = some true;
}

abbrev selector_factory : Factory ℕ
selector_factory = record {
  setup_end = λ n c. returned;
  depends_on = none;
  flex_depends_on = none;
  on_finish = none;
  close = none;
}

abbrev registered : Dict (Dict (Factory ℕ))
registered =
    (codes "log", (codes "file", log_factory) ∷ [])
    ∷ (codes "selector", (codes "dns", selector_factory) ∷ [])
    ∷ []

abbrev config : Dict (Dict ℕ)
config = (codes "log", (codes "file", 1) ∷ []) ∷ (codes "selector", (codes "dns", 2) ∷ []) ∷ []

abbrev log_plugin : PluginInfo ℕ
log_plugin = record { factory = log_factory; typ = codes "log"; name = codes "file"; cfg = 1 }

abbrev selector_plugin : PluginInfo ℕ
selector_plugin = record {
  factory = selector_factory;
  typ = codes "selector";
  name = codes "dns";
  cfg = 2;
}

abbrev status : Dict Bool
status = (codes "log-file", false) ∷ (codes "selector-dns", false) ∷ []

abbrev final : SetupState ℕ
final = record {
  plugins = [];
  status = (codes "log-file", true) ∷ (codes "selector-dns", true) ∷ [];
  result = selector_plugin ∷ log_plugin ∷ [];
  closes = true ∷ [];
}

config-load_plugins :
    load_plugins 1000 registered config ([], []) ≡ ok (log_plugin ∷ selector_plugin ∷ [], status)
unfolding load_plugins load_type load_plugin get lookup insert str_eq key
config-load_plugins = refl

config-setup_plugins : setup_plugins (log_plugin ∷ selector_plugin ∷ []) status ≡ ok final
unfolding setup_plugins setup_loop setup_round setup_next defer advance has_dependence
    flex_dependence check_dependence setup add_close lookup insert str_eq key
config-setup_plugins = refl

setup_in_order_example : Ordered status [] (final.result)
setup_in_order_example =
    setup_in_order 1000 registered config (log_plugin ∷ selector_plugin ∷ [], status) final
      config-load_plugins config-setup_plugins

setup_plugins-Perm_example : Perm (log_plugin ∷ selector_plugin ∷ []) (final.result)
setup_plugins-Perm_example =
    setup_plugins-Perm (log_plugin ∷ selector_plugin ∷ []) status final config-setup_plugins

setup_plugins_ends_example :
    (setup_plugins (log_plugin ∷ selector_plugin ∷ []) status ≢ fail out_of_fuel)
    × (setup_plugins (log_plugin ∷ selector_plugin ∷ []) status ≢ fail blocked)
setup_plugins_ends_example = setup_plugins_ends (log_plugin ∷ selector_plugin ∷ []) status
