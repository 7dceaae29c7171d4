-- ===== src/Plugin/Setup.antt =====
-- plugin/setup.go: loadPlugins, setupPlugins and what they call. The channel of plugins is the list
-- of what is in it. The methods of a factory are the plugin's own code and a parameter, as is the
-- type of a plugin's configuration (yaml.Node).
use trpc_go.Common.{
  ℕ, zero, suc, Bool, true, false, not, List, [], ◌∷◌, ◌++◌, Option, none, some, length, leb, ◌==◌,
  if◌then◌else◌, str_eq,
}
use trpc_go.Common.Dict.{Key, Dict, insert, lookup}

pub data PluginError : Type 0 where
  not_registered exceeds_max self_dependence dependence_missing : PluginError
  setup_timeout setup_failed cycle_depends finish_failed : PluginError
  -- a receive from the empty channel, which never returns, and the model's own error
  blocked out_of_fuel : PluginError

pub data Result {ℓ} (A : Type ℓ) : Type ℓ where
  ok : A → Result A
  fail : PluginError → Result A

infixl 5 ◌>>=◌
abbrev pub ◌>>=◌ {ℓ κ} : {A : Type ℓ} {B : Type κ} → Result A → (A → Result B) → Result B
ok a >>= f = f a
fail e >>= f = fail e

-- How the call of Setup under its time limit ends.
pub data SetupEnd : Type 0 where
  returned returned_error timed_out : SetupEnd

-- Factory with the optional interfaces Depender, FlexDepender, FinishNotifier and Closer; of the
-- last two, whether the call returns without error.
pub record Factory (Cfg : Type 0) : Type 0 where
  pub setup_end : Key → Cfg → SetupEnd
  pub depends_on : Option (List Key)
  pub flex_depends_on : Option (List Key)
  pub on_finish : Option (Key → Bool)
  pub close : Option Bool

pub record PluginInfo (Cfg : Type 0) : Type 0 where
  pub factory : Factory Cfg
  pub typ : Key
  pub name : Key
  pub cfg : Cfg

pub record SetupState (Cfg : Type 0) : Type 0 where
  pub plugins : List (PluginInfo Cfg)
  pub status : Dict Bool
  pub result : List (PluginInfo Cfg)
  pub closes : List Bool

unfoldable pub check_dependence : Key → Dict Bool → List Key → Bool → Result Bool
check_dependence own status [] flexible = ok false
check_dependence own status (name ∷ dependences) flexible =
    let rest = check_dependence own status dependences flexible in
    if str_eq name own then fail self_dependence else (elim (lookup name status) [
      | none ↦ if flexible then rest else fail dependence_missing
      | some setup ↦ if not setup then ok true else rest
    ])

module _ {Cfg : Type 0} where
  unfoldable pub key : PluginInfo Cfg → Key
  key p = p.typ ++ (b'-' ∷ p.name)

  -- hasDependence behind the strong dependences
  unfoldable pub flex_dependence : PluginInfo Cfg → Dict Bool → Result Bool
  flex_dependence p status = elim (p.factory.flex_depends_on) [
    | none ↦ ok false
    | some ds ↦ check_dependence (key p) status ds true
  ]

  unfoldable pub has_dependence : PluginInfo Cfg → Dict Bool → Result Bool
  has_dependence p status = elim (p.factory.depends_on) [
    | none ↦ flex_dependence p status
    | some ds ↦ check_dependence (key p) status ds false >>= λ has_deps.
        if has_deps then ok true else flex_dependence p status
  ]

  unfoldable pub setup : PluginInfo Cfg → Result (Unit {0})
  setup p = elim (p.factory.setup_end (p.name) (p.cfg)) [
    | returned ↦ ok tt
    | returned_error ↦ fail setup_failed
    | timed_out ↦ fail setup_timeout
  ]

  -- closes = append(closes, closer.Close), if the factory is a Closer
  unfoldable pub add_close : PluginInfo Cfg → List Bool → List Bool
  add_close p closes = elim (p.factory.close) [ none ↦ closes | some c ↦ closes ++ (c ∷ []) ]

  -- plugins <- p
  unfoldable pub defer : PluginInfo Cfg → List (PluginInfo Cfg) → SetupState Cfg → SetupState Cfg
  defer p rest st = record {
    plugins = rest ++ (p ∷ []);
    status = st.status;
    result = st.result;
    closes = st.closes;
  }

  -- What is recorded of a plugin that is set up.
  unfoldable pub advance : PluginInfo Cfg → List (PluginInfo Cfg) → SetupState Cfg → SetupState Cfg
  advance p rest st = record {
    plugins = rest;
    status = insert (key p) true (st.status);
    result = st.result ++ (p ∷ []);
    closes = add_close p (st.closes);
  }

  -- One plugin from the front of the channel: it goes to its tail, or is set up.
  unfoldable pub setup_next : SetupState Cfg → Result (SetupState Cfg)
  setup_next st = elim (st.plugins) [
    | [] ↦ fail blocked
    | p ∷ rest ↦ has_dependence p (st.status) >>= λ deps.
        (if deps then ok (defer p rest st) else setup p >>= λ u. ok (advance p rest st))
  ]

  -- The inner loop of setupPlugins, for a number of plugins.
  unfoldable pub setup_round : ℕ → SetupState Cfg → Result (SetupState Cfg)
  setup_round zero st = ok st
  setup_round (suc n) st = setup_next st >>= setup_round n

  -- The outer loop of setupPlugins.
  unfoldable pub setup_loop : ℕ → SetupState Cfg → Result (SetupState Cfg)
  setup_loop zero st = fail out_of_fuel
  setup_loop (suc f) st = elim (st.plugins) [
    | [] ↦ ok st
    | p ∷ rest ↦ setup_round (suc (length rest)) st >>= λ st'.
        elim (length (st'.plugins) == suc (length rest)) [
          | true ↦ fail cycle_depends
          | false ↦ setup_loop f st'
        ]
  ]

  -- setupPlugins. Every round that does not fail leaves fewer plugins, so their number is fuel
  -- enough.
  unfoldable pub setup_plugins : List (PluginInfo Cfg) → Dict Bool → Result (SetupState Cfg)
  setup_plugins plugins status =
      setup_loop (suc (length plugins))
        (record { plugins = plugins; status = status; result = []; closes = [] })

  -- Get
  unfoldable pub get : Dict (Dict (Factory Cfg)) → Key → Key → Option (Factory Cfg)
  get registered typ name = elim (lookup typ registered) [
    | none ↦ none
    | some factories ↦ lookup name factories
  ]

  -- One configured plugin in loadPlugins. Its channel holds `max` plugins.
  unfoldable pub load_plugin :
      ℕ
      → Dict (Dict (Factory Cfg))
      → Key
      → Key
      → Cfg
      → List (PluginInfo Cfg) × Dict Bool
      → Result (List (PluginInfo Cfg) × Dict Bool)
  load_plugin max registered typ name cfg loaded = elim (get registered typ name) [
    | none ↦ fail not_registered
    | some factory ↦
        let p : PluginInfo Cfg = record { factory = factory; typ = typ; name = name; cfg = cfg } in
        if leb max (length (loaded.0))
        then fail exceeds_max
        else ok (loaded.0 ++ (p ∷ []), insert (key p) false (loaded.1))
  ]

  unfoldable pub load_type :
      ℕ
      → Dict (Dict (Factory Cfg))
      → Key
      → Dict Cfg
      → List (PluginInfo Cfg) × Dict Bool
      → Result (List (PluginInfo Cfg) × Dict Bool)
  load_type max registered typ [] loaded = ok loaded
  load_type max registered typ ((name, cfg) ∷ factories) loaded =
      load_plugin max registered typ name cfg loaded >>= load_type max registered typ factories

  -- The loops of loadPlugins, in the order in which they range over the configuration.
  unfoldable pub load_plugins :
      ℕ
      → Dict (Dict (Factory Cfg))
      → Dict (Dict Cfg)
      → List (PluginInfo Cfg) × Dict Bool
      → Result (List (PluginInfo Cfg) × Dict Bool)
  load_plugins max registered [] loaded = ok loaded
  load_plugins max registered ((typ, factories) ∷ c) loaded =
      load_type max registered typ factories loaded >>= load_plugins max registered c

  -- onFinish
  unfoldable pub on_finish_all : List (PluginInfo Cfg) → Result (Unit {0})
  on_finish_all [] = ok tt
  on_finish_all (p ∷ ps) = elim (p.factory.on_finish) [
    | none ↦ on_finish_all ps
    | some f ↦ elim (f (p.name)) [ true ↦ on_finish_all ps | false ↦ fail finish_failed ]
  ]

  -- SetupClosables up to the function that closes the plugins.
  unfoldable pub setup_closables :
      ℕ → Dict (Dict (Factory Cfg)) → Dict (Dict Cfg) → Result (SetupState Cfg)
  setup_closables max registered c = load_plugins max registered c ([], []) >>= λ loaded.
      setup_plugins (loaded.0) (loaded.1) >>= λ st. on_finish_all (st.result) >>= λ u. ok st
