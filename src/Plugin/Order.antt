-- ===== src/Plugin/Order.antt =====
-- plugin/setup.go: the order in which setupPlugins sets the plugins up.
use trpc_go.Common.{
  ℕ, zero, suc, ◌≡◌, ◌≢◌, refl, sym, Bool, true, false, List, [], ◌∷◌, ◌++◌, Option, none, some,
  length, leb, ◌==◌, if◌then◌else◌, str_eq, str_eq_iff, ◌⊎◌, inl, inr, All, Bool-cases,
  Option-cases, arith,
}
use trpc_go.Common.Dict.{Key, Dict, insert, lookup, lookup-insert}
use trpc_go.Plugin.Setup.{
  PluginError, Result, ok, fail, ◌>>=◌, Factory, PluginInfo, SetupState, key, check_dependence,
  flex_dependence, has_dependence, setup, defer, advance, setup_next, setup_round, setup_loop,
  setup_plugins, cycle_depends, exceeds_max, get, load_plugin, load_type, load_plugins,
}

pub Result-cases {ℓ} :
    {A : Type ℓ} (r : Result A) → ((a : A) × (r ≡ ok a)) ⊎ ((e : PluginError) × (r ≡ fail e))
Result-cases (ok a) = inl (a, refl)
Result-cases (fail e) = inr (e, refl)

pub List-cases {ℓ} :
    {A : Type ℓ} (xs : List A) → (xs ≡ []) ⊎ ((x : A) × (ys : List A) × (xs ≡ x ∷ ys))
List-cases [] = inl refl
List-cases (x ∷ ys) = inr (x, ys, refl)

All-map {ℓ κ μ} :
    {A : Type ℓ} {P : A → Type κ} {Q : A → Type μ} (f : (x : A) → P x → Q x) (xs : List A)
    → All P xs
    → All Q xs
All-map f [] h = tt
All-map f (x ∷ xs) h = (f x (h.0), All-map f xs (h.1))

abbrev pub In : Key → List Key → Type 0
In k [] = ⊥
In k (j ∷ ks) = (k ≡ j) ⊎ In k ks

abbrev pub list_of : Option (List Key) → List Key
list_of none = []
list_of (some ds) = ds

check_strong :
    (own : Key) (status : Dict Bool) (ds : List Key)
    → check_dependence own status ds false ≡ ok false
    → All (λ d. (d ≢ own) × (lookup d status ≡ some true)) ds
unfolding check_dependence
check_strong own status [] e = tt
check_strong own status (d ∷ ds) e = elim (Bool-cases (str_eq d own)) [
  | inl same ↦ absurd (ground arith)
  | inr other ↦ elim (Option-cases (lookup d status)) [
    | inl a ↦ absurd (ground arith)
    | inr (true, a) ↦ (
      ((λ h. ground (arith, str_eq_iff d own)), a),
      check_strong own status ds (rw (other, a) at e),
    )
    | inr (false, a) ↦ absurd (ground arith)
  ]
]

check_weak :
    (own : Key) (status : Dict Bool) (ds : List Key)
    → check_dependence own status ds true ≡ ok false
    → All (λ d. (d ≢ own) × ((lookup d status ≡ none) ⊎ (lookup d status ≡ some true))) ds
unfolding check_dependence
check_weak own status [] e = tt
check_weak own status (d ∷ ds) e = elim (Bool-cases (str_eq d own)) [
  | inl same ↦ absurd (ground arith)
  | inr other ↦ elim (Option-cases (lookup d status)) [
    | inl a ↦ (
      ((λ h. ground (arith, str_eq_iff d own)), inl a),
      check_weak own status ds (rw (other, a) at e),
    )
    | inr (true, a) ↦ (
      ((λ h. ground (arith, str_eq_iff d own)), inr a),
      check_weak own status ds (rw (other, a) at e),
    )
    | inr (false, a) ↦ absurd (ground arith)
  ]
]

strong_ready :
    (o : Option (List Key)) (own : Key) (status : Dict Bool) (r : Result Bool)
    → elim o [
      | none ↦ r
      | some ds ↦ check_dependence own status ds false >>= λ h. if h then ok true else r
    ]
      ≡ ok false
    → All (λ d. (d ≢ own) × (lookup d status ≡ some true)) (list_of o) × (r ≡ ok false)
strong_ready none own status r e = (tt, e)
strong_ready (some ds) own status r e = elim (Result-cases (check_dependence own status ds false)) [
  | inr (x, a) ↦ cc
  | inl (true, a) ↦ cc
  | inl (false, a) ↦ (check_strong own status ds a, rw a at e)
]

weak_ready :
    (o : Option (List Key)) (own : Key) (status : Dict Bool)
    → elim o [ none ↦ ok false | some ds ↦ check_dependence own status ds true ] ≡ ok false
    → All (λ d. (d ≢ own) × ((lookup d status ≡ none) ⊎ (lookup d status ≡ some true))) (list_of o)
weak_ready none own status e = tt
weak_ready (some ds) own status e = check_weak own status ds e

now_set_up :
    (k own : Key) (status : Dict Bool) (done : List Key)
    → lookup k (insert own true status) ≡ some true
    → (lookup k status ≡ some true → In k done)
    → In k (own ∷ done)
now_set_up k own status done e h = elim (Bool-cases (str_eq own k)) [
  | inl same ↦ inl (sym ((str_eq_iff own k).0 same))
  | inr other ↦ inr (h (rw (lookup-insert own k true status, other) at e))
]

still_absent :
    (k own : Key) (status : Dict Bool)
    → lookup k (insert own true status) ≡ none
    → lookup k status ≡ none
still_absent k own status e = elim (Bool-cases (str_eq own k)) [
  | inl same ↦ absurd (ground (arith, lookup-insert own k true status))
  | inr other ↦ rw (lookup-insert own k true status, other) at e
]

-- No plugin is set up.
abbrev pub NoneSetUp : Dict Bool → Type 0
NoneSetUp status = (k : Key) → lookup k status ≢ some true

insert-NoneSetUp :
    (own : Key) (status : Dict Bool) → NoneSetUp status → NoneSetUp (insert own false status)
insert-NoneSetUp own status h k e = elim (Bool-cases (str_eq own k)) [
  | inl same ↦ ground (arith, lookup-insert own k false status)
  | inr other ↦ h k (rw (lookup-insert own k false status, other) at e)
]

pub not_stuck {ℓ} :
    {A : Type ℓ} {a : A} (stuck : Bool) (rest : Result A)
    → elim stuck [ true ↦ fail cycle_depends | false ↦ rest ] ≡ ok a
    → rest ≡ ok a
not_stuck true rest e = cc
not_stuck false rest e = e

not_full {ℓ} :
    {A : Type ℓ} {a : A} (full : Bool) (b : A)
    → (if full then fail exceeds_max else ok b) ≡ ok a
    → b ≡ a
not_full true b e = cc
not_full false b e = cc

pub fail≢ok {ℓ} : {A : Type ℓ} {x : PluginError} {a : A} → fail x ≢ ok a
fail≢ok e = cc

none≢true : (k : Key) → lookup k [] ≢ some true
unfolding lookup
none≢true k e = cc

module _ {Cfg : Type 0} where
  abbrev pub start : List (PluginInfo Cfg) → Dict Bool → SetupState Cfg
  start plugins status = record { plugins = plugins; status = status; result = []; closes = [] }

  -- Everything that a plugin depends on, other than the plugin itself, is set up: what it depends
  -- on strongly, and what it depends on weakly if that is among the plugins.
  pub record Met (status : Dict Bool) (done : List Key) (p : PluginInfo Cfg) : Type 0 where
    pub strong : All (λ d. (d ≢ key p) × In d done) (list_of (p.factory.depends_on))
    pub weak :
        All
          (λ d. (d ≢ key p) × ((lookup d status ≡ none) ⊎ In d done))
          (list_of (p.factory.flex_depends_on))

  -- Each plugin comes behind those it depends on.
  abbrev pub Ordered : Dict Bool → List Key → List (PluginInfo Cfg) → Type 0
  Ordered status done [] = Unit
  Ordered status done (p ∷ ps) = Met status done p × Ordered status (key p ∷ done) ps

  abbrev rev_keys : List (PluginInfo Cfg) → List Key → List Key
  rev_keys [] done = done
  rev_keys (p ∷ ps) done = rev_keys ps (key p ∷ done)

  rev_keys-snoc :
      (ps : List (PluginInfo Cfg)) (p : PluginInfo Cfg) (done : List Key)
      → rev_keys (ps ++ (p ∷ [])) done ≡ key p ∷ rev_keys ps done
  rev_keys-snoc [] p done = refl
  rev_keys-snoc (q ∷ ps) p done = rev_keys-snoc ps p (key q ∷ done)

  Ordered-snoc :
      (status : Dict Bool) (ps : List (PluginInfo Cfg)) (p : PluginInfo Cfg) (done : List Key)
      → Ordered status done ps
      → Met status (rev_keys ps done) p
      → Ordered status done (ps ++ (p ∷ []))
  Ordered-snoc status [] p done h m = (m, tt)
  Ordered-snoc status (q ∷ ps) p done h m = (h.0, Ordered-snoc status ps p (key q ∷ done) (h.1) m)

  next_first :
      (p : PluginInfo Cfg) (rest : List (PluginInfo Cfg)) (st st' : SetupState Cfg)
      → (has_dependence p (st.status) >>= λ deps.
          (if deps then ok (defer p rest st) else setup p >>= λ u. ok (advance p rest st)))
        ≡ ok st'
      → (st' ≡ defer p rest st)
        ⊎ ((has_dependence p (st.status) ≡ ok false) × (st' ≡ advance p rest st))
  next_first p rest st st' e = elim (Result-cases (has_dependence p (st.status))) [
    | inr (x, a) ↦ absurd cc
    | inl (true, a) ↦ inl cc
    | inl (false, a) ↦ elim (Result-cases (setup p)) [
      | inr (x, b) ↦ absurd cc
      | inl (u, b) ↦ inr (a, cc)
    ]
  ]

  -- A step that does not fail puts the first plugin at the end, or finds it ready and sets it up.
  pub next-cases :
      (st st' : SetupState Cfg)
      → setup_next st ≡ ok st'
      → (p : PluginInfo Cfg) × (rest : List (PluginInfo Cfg)) × (st.plugins ≡ p ∷ rest)
        × ((st' ≡ defer p rest st)
            ⊎ ((has_dependence p (st.status) ≡ ok false) × (st' ≡ advance p rest st)))
  unfolding setup_next defer advance
  next-cases st st' e = elim (List-cases (st.plugins)) [
    | inl a ↦ absurd cc
    | inr (p, rest, a) ↦ (p, rest, a, next_first p rest st st' (rw a at e))
  ]

  -- What holds between the steps: `status` tells which plugins are set up, and knows all.
  record Inv (loaded : Dict Bool) (st : SetupState Cfg) : Type 0 where
    set_up : (k : Key) → lookup k (st.status) ≡ some true → In k (rev_keys (st.result) [])
    known : (k : Key) → lookup k (st.status) ≡ none → lookup k loaded ≡ none
    ordered : Ordered loaded [] (st.result)

  ready-Met :
      (loaded : Dict Bool) (p : PluginInfo Cfg) (st : SetupState Cfg)
      → Inv loaded st
      → has_dependence p (st.status) ≡ ok false
      → Met loaded (rev_keys (st.result) []) p
  unfolding has_dependence flex_dependence
  ready-Met loaded p st inv e =
      let (strong, e') = strong_ready (p.factory.depends_on) (key p) (st.status) _ e in
      let weak = weak_ready (p.factory.flex_depends_on) (key p) (st.status) e' in
      record {
        strong = All-map (λ d h. (h.0, inv.set_up d (h.1))) (list_of (p.factory.depends_on)) strong;
        weak =
            All-map
              (λ d h.
                (h.0, elim (h.1) [ inl a ↦ inl (inv.known d a) | inr a ↦ inr (inv.set_up d a) ]))
              (list_of (p.factory.flex_depends_on)) weak;
      }

  advance-Inv :
      (loaded : Dict Bool) (p : PluginInfo Cfg) (rest : List (PluginInfo Cfg)) (st : SetupState Cfg)
      → Inv loaded st
      → has_dependence p (st.status) ≡ ok false
      → Inv loaded (advance p rest st)
  unfolding advance
  advance-Inv loaded p rest st inv e = record {
    set_up = λ k h.
        rw (rev_keys-snoc (st.result) p []) (now_set_up k (key p) (st.status) _ h (inv.set_up k));
    known = λ k h. inv.known k (still_absent k (key p) (st.status) h);
    ordered = Ordered-snoc loaded (st.result) p [] (inv.ordered) (ready-Met loaded p st inv e);
  }

  setup_next-Inv :
      (loaded : Dict Bool) (st st' : SetupState Cfg)
      → Inv loaded st
      → setup_next st ≡ ok st'
      → Inv loaded st'
  unfolding defer
  setup_next-Inv loaded st st' inv e =
      let (p, rest, a, stepped) = next-cases st st' e in
      elim stepped [
        | inl b ↦ rw b (record { set_up = inv.set_up; known = inv.known; ordered = inv.ordered })
        | inr (b, c) ↦ rw c (advance-Inv loaded p rest st inv b)
      ]

  setup_round-Inv :
      (loaded : Dict Bool) (n : ℕ) (st st' : SetupState Cfg)
      → Inv loaded st
      → setup_round n st ≡ ok st'
      → Inv loaded st'
  unfolding setup_round
  setup_round-Inv loaded zero st st' inv e = let same : st ≡ st' = cc in rw (sym same) inv
  setup_round-Inv loaded (suc n) st st' inv e = elim (Result-cases (setup_next st)) [
    | inr (x, a) ↦ absurd cc
    | inl (mid, a) ↦
        setup_round-Inv loaded n mid st' (setup_next-Inv loaded st mid inv a) (rw a at e)
  ]

  pub loop_first :
      (ps : List (PluginInfo Cfg)) (f : ℕ) (st st' : SetupState Cfg)
      → elim ps [
        | [] ↦ ok st
        | p ∷ rest ↦ setup_round (suc (length rest)) st >>= λ mid.
            elim (length (mid.plugins) == suc (length rest)) [
              | true ↦ fail cycle_depends
              | false ↦ setup_loop f mid
            ]
      ]
        ≡ ok st'
      → ((ps ≡ []) × (st ≡ st'))
        ⊎ ((n : ℕ) × (mid : SetupState Cfg) × (setup_round n st ≡ ok mid)
            × (setup_loop f mid ≡ ok st'))
  loop_first [] f st st' e = inl (refl, cc)
  loop_first (p ∷ rest) f st st' e = elim (Result-cases (setup_round (suc (length rest)) st)) [
    | inr (x, b) ↦ absurd cc
    | inl (mid, b) ↦ inr (suc (length rest), mid, b, not_stuck _ _ (rw b at e))
  ]

  setup_loop-Inv :
      (loaded : Dict Bool) (f : ℕ) (st st' : SetupState Cfg)
      → Inv loaded st
      → setup_loop f st ≡ ok st'
      → Inv loaded st'
  unfolding setup_loop
  setup_loop-Inv loaded zero st st' inv e = cc
  setup_loop-Inv loaded (suc f) st st' inv e = elim (loop_first (st.plugins) f st st' e) [
    | inl (empty, same) ↦ rw (sym same) inv
    | inr (n, mid, a, b) ↦ setup_loop-Inv loaded f mid st' (setup_round-Inv loaded n st mid inv a) b
  ]

  load_plugin-NoneSetUp :
      (max : ℕ) (registered : Dict (Dict (Factory Cfg))) (typ name : Key) (cfg : Cfg)
      (l l' : List (PluginInfo Cfg) × Dict Bool)
      → NoneSetUp (l.1)
      → load_plugin max registered typ name cfg l ≡ ok l'
      → NoneSetUp (l'.1)
  unfolding load_plugin
  load_plugin-NoneSetUp max registered typ name cfg l l' h e =
      elim (Option-cases (get registered typ name)) [
        | inl a ↦ absurd (fail≢ok (rw (load_plugin, a) at e))
        | inr (factory, a) ↦
            let p : PluginInfo Cfg = record {
              factory = factory;
              typ = typ;
              name = name;
              cfg = cfg;
            } in
            let same = not_full (leb max (length (l.0))) _ (rw (load_plugin, a) at e) in
            rw (sym same) (insert-NoneSetUp (key p) (l.1) h)
      ]

  load_type-NoneSetUp :
      (max : ℕ) (registered : Dict (Dict (Factory Cfg))) (typ : Key) (fs : Dict Cfg)
      (l l' : List (PluginInfo Cfg) × Dict Bool)
      → NoneSetUp (l.1)
      → load_type max registered typ fs l ≡ ok l'
      → NoneSetUp (l'.1)
  unfolding load_type
  load_type-NoneSetUp max registered typ [] l l' h e = let same : l ≡ l' = cc in rw (sym same) h
  load_type-NoneSetUp max registered typ ((name, cfg) ∷ fs) l l' h e =
      elim (Result-cases (load_plugin max registered typ name cfg l)) [
        | inr (x, a) ↦ absurd cc
        | inl (mid, a) ↦
            load_type-NoneSetUp max registered typ fs mid l'
              (load_plugin-NoneSetUp max registered typ name cfg l mid h a) (rw a at e)
      ]

  load_plugins-NoneSetUp :
      (max : ℕ) (registered : Dict (Dict (Factory Cfg))) (c : Dict (Dict Cfg))
      (l l' : List (PluginInfo Cfg) × Dict Bool)
      → NoneSetUp (l.1)
      → load_plugins max registered c l ≡ ok l'
      → NoneSetUp (l'.1)
  unfolding load_plugins
  load_plugins-NoneSetUp max registered [] l l' h e = let same : l ≡ l' = cc in rw (sym same) h
  load_plugins-NoneSetUp max registered ((typ, fs) ∷ c) l l' h e =
      elim (Result-cases (load_type max registered typ fs l)) [
        | inr (x, a) ↦ absurd cc
        | inl (mid, a) ↦
            load_plugins-NoneSetUp max registered c mid l'
              (load_type-NoneSetUp max registered typ fs l mid h a) (rw a at e)
      ]

  -- When the configured plugins load and are set up without error, each of them was set up behind
  -- the plugins it depends on: behind all that it depends on strongly, and behind those it depends
  -- on weakly that are loaded. Plugins are known by their keys.
  pub setup_in_order :
      (max : ℕ) (registered : Dict (Dict (Factory Cfg))) (c : Dict (Dict Cfg))
      (loaded : List (PluginInfo Cfg) × Dict Bool) (st : SetupState Cfg)
      → load_plugins max registered c ([], []) ≡ ok loaded
      → setup_plugins (loaded.0) (loaded.1) ≡ ok st
      → Ordered (loaded.1) [] (st.result)
  unfolding setup_plugins
  setup_in_order max registered c loaded st e e' =
      let none_set_up =
        load_plugins-NoneSetUp max registered c ([], []) loaded (λ k h. none≢true k h) e in
      let inv : Inv (loaded.1) (start (loaded.0) (loaded.1)) = record {
        set_up = λ k h. absurd (none_set_up k h);
        known = λ k h. h;
        ordered = tt;
      } in
      (setup_loop-Inv (loaded.1) (suc (length (loaded.0))) (start (loaded.0) (loaded.1)) st inv
        e').ordered
