-- ===== src/Plugin/Ends.antt =====
-- plugin/setup.go: setupPlugins comes to an end, and what it has set up by then.
use trpc_go.Common.{
  ℕ, zero, suc, ◌<◌, ◌≤◌, ◌≡◌, ◌≢◌, refl, sym, Bool, not, true, false, List, [], ◌∷◌, ◌++◌, Option,
  none, some, length, ◌==◌, str_eq, inl, inr, arith, length-append, if◌then◌else◌,
}
use mathlib.Core.List.{Perm, append_assoc, append-nil, perm_middle}
use mathlib.Core.List.Perm
use trpc_go.Common.Dict.{Key, Dict, lookup}
use trpc_go.Plugin.Setup.{
  PluginError, Result, ok, fail, ◌>>=◌, SetupEnd, returned, returned_error, timed_out, PluginInfo,
  SetupState, key, check_dependence, flex_dependence, has_dependence, setup, defer, advance,
  setup_next, setup_round, setup_loop, setup_plugins, self_dependence, dependence_missing,
  setup_failed, setup_timeout, cycle_depends, out_of_fuel, blocked,
}
use trpc_go.Plugin.Order.{Result-cases, List-cases, next-cases, loop_first, start}

-- An error of the code, or none.
abbrev IsDocumented : PluginError → Type 0
IsDocumented blocked = ⊥
IsDocumented out_of_fuel = ⊥
IsDocumented _ = Unit

abbrev IsGenuine {ℓ} : {A : Type ℓ} → Result A → Type 0
IsGenuine (ok a) = Unit
IsGenuine (fail e) = IsDocumented e

check_one :
    (same : Bool) (found : Option Bool) (flexible : Bool) (rest : Result Bool)
    → IsGenuine rest
    → IsGenuine (
        if same then fail self_dependence else (elim found [
          | none ↦ if flexible then rest else fail dependence_missing
          | some setup ↦ if not setup then ok true else rest
        ]))
check_one true found flexible rest g = tt
check_one false none true rest g = g
check_one false none false rest g = tt
check_one false (some true) flexible rest g = g
check_one false (some false) flexible rest g = tt

bind-IsGenuine {ℓ κ} :
    {A : Type ℓ} {B : Type κ} (r : Result A) (f : A → Result B)
    → IsGenuine r
    → ((a : A) → r ≡ ok a → IsGenuine (f a))
    → IsGenuine (r >>= f)
bind-IsGenuine (ok a) f g h = h a refl
bind-IsGenuine (fail e) f g h = g

if-IsGenuine {ℓ} :
    {A : Type ℓ} (b : Bool) (r q : Result A)
    → IsGenuine r
    → IsGenuine q
    → IsGenuine (if b then r else q)
if-IsGenuine true r q g h = g
if-IsGenuine false r q g h = h

check_dependence-IsGenuine :
    (own : Key) (status : Dict Bool) (ds : List Key) (flexible : Bool)
    → IsGenuine (check_dependence own status ds flexible)
unfolding check_dependence
check_dependence-IsGenuine own status [] flexible = tt
check_dependence-IsGenuine own status (d ∷ ds) flexible =
    check_one (str_eq d own) (lookup d status) flexible _
      (check_dependence-IsGenuine own status ds flexible)

flex-IsGenuine :
    (o : Option (List Key)) (own : Key) (status : Dict Bool)
    → IsGenuine (elim o [ none ↦ ok false | some ds ↦ check_dependence own status ds true ])
flex-IsGenuine none own status = tt
flex-IsGenuine (some ds) own status = check_dependence-IsGenuine own status ds true

strong-IsGenuine :
    (o : Option (List Key)) (own : Key) (status : Dict Bool) (r : Result Bool)
    → IsGenuine r
    → IsGenuine (elim o [
      | none ↦ r
      | some ds ↦ check_dependence own status ds false >>= λ h. if h then ok true else r
    ])
strong-IsGenuine none own status r g = g
strong-IsGenuine (some ds) own status r g =
    bind-IsGenuine (check_dependence own status ds false) (λ h. if h then ok true else r)
      (check_dependence-IsGenuine own status ds false) (λ h e. if-IsGenuine h (ok true) r tt g)

ended :
    (x : SetupEnd)
    → IsGenuine {A = Unit {0}} (elim x [
      | returned ↦ ok tt
      | returned_error ↦ fail setup_failed
      | timed_out ↦ fail setup_timeout
    ])
ended returned = tt
ended returned_error = tt
ended timed_out = tt

stuck-IsGenuine {ℓ} :
    {A : Type ℓ} (stuck : Bool) (r : Result A)
    → (stuck ≡ false → IsGenuine r)
    → IsGenuine (elim stuck [ true ↦ fail cycle_depends | false ↦ r ])
stuck-IsGenuine true r g = tt
stuck-IsGenuine false r g = g refl

fewer_left : (l n f : ℕ) → (l == suc n) ≡ false → l ≤ suc n → n < f → l < f
fewer_left l n f e h k = ground arith

module _ {Cfg : Type 0} where
  -- What is set up and what waits.
  abbrev all_of : SetupState Cfg → List (PluginInfo Cfg)
  all_of st = st.result ++ st.plugins

  snoc-Perm :
      (p : PluginInfo Cfg) (rest : List (PluginInfo Cfg)) → Perm (rest ++ (p ∷ [])) (p ∷ rest)
  snoc-Perm p rest = rw (append-nil rest) at (perm_middle {a = p} rest [])

  setup_next-Perm :
      (st st' : SetupState Cfg) → setup_next st ≡ ok st' → Perm (all_of st) (all_of st')
  unfolding defer advance
  setup_next-Perm st st' e =
      let (p, rest, a, stepped) = next-cases st st' e in
      elim stepped [
        | inl b ↦ rw (a, b) (Perm.append_left (st.result) (Perm.symm (snoc-Perm p rest)))
        | inr (b, c) ↦
            rw (a, c, append_assoc (st.result) (p ∷ []) rest) (Perm.refl (st.result ++ (p ∷ rest)))
      ]

  setup_round-Perm :
      (n : ℕ) (st st' : SetupState Cfg) → setup_round n st ≡ ok st' → Perm (all_of st) (all_of st')
  unfolding setup_round
  setup_round-Perm zero st st' e = let same : st ≡ st' = cc in rw same (Perm.refl (all_of st'))
  setup_round-Perm (suc n) st st' e = elim (Result-cases (setup_next st)) [
    | inr (x, a) ↦ absurd cc
    | inl (mid, a) ↦ Perm.trans (setup_next-Perm st mid a) (setup_round-Perm n mid st' (rw a at e))
  ]

  setup_loop-Perm :
      (f : ℕ) (st st' : SetupState Cfg) → setup_loop f st ≡ ok st' → Perm (all_of st) (st'.result)
  unfolding setup_loop
  setup_loop-Perm zero st st' e = cc
  setup_loop-Perm (suc f) st st' e = elim (loop_first (st.plugins) f st st' e) [
    | inl (empty, same) ↦ rw (sym same, empty, append-nil) (Perm.refl (st.result))
    | inr (n, mid, a, b) ↦ Perm.trans (setup_round-Perm n st mid a) (setup_loop-Perm f mid st' b)
  ]

  -- When setupPlugins returns no error, the plugins it was given are those it has set up, each of
  -- them once.
  pub setup_plugins-Perm :
      (plugins : List (PluginInfo Cfg)) (status : Dict Bool) (st : SetupState Cfg)
      → setup_plugins plugins status ≡ ok st
      → Perm plugins (st.result)
  unfolding setup_plugins
  setup_plugins-Perm plugins status st e =
      setup_loop-Perm (suc (length plugins)) (start plugins status) st e

  has_dependence-IsGenuine :
      (p : PluginInfo Cfg) (status : Dict Bool) → IsGenuine (has_dependence p status)
  unfolding has_dependence flex_dependence
  has_dependence-IsGenuine p status =
      strong-IsGenuine (p.factory.depends_on) (key p) status _
        (flex-IsGenuine (p.factory.flex_depends_on) (key p) status)

  setup-IsGenuine : (p : PluginInfo Cfg) → IsGenuine (setup p)
  unfolding setup
  setup-IsGenuine p = ended (p.factory.setup_end (p.name) (p.cfg))

  setup_next-IsGenuine :
      (st : SetupState Cfg) (p : PluginInfo Cfg) (rest : List (PluginInfo Cfg))
      → st.plugins ≡ p ∷ rest
      → IsGenuine (setup_next st)
  unfolding setup_next
  setup_next-IsGenuine st p rest a =
      rw (setup_next, a)
        (bind-IsGenuine (has_dependence p (st.status))
          (λ deps. (if deps then ok (defer p rest st) else setup p >>= λ u. ok (advance p rest st)))
          (has_dependence-IsGenuine p (st.status))
          (λ deps e.
            if-IsGenuine deps (ok (defer p rest st)) (setup p >>= λ u. ok (advance p rest st)) tt (
              bind-IsGenuine (setup p) (λ u. ok (advance p rest st)) (setup-IsGenuine p)
                (λ u e'. tt))))

  setup_next-length :
      (st st' : SetupState Cfg)
      → setup_next st ≡ ok st'
      → (length (st'.plugins) ≤ length (st.plugins))
        × (length (st.plugins) ≤ suc (length (st'.plugins)))
  unfolding defer advance
  setup_next-length st st' e =
      let (p, rest, a, stepped) = next-cases st st' e in
      elim stepped [
        | inl b ↦
            let len : length (rest ++ (p ∷ [])) ≡ suc (length rest) =
              omega (arith, length-append rest (p ∷ [])) in
            rw (a, b, len) (omega arith, omega arith)
        | inr (b, c) ↦ rw (a, c) (omega arith, omega arith)
      ]

  setup_round-length :
      (n : ℕ) (st st' : SetupState Cfg)
      → setup_round n st ≡ ok st'
      → length (st'.plugins) ≤ length (st.plugins)
  unfolding setup_round
  setup_round-length zero st st' e = let same : st ≡ st' = cc in rw same (omega arith)
  setup_round-length (suc n) st st' e = elim (Result-cases (setup_next st)) [
    | inr (x, a) ↦ absurd cc
    | inl (mid, a) ↦
        let (shorter, one) = setup_next-length st mid a in
        let rest = setup_round-length n mid st' (rw a at e) in omega arith
  ]

  setup_round-IsGenuine :
      (n : ℕ) (st : SetupState Cfg) → n ≤ length (st.plugins) → IsGenuine (setup_round n st)
  unfolding setup_round
  setup_round-IsGenuine zero st h = tt
  setup_round-IsGenuine (suc n) st h = elim (List-cases (st.plugins)) [
    | inl a ↦ let none_left : suc n ≤ 0 = rw a at h in absurd (omega arith)
    | inr (p, rest, a) ↦
        bind-IsGenuine (setup_next st) (setup_round n) (setup_next-IsGenuine st p rest a) (λ mid e.
          let (shorter, one) = setup_next-length st mid e in
          setup_round-IsGenuine n mid (omega arith))
  ]

  setup_loop-IsGenuine :
      (f : ℕ) (st : SetupState Cfg) → length (st.plugins) < f → IsGenuine (setup_loop f st)
  unfolding setup_loop
  setup_loop-IsGenuine zero st h = absurd (omega arith)
  setup_loop-IsGenuine (suc f) st h = elim (List-cases (st.plugins)) [
    | inl a ↦ rw (setup_loop, a) tt
    | inr (p, rest, a) ↦
        let len : length (st.plugins) ≡ suc (length rest) = rw a in
        rw (setup_loop, a)
          (bind-IsGenuine (setup_round (suc (length rest)) st) _
            (setup_round-IsGenuine (suc (length rest)) st (omega arith))
            (λ mid e. stuck-IsGenuine (length (mid.plugins) == suc (length rest)) _ (λ fewer.
              let shorter = setup_round-length (suc (length rest)) st mid e in
              setup_loop-IsGenuine f mid (
                fewer_left (length (mid.plugins)) (length rest) f fewer (omega arith)
                  (omega arith)))))
  ]

  -- setupPlugins ends for any plugins and any status: the rounds of its loop do not go on for ever,
  -- and it does not wait for a plugin when there is none in the channel.
  pub setup_plugins_ends :
      (plugins : List (PluginInfo Cfg)) (status : Dict Bool)
      → (setup_plugins plugins status ≢ fail out_of_fuel)
        × (setup_plugins plugins status ≢ fail blocked)
  unfolding setup_plugins
  setup_plugins_ends plugins status =
      let g = setup_loop-IsGenuine (suc (length plugins)) (start plugins status) (omega arith) in
      (λ e. rw e at g, λ e. rw e at g)
