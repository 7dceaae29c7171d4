-- ===== src/Queue/Waking.antt =====
-- internal/queue/queue.go: a Get that blocks is woken.
use trpc_go.Common.{
  ℕ, zero, suc, ◌+◌, ◌<◌, ◌≡◌, ◌⊎◌, inl, inr, refl, true, false, List, [], ◌∷◌, some, arith,
  Bool-cases,
}
use trpc_go.Queue.{
  Getter, away, looking, blocked, leaving, gone, got, System, Action, puts, notifies, calls, looks,
  wakes, sees_done, leaves, closes, start, step, put_locked, put_notify, get_locked, get_done,
  Reachable, first, next, new, after_lock, outside,
}

-- A blocked Get has announced itself to the next Put and has nothing to take, or a notification is
-- there or on its way.
abbrev pub IsHeard {ℓ} : {A : Type ℓ} → System A → Type ℓ
IsHeard s =
    s.getter ≡ blocked
    → ((s.queue.waiting ≡ true) × (s.queue.list ≡ [])) ⊎ ((s.queue.notify ≡ true) ⊎ (0 < s.wakers))

step-IsHeard {ℓ} :
    {A : Type ℓ} (a : Action A) (s s' : System A) → step a s ≡ some s' → IsHeard s → IsHeard s'
unfolding step put_locked put_notify get_locked get_done
step-IsHeard (puts v) s s' e h = λ b. elim (Bool-cases s.queue.waiting) [
  | inl w ↦ inr (inr (ground arith))
  | inr w ↦ elim (h (ground arith)) [
    | inl (w', l) ↦ absurd (ground arith)
    | inr (inl n) ↦ inr (inl (ground arith))
    | inr (inr n) ↦ inr (inr (ground arith))
  ]
]
step-IsHeard notifies s s' e h = λ b. inr (inl (ground arith))
step-IsHeard calls s s' e h = λ b. ground arith
step-IsHeard looks s s' e h = λ b. ground arith
step-IsHeard wakes s s' e h = λ b. ground arith
step-IsHeard sees_done s s' e h = λ b. ground arith
step-IsHeard leaves s s' e h = λ b. ground arith
step-IsHeard closes s s' e h = λ b. elim (h (ground arith)) [
  | inl (w, l) ↦ inl (ground arith, ground arith)
  | inr (inl n) ↦ inr (inl (ground arith))
  | inr (inr n) ↦ inr (inr (ground arith))
]

pub Reachable-IsHeard {ℓ} : {A : Type ℓ} {s : System A} → Reachable s → IsHeard s
unfolding start new
Reachable-IsHeard first = λ b. absurd (ground arith)
Reachable-IsHeard (next a s s' r e) = step-IsHeard a s s' e (Reachable-IsHeard r)

-- A step of the code inside Put and Get, other than the start of one.
pub data IsInner {ℓ} {A : Type ℓ} : Action A → Type ℓ where
  notifies_inner : IsInner notifies
  looks_inner : IsInner looks
  wakes_inner : IsInner wakes
  sees_done_inner : IsInner sees_done
  leaves_inner : IsInner leaves

-- Get has been called and has not returned.
abbrev pub IsInside {ℓ} : {A : Type ℓ} → System A → Type 0
IsInside s = outside s.getter ≡ false

-- Whatever the scheduler does with the calls that are under way, Get comes to return `v`: it has,
-- or a step can be taken and after each that can it will.
pub data WillReturn {ℓ} {A : Type ℓ} (v : A) : System A → Type ℓ where
  returned : {s : System A} → s.getter ≡ got v → WillReturn v s
  later :
      {s : System A}
      → (a : Action A) × IsInner a × ((s' : System A) × (step a s ≡ some s'))
      → ((a : Action A) (s' : System A) → IsInner a → step a s ≡ some s' → WillReturn v s')
      → WillReturn v s

-- The steps that are left at most: one of each waker, and those of Get.
abbrev phase {ℓ} : {A : Type ℓ} → Getter A → ℕ
phase blocked = 2
phase looking = 1
phase leaving = 1
phase _ = 0

abbrev rank {ℓ} : {A : Type ℓ} → System A → ℕ
rank s = s.wakers + phase s.getter

can_notify {ℓ} :
    {A : Type ℓ} (s : System A) (n : ℕ)
    → s.wakers ≡ n
    → 0 < n
    → (a : Action A) × IsInner a × ((s' : System A) × (step a s ≡ some s'))
unfolding step
can_notify s zero p h = absurd (omega arith)
can_notify s (suc n) p h =
    (notifies, notifies_inner, (record s { queue = put_notify s.queue; wakers = n }, rw (step, p)))

can_wake {ℓ} :
    {A : Type ℓ} (s : System A)
    → s.getter ≡ blocked
    → s.queue.notify ≡ true
    → (a : Action A) × IsInner a × ((s' : System A) × (step a s ≡ some s'))
unfolding step
can_wake s p n = (
  wakes,
  wakes_inner,
  (record s { queue = record (s.queue) { notify = false }; getter = looking }, rw (step, p, n)),
)

-- Some step can be taken while Get is inside and there is an element.
can_go_on {ℓ} :
    {A : Type ℓ} (s : System A) (g : Getter A) {v : A} {vs : List A}
    → s.getter ≡ g
    → IsHeard s
    → IsInside s
    → s.queue.list ≡ v ∷ vs
    → (a : Action A) × IsInner a × ((s' : System A) × (step a s ≡ some s'))
unfolding step
can_go_on s looking p h i l =
    (looks, looks_inner, (after_lock s (get_locked s.queue), rw (step, p)))
can_go_on s leaving p h i l =
    (leaves, leaves_inner, (after_lock s (get_done s.queue), rw (step, p)))
can_go_on s blocked p h i l = elim (h p) [
  | inl (w, l') ↦ absurd (ground arith)
  | inr (inl n) ↦ can_wake s p n
  | inr (inr n) ↦ can_notify s s.wakers refl n
]
can_go_on s away p h i l = absurd (ground arith)
can_go_on s gone p h i l = absurd (ground arith)
can_go_on s (got v) p h i l = absurd (ground arith)

-- A step inside takes the first element, or leaves it there and Get inside with less to do.
inner-IsNext {ℓ} :
    {A : Type ℓ} (a : Action A) (s s' : System A) {v : A} {vs : List A}
    → IsInner a
    → step a s ≡ some s'
    → IsInside s
    → s.queue.list ≡ v ∷ vs
    → (s'.getter ≡ got v) ⊎ (IsInside s' × (s'.queue.list ≡ v ∷ vs) × (rank s' < rank s))
unfolding step put_notify get_locked get_done
inner-IsNext notifies s s' notifies_inner e i l = inr (ground arith, ground arith, ground arith)
inner-IsNext looks s s' looks_inner e i l = inl (ground arith)
inner-IsNext wakes s s' wakes_inner e i l = inr (ground arith, ground arith, ground arith)
inner-IsNext sees_done s s' sees_done_inner e i l = inr (ground arith, ground arith, ground arith)
inner-IsNext leaves s s' leaves_inner e i l = inl (ground arith)
inner-IsNext (puts w) s s' n e i l = elim n [ ]
inner-IsNext calls s s' n e i l = elim n [ ]
inner-IsNext closes s s' n e i l = elim n [ ]

will_return {ℓ} :
    {A : Type ℓ} (n : ℕ) (s : System A) {v : A} {vs : List A}
    → rank s < n
    → IsHeard s
    → IsInside s
    → s.queue.list ≡ v ∷ vs
    → WillReturn v s
will_return zero s r h i l = absurd (omega arith)
will_return (suc n) s r h i l = later (can_go_on s s.getter refl h i l) (λ a s' inner e.
    elim (inner-IsNext a s s' inner e i l) [
      | inl g ↦ returned g
      | inr (i', l', r') ↦ will_return n s' (omega arith) (step-IsHeard a s s' e h) i' l'
    ])

-- In any state that a queue can come to, if Get has been called and has not returned and `v` is
-- the first of the elements: Get comes to return `v` in whatever order the goroutines that are
-- inside Put and Get go on, and also if done is closed, provided that no further Put begins: at
-- each point some step can be taken, and after finitely many of them Get has returned. So no
-- wake-up is lost.
pub get_returns {ℓ} :
    {A : Type ℓ} (s : System A) (v : A) (vs : List A)
    → Reachable s
    → IsInside s
    → s.queue.list ≡ v ∷ vs
    → WillReturn v s
get_returns s v vs r i l = will_return (suc (rank s)) s (omega arith) (Reachable-IsHeard r) i l
