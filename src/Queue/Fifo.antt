-- ===== src/Queue/Fifo.antt =====
-- internal/queue/queue.go: the elements come out in the order in which they were put, and none is
-- left behind by a Get that gives up.
use mathlib.Core.List.{append_assoc, append-nil}
use trpc_go.Common.{◌≡◌, ◌≢◌, ◌⊎◌, inl, inr, refl, ◌∙◌, ap, true, List, [], ◌∷◌, ◌++◌, some, arith}
use trpc_go.Queue.{
  leaving, gone, System, Action, puts, notifies, calls, looks, wakes, sees_done, leaves, closes,
  start, step, put_locked, put_notify, get_locked, get_done, Reachable, first, next, new,
}

list-cases {ℓ} : {A : Type ℓ} (l : List A) → (l ≡ []) ⊎ ((v : A) × (vs : List A) × (l ≡ v ∷ vs))
list-cases [] = inl refl
list-cases (v ∷ vs) = inr (v, vs, refl)

-- A Get can only be in the case of done if the channel is closed.
abbrev IsClosing {ℓ} : {A : Type ℓ} → System A → Type ℓ
IsClosing s = s.getter ≡ leaving → s.queue.done ≡ true

step-IsClosing {ℓ} :
    {A : Type ℓ} (a : Action A) (s s' : System A) → step a s ≡ some s' → IsClosing s → IsClosing s'
unfolding step put_locked put_notify get_locked get_done
step-IsClosing (puts v) s s' e h = ground arith
step-IsClosing notifies s s' e h = ground arith
step-IsClosing calls s s' e h = ground arith
step-IsClosing looks s s' e h = ground arith
step-IsClosing wakes s s' e h = ground arith
step-IsClosing sees_done s s' e h = ground arith
step-IsClosing leaves s s' e h = ground arith
step-IsClosing closes s s' e h = ground arith

abbrev IsFifo {ℓ} : {A : Type ℓ} → System A → Type ℓ
IsFifo s = s.put ≡ s.taken ++ s.queue.list

step-IsFifo {ℓ} :
    {A : Type ℓ} (a : Action A) (s s' : System A) → step a s ≡ some s' → IsFifo s → IsFifo s'
unfolding step put_locked put_notify get_locked get_done
step-IsFifo (puts v) s s' e h = ground (arith, append_assoc s.taken s.queue.list (v ∷ []))
step-IsFifo notifies s s' e h = ground arith
step-IsFifo calls s s' e h = ground arith
step-IsFifo looks s s' e h = elim (list-cases s.queue.list) [
  | inl l ↦ ground (arith, append-nil s.taken)
  | inr (v, vs, l) ↦ ground (arith, append_assoc s.taken (v ∷ []) vs)
]
step-IsFifo wakes s s' e h = ground arith
step-IsFifo sees_done s s' e h = ground arith
step-IsFifo leaves s s' e h = elim (list-cases s.queue.list) [
  | inl l ↦ ground (arith, append-nil s.taken)
  | inr (v, vs, l) ↦ ground (arith, append_assoc s.taken (v ∷ []) vs)
]
step-IsFifo closes s s' e h = ground arith

-- In every state that the queue can come to, what has been put is what Get has returned followed
-- by what the list holds, in the order of the Puts: no element is lost, doubled or overtaken.
pub in_order {ℓ} : {A : Type ℓ} {s : System A} → Reachable s → s.put ≡ s.taken ++ s.queue.list
unfolding start new
in_order first = refl
in_order (next a s s' r e) = step-IsFifo a s s' e (in_order r)

Reachable-IsClosing {ℓ} : {A : Type ℓ} {s : System A} → Reachable s → IsClosing s
unfolding start new
Reachable-IsClosing first = λ b. absurd (ground arith)
Reachable-IsClosing (next a s s' r e) = step-IsClosing a s s' e (Reachable-IsClosing r)

gone_empty {ℓ} :
    {A : Type ℓ} (a : Action A) (s s' : System A)
    → step a s ≡ some s'
    → s.getter ≢ gone
    → s'.getter ≡ gone
    → (s.getter ≡ leaving) × (s'.queue.list ≡ []) × (s'.queue.done ≡ s.queue.done)
unfolding step put_locked put_notify get_locked get_done
gone_empty (puts v) s s' e n g = absurd (n (ground arith))
gone_empty notifies s s' e n g = absurd (n (ground arith))
gone_empty calls s s' e n g = absurd (ground arith)
gone_empty looks s s' e n g = absurd (ground arith)
gone_empty wakes s s' e n g = absurd (ground arith)
gone_empty sees_done s s' e n g = absurd (ground arith)
gone_empty leaves s s' e n g = (ground arith, ground arith, ground arith)
gone_empty closes s s' e n g = absurd (n (ground arith))

-- When a step makes Get return false, done is closed and everything that has been put has been
-- taken.
pub gives_up {ℓ} :
    {A : Type ℓ} (a : Action A) (s s' : System A)
    → Reachable s
    → step a s ≡ some s'
    → s.getter ≢ gone
    → s'.getter ≡ gone
    → (s'.queue.done ≡ true) × (s'.put ≡ s'.taken)
gives_up a s s' r e n g =
    let (l, empty, same) = gone_empty a s s' e n g in
    (
      same ∙ Reachable-IsClosing r l,
      in_order (next a s s' r e) ∙ ap (λ l. s'.taken ++ l) empty ∙ append-nil s'.taken,
    )
