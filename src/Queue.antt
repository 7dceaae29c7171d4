-- ===== src/Queue.antt =====
-- internal/queue/queue.go: an unbounded queue with a Get that blocks, as the steps that its Put and
-- its Get take between two moments where another goroutine can run.
pub mod Waking
pub mod Fifo
mod Tests
use trpc_go.Common.{
  ℕ, zero, suc, Bool, true, false, List, [], ◌∷◌, ◌++◌, Option, none, some, ◌≡◌, if◌then◌else◌,
}

-- Queue. `notify` tells whether the channel, which has room for one, is full, and `done` whether
-- the channel of that name is closed.
pub record Queue {ℓ} (A : Type ℓ) : Type ℓ where
  pub list : List A
  pub notify : Bool
  pub waiting : Bool
  pub done : Bool

-- New
unfoldable pub new {ℓ} : {A : Type ℓ} → Queue A
new = record { list = []; notify = false; waiting = false; done = false }

-- Put while it holds the lock: the queue, and wakeUp.
unfoldable pub put_locked {ℓ} : {A : Type ℓ} → A → Queue A → Queue A × Bool
put_locked v q = (record q { list = q.list ++ (v ∷ []); waiting = false }, q.waiting)

-- Put's send that does not block.
unfoldable pub put_notify {ℓ} : {A : Type ℓ} → Queue A → Queue A
put_notify q = record q { notify = true }

-- Where the goroutine that calls Get is: outside; before the lock at the head of the loop; in the
-- select; before the lock of the case of done; and after a return.
pub data Getter {ℓ} (A : Type ℓ) : Type ℓ where
  away looking blocked leaving gone : Getter A
  got : A → Getter A

-- Get while it holds the lock at the head of the loop.
unfoldable pub get_locked {ℓ} : {A : Type ℓ} → Queue A → Queue A × Getter A
get_locked q = elim (q.list) [
  | [] ↦ (record q { waiting = true }, blocked)
  | v ∷ vs ↦ (record q { list = vs }, got v)
]

-- Get while it holds the lock in the case of done.
unfoldable pub get_done {ℓ} : {A : Type ℓ} → Queue A → Queue A × Getter A
get_done q = elim (q.list) [
  | [] ↦ (record q { waiting = false }, gone)
  | v ∷ vs ↦ (record q { list = vs }, got v)
]

-- The queue with any number of goroutines that put and one that gets, as the comment at Get asks.
-- `wakers` counts those that have left Put's lock with wakeUp and have not sent yet. `put` and
-- `taken` are what has been put and taken, in this order.
pub record System {ℓ} (A : Type ℓ) : Type ℓ where
  pub queue : Queue A
  pub wakers : ℕ
  pub getter : Getter A
  pub put : List A
  pub taken : List A

pub data Action {ℓ} (A : Type ℓ) : Type ℓ where
  puts : A → Action A
  notifies calls looks wakes sees_done leaves closes : Action A

unfoldable pub start {ℓ} : {A : Type ℓ} → System A
start = record { queue = new; wakers = 0; getter = away; put = []; taken = [] }

-- What a return of Get adds to the elements taken.
abbrev pub with_taken {ℓ} : {A : Type ℓ} → List A → Getter A → List A
with_taken vs (got v) = vs ++ (v ∷ [])
with_taken vs _ = vs

abbrev pub after_lock {ℓ} : {A : Type ℓ} → System A → Queue A × Getter A → System A
after_lock s (q, g) = record s { queue = q; getter = g; taken = with_taken s.taken g }

-- The select of Get.
abbrev pub select_notify {ℓ} : {A : Type ℓ} → System A → Getter A → Bool → Option (System A)
select_notify s blocked true =
    some (record s { queue = record (s.queue) { notify = false }; getter = looking })
select_notify s _ _ = none

abbrev pub select_done {ℓ} : {A : Type ℓ} → System A → Getter A → Bool → Option (System A)
select_done s blocked true = some (record s { getter = leaving })
select_done s _ _ = none

abbrev pub outside {ℓ} : {A : Type ℓ} → Getter A → Bool
outside away = true
outside gone = true
outside (got v) = true
outside _ = false

-- One step; `none` if it cannot be taken.
unfoldable pub step {ℓ} : {A : Type ℓ} → Action A → System A → Option (System A)
step (puts v) s =
    let (q, wake_up) = put_locked v s.queue in
    some (record s {
      queue = q;
      wakers = if wake_up then suc s.wakers else s.wakers;
      put = s.put ++ (v ∷ []);
    })
step notifies s = elim (s.wakers) [
  | zero ↦ none
  | suc n ↦ some (record s { queue = put_notify s.queue; wakers = n })
]
step calls s = if outside s.getter then some (record s { getter = looking }) else none
step looks s = elim (s.getter) [ looking ↦ some (after_lock s (get_locked s.queue)) | _ ↦ none ]
step wakes s = select_notify s s.getter s.queue.notify
step sees_done s = select_done s s.getter s.queue.done
step leaves s = elim (s.getter) [ leaving ↦ some (after_lock s (get_done s.queue)) | _ ↦ none ]
step closes s = some (record s { queue = record (s.queue) { done = true } })

-- The states that a queue can come to.
pub data Reachable {ℓ} {A : Type ℓ} : System A → Type ℓ where
  first : Reachable start
  next : (a : Action A) (s s' : System A) → Reachable s → step a s ≡ some s' → Reachable s'
