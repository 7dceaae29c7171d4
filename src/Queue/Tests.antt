-- ===== src/Queue/Tests.antt =====
-- Runs of internal/queue, and witnesses for its theorems.
use trpc_go.Common.{ℕ, ◌≡◌, refl, true, false, List, [], ◌∷◌, ◌++◌, Option, none, some, arith}
use trpc_go.Queue.{
  Queue, Getter, away, blocked, leaving, gone, got, System, Action, puts, notifies, calls, looks,
  wakes, sees_done, leaves, closes, start, step, Reachable, first, next,
}
use trpc_go.Queue.Waking.{WillReturn, get_returns}
use trpc_go.Queue.Fifo.{in_order, gives_up}

abbrev run : List (Action ℕ) → System ℕ → Option (System ℕ)
run [] s = some s
run (a ∷ rest) s = elim (step a s) [ none ↦ none | some t ↦ run rest t ]

-- Get blocks, and an element is put.
abbrev waiting : System ℕ
waiting = record {
  queue = record { list = 7 ∷ []; notify = false; waiting = false; done = false };
  wakers = 1;
  getter = blocked;
  put = 7 ∷ [];
  taken = [];
}

waiting-Reachable : Reachable waiting
unfolding step start trpc_go.Queue.put_locked trpc_go.Queue.get_locked trpc_go.Queue.new
waiting-Reachable = next (puts 7) _ _ (next looks _ _ (next calls _ _ first refl) refl) refl

-- Get blocks, and done is closed.
abbrev closing : System ℕ
closing = record {
  queue = record { list = []; notify = false; waiting = true; done = true };
  wakers = 0;
  getter = leaving;
  put = [];
  taken = [];
}

closing-Reachable : Reachable closing
unfolding step start trpc_go.Queue.get_locked trpc_go.Queue.new
closing-Reachable =
    next sees_done _ _ (next closes _ _ (next looks _ _ (next calls _ _ first refl) refl) refl) refl

abbrev closed : System ℕ
closed = record {
  queue = record { list = []; notify = false; waiting = false; done = true };
  wakers = 0;
  getter = gone;
  put = [];
  taken = [];
}

-- A notification that is left over only makes the next Get look twice.
left_over :
    run (puts 1 ∷ calls ∷ looks ∷ calls ∷ looks ∷ puts 2 ∷ notifies ∷ wakes ∷ looks ∷ []) start
    ≡ some (record {
      queue = record { list = []; notify = false; waiting = false; done = false };
      wakers = 0;
      getter = got 2;
      put = 1 ∷ 2 ∷ [];
      taken = 1 ∷ 2 ∷ [];
    })
unfolding step start trpc_go.Queue.get_locked trpc_go.Queue.put_locked trpc_go.Queue.new
    trpc_go.Queue.put_notify
left_over = refl

get_returns_example : WillReturn 7 waiting
get_returns_example = get_returns waiting 7 [] waiting-Reachable refl refl

in_order_example : waiting.put ≡ waiting.taken ++ waiting.queue.list
in_order_example = in_order {s = waiting} waiting-Reachable

gives_up_example : (true ≡ true) × (closed.put ≡ closed.taken)
unfolding step trpc_go.Queue.get_done
gives_up_example = gives_up leaves closing closed closing-Reachable refl (λ e. ground arith) refl
