-- ===== src/HttpRule/Stack.antt =====
-- internal/stack/stack.go: the stack of the matcher, a chain of nodes with its size.
use trpc_go.Common.{ℕ, ◌+◌, ◌-◌, ◌≡◌, List, [], ◌∷◌, length, ◌==◌, if◌then◌else◌, arith}

-- `top` is the chain of nodes from st.top along prev.
pub record Stack {ℓ} (A : Type ℓ) : Type ℓ where
  pub top : List A
  pub size : ℕ

-- What Pop returns; `nil_dereference` is the panic on a nil st.top.
pub data Popped {ℓ} (A : Type ℓ) : Type ℓ where
  nothing : Popped A
  nil_dereference : Popped A
  popped : A → Stack A → Popped A

module _ {ℓ} {A : Type ℓ} where
  unfoldable pub new : Stack A
  new = record { top = []; size = 0 }

  unfoldable pub push : A → Stack A → Stack A
  push value st = record { top = value ∷ st.top; size = st.size + 1 }

  unfoldable pub pop : Stack A → Popped A
  pop st = if st.size == 0 then nothing else (elim (st.top) [
    | [] ↦ nil_dereference
    | value ∷ prev ↦ popped value (record { top = prev; size = st.size - 1 })
  ])

  -- The size counts the nodes.
  abbrev pub IsCounted : Stack A → Type 0
  IsCounted st = st.size ≡ length (st.top)

  pub pop-push : (x : A) (st : Stack A) → pop (push x st) ≡ popped x st
  unfolding pop push
  pop-push x st = ground arith
