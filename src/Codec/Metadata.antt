-- ===== src/Codec/Metadata.antt =====
-- codec.go: the metadata of a call that setClientTransInfo sends, key by key.
use trpc_go.Common.{
  ℕ, ◌≡◌, refl, false, [], ◌∷◌, Option, none, some, if◌then◌else◌, arith, str_eq, str_eq_iff,
  Option-cases, inl, inr, ◌⊎◌, ◌∙◌,
}
use trpc_go.Common.Dict.{Key, Dict, lookup, merge, last_value, or_else, lookup-insert, lookup-merge}
use trpc_go.Wire.BigEndian.{Bytes}
use trpc_go.Codec.Message.{Msg}
use trpc_go.Codec.Server.{dyeing_key, env_transfer}
use trpc_go.Codec.Client.{
  insert_non_empty, set_env, set_client_trans_info, update_caller_service_name,
}

-- The value of a key, or an old one.
abbrev pub value_or : Option Bytes → Bytes → Bytes
value_or none old = old
value_or (some new) old = new

-- The value that a key has in what a message adds to a map: that of the message's metadata, or else
-- of the map; but the dyeing key of the message if it has one; and for the environment that of the
-- message, or the empty text in place of an inherited one.
abbrev pub own_value : Msg → Dict Bytes → Key → Option Bytes
own_value msg base k = or_else (last_value k msg.client_meta_data) (lookup k base)

abbrev pub or_text : Bytes → Option Bytes → Option Bytes
or_text [] o = o
or_text (c ∷ s) o = some (c ∷ s)

abbrev pub emptied : Option Bytes → Option Bytes
emptied none = none
emptied (some _) = some []

abbrev pub sent_value : Msg → Dict Bytes → Key → Option Bytes
sent_value msg base k =
    if str_eq env_transfer k
    then or_text msg.env_transfer (emptied (own_value msg base k))
    else if str_eq dyeing_key k
    then or_text msg.dyeing_key (own_value msg base k)
    else own_value msg base k

lookup-insert_non_empty :
    (key k : Key) (value : Bytes) (m : Dict Bytes)
    → lookup k (insert_non_empty key value m)
      ≡ (if str_eq key k then or_text value (lookup k m) else lookup k m)
unfolding insert_non_empty
lookup-insert_non_empty key k [] m = ground arith
lookup-insert_non_empty key k (c ∷ s) m = ground (arith, lookup-insert key k (c ∷ s) m)

lookup-set_env :
    (k : Key) (env : Bytes) (m : Dict Bytes)
    → lookup k (set_env env m)
      ≡ (if str_eq env_transfer k then or_text env (emptied (lookup k m)) else lookup k m)
unfolding set_env
lookup-set_env k (c ∷ s) m = ground (arith, lookup-insert env_transfer k (c ∷ s) m)
lookup-set_env k [] m = elim (Option-cases (lookup env_transfer m)) [
  | inl n ↦ rw (set_env, n) (ground (arith, n, str_eq_iff env_transfer k))
  | inr (old, n) ↦
      rw (set_env, n)
        (ground (arith, n, str_eq_iff env_transfer k, lookup-insert env_transfer k [] m))
]

-- The two keys differ.
keys_differ : str_eq dyeing_key env_transfer ≡ false
unfolding str_eq
keys_differ = refl

lookup-set_client_trans_info :
    (msg : Msg) (base : Dict Bytes) (k : Key)
    → lookup k (set_client_trans_info msg base) ≡ sent_value msg base k
unfolding set_client_trans_info
lookup-set_client_trans_info msg base k =
    let merged = merge base msg.client_meta_data in
    ground (
      arith,
      lookup-set_env k msg.env_transfer (insert_non_empty dyeing_key msg.dyeing_key merged),
      lookup-insert_non_empty dyeing_key k msg.dyeing_key merged,
      lookup-merge k base msg.client_meta_data,
      str_eq_iff env_transfer k,
      str_eq_iff dyeing_key k,
      keys_differ,
    )

text-cases : (s : Bytes) → (s ≡ []) ⊎ ((c : ℕ) × (t : Bytes) × (s ≡ c ∷ t))
text-cases [] = inl refl
text-cases (c ∷ t) = inr (c, t, refl)

-- The metadata do not depend on the name of the caller.
sent_value-update_caller_service_name :
    (msg : Msg) (name : Bytes) (base : Dict Bytes) (k : Key)
    → sent_value (update_caller_service_name msg name) base k ≡ sent_value msg base k
unfolding update_caller_service_name
sent_value-update_caller_service_name msg name base k = elim (text-cases msg.caller_service_name) [
  | inl e ↦ rw (update_caller_service_name, e) refl
  | inr (c, t, e) ↦ rw (update_caller_service_name, e) refl
]

-- What the metadata of a call are, with the caller's name filled in.
pub lookup-named_trans_info :
    (msg : Msg) (name : Bytes) (base : Dict Bytes) (k : Key)
    → lookup k (set_client_trans_info (update_caller_service_name msg name) base)
      ≡ sent_value msg base k
lookup-named_trans_info msg name base k =
    lookup-set_client_trans_info (update_caller_service_name msg name) base k
    ∙ sent_value-update_caller_service_name msg name base k
