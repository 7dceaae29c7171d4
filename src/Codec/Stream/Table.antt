-- ===== src/Codec/Stream/Table.antt =====
-- codec_stream.go: the two-level table of initialised streams against a flat one, a function from
-- address and stream id.
use trpc_go.Common.{ℕ, ◌≡◌, Bool, ◌&&◌, [], ◌∷◌, none, some, if◌then◌else◌, str_eq, str_eq_refl}
use trpc_go.Common.Dict.{Key}
use trpc_go.Common.Table.{find_in, store_in, delete_in, find-store_in, find-delete_in}
use trpc_go.Codec.Stream.{
  InitRequestMeta, InitMetas, find_init_meta, store_init_meta, delete_init_meta,
}

-- The same stream: address and id.
abbrev pub same_stream : Key → ℕ → Key → ℕ → Bool
same_stream addr id addr' id' = str_eq addr addr' && str_eq (id ∷ []) (id' ∷ [])

pub find-store :
    (addr : Key) (id : ℕ) (meta : InitRequestMeta) (metas : InitMetas) (addr' : Key) (id' : ℕ)
    → find_init_meta addr' id' (store_init_meta addr id meta metas)
      ≡ (if same_stream addr id addr' id' then some meta else find_init_meta addr' id' metas)
unfolding find_init_meta store_init_meta find_in store_in
find-store addr id meta metas addr' id' = find-store_in addr (id ∷ []) meta metas addr' (id' ∷ [])

pub find-delete :
    (addr : Key) (id : ℕ) (metas : InitMetas) (addr' : Key) (id' : ℕ)
    → find_init_meta addr' id' (delete_init_meta addr id metas)
      ≡ (if same_stream addr id addr' id' then none else find_init_meta addr' id' metas)
unfolding find_init_meta delete_init_meta find_in delete_in
find-delete addr id metas addr' id' = find-delete_in addr (id ∷ []) metas addr' (id' ∷ [])

pub find-delete_self :
    (addr : Key) (id : ℕ) (metas : InitMetas)
    → find_init_meta addr id (delete_init_meta addr id metas) ≡ none
find-delete_self addr id metas =
    rw (find-delete addr id metas addr id, str_eq_refl addr, str_eq_refl (id ∷ []))
