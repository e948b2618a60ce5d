-- ===== src/Storage/Memory/Wellformed/Runs.antt =====
-- Any history of the operations of inmemory.go on devices.
use wg_access_server.Prelude.{ℕ, Bool, ◌≡◌, refl, Option, List, [], ◌∷◌, ok, err}
use wg_access_server.Prelude.GoMap.{get}
use wg_access_server.Prelude.Text.{Text}
use wg_access_server.Storage.{Device, MetadataUpdate, device_key}
use wg_access_server.Storage.Memory.{
  Memory, Outcome, Op, new_memory, save, record_metadata, delete_device, rename, set_access,
  set_routes, set_keys, delete_for_owner, block_for_owner,
}
use wg_access_server.Storage.Memory.Wellformed.{delete-IsWellformed}
use wg_access_server.Storage.Memory.Wellformed.Steps.{
  Sound, save-IsWellformed, rename-IsWellformed, set_access-IsWellformed, set_routes-IsWellformed,
  set_keys-IsWellformed,
}
use wg_access_server.Storage.Memory.Wellformed.Bulk.{
  record_metadata-IsWellformed, delete_for_owner-IsWellformed, block_for_owner-IsWellformed,
}

-- The calls that write devices.
pub data Call : Type 0 where
  saves deletes : Device → Call
  records : List MetadataUpdate → Call
  renames : Device → Text → Call
  sets_access : Device → Bool → Option ℕ → Call
  sets_routes : Device → Text → Call
  sets_keys : Device → Text → Text → Call
  deletes_for blocks_for : Text → Call

-- The store after the call; a call that fails leaves it as it was.
abbrev pub after_op : {A : Type 0} → Memory → Op A → Memory
after_op s (ok o) = o.after
after_op s (err e) = s

unfoldable pub step : Memory → Call → Memory
step s (saves d) = after_op s (save s d)
step s (deletes d) = after_op s (delete_device s d)
step s (records updates) = after_op s (record_metadata s updates)
step s (renames d name) = after_op s (rename s d name)
step s (sets_access d disabled expires_at) = after_op s (set_access s d disabled expires_at)
step s (sets_routes d routes) = after_op s (set_routes s d routes)
step s (sets_keys d public_key preshared_key) = after_op s (set_keys s d public_key preshared_key)
step s (deletes_for owner) = after_op s (delete_for_owner s owner)
step s (blocks_for owner) = after_op s (block_for_owner s owner)

unfoldable pub run : Memory → List Call → Memory
unfolding step
run s [] = s
run s (c ∷ cs) = run (step s c) cs

after_op-Sound :
    {A : Type 0} (s : Memory) (r : Op A)
    → ((o : Outcome A) → r ≡ ok o → Sound o.after)
    → Sound s
    → Sound (after_op s r)
after_op-Sound s (ok o) h w = h o refl
after_op-Sound s (err e) h w = w

step-Sound : (s : Memory) (c : Call) → Sound s → Sound (step s c)
unfolding step
step-Sound s (saves d) w = after_op-Sound s _ (λ o h. save-IsWellformed s d o h w) w
step-Sound s (deletes d) w = unfold delete_device in delete-IsWellformed s.db (device_key d) w
step-Sound s (records updates) w =
    after_op-Sound s _ (λ o h. record_metadata-IsWellformed s updates o h w) w
step-Sound s (renames d name) w = after_op-Sound s _ (λ o h. rename-IsWellformed s d o name h w) w
step-Sound s (sets_access d disabled expires_at) w =
    after_op-Sound s _ (λ o h. set_access-IsWellformed s d o disabled expires_at h w) w
step-Sound s (sets_routes d routes) w =
    after_op-Sound s _ (λ o h. set_routes-IsWellformed s d o routes h w) w
step-Sound s (sets_keys d public_key preshared_key) w =
    after_op-Sound s _ (λ o h. set_keys-IsWellformed s d o public_key preshared_key h w) w
step-Sound s (deletes_for owner) w =
    after_op-Sound s _ (λ o h. delete_for_owner-IsWellformed s owner o h w) w
step-Sound s (blocks_for owner) w =
    after_op-Sound s _ (λ o h. block_for_owner-IsWellformed s owner o h w) w

-- From a store whose devices stand under their own keys, each public key but the empty one once,
-- every history of calls, failing ones included, leads to such a store.
pub run-Sound : (s : Memory) (calls : List Call) → Sound s → Sound (run s calls)
unfolding run
run-Sound s [] w = w
run-Sound s (c ∷ calls) w = run-Sound (step s c) calls (step-Sound s c w)

pub new_memory-Sound : Sound new_memory
unfolding get
new_memory-Sound = record { is_map = tt; keyed = λ k d h. cc; unique = λ j k d e h. cc }
