-- ===== src/Examples/Blocking.antt =====
-- A device that is blocked while the interface has its peer, and one of another user.
use wg_access_server.Prelude.{
  ap, ℕ, Bool, true, false, ◌≡◌, ◌≢◌, refl, none, some, [], ◌∷◌, elem, list_eq, nat_eq, ok, err,
  arith,
}
use wg_access_server.Prelude.GoMap.{get, put}
use wg_access_server.Prelude.Text.{Text, codes}
use wg_access_server.Storage.{Device, device_key}
use wg_access_server.Storage.Keys.{key_str}
use wg_access_server.Storage.Memory.{Memory, Outcome, new_memory, get_device, set_access, updated}
use wg_access_server.Storage.Memory.Wellformed.{put-IsWellformed}
use wg_access_server.Storage.Memory.Wellformed.Runs.{new_memory-Sound}
use wg_access_server.Storage.Memory.Wellformed.Steps.{Sound}
use wg_access_server.Devices.Manager.{AccessChange, set_device_access}
use wg_access_server.Devices.Sync.{sync_peers}
use wg_access_server.Devices.Requests.Blocked.{sync_peers-blocked}
use wg_access_server.Storage.Keys.Injective.{key_str-injective}
use wg_access_server.Devices.Requests.{changes_access, handle}
use wg_access_server.Devices.Requests.Frame.{handle-frame}
use wg_access_server.Examples.Addresses.{codec}
use wg_access_server.Examples.Managed.{config}
use wg_access_server.Examples.Stored.{device}
use wg_access_server.Examples.Peers.{keys_only, keys_only-IsReliable, forms, peers}

abbrev pub laptop : Device
laptop = device (codes "ann") (codes "pc") (codes "k1") (codes "a")

abbrev pub stored : Memory
stored = record new_memory { db = put [] (device_key laptop) laptop }

pub stored-Sound : Sound stored
unfolding get
stored-Sound = put-IsWellformed [] laptop new_memory-Sound (λ j e g. cc)

abbrev block : AccessChange
block = record { disabled = some true; clear_expires_at = false; expires_at = none }

abbrev blocked : Outcome Device
blocked = record {
  after = record stored {
    db = put stored.db (device_key laptop) (record laptop { disabled = true });
  };
  events = updated (record laptop { disabled = true }) ∷ [];
  value = record laptop { disabled = true };
}

block-blocked : set_device_access stored (codes "ann") (codes "pc") block 3 ≡ ok blocked
unfolding set_device_access get_device set_access get put device_key key_str
    wg_access_server.Prelude.list_beq wg_access_server.Storage.Keys.quote_rune
block-blocked = refl

sync_peers-blocked_example :
    keys_only-IsReliable.has
      (sync_peers keys_only forms blocked.after 4 (codes "k1" ∷ [])).0
      (codes "k1")
    ≡ false
sync_peers-blocked_example =
    sync_peers-blocked keys_only-IsReliable forms stored (codes "ann") (codes "pc") block 3 4
      blocked (codes "k1" ∷ []) (peers (codes "k1" ∷ [])) stored-Sound refl block-blocked (λ e. cc)
      refl

abbrev first_code : Text → ℕ
first_code [] = 0
first_code (c ∷ t) = c

apart : key_str (codes "bob") (codes "pc") ≢ key_str (codes "ann") (codes "pc")
apart e =
    let same = (key_str-injective (codes "bob") (codes "pc") (codes "ann") (codes "pc") e).0 in
    let first : 98 ≡ 97 = ap first_code same in omega (arith, first)

handle-frame_example :
    get
      (handle codec config stored (changes_access (codes "ann") (codes "pc") block 3)).db
      (key_str (codes "bob") (codes "pc"))
    ≡ get stored.db (key_str (codes "bob") (codes "pc"))
handle-frame_example =
    handle-frame codec config stored (key_str (codes "bob") (codes "pc")) stored-Sound
      (changes_access (codes "ann") (codes "pc") block 3) (codes "ann") (codes "pc") refl apart
