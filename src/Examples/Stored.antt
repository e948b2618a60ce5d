-- ===== src/Examples/Stored.antt =====
-- Runs of the in-memory storage.
use wg_access_server.Prelude.{false, none, List, [], ◌∷◌, list_eq, nat_eq}
use wg_access_server.Prelude.Text.{Text, codes}
use wg_access_server.Storage.{Device}
use wg_access_server.Storage.Memory.{new_memory}
use wg_access_server.Storage.Memory.Wellformed.Steps.{Sound}
use wg_access_server.Storage.Memory.Wellformed.Runs.{
  Call, saves, deletes, renames, sets_keys, blocks_for, run, run-Sound, new_memory-Sound,
}

abbrev ann : Text
ann = codes "ann"

abbrev pub device : Text → Text → Text → Text → Device
device owner name public_key address = record {
  owner = owner;
  owner_name = [];
  owner_email = [];
  owner_provider = [];
  name = name;
  public_key = public_key;
  preshared_key = [];
  address = address;
  created_at = 1;
  disabled = false;
  expires_at = none;
  routes = [];
  last_handshake_time = none;
  receive_bytes = 0;
  transmit_bytes = 0;
  endpoint = [];
}

abbrev laptop : Device
laptop = device ann (codes "laptop") (codes "k1") (codes "10.0.0.2/32")

abbrev phone : Device
phone = device ann (codes "phone") (codes "k2") (codes "10.0.0.3/32")

-- The second save takes a used key and fails; so does the change of keys.
abbrev history : List Call
history =
    saves laptop
    ∷ saves (record phone { public_key = codes "k1" })
    ∷ saves phone
    ∷ sets_keys phone (codes "k1") []
    ∷ renames laptop (codes "tablet")
    ∷ blocks_for ann
    ∷ deletes phone
    ∷ []

run-Sound_example : Sound (run new_memory history)
run-Sound_example = run-Sound new_memory history new_memory-Sound
