-- ===== src/Examples/Bearing.antt =====
-- A request of Bob's with an API token, to change his password.
use wg_access_server.Prelude.{some, [], ◌∷◌, list_eq, nat_eq}
use wg_access_server.Prelude.Text.{codes}
use wg_access_server.Storage.{ApiToken}
use wg_access_server.Storage.Memory.{Memory, new_memory}
use wg_access_server.Api.Bearer.{Request}
use wg_access_server.Examples.Secrets.{hash}

abbrev token : ApiToken
token = record {
  id = codes "1";
  owner = codes "bob";
  name = codes "ci";
  hash = hash (codes "wgas_r");
  identity = [];
  created_at = 1;
  expires_at = some 50;
  last_used_at = some 9;
}

abbrev one_token : Memory
one_token = record new_memory { tokens = (codes "1", token) ∷ [] }

abbrev request : Request
request = record { authorization = codes "bearer  wgas_r"; path = codes "/api/proto.Users/List" }
