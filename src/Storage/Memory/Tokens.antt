-- ===== src/Storage/Memory/Tokens.antt =====
-- The API tokens of internal/storage/tokens.go, in memory.
use wg_access_server.Prelude.{
  ℕ, ◌+◌, Bool, false, not, ◌&&◌, ◌||◌, Option, none, some, List, [], ◌∷◌, ◌==◌, list_eq, nat_eq,
  leb, if◌then◌else◌, Result, ok, err, keep,
}
use wg_access_server.Prelude.GoMap.{GoMap, get, put, delete, values}
use wg_access_server.Prelude.Text.{Text, is_nil}
use wg_access_server.Storage.{ApiToken}
use wg_access_server.Storage.Memory.{
  Memory, Op, StorageError, hash_exists, token_not_found, or_missing,
}

-- A token of another id has the hash.
unfoldable pub token_hash_taken : GoMap Text ApiToken → Text → Text → Bool
token_hash_taken [] hash id = false
token_hash_taken ((k, stored) ∷ m) hash id =
    stored.hash == hash && not (stored.id == id) || token_hash_taken m hash id

abbrev tokens_written : {A : Type 0} → Memory → GoMap Text ApiToken → A → Op A
tokens_written s tokens a =
    ok (record { after = record s { tokens = tokens }; events = []; value = a })

unfoldable pub save_token : Memory → ApiToken → Op Unit
save_token s token =
    if token_hash_taken s.tokens token.hash token.id
    then err hash_exists
    else tokens_written s (put s.tokens token.id token) tt

-- Sorting by the time of creation, the oldest first.
unfoldable pub insert_token : ApiToken → List ApiToken → List ApiToken
insert_token t [] = t ∷ []
insert_token t (u ∷ ts) =
    let rest = insert_token t ts in if leb t.created_at u.created_at then t ∷ u ∷ ts else u ∷ rest

unfoldable pub sort_tokens : List ApiToken → List ApiToken
unfolding insert_token
sort_tokens [] = []
sort_tokens (t ∷ ts) = insert_token t (sort_tokens ts)

unfoldable pub list_tokens : Memory → Text → List ApiToken
unfolding sort_tokens
list_tokens s owner =
    sort_tokens (keep (λ (t : ApiToken). is_nil owner || t.owner == owner) (values s.tokens))

unfoldable pub get_token : Memory → Text → Result StorageError ApiToken
get_token s id = or_missing (get s.tokens id) token_not_found

-- The first token with the hash.
unfoldable pub find_token : GoMap Text ApiToken → Text → Option ApiToken
find_token [] hash = none
find_token ((k, t) ∷ m) hash = if t.hash == hash then some t else find_token m hash

unfoldable pub get_token_by_hash : Memory → Text → Result StorageError ApiToken
unfolding find_token
get_token_by_hash s hash = or_missing (find_token s.tokens hash) token_not_found

unfoldable pub touch_token : Memory → Text → ℕ → Op Unit
touch_token s id at = elim (get s.tokens id) [
  | none ↦ tokens_written s s.tokens tt
  | some token ↦ tokens_written s (put s.tokens id (record token { last_used_at = some at })) tt
]

unfoldable pub delete_token : Memory → Text → Op Unit
delete_token s id = elim (get s.tokens id) [
  | none ↦ err token_not_found
  | some token ↦ tokens_written s (delete s.tokens id) tt
]

-- The tokens that stay, and how many go.
unfoldable pub without_token_owner : Text → GoMap Text ApiToken → GoMap Text ApiToken × ℕ
without_token_owner owner [] = ([], 0)
without_token_owner owner ((id, t) ∷ m) =
    let (rest, gone) = without_token_owner owner m in
    if t.owner == owner then (rest, gone + 1) else ((id, t) ∷ rest, gone)

unfoldable pub delete_tokens_for_owner : Memory → Text → Op ℕ
unfolding without_token_owner
delete_tokens_for_owner s owner =
    tokens_written s (without_token_owner owner s.tokens).0 (without_token_owner owner s.tokens).1
