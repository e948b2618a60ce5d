-- ===== src/Storage/Memory/Passkeys.antt =====
-- The passkeys of internal/storage/passkeys.go, in memory.
use wg_access_server.Prelude.{
  none, some, List, [], ◌∷◌, ◌==◌, list_eq, nat_eq, leb, if◌then◌else◌, Result, ok, err, keep,
}
use wg_access_server.Prelude.GoMap.{GoMap, get, put, delete, values}
use wg_access_server.Prelude.Text.{Text}
use wg_access_server.Storage.{Passkey}
use wg_access_server.Storage.Memory.{
  Memory, Op, StorageError, passkey_exists, passkey_not_found, or_missing,
}

abbrev passkeys_written : Memory → GoMap Text Passkey → Op Unit
passkeys_written s passkeys =
    ok (record { after = record s { passkeys = passkeys }; events = []; value = tt })

unfoldable pub add_passkey : Memory → Passkey → Op Unit
add_passkey s passkey = elim (get s.passkeys passkey.id) [
  | some taken ↦ err passkey_exists
  | none ↦ passkeys_written s (put s.passkeys passkey.id passkey)
]

unfoldable pub update_passkey : Memory → Passkey → Op Unit
update_passkey s passkey = elim (get s.passkeys passkey.id) [
  | none ↦ err passkey_not_found
  | some existing ↦
      if existing.owner == passkey.owner
      then passkeys_written s (put s.passkeys passkey.id passkey)
      else err passkey_not_found
]

unfoldable pub rename_passkey : Memory → Text → Text → Text → Op Unit
rename_passkey s owner id name = elim (get s.passkeys id) [
  | none ↦ err passkey_not_found
  | some existing ↦
      if existing.owner == owner
      then passkeys_written s (put s.passkeys id (record existing { name = name }))
      else err passkey_not_found
]

unfoldable pub get_passkey : Memory → Text → Result StorageError Passkey
get_passkey s id = or_missing (get s.passkeys id) passkey_not_found

unfoldable pub delete_passkey : Memory → Text → Text → Op Unit
delete_passkey s owner id = elim (get s.passkeys id) [
  | none ↦ err passkey_not_found
  | some passkey ↦
      if passkey.owner == owner
      then passkeys_written s (delete s.passkeys id)
      else err passkey_not_found
]

-- `sortPasskeys`: the newest first.
unfoldable pub insert_passkey : Passkey → List Passkey → List Passkey
insert_passkey p [] = p ∷ []
insert_passkey p (q ∷ ps) =
    let rest = insert_passkey p ps in if leb q.created_at p.created_at then p ∷ q ∷ ps else q ∷ rest

unfoldable pub sort_passkeys : List Passkey → List Passkey
unfolding insert_passkey
sort_passkeys [] = []
sort_passkeys (p ∷ ps) = insert_passkey p (sort_passkeys ps)

unfoldable pub list_passkeys : Memory → Text → List Passkey
unfolding sort_passkeys
list_passkeys s owner = sort_passkeys (keep (λ (p : Passkey). p.owner == owner) (values s.passkeys))
