-- ===== src/Api/Spares.antt =====
-- What a change for one user leaves to the others.
pub mod Devices
pub mod Managers
pub mod Actions
pub mod Accounts
pub mod Ceremonies
use wg_access_server.Prelude.{
  ℕ, ◌≡◌, ◌≢◌, refl, sym, ap, ◌∙◌, Option, none, some, List, [], ◌∷◌, ◌==◌, list_eq, list_beq_iff,
  nat_eq, arith, ok, Option-cases, inl, inr, Bool-cases, if◌then◌else◌, subst,
}
use wg_access_server.Prelude.GoMap.{GoMap, get, put, delete, get-put, get-delete}
use wg_access_server.Prelude.Text.{Text}
use wg_access_server.Storage.{Device, User, Session, ApiToken, Passkey, device_key}
use wg_access_server.Storage.Keys.{key_str}
use wg_access_server.Storage.Keys.Injective.{key_str-injective}
use wg_access_server.Storage.Memory.{Memory}
use wg_access_server.Storage.Memory.Wellformed.{IsWellformed}
use wg_access_server.Storage.Memory.Wellformed.Steps.{Sound}
use wg_access_server.Websessions.Invariant.{IsSessionMap, delete-IsSessionMap}

-- The devices stand under their keys, the sessions under their ids, public keys and hashes once.
pub record IsStored (s : Memory) : Type 0 where
  pub sound : Sound s
  pub sessions : IsSessionMap s.sessions

-- Everything of everybody but the subject is as it was.
pub record Spares (subject : Text) (s s' : Memory) : Type 0 where
  pub devices :
      (k : Text) (d : Device) → get s.db k ≡ some d → d.owner ≢ subject → get s'.db k ≡ some d
  pub tokens :
      (k : Text) (t : ApiToken)
      → get s.tokens k ≡ some t
      → t.owner ≢ subject
      → get s'.tokens k ≡ some t
  pub sessions :
      (k : Text) (t : Session)
      → get s.sessions k ≡ some t
      → t.owner ≢ subject
      → get s'.sessions k ≡ some t
  pub passkeys :
      (k : Text) (p : Passkey)
      → get s.passkeys k ≡ some p
      → p.owner ≢ subject
      → get s'.passkeys k ≡ some p
  pub users : (k : Text) → k ≢ subject → get s'.users k ≡ get s.users k

pub Spares-refl : (subject : Text) (s : Memory) → Spares subject s s
Spares-refl subject s = record {
  devices = λ k d h other. h;
  tokens = λ k t h other. h;
  sessions = λ k t h other. h;
  passkeys = λ k p h other. h;
  users = λ k other. refl;
}

pub Spares-trans :
    {subject : Text} {s s' s'' : Memory}
    → Spares subject s s'
    → Spares subject s' s''
    → Spares subject s s''
Spares-trans a b = record {
  devices = λ k d h other. b.devices k d (a.devices k d h other) other;
  tokens = λ k t h other. b.tokens k t (a.tokens k t h other) other;
  sessions = λ k t h other. b.sessions k t (a.sessions k t h other) other;
  passkeys = λ k p h other. b.passkeys k p (a.passkeys k p h other) other;
  users = λ k other. b.users k other ∙ a.users k other;
}

-- A step for the subject: the store stays as it has to be, and nobody else's things change.
abbrev pub Keeps : Text → Memory → Memory → Type 0
Keeps subject s s' = IsStored s → IsStored s' × Spares subject s s'

pub Keeps-refl : (subject : Text) (s : Memory) → Keeps subject s s
Keeps-refl subject s w = (w, Spares-refl subject s)

pub Keeps-trans :
    {subject : Text} {s s' s'' : Memory}
    → Keeps subject s s'
    → Keeps subject s' s''
    → Keeps subject s s''
Keeps-trans a b w =
    let (w', spared) = a w in let (w'', spared') = b w' in (w'', Spares-trans spared spared')

pub Keeps-eq :
    {subject : Text} {s s' s'' : Memory} → s' ≡ s'' → Keeps subject s s'' → Keeps subject s s'
Keeps-eq {subject} {s} same kept = subst (Keeps subject s) (sym same) kept

module _ (subject : Text) (s : Memory) where
  Spares-db :
      (db : GoMap Text Device)
      → ((k : Text) (d : Device) → get s.db k ≡ some d → d.owner ≢ subject → get db k ≡ some d)
      → Spares subject s (record s { db = db })
  Spares-db db frame = record {
    devices = frame;
    tokens = λ k t h other. h;
    sessions = λ k t h other. h;
    passkeys = λ k p h other. h;
    users = λ k other. refl;
  }

  -- No device of another owner stands under a key of the subject.
  apart :
      (k : Text) (d : Device) (owner name : Text)
      → Sound s
      → get s.db k ≡ some d
      → d.owner ≢ subject
      → owner ≡ subject
      → key_str owner name ≢ k
  unfolding device_key
  apart k d owner name w h other own same =
      other (sym (key_str-injective owner name d.owner d.name (same ∙ sym (w.keyed k d h))).0 ∙ own)

  pub Spares-db_put :
      (d : Device)
      → d.owner ≡ subject
      → Sound s
      → Spares subject s (record s { db = put s.db (device_key d) d })
  unfolding device_key
  Spares-db_put d own w = Spares-db (put s.db (device_key d) d) (λ k e h other. ground (
    arith,
    get-put s.db (device_key d) k d,
    list_beq_iff (device_key d) k,
    apart k e d.owner d.name w h other own,
  ))

  pub Spares-db_delete :
      (d : Device)
      → d.owner ≡ subject
      → Sound s
      → Spares subject s (record s { db = delete s.db (device_key d) })
  unfolding device_key
  Spares-db_delete d own w = Spares-db (delete s.db (device_key d)) (λ k e h other. ground (
    arith,
    get-delete s.db (device_key d) k,
    list_beq_iff (device_key d) k,
    apart k e d.owner d.name w h other own,
  ))

  pub Keeps-users_put :
      (user : User) → Keeps subject s (record s { users = put s.users subject user })
  Keeps-users_put user w = (
    record { sound = w.sound; sessions = w.sessions },
    record {
      devices = λ k d h other. h;
      tokens = λ k t h other. h;
      sessions = λ k t h other. h;
      passkeys = λ k p h other. h;
      users =
          λ k other. ground (arith, get-put s.users subject k user, list_beq_iff subject k, other);
    },
  )

  pub Keeps-tokens :
      (m : GoMap Text ApiToken)
      → ((k : Text) (t : ApiToken) → get s.tokens k ≡ some t → t.owner ≢ subject → get m k ≡ some t)
      → Keeps subject s (record s { tokens = m })
  Keeps-tokens m frame w = (
    record { sound = w.sound; sessions = w.sessions },
    record {
      devices = λ k d h other. h;
      tokens = frame;
      sessions = λ k u h other. h;
      passkeys = λ k p h other. h;
      users = λ k other. refl;
    },
  )

  -- What stands under the id, if anything does, is the subject's.
  pub Keeps-tokens_put :
      (t : ApiToken)
      → ((u : ApiToken) → get s.tokens t.id ≡ some u → u.owner ≡ subject)
      → Keeps subject s (record s { tokens = put s.tokens t.id t })
  Keeps-tokens_put t own =
      Keeps-tokens (put s.tokens t.id t) (λ k u h other.
        ground (arith, get-put s.tokens t.id k t, list_beq_iff t.id k, own u, other))

  pub Keeps-tokens_delete :
      (id : Text) (u : ApiToken)
      → get s.tokens id ≡ some u
      → u.owner ≡ subject
      → Keeps subject s (record s { tokens = delete s.tokens id })
  Keeps-tokens_delete id u at own =
      Keeps-tokens (delete s.tokens id)
        (λ k v h other. ground (arith, get-delete s.tokens id k, list_beq_iff id k, other))

  pub Keeps-sessions_delete :
      (id : Text)
      → ((u : Session) → get s.sessions id ≡ some u → u.owner ≡ subject)
      → Keeps subject s (record s { sessions = delete s.sessions id })
  Keeps-sessions_delete id own w = (
    record { sound = w.sound; sessions = delete-IsSessionMap s.sessions id w.sessions },
    record {
      devices = λ k d h other. h;
      tokens = λ k t h other. h;
      sessions = λ k u h other.
          ground (arith, get-delete s.sessions id k, list_beq_iff id k, own u, other);
      passkeys = λ k p h other. h;
      users = λ k other. refl;
    },
  )

  Keeps-passkeys :
      (m : GoMap Text Passkey)
      → ((k : Text) (p : Passkey)
          → get s.passkeys k ≡ some p
          → p.owner ≢ subject
          → get m k ≡ some p)
      → Keeps subject s (record s { passkeys = m })
  Keeps-passkeys m frame w = (
    record { sound = w.sound; sessions = w.sessions },
    record {
      devices = λ k d h other. h;
      tokens = λ k t h other. h;
      sessions = λ k t h other. h;
      passkeys = frame;
      users = λ k other. refl;
    },
  )

  pub Keeps-passkeys_put :
      (id : Text) (p : Passkey)
      → ((q : Passkey) → get s.passkeys id ≡ some q → q.owner ≡ subject)
      → Keeps subject s (record s { passkeys = put s.passkeys id p })
  Keeps-passkeys_put id p own =
      Keeps-passkeys (put s.passkeys id p)
        (λ k q h other. ground (arith, get-put s.passkeys id k p, list_beq_iff id k, own q, other))

  pub Keeps-passkeys_delete :
      (id : Text)
      → ((q : Passkey) → get s.passkeys id ≡ some q → q.owner ≡ subject)
      → Keeps subject s (record s { passkeys = delete s.passkeys id })
  Keeps-passkeys_delete id own =
      Keeps-passkeys (delete s.passkeys id)
        (λ k q h other. ground (arith, get-delete s.passkeys id k, list_beq_iff id k, own q, other))
