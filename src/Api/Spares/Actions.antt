-- ===== src/Api/Spares/Actions.antt =====
-- Actions that leave the others alone, and how they are put together.
use wg_access_server.Prelude.{Bool, true, false, ◌≡◌, refl, sym, ap, Result, ok, err, subst}
use wg_access_server.Prelude.Text.{Text}
use wg_access_server.Authnz.{Identity}
use wg_access_server.Storage.Memory.{Memory, Outcome}
use wg_access_server.Users.Passwords.{PasswordState}
use wg_access_server.Api.{
  ApiError, Action, pure, and_then, ◌>>=◌, refuse_if, reading, stepping, stepping_all, outcome,
  writing,
}
use wg_access_server.Api.Devices.{responding}
use wg_access_server.Api.Spares.{Keeps, Keeps-refl, Keeps-trans, Keeps-eq}

module _ (subject : Text) where
  abbrev pub IsKind : {A : Type 0} → Action A → Type 0
  IsKind action = (p : PasswordState) → Keeps subject p.store (action p).0.store

  pub pure-IsKind : {A : Type 0} (a : A) → IsKind (pure a)
  pure-IsKind a p = Keeps-refl subject p.store

  pub refuse_if-IsKind : (b : Bool) (e : ApiError) → IsKind (refuse_if b e)
  refuse_if-IsKind true e p = Keeps-refl subject p.store
  refuse_if-IsKind false e p = Keeps-refl subject p.store

  pub reading-IsKind : {A : Type 0} (f : Memory → A) → IsKind (reading f)
  reading-IsKind f p = Keeps-refl subject p.store

  pub stepping-IsKind :
      {E A : Type 0} (to : E → ApiError) (f : Memory → Memory × Result E A)
      → ((s : Memory) → Keeps subject s (f s).0)
      → IsKind (stepping to f)
  stepping-IsKind to f kept p = kept p.store

  pub stepping_all-IsKind :
      {E A : Type 0} (to : E → ApiError) (f : PasswordState → PasswordState × Result E A)
      → ((p : PasswordState) → Keeps subject p.store (f p).0.store)
      → IsKind (stepping_all to f)
  stepping_all-IsKind to f kept p = kept p

  outcome-Keeps :
      {E A : Type 0} (to : E → ApiError) (p : PasswordState) (r : Result E (Outcome A))
      → ((o : Outcome A) → r ≡ ok o → Keeps subject p.store o.after)
      → Keeps subject p.store (outcome to p r).0.store
  outcome-Keeps to p (ok o) kept = kept o refl
  outcome-Keeps to p (err e) kept = Keeps-refl subject p.store

  pub writing-IsKind :
      {E A : Type 0} (to : E → ApiError) (f : Memory → Result E (Outcome A))
      → ((s : Memory) (o : Outcome A) → f s ≡ ok o → Keeps subject s o.after)
      → IsKind (writing to f)
  writing-IsKind to f kept p = outcome-Keeps to p (f p.store) (kept p.store)

  pub and_then-Keeps :
      {A B : Type 0} (s : Memory) (r : PasswordState × Result ApiError A) (f : A → Action B)
      → Keeps subject s r.0.store
      → ((a : A) → IsKind (f a))
      → Keeps subject s (and_then r f).0.store
  and_then-Keeps s (p, ok a) f kept kind = Keeps-trans kept (kind a p)
  and_then-Keeps s (p, err e) f kept kind = kept

  pub >>=-IsKind :
      {A B : Type 0} (action : Action A) (f : A → Action B)
      → IsKind action
      → ((a : A) → IsKind (f a))
      → IsKind (action >>= f)
  >>=-IsKind action f kept kind p = and_then-Keeps p.store (action p) f (kept p) kind

  pub responding-IsKind :
      {A B : Type 0} (f : A → B) (action : Action A) → IsKind action → IsKind (responding f action)
  responding-IsKind f action kept =
      >>=-IsKind action (λ a. pure (f a)) kept (λ a. pure-IsKind (f a))

-- A check of who asks: it changes nothing, and passes nobody but the user.
abbrev pub IsGate : Identity → Action Identity → Type 0
IsGate user gate =
    (p : PasswordState) → ((gate p).0 ≡ p) × ((u : Identity) → (gate p).1 ≡ ok u → u ≡ user)

passed-Keeps :
    {B : Type 0} (user : Identity) (p : PasswordState)
    (r : PasswordState × Result ApiError Identity) (f : Identity → Action B)
    → r.0 ≡ p
    → ((u : Identity) → r.1 ≡ ok u → u ≡ user)
    → IsKind user.subject (f user)
    → Keeps user.subject p.store (and_then r f).0.store
passed-Keeps user p (q, err e) f same only kind =
    Keeps-eq (ap (λ (t : PasswordState). t.store) same) (Keeps-refl user.subject p.store)
passed-Keeps user p (q, ok u) f same only kind =
    subst (λ (t : PasswordState). Keeps user.subject t.store (f u q).0.store) same
      (subst (λ (v : Identity). Keeps user.subject q.store (f v q).0.store) (sym (only u refl))
        (kind q))

pub gate-IsKind :
    {B : Type 0} (user : Identity) (gate : Action Identity) (f : Identity → Action B)
    → IsGate user gate
    → IsKind user.subject (f user)
    → IsKind user.subject (gate >>= f)
gate-IsKind user gate f passes kind p =
    passed-Keeps user p (gate p) f (passes p).0 (passes p).1 kind
