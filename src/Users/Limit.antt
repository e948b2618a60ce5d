-- ===== src/Users/Limit.antt =====
-- The counter of wrong answers per account that internal/users/passwords.go (`attempt`, `right`) and
-- internal/authnz/authconfig/throttle.go (`beginSecondFactor`, `secondFactorSucceeded`) keep alike.
use wg_access_server.Prelude.{
  ℕ, ◌+◌, ◌-◌, ◌≤◌, Bool, true, false, ◌≡◌, ◌⊎◌, Option, none, some, List, [], ◌∷◌, ◌==◌, list_eq,
  nat_eq, leb, ltb, ◌&&◌, if◌then◌else◌,
}
use wg_access_server.Prelude.GoMap.{GoMap, get, put, delete}
use wg_access_server.Prelude.Text.{Text}

pub record Attempts : Type 0 where
  pub failures : ℕ
  pub last : ℕ

-- The record that counts: a new one where there is none, or the last failure is too long ago.
unfoldable pub current : ℕ → Option Attempts → ℕ → Attempts
current window none now = record { failures = 0; last = 0 }
current window (some a) now =
    if ltb window (now - a.last) then record { failures = 0; last = 0 } else a

-- Reserves an attempt, which counts as wrong until it is forgotten, or says that none is left.
unfoldable pub reserve : ℕ → ℕ → GoMap Text Attempts → Text → ℕ → Bool × GoMap Text Attempts
reserve most window m account now =
    let a = current window (get m account) now in
    if leb most a.failures
    then (false, put m account a)
    else (true, put m account (record { failures = a.failures + 1; last = now }))

unfoldable pub forget : GoMap Text Attempts → Text → GoMap Text Attempts
forget m account = delete m account

-- How many of the attempts on the account, among those on any accounts, are let through.
unfoldable pub passes : ℕ → ℕ → GoMap Text Attempts → Text → List (Text × ℕ) → ℕ
unfolding reserve
passes most window m account [] = 0
passes most window m account ((who, now) ∷ calls) =
    let (passed, m') = reserve most window m who now in
    (if passed && who == account then 1 else 0) + passes most window m' account calls

module _ (most window start : ℕ) (account : Text) where
  -- What is left of the limit, if the account's last failure is not before the start.
  abbrev Left : Option Attempts → ℕ → Type 0
  Left none n = most ≤ n
  Left (some a) n = (most ≤ a.failures + n) × ((start ≤ a.last) ⊎ (a.failures ≡ 0))
