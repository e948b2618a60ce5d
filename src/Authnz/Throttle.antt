-- ===== src/Authnz/Throttle.antt =====
-- internal/authnz/authconfig/throttle.go. The cache of golang-lru is a parameter; where it could not
-- be made, there is none. The second step counts as the wrong passwords do (Users.Limit).
pub mod Delay
use wg_access_server.Prelude.{
  ℕ, zero, suc, ◌+◌, ◌-◌, ◌*◌, Bool, true, false, Option, none, some, List, [], ◌∷◌, ◌==◌, nat_eq,
  ltb, leb, if◌then◌else◌,
}
use wg_access_server.Prelude.GoMap.{GoMap}
use wg_access_server.Prelude.Text.{Text}
use wg_access_server.Users.Limit.{Attempts, reserve, forget}

-- Nanoseconds.
abbrev pub throttle_base : ℕ
throttle_base = 250_000_000

abbrev pub throttle_max : ℕ
throttle_max = 10_000_000_000

abbrev pub throttle_reset : ℕ
throttle_reset = 900_000_000_000

abbrev pub max_second_factor_failures : ℕ
max_second_factor_failures = 10

abbrev pub second_factor_lockout : ℕ
second_factor_lockout = 900_000_000_000

-- `lru.Cache`: a lookup moves an entry, so it gives the cache as well.
pub record Lru : Type 1 where
  pub Cache : Type 0
  pub lookup : Cache → Text → Option Attempts × Cache
  pub remove : Cache → Text → Cache
  pub insert : Cache → Text → Attempts → Cache

-- The loop of `delay`: how many doublings are left, and the delay so far.
unfoldable pub doubled : ℕ → ℕ → ℕ
doubled zero delay = delay
doubled (suc n) delay =
    let rest = doubled n (delay * 2) in if leb throttle_max (delay * 2) then throttle_max else rest

unfoldable pub delay_of : ℕ → ℕ
unfolding doubled
delay_of failures = if failures == 0 then 0 else doubled (failures - 1) throttle_base

module _ (lru : Lru) where
  -- `failures`
  unfoldable pub failures_of : lru.Cache → Text → ℕ → ℕ × lru.Cache
  failures_of cache username now =
      let (found, cache') = lru.lookup cache username in
      elim found [
        | none ↦ (0, cache')
        | some a ↦
            if ltb throttle_reset (now - a.last)
            then (0, lru.remove cache' username)
            else (a.failures, cache')
      ]

  unfoldable pub delay : lru.Cache → Text → ℕ → ℕ × lru.Cache
  unfolding failures_of delay_of
  delay cache username now =
      let (failures, cache') = failures_of cache username now in (delay_of failures, cache')

  abbrev fresh_or : Option Attempts → ℕ → Attempts
  fresh_or none now = record { failures = 0; last = 0 }
  fresh_or (some a) now =
      if ltb throttle_reset (now - a.last) then record { failures = 0; last = 0 } else a

  unfoldable pub record_failure : lru.Cache → Text → ℕ → lru.Cache
  record_failure cache username now =
      let (found, cache') = lru.lookup cache username in
      lru.insert cache' username
        (record { failures = (fresh_or found now).failures + 1; last = now })

  unfoldable pub record_success : lru.Cache → Text → lru.Cache
  record_success cache username = lru.remove cache username

unfoldable pub begin_second_factor : GoMap Text Attempts → Text → ℕ → Bool × GoMap Text Attempts
begin_second_factor m username now =
    reserve max_second_factor_failures second_factor_lockout m username now

unfoldable pub second_factor_succeeded : GoMap Text Attempts → Text → GoMap Text Attempts
second_factor_succeeded m username = forget m username
