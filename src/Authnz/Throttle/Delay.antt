-- ===== src/Authnz/Throttle/Delay.antt =====
-- How long a sign-in waits.
use Prim.Native.Nat.{min}
use native.Mathlib.Nat.{one-le-pow, pow-succ', mul_assoc, le-mul_of_pos_right}
use wg_access_server.Prelude.{
  ℕ, zero, suc, ◌+◌, ◌*◌, ◌^◌, ◌≤◌, ◌≡◌, refl, ap, sym, ◌∙◌, nat_eq, arith,
}
use wg_access_server.Authnz.Throttle.{throttle_base, throttle_max, doubled, delay_of}

doubled-min : (n d : ℕ) → d ≤ throttle_max → doubled n d ≡ min (d * 2 ^ n) throttle_max
unfolding doubled
doubled-min zero d h = ground arith
doubled-min (suc n) d h =
    let power : d * 2 ^ suc n ≡ d * 2 * 2 ^ n =
      ap (λ (e : ℕ). d * e) (pow-succ' 2 n) ∙ sym (mul_assoc d 2 (2 ^ n)) in
    ground (
      arith,
      power,
      le-mul_of_pos_right {m = 2 ^ n} (d * 2) (one-le-pow n 2 (omega arith)),
      doubled-min n (d * 2),
    )

-- Without a failure there is no wait; after n + 1 failures the wait is 250 ms doubled n times, but at
-- most 10 s.
pub delay_of-min :
    (n : ℕ) → (delay_of 0 ≡ 0) × (delay_of (n + 1) ≡ min (throttle_base * 2 ^ n) throttle_max)
unfolding delay_of
delay_of-min n = (refl, ground (arith, doubled-min n throttle_base))
