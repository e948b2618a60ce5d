-- ===== src/Users/Totp/Window.antt =====
-- Which codes are right, and for which steps.
use mathlib.Core.Bool.{true≢false}
use wg_access_server.Prelude.{
  ℕ, zero, suc, ◌+◌, ◌/◌, ◌%◌, ◌^◌, ◌≤◌, ◌<◌, Bool, true, false, ◌≡◌, refl, sym, ap, ◌⊎◌, inl, inr,
  some, List, [], ◌∷◌, ◌++◌, ◌==◌, list_eq, list_beq_iff, nat_beq_iff, nat_eq, arith, In,
  Bool-cases, Option-cases,
}
use wg_access_server.Prelude.Text.{byte_length, Text, trim_space, to_upper}
use wg_access_server.Users.Totp.{
  Mac, code, matching, window, step_of, totp_digits, check_totp_step, padded,
}

matching-In :
    (mac : Mac) (key : List ℕ) (given : Text) (counters : List ℕ) (found : ℕ × Bool) (step : ℕ)
    → matching mac key given counters found ≡ (step, true)
    → (found ≡ (step, true)) ⊎ (In step counters × (code mac key step totp_digits ≡ given))
unfolding matching
matching-In mac key given [] found step h = inl h
matching-In mac key given (c ∷ counters) found step h =
    elim (Bool-cases (code mac key c totp_digits == given)) [
      | inr differs ↦ elim (matching-In mac key given counters found step (ground arith)) [
        | inl old ↦ inl old
        | inr (m, e) ↦ inr (inr m, e)
      ]
      | inl hit ↦
          let e = (list_beq_iff (code mac key c totp_digits) given).0 hit in
          elim (matching-In mac key given counters (c, true) step (ground arith)) [
            | inl new ↦
                let at : step ≡ c = sym (ap (λ (p : ℕ × Bool). p.0) new) in inr (inl at, rw at e)
            | inr (m, e') ↦ inr (inr m, e')
          ]
    ]

matching-kept :
    (mac : Mac) (key : List ℕ) (given : Text) (counters : List ℕ) (c : ℕ)
    → (matching mac key given counters (c, true)).1 ≡ true
unfolding matching
matching-kept mac key given [] c = refl
matching-kept mac key given (d ∷ counters) c =
    ground (arith, matching-kept mac key given counters c, matching-kept mac key given counters d)

In-matching :
    (mac : Mac) (key : List ℕ) (given : Text) (counters : List ℕ) (found : ℕ × Bool) (c : ℕ)
    → In c counters
    → code mac key c totp_digits ≡ given
    → (matching mac key given counters found).1 ≡ true
unfolding matching
In-matching mac key given [] found c m e = elim m [ ]
In-matching mac key given (d ∷ counters) found c (inl at) e =
    let hit : (code mac key d totp_digits == given) ≡ true =
      (list_beq_iff (code mac key d totp_digits) given).1 (rw (← at) e) in
    rw (matching, hit) (matching-kept mac key given counters d)
In-matching mac key given (d ∷ counters) found c (inr m) e =
    In-matching mac key given counters _ c m e

In-window :
    (step c : ℕ) → 1 ≤ step → step < 2 ^ 63 → In c (window step) → (step ≤ c + 1) × (c ≤ step + 1)
In-window step c lo hi h = ground arith

window-In :
    (step c : ℕ) → 1 ≤ step → step < 2 ^ 63 → step ≤ c + 1 → c ≤ step + 1 → In c (window step)
window-In step c lo hi below above = ground arith

byte_length-append : (s t : Text) → byte_length (s ++ t) ≡ byte_length s + byte_length t
unfolding byte_length
byte_length-append [] t = omega arith
byte_length-append (c ∷ s) t = ground (arith, byte_length-append s t)

one_byte : (n : ℕ) → byte_length ((48 + n % 10) ∷ []) ≡ 1
unfolding byte_length
one_byte n = ground arith

byte_length-padded : (digits n : ℕ) → byte_length (padded digits n) ≡ digits
unfolding padded
byte_length-padded zero n = unfold byte_length in refl
byte_length-padded (suc digits) n =
    rw (byte_length-append (padded digits (n / 10)) ((48 + n % 10) ∷ []))
      (ground (arith, byte_length-padded digits (n / 10), one_byte n))

-- From 30 seconds after 1970 on: what is accepted is the code of a step that is at most one from the
-- present one, under the key of the secret.
pub check_totp_step_sound :
    (mac : Mac) (secret given : Text) (now step : ℕ)
    → 1 ≤ step_of now
    → step_of now < 2 ^ 63
    → check_totp_step mac secret given now ≡ (step, true)
    → (key : List ℕ) × (mac.decode (to_upper (trim_space secret)) ≡ some key)
      × (code mac key step totp_digits ≡ trim_space given)
      × (step_of now ≤ step + 1)
      × (step ≤ step_of now + 1)
unfolding check_totp_step
check_totp_step_sound mac secret given now step lo hi h =
    elim (Option-cases (mac.decode (to_upper (trim_space secret)))) [
      | inl bad ↦ ground arith
      | inr (key, e) ↦ elim (Bool-cases (byte_length (trim_space given) == totp_digits)) [
        | inr long ↦ ground arith
        | inl fits ↦
            elim (matching-In mac key (trim_space given) (window (step_of now)) (0, false) step
              (rw (fits, e, check_totp_step) at h)) [
                | inl never ↦ absurd (true≢false (sym (ap (λ (p : ℕ × Bool). p.1) never)))
                | inr (m, right) ↦
                    let (lo', hi') = In-window (step_of now) step lo hi m in
                    (key, e, right, lo', hi')
              ]
      ]
    ]

-- The code of each step that is at most one from the present one is accepted.
pub check_totp_step_complete :
    (mac : Mac) (secret given : Text) (now step : ℕ) (key : List ℕ)
    → 1 ≤ step_of now
    → step_of now < 2 ^ 63
    → mac.decode (to_upper (trim_space secret)) ≡ some key
    → code mac key step totp_digits ≡ trim_space given
    → step_of now ≤ step + 1
    → step ≤ step_of now + 1
    → (check_totp_step mac secret given now).1 ≡ true
unfolding check_totp_step
check_totp_step_complete mac secret given now step key lo hi decoded e below above =
    let fits : (byte_length (trim_space given) == totp_digits) ≡ true =
      (nat_beq_iff _ _).1 (rw (← e) (unfold code in byte_length-padded totp_digits _)) in
    rw (fits, decoded)
      (In-matching mac key (trim_space given) (window (step_of now)) (0, false) step
        (window-In (step_of now) step lo hi below above) e)
