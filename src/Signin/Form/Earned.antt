-- ===== src/Signin/Form/Earned.antt =====
-- What one post of the password form gives, and what it takes.
use wg_access_server.Prelude.{
  ℕ, Bool, true, false, ◌&&◌, ◌≡◌, ◌≢◌, refl, sym, ap, ◌∙◌, ◌⊎◌, inl, inr, Option, none, some,
  list_eq, nat_eq, arith, Option-cases, Bool-cases, Result-cases, ok,
}
use wg_access_server.Prelude.GoMap.{GoMap}
use wg_access_server.Users.Limit.{Attempts}
use wg_access_server.Prelude.Text.{Text, is_nil}
use wg_access_server.Authnz.{Identity}
use wg_access_server.Authnz.Throttle.{begin_second_factor}
use wg_access_server.Storage.Memory.{Memory}
use wg_access_server.Signin.Cookies.{
  Cookie, AuthSession, Fresh, session_id, end_previous, get_session, set_session,
}
use wg_access_server.Signin.Login.{start_session}
use wg_access_server.Signin.Form.{
  Attempt, Setup, signed_in, two_factor_required, session_for, pending_session, waiting,
  check_creds, Server, sign_in, ask_for_code, is_attempted, first_step, second_right, checked,
  reserved, second_step, finish, post, waited, recognised, Outcome,
}

module _ (x : Setup) where
  set_session-pending :
      (s : Memory) (given : Option Cookie) (new : AuthSession) (fresh : Fresh) (now : ℕ)
      (c : Cookie)
      → (set_session x.coding s given new fresh now).1 ≡ ok c
      → c.pending ≡ new.pending
  unfolding set_session
  set_session-pending s given new fresh now c h =
      let t = session_id x.coding (end_previous x.coding s given new.id now) new fresh now in
      elim (Result-cases t.1) [ inl (id, e) ↦ ground arith | inr (e, f) ↦ ground arith ]

  start_session-pending :
      (s : Memory) (given : Option Cookie) (new : AuthSession) (fresh : Fresh) (now : ℕ)
      (c : Cookie)
      → (start_session x.coding s given new fresh now).1 ≡ ok c
      → c.pending ≡ new.pending
  unfolding start_session
  start_session-pending s given new fresh now c h =
      elim (Result-cases (set_session x.coding s given new fresh now).1) [
        | inl (d, e) ↦
            ground (arith, set_session-pending s given new fresh now d, Option-cases new.identity)
        | inr (d, e) ↦ ground (arith, Option-cases new.identity)
      ]

  sign_in-signed_in :
      (sv : Server x) (username : Text) (r : Attempt) (who : Identity)
      → (sign_in x sv username r).1.0 ≡ signed_in who
      → who.subject ≡ username
  unfolding sign_in
  sign_in-signed_in sv username r who h =
      let t = start_session x.coding sv.store r.cookie (session_for username) r.fresh r.later in
      elim (Result-cases t.1) [ inl (c, e) ↦ ground arith | inr (e, f) ↦ ground arith ]

  sign_in-cookie :
      (sv : Server x) (username : Text) (r : Attempt) (c : Cookie)
      → (sign_in x sv username r).1.1 ≡ some c
      → c.pending ≡ none
  unfolding sign_in
  sign_in-cookie sv username r c h =
      let t = start_session x.coding sv.store r.cookie (session_for username) r.fresh r.later in
      elim (Result-cases t.1) [
        | inl (d, e) ↦ ground (
          arith,
          start_session-pending sv.store r.cookie (session_for username) r.fresh r.later d e,
        )
        | inr (d, e) ↦ ground arith
      ]

  ask_for_code-cookie :
      (sv : Server x) (username : Text) (r : Attempt) (c : Cookie)
      → (ask_for_code x sv username r).1.1 ≡ some c
      → c.pending ≡ (pending_session username r.later).pending
  unfolding ask_for_code
  ask_for_code-cookie sv username r c h =
      let new = pending_session username r.later in
      let t = start_session x.coding sv.store r.cookie new r.fresh r.later in
      elim (Result-cases t.1) [
        | inl (d, e) ↦
            ground (arith, start_session-pending sv.store r.cookie new r.fresh r.later d e)
        | inr (d, e) ↦ ground arith
      ]

  ask_for_code-signed_in :
      (sv : Server x) (username : Text) (r : Attempt) (who : Identity)
      → (ask_for_code x sv username r).1.0 ≢ signed_in who
  unfolding ask_for_code
  ask_for_code-signed_in sv username r who h =
      let t =
        start_session x.coding sv.store r.cookie (pending_session username r.later) r.fresh
          r.later in
      elim (Result-cases t.1) [ inl (c, e) ↦ ground arith | inr (e, f) ↦ ground arith ]

  checked-cookie :
      (sv : Server x) (username : Text) (r : Attempt) (t : Memory × Bool) (c : Cookie)
      → (checked x sv username r t).1.1 ≡ some c
      → c.pending ≡ none
  checked-cookie sv username r (s, true) c h = sign_in-cookie _ username r c h
  checked-cookie sv username r (s, false) c h = ground arith

  reserved-cookie :
      (sv : Server x) (username : Text) (r : Attempt) (t : Bool × GoMap Text Attempts) (c : Cookie)
      → (reserved x sv username r t).1.1 ≡ some c
      → c.pending ≡ none
  reserved-cookie sv username r (true, second) c h =
      checked-cookie (waited x sv username r second) username r (second_right x sv.store username r)
        c h
  reserved-cookie sv username r (false, second) c h = ground arith

  second_step-cookie :
      (sv : Server x) (r : Attempt) (o : Option Text) (c : Cookie)
      → (second_step x sv r o).1.1 ≡ some c
      → c.pending ≡ none
  second_step-cookie sv r none c h = ground arith
  second_step-cookie sv r (some username) c h =
      reserved-cookie sv username r (begin_second_factor sv.second username r.now) c h

  checked-signed_in :
      (sv : Server x) (username : Text) (r : Attempt) (t : Memory × Bool) (who : Identity)
      → (checked x sv username r t).1.0 ≡ signed_in who
      → (username ≡ who.subject) × (t.1 ≡ true)
  checked-signed_in sv username r (s, true) who h =
      (sym (sign_in-signed_in _ username r who h), refl)
  checked-signed_in sv username r (s, false) who h = ground arith

  reserved-signed_in :
      (sv : Server x) (username : Text) (r : Attempt) (t : Bool × GoMap Text Attempts)
      (who : Identity)
      → (reserved x sv username r t).1.0 ≡ signed_in who
      → (username ≡ who.subject) × ((second_right x sv.store username r).1 ≡ true)
  reserved-signed_in sv username r (true, second) who h =
      checked-signed_in (waited x sv username r second) username r
        (second_right x sv.store username r) who h
  reserved-signed_in sv username r (false, second) who h = ground arith

  pub second_step-signed_in :
      (sv : Server x) (r : Attempt) (o : Option Text) (who : Identity)
      → (second_step x sv r o).1.0 ≡ signed_in who
      → (username : Text) × (o ≡ some username)
        × (username ≡ who.subject)
        × ((second_right x sv.store username r).1 ≡ true)
  second_step-signed_in sv r none who h = ground arith
  second_step-signed_in sv r (some username) who h =
      let (same, right) =
        reserved-signed_in sv username r (begin_second_factor sv.second username r.now) who h in
      (username, refl, same, right)

  -- The form is a password step, and the password is right.
  abbrev pub gives_password : Server x → Attempt → Bool
  gives_password sv r =
      is_nil r.form.passkey
      && is_nil r.form.code
      && is_attempted x r.form
      && check_creds x x.users sv.store r.form.username r.form.password

  first_step-cookie :
      (sv : Server x) (r : Attempt) (c : Cookie)
      → (first_step x sv r).1.1 ≡ some c
      → (c.pending ≡ none)
        ⊎ ((is_attempted x r.form && check_creds x x.users sv.store r.form.username r.form.password
              ≡ true)
            × (c.pending ≡ (pending_session r.form.username r.later).pending))
  first_step-cookie sv r c h =
      elim (Bool-cases
        (is_attempted x r.form && check_creds x x.users sv.store r.form.username r.form.password)) [
          | inr failed ↦ ground arith
          | inl passed ↦ elim (Bool-cases (two_factor_required sv.store r.form.username)) [
            | inl two ↦
                inr (
                  passed,
                  ask_for_code-cookie (recognised x sv r) r.form.username r c (ground arith),
                )
            | inr one ↦ inl (sign_in-cookie (recognised x sv r) r.form.username r c (ground arith))
          ]
        ]

  pub first_step-signed_in :
      (sv : Server x) (r : Attempt) (who : Identity)
      → (first_step x sv r).1.0 ≡ signed_in who
      → (is_attempted x r.form && check_creds x x.users sv.store r.form.username r.form.password
          ≡ true)
        × (two_factor_required sv.store r.form.username ≡ false)
        × (who.subject ≡ r.form.username)
  first_step-signed_in sv r who h =
      elim (Bool-cases
        (is_attempted x r.form && check_creds x x.users sv.store r.form.username r.form.password)) [
          | inr failed ↦ ground arith
          | inl passed ↦ elim (Bool-cases (two_factor_required sv.store r.form.username)) [
            | inl two ↦
                absurd
                  (ask_for_code-signed_in (recognised x sv r) r.form.username r who (ground arith))
            | inr one ↦ (
              passed,
              one,
              sign_in-signed_in (recognised x sv r) r.form.username r who (ground arith),
            )
          ]
        ]

  abbrev pub is_first : Attempt → Bool
  is_first r = is_nil r.form.passkey && is_nil r.form.code

  pub post-first :
      (sv : Server x) (r : Attempt) → is_first r ≡ true → post x sv r ≡ first_step x sv r
  unfolding post
  post-first sv r h = ground arith

  pub post-second : (sv : Server x) (r : Attempt) → is_first r ≡ false → post x sv r ≡ finish x sv r
  unfolding post
  post-second sv r h = ground arith

  -- A cookie that the post gives waits for nothing, or for whom the password was right.
  pub post-cookie :
      (sv : Server x) (r : Attempt) (c : Cookie)
      → (post x sv r).1.1 ≡ some c
      → (c.pending ≡ none)
        ⊎ ((gives_password sv r ≡ true)
            × (c.pending ≡ (pending_session r.form.username r.later).pending))
  unfolding finish
  post-cookie sv r c h = elim (Bool-cases (is_first r)) [
    | inr second ↦
        let read = get_session x.coding sv.store r.cookie r.now in
        inl (
          second_step-cookie (record sv { store = read.0 }) r (waiting read.1 r.now) c
            (ap (λ (o : Outcome x). o.1.1) (sym (post-second sv r second)) ∙ h))
    | inl first ↦
        let given =
          first_step-cookie sv r c
            (ap (λ (o : Outcome x). o.1.1) (sym (post-first sv r first)) ∙ h) in
        ground (arith, given)
  ]
