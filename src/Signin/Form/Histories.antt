-- ===== src/Signin/Form/Histories.antt =====
-- Every history of forms that browsers post, each with a cookie that some browser was given.
use wg_access_server.Prelude.{
  ℕ, ◌+◌, ◌<◌, Bool, true, false, ◌≡◌, refl, sym, ap, ◌∙◌, ◌⊎◌, inl, inr, Option, none, some, List,
  [], ◌∷◌, list_eq, nat_eq, arith, In, Option-cases, Bool-cases, Result-cases, subst,
}
use wg_access_server.Prelude.Text.{Text}
use wg_access_server.Authnz.{Identity, PendingLogin, pending_valid}
use wg_access_server.Storage.Memory.{Memory}
use wg_access_server.Websessions.{identity}
use wg_access_server.Signin.Cookies.{Cookie, AuthSession, get_session}
use wg_access_server.Signin.Form.{
  pending_for, provider, Attempt, Setup, signed_in, two_factor_required, awaited, waiting, Server,
  second_right, Outcome, finish, post,
}
use wg_access_server.Signin.Form.Earned.{
  gives_password, is_first, post-first, post-second, post-cookie, first_step-signed_in,
  second_step-signed_in,
}

module _ (x : Setup) where
  -- The server, the cookies that it has given, and who gave the right password when.
  pub record World : Type 0 where
    pub server : Server x
    pub issued : List Cookie
    pub passwords : List (Text × ℕ)

  abbrev with_cookie : Option Cookie → List Cookie → List Cookie
  with_cookie none issued = issued
  with_cookie (some c) issued = c ∷ issued

  abbrev with_password : Bool → Text → ℕ → List (Text × ℕ) → List (Text × ℕ)
  with_password true username at passwords = (username, at) ∷ passwords
  with_password false username at passwords = passwords

  abbrev pub after : World → Attempt → World
  after w r = record {
    server = (post x w.server r).0;
    issued = with_cookie (post x w.server r).1.1 w.issued;
    passwords = with_password (gives_password x w.server r) r.form.username r.later w.passwords;
  }

  -- A cookie that a browser has: none, one of another flow, which waits for nobody, or one that was given.
  abbrev pub IsHeld : Option Cookie → List Cookie → Type 0
  IsHeld none issued = Unit {0}
  IsHeld (some c) issued = (c.pending ≡ none) ⊎ In c issued

  -- Anything else that happens changes what the server keeps, and gives nobody a cookie that waits.
  pub data Run : World → Type 0 where
    started : (sv : Server x) → Run (record { server = sv; issued = []; passwords = [] })
    posted : {w : World} → Run w → (r : Attempt) → IsHeld r.cookie w.issued → Run (after w r)
    changed : {w : World} → Run w → (sv : Server x) → Run (record w { server = sv })

  -- The password of whom a cookie waits for was right when it was made.
  abbrev Earned : World → PendingLogin → Type 0
  Earned w p = (at : ℕ) × (p.until ≡ at + pending_for) × In (p.subject, at) w.passwords

  abbrev AllEarned : World → Type 0
  AllEarned w = (c : Cookie) (p : PendingLogin) → In c w.issued → c.pending ≡ some p → Earned w p

  In-with_password :
      (b : Bool) (username : Text) (at : ℕ) (passwords : List (Text × ℕ)) (e : Text × ℕ)
      → In e passwords
      → In e (with_password b username at passwords)
  In-with_password true username at passwords e n = inr n
  In-with_password false username at passwords e n = n

  after-Earned : (w : World) (r : Attempt) (p : PendingLogin) → Earned w p → Earned (after w r) p
  after-Earned w r p (at, until, n) = (
    at,
    until,
    In-with_password (gives_password x w.server r) r.form.username r.later w.passwords _ n,
  )

  In-with_cookie :
      (o : Option Cookie) (issued : List Cookie) (c : Cookie)
      → In c (with_cookie o issued)
      → (o ≡ some c) ⊎ In c issued
  In-with_cookie none issued c n = inr n
  In-with_cookie (some d) issued c (inl same) = inl (ap (λ (e : Cookie). some e) (sym same))
  In-with_cookie (some d) issued c (inr n) = inr n

  abbrev asked : Attempt → PendingLogin
  asked r = record { subject = r.form.username; provider = provider; until = r.later + pending_for }

  given-Earned :
      (w : World) (r : Attempt) (c : Cookie) (p : PendingLogin)
      → (post x w.server r).1.1 ≡ some c
      → c.pending ≡ some p
      → Earned (after w r) p
  given-Earned w r c p h waits = elim (post-cookie x w.server r c h) [
    | inl nobody ↦ ground arith
    | inr (right, pending) ↦
        let same : asked r ≡ p = ground arith in
        (
          r.later,
          ap (λ (q : PendingLogin). q.until) (sym same),
          rw right (inl (ap (λ (q : PendingLogin). (q.subject, r.later)) (sym same))),
        )
  ]

  Run-AllEarned : {w : World} → Run w → AllEarned w
  Run-AllEarned (started sv) c p n h = elim n [ ]
  Run-AllEarned (changed run sv) c p n h = Run-AllEarned run c p n h
  Run-AllEarned (posted {w} run r held) c p n h =
      elim (In-with_cookie (post x w.server r).1.1 w.issued c n) [
        | inl given ↦ given-Earned w r c p given h
        | inr before ↦ after-Earned w r p (Run-AllEarned run c p before h)
      ]

  get_session-pending :
      (s : Memory) (c : Cookie) (now : ℕ) (session : AuthSession)
      → (get_session x.coding s (some c) now).1 ≡ some session
      → session.pending ≡ c.pending
  unfolding get_session
  get_session-pending s c now session h =
      elim (Result-cases (identity x.coding.hash x.coding.decode s c.id now).1) [
        | inl (who, e) ↦ ground arith
        | inr (e, f) ↦ ground arith
      ]

  awaited-eq-some :
      (o : Option PendingLogin) (now : ℕ) (username : Text)
      → awaited o now ≡ some username
      → (p : PendingLogin) × (o ≡ some p) × (p.subject ≡ username) × (now < p.until)
  unfolding pending_valid
  awaited-eq-some none now username h = ground arith
  awaited-eq-some (some p) now username h = (p, refl, ground arith, ground arith)

  get_session-waiting :
      (s : Memory) (cookie : Option Cookie) (now : ℕ) (username : Text)
      → waiting (get_session x.coding s cookie now).1 now ≡ some username
      → (c : Cookie) × (p : PendingLogin) × (cookie ≡ some c)
        × (c.pending ≡ some p)
        × (p.subject ≡ username)
        × (now < p.until)
  get_session-waiting s none now username h = unfold get_session in ground arith
  get_session-waiting s (some c) now username h =
      elim (Option-cases (get_session x.coding s (some c) now).1) [
        | inl e ↦ ground arith
        | inr (session, e) ↦
            let (p, waits, subject, early) =
              awaited-eq-some session.pending now username (ground arith) in
            (c, p, refl, sym (get_session-pending s c now session e) ∙ waits, subject, early)
      ]

  -- By which of the two steps a post signs somebody in.
  abbrev pub ByPassword : World → Attempt → Identity → Type 0
  ByPassword w r who =
      (gives_password x w.server r ≡ true)
      × (who.subject ≡ r.form.username)
      × (two_factor_required w.server.store who.subject ≡ false)

  abbrev pub BySecondFactor : World → Attempt → Identity → Type 0
  BySecondFactor w r who =
      ((second_right x (get_session x.coding w.server.store r.cookie r.now).0 who.subject r).1
        ≡ true)
      × (at : ℕ) × In (who.subject, at) w.passwords
      × (r.now < at + pending_for)

  held-Earned :
      {w : World} (run : Run w) (r : Attempt) (held : IsHeld r.cookie w.issued) (c : Cookie)
      (p : PendingLogin)
      → r.cookie ≡ some c
      → c.pending ≡ some p
      → Earned w p
  held-Earned {w} run r held c p given waits =
      elim (subst (λ (o : Option Cookie). IsHeld o w.issued) given held) [
        | inl nobody ↦ ground arith
        | inr n ↦ Run-AllEarned run c p n waits
      ]

  finish-signed_in :
      {w : World} (run : Run w) (r : Attempt) (who : Identity)
      → IsHeld r.cookie w.issued
      → (finish x w.server r).1.0 ≡ signed_in who
      → BySecondFactor w r who
  unfolding finish
  finish-signed_in {w} run r who held h =
      let read = get_session x.coding w.server.store r.cookie r.now in
      let (username, awaits, same, right) =
        second_step-signed_in x (record w.server { store = read.0 }) r (waiting read.1 r.now) who
          h in
      let (c, p, given, waits, subject, early) =
        get_session-waiting w.server.store r.cookie r.now username awaits in
      let (at, until, n) = held-Earned run r held c p given waits in
      (
        subst (λ (t : Text). (second_right x read.0 t r).1 ≡ true) same right,
        at,
        subst (λ (t : Text). In (t, at) w.passwords) (subject ∙ same) n,
        subst (λ (u : ℕ). r.now < u) until early,
      )

  -- In every history of posted forms and of other changes, where browsers send back cookies that were
  -- given: a post that signs somebody in either gives the right password of somebody who has no second
  -- factor, or gives a second factor of theirs that is right, and the right password of theirs was
  -- given less than five minutes before.
  pub post-authenticated :
      {w : World}
      → Run w
      → (r : Attempt) (who : Identity) → IsHeld r.cookie w.issued
      → (post x w.server r).1.0 ≡ signed_in who
      → ByPassword w r who ⊎ BySecondFactor w r who
  post-authenticated {w} run r who held h = elim (Bool-cases (is_first x r)) [
    | inr second ↦ inr (
        finish-signed_in run r who held
          (ap (λ (o : Outcome x). o.1.0) (sym (post-second x w.server r second)) ∙ h))
    | inl first ↦
        let (right, without, same) =
          first_step-signed_in x w.server r who
            (ap (λ (o : Outcome x). o.1.0) (sym (post-first x w.server r first)) ∙ h) in
        inl (
          ground (arith, right),
          same,
          subst (λ (t : Text). two_factor_required w.server.store t ≡ false) (sym same) without,
        )
  ]
