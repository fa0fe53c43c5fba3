-- ===== src/Accounts/Admission.antt =====
-- A closed instance takes no new account: `can_register` of backend/app/services/registration.py under
-- the handlers of backend/app/api/auth.py.
use readprism.Prelude.{
  ℕ, ◌≡◌, refl, ap, ◌∙◌, Bool, true, false, Option, none, some, List, [], ◌∷◌, map, inl, inr,
  Bool-cases, is_some, ◌==◌,
}
use readprism.Prelude.Text.{Text, lower}
use readprism.Accounts.Tokens.{Settings, Library, Cache}
use readprism.Accounts.Registration.{
  Member, Users, closed, registration_closed, can_register, effective_mode, has_users, by_email,
  by_id, id_of,
}
use readprism.Accounts.Replies.{
  Visit, Store, Reply, ok, http, Error, demo_read_only, registration_refused,
}
use readprism.Accounts.SignIn.{
  UserCreate, Passwords, demo_login, register, register_error, login, log_in, hash_of,
  magic_link_request, magic_link_error,
}
use readprism.Accounts.Sessions.{
  refresh, rotate, reopen, check_refresh, raw_token, logout, magic_link_verify, spend_link, enter,
  check_magic, mark_verified, update_row, verify_token, verified, confirmed, confirm_email,
}
use readprism.Accounts.Calls.{
  Call, registers, logs_in, enters_demo, asks_link, uses_link, refreshes, logs_out, confirms,
  resends, resent, step, run,
}

-- The accounts of a table, by id.
unfoldable pub account_ids : Users → List ℕ
account_ids users = map id_of users

has_users-account_ids :
    (us vs : Users) → account_ids us ≡ account_ids vs → has_users vs ≡ true → has_users us ≡ true
unfolding account_ids has_users
has_users-account_ids [] [] e has = cc
has_users-account_ids [] (m ∷ vs) e has = cc
has_users-account_ids (m ∷ us) vs e has = refl

module _ (s : Settings) (lib : Library) (pw : Passwords) where
  account_ids-update_row :
      (now u : ℕ) (users : Users)
      → account_ids (update_row s lib (mark_verified s lib now) u users) ≡ account_ids users
  unfolding account_ids update_row mark_verified
  account_ids-update_row now u [] = refl
  account_ids-update_row now u (m ∷ ms) =
      let rest = account_ids-update_row now u ms in
      elim (Bool-cases (id_of m == u)) [
        | inl t ↦ rw t refl
        | inr f ↦ rw f (ap (λ l. id_of m ∷ l) rest)
      ]

  account_ids-enter :
      (v : Visit) (st : Store) (cache : Cache) (found : Option Member)
      → account_ids (enter s lib v st cache found).1.users ≡ account_ids st.users
  account_ids-enter v st cache none = refl
  account_ids-enter v st cache (some m) = account_ids-update_row v.now (id_of m) st.users

  account_ids-spend_link :
      (v : Visit) (st : Store) (grant : Reply (Text × Text))
      → account_ids (spend_link s lib v st grant).1.users ≡ account_ids st.users
  account_ids-spend_link v st (http e) = refl
  account_ids-spend_link v st (ok (email, jti)) = account_ids-enter v st _ (by_email st.users email)

  users-log_in :
      (v : Visit) (st : Store) (found : Option Member) (password_ok : Bool)
      → (log_in s lib pw v st found password_ok).1.users ≡ st.users
  users-log_in v st none password_ok = refl
  users-log_in v st (some m) true = refl
  users-log_in v st (some m) false = refl

  users-reopen :
      (v : Visit) (users : Users) (cache : Cache) (owner : Option ℕ)
      → (reopen s lib v users cache owner).1.users ≡ users
  users-reopen v users cache none = refl
  users-reopen v users cache (some u) = refl

  users-rotate :
      (v : Visit) (st : Store) (grant : Reply (Text × Text))
      → (rotate s lib v st grant).1.users ≡ st.users
  users-rotate v st (http e) = refl
  users-rotate v st (ok (owner, jti)) = users-reopen v st.users _ (lib.read_uuid owner)

  account_ids-verified :
      (now : ℕ) (users : Users) (found : Option Member)
      → account_ids (verified s lib now users found).1 ≡ account_ids users
  account_ids-verified now users none = refl
  account_ids-verified now users (some m) = account_ids-update_row now (id_of m) users

  account_ids-confirm_email :
      (now : ℕ) (token : Text) (users : Users)
      → account_ids (confirm_email s lib now token users).1 ≡ account_ids users
  unfolding confirm_email verify_token
  account_ids-confirm_email now token users =
      account_ids-verified now users
        (confirmed s lib users (lib.decode s.secret_key token true now))

  account_ids-login :
      (v : Visit) (email password : Text) (st : Store)
      → account_ids (login s lib pw v email password st).1.users ≡ account_ids st.users
  unfolding login
  account_ids-login v email password st =
      let found = by_email st.users email in
      ap account_ids (users-log_in v st found (pw.check password (hash_of s lib pw found)))

  account_ids-spent :
      (v : Visit) (token : Text) (st : Store)
      → account_ids (magic_link_verify s lib v token st).1.users ≡ account_ids st.users
  unfolding magic_link_verify
  account_ids-spent v token st = account_ids-spend_link v st (check_magic s lib v token st.cache)

  account_ids-refresh :
      (v : Visit) (body cookie : Option Text) (st : Store)
      → account_ids (refresh s lib v body cookie st).1.users ≡ account_ids st.users
  unfolding refresh
  account_ids-refresh v body cookie st =
      ap account_ids (users-rotate v st (check_refresh s lib v (raw_token body cookie) st.cache))

  account_ids-logout :
      (v : Visit) (body cookie : Option Text) (st : Store)
      → account_ids (logout s lib v body cookie st).users ≡ account_ids st.users
  unfolding logout
  account_ids-logout v body cookie st = refl

  account_ids-register :
      (v : Visit) (body : UserCreate) (st : Store) (e : Error)
      → register_error s lib pw v body st.users ≡ some e
      → account_ids (register s lib pw v body st).0.1.users ≡ account_ids st.users
  unfolding register
  account_ids-register v body st e refused = rw refused refl

  users-resent :
      (v : Visit) (st : Store) (found : Option Member)
      → (resent s lib pw v st found).users ≡ st.users
  users-resent v st none = refl
  users-resent v st (some m) = refl

  -- With an account on a closed instance no other is admitted.
  module _ (shut : effective_mode s ≡ closed) (public : s.demo_mode ≡ false) where
    can_register_closed :
        (users : Users) (code : Option Text)
        → has_users users ≡ true
        → can_register s users code ≡ registration_closed
    unfolding can_register
    can_register_closed users code has = rw (has, shut) refl

    register_refused :
        (v : Visit) (body : UserCreate) (users : Users)
        → has_users users ≡ true
        → (e : Error) × (register_error s lib pw v body users ≡ some e)
    unfolding register_error
    register_refused v body users has =
        let no = can_register_closed users body.invite_code has in
        elim (Bool-cases s.demo_mode) [
          | inl d ↦ (demo_read_only, rw d refl)
          | inr d ↦ (registration_refused, rw (d, no) refl)
        ]

    magic_link_error_closed :
        (v : Visit) (email : Text) (accept_terms : Bool) (users : Users)
        → has_users users ≡ true
        → magic_link_error s lib pw v email accept_terms users ≡ true
    unfolding magic_link_error
    magic_link_error_closed v email accept_terms users has =
        rw (can_register_closed users none has) refl

    account_ids-magic :
        (v : Visit) (given : Text) (name : Option Text) (accept_terms : Bool) (password : Text)
        (st : Store)
        → has_users st.users ≡ true
        → account_ids (magic_link_request s lib pw v given name accept_terms password st).0.1.users
          ≡ account_ids st.users
    unfolding magic_link_request
    account_ids-magic v given name accept_terms password st has =
        let refused = magic_link_error_closed v (lower given) accept_terms st.users has in
        elim (Bool-cases s.demo_mode) [
          | inl d ↦ rw d refl
          | inr d ↦ elim (Bool-cases (is_some (by_email st.users (lower given)))) [
            | inl k ↦ rw (d, k) refl
            | inr k ↦ rw (d, k, refused) refl
          ]
        ]

    account_ids-demo_login :
        (v : Visit) (email session_id : Text) (seed : Users → Users) (st : Store)
        → account_ids (demo_login s lib pw v email session_id seed st).1.users
          ≡ account_ids st.users
    unfolding demo_login
    account_ids-demo_login v email session_id seed st = rw public refl

    account_ids-step :
        (v : Visit) (k : Call) (st : Store)
        → has_users st.users ≡ true
        → account_ids (step s lib pw v k st).users ≡ account_ids st.users
    unfolding step
    account_ids-step v (registers body) st has =
        let (e, refused) = register_refused v body st.users has in
        account_ids-register v body st e refused
    account_ids-step v (logs_in email password) st has = account_ids-login v email password st
    account_ids-step v (enters_demo email session_id seed) st has =
        account_ids-demo_login v email session_id seed st
    account_ids-step v (asks_link email name accept_terms password) st has =
        account_ids-magic v email name accept_terms password st has
    account_ids-step v (uses_link token) st has = account_ids-spent v token st
    account_ids-step v (refreshes body cookie) st has = account_ids-refresh v body cookie st
    account_ids-step v (logs_out body cookie) st has = account_ids-logout v body cookie st
    account_ids-step v (confirms token) st has = account_ids-confirm_email v.now token st.users
    account_ids-step v (resends u) st has = ap account_ids (users-resent v st (by_id st.users u))

    -- On a closed instance that has an account and is no demo, any run of the handlers leaves the accounts that there
    -- were and adds none.
    pub account_ids-run :
        (ks : List (Visit × Call)) (st : Store)
        → has_users st.users ≡ true
        → account_ids (run s lib pw ks st).users ≡ account_ids st.users
    unfolding run
    account_ids-run [] st has = refl
    account_ids-run ((v, k) ∷ ks) st has =
        let same = account_ids-step v k st has in
        account_ids-run ks (step s lib pw v k st) (has_users-account_ids _ st.users same has) ∙ same
