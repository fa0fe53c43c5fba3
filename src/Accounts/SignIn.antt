-- ===== src/Accounts/SignIn.antt =====
-- Creating accounts and signing in: the handlers `register`, `login`, `demo_login`, `magic_link_request`
-- and `registration_state` of backend/app/api/auth.py, over the table `users` and the cache. bcrypt and
-- the domain's mail are outside: a hash is a parameter, and each handler answers which mail it asks for.
use readprism.Prelude.{
  ℕ, ◌*◌, Bool, true, false, ◌&&◌, ◌||◌, not, Option, none, some, List, [], ◌∷◌, ◌++◌,
  if◌then◌else◌, is_some,
}
use readprism.Prelude.Text.{Text, lower}
use readprism.Billing.Account.{User, start_trial, free}
use readprism.Accounts.Tokens.{
  Settings, Library, Cache, create_access_token, create_refresh_token, create_magic_token,
  make_token,
}
use readprism.Accounts.Registration.{
  Member, Users, Mode, invite, Verdict, admitted, invite_required, registration_closed, by_email,
  email_of, id_of, can_register, effective_mode, has_users, domain_signup_allowed,
  verification_required,
}
use readprism.Accounts.Replies.{
  Error, Mail, Reply, Store, Token, Visit, already_registered, demo_disabled, demo_read_only,
  demo_unseeded, domain_limit, http, invalid_credentials, invite_needed, ok, registration_refused,
  server_error, sign_in, terms_required, verification,
}

module _ (s : Settings) (lib : Library) where
  -- `_issue_tokens` and `_session`
  unfoldable pub open_session : Visit → ℕ → Option Text → Cache → Token × Cache
  unfolding create_access_token create_refresh_token
  open_session v user_id session_id cache =
      let access = create_access_token s lib user_id session_id v.now in
      let (refresh, cache') = create_refresh_token s lib user_id v.jti v.set_up cache v.now in
      let expires_in = s.access_token_expire_minutes * 60 in
      if v.wants_cookies
      then (
        record {
          access_token = [];
          refresh_token = none;
          expires_in = expires_in;
          csrf_token = some v.csrf;
          cookies = some (record { access = access; refresh = refresh; csrf = v.csrf });
        },
        cache',
      )
      else (
        record {
          access_token = access;
          refresh_token = some refresh;
          expires_in = expires_in;
          csrf_token = none;
          cookies = none;
        },
        cache',
      )

  abbrev pub signed_in : Visit → Users → ℕ → Option Text → Cache → Reply Token × Store
  signed_in v users user_id session_id cache =
      let (token, cache') = open_session v user_id session_id cache in
      (ok token, record { users = users; cache = cache' })

abbrev pub consented : Settings → Bool → Bool
consented s accept_terms = s.billing.hosted || accept_terms

-- The row that `User(…)` makes, with the columns' defaults.
unfoldable pub new_member : Settings → Visit → Text → Text → Option Text → Bool → Member
unfolding start_trial
new_member s v email hashed_password display_name accept_terms =
    let user : User = record {
      id = v.new_id;
      email = email;
      tier = free;
      created_at = v.now;
      trial_ends_at = none;
      plan_expires_at = none;
      billing_provider = none;
      billing_customer_id = none;
      billing_subscription_id = none;
      billing_status = none;
      billing_portal_url = none;
      billing_event_at = none;
      deletion_reminder_sent_at = none;
      email_verified_at = none;
    } in
    record {
      account = record { user = start_trial s.billing user v.now; quota_overrides = λ q. none };
      hashed_password = hashed_password;
      display_name = display_name;
      is_demo = false;
      terms_accepted_at = if consented s accept_terms then some v.now else none;
      terms_version = if consented s accept_terms then some s.terms_version else none;
    }

-- `UserCreate`, and what `MagicLinkRequest` has of it.
pub record UserCreate : Type 0 where
  pub email : Text
  pub password : Text
  pub display_name : Option Text
  pub invite_code : Option Text
  pub accept_terms : Bool

abbrev refusal : Verdict → Error
refusal invite_required = invite_needed
refusal registration_closed = registration_refused
refusal _ = server_error

abbrev pub is_admitted : Verdict → Bool
is_admitted admitted = true
is_admitted _ = false

-- `bcrypt.hashpw` with the salt of the call, and `bcrypt.checkpw`.
pub record Passwords : Type 0 where
  pub hash : Text → Text
  pub check : Text → Text → Bool
  pub dummy_hash : Text

module _ (s : Settings) (lib : Library) (pw : Passwords) where
  -- Why `register` refuses; the first reason counts.
  unfoldable pub register_error : Visit → UserCreate → Users → Option Error
  unfolding can_register by_email domain_signup_allowed
  register_error v body users =
      let verdict = can_register s users body.invite_code in
      if s.demo_mode
      then some demo_read_only
      else if not (is_admitted verdict)
      then some (refusal verdict)
      else if is_some (by_email users body.email)
      then some already_registered
      else if not (domain_signup_allowed s users body.email v.now)
      then some domain_limit
      else if s.billing.hosted && not body.accept_terms
      then some terms_required
      else none

  -- The verification mail of a new account.
  abbrev pub mail_to : Visit → Member → List Mail
  mail_to v m =
      if verification_required s
      then verification (email_of m) (make_token s lib m.account.user v.now) ∷ []
      else []

  abbrev pub enroll : Visit → Member → Store → Option Error → (Reply Token × Store) × List Mail
  enroll v m st (some e) = ((http e, st), [])
  enroll v m st none =
      (signed_in s lib v (st.users ++ (m ∷ [])) v.new_id none st.cache, mail_to v m)

  unfoldable pub register : Visit → UserCreate → Store → (Reply Token × Store) × List Mail
  unfolding register_error new_member open_session
  register v body st =
      enroll v
        (new_member s v body.email (pw.hash body.password) body.display_name body.accept_terms) st
        (register_error v body st.users)

  abbrev pub hash_of : Option Member → Text
  hash_of none = pw.dummy_hash
  hash_of (some m) = m.hashed_password

  abbrev pub log_in : Visit → Store → Option Member → Bool → Reply Token × Store
  log_in v st none password_ok = (http invalid_credentials, st)
  log_in v st (some m) true = signed_in s lib v st.users (id_of m) none st.cache
  log_in v st (some m) false = (http invalid_credentials, st)

  unfoldable pub login : Visit → Text → Text → Store → Reply Token × Store
  unfolding by_email open_session
  login v email password st =
      let user = by_email st.users email in log_in v st user (pw.check password (hash_of user))

  abbrev pub enter_demo : Visit → Text → Users → Cache → Option Member → Reply Token × Store
  enter_demo v session_id users cache none =
      (http demo_unseeded, record { users = users; cache = cache })
  enter_demo v session_id users cache (some m) =
      signed_in s lib v users (id_of m) (some session_id) cache

  -- `demo_login`: `seed` is scripts/seed_demo.py, and `session_id` the `uuid4` of the demo session.
  unfoldable pub demo_login : Visit → Text → Text → (Users → Users) → Store → Reply Token × Store
  unfolding by_email open_session
  demo_login v demo_user_email session_id seed st =
      let found = by_email st.users demo_user_email in
      let users = if is_some found then st.users else seed st.users in
      if s.demo_mode
      then enter_demo v session_id users st.cache (by_email users demo_user_email)
      else (http demo_disabled, st)

  -- The account that a sign-in link may create.
  unfoldable pub magic_link_error : Visit → Text → Bool → Users → Bool
  unfolding can_register domain_signup_allowed
  magic_link_error v email accept_terms users =
      not (is_admitted (can_register s users none))
      || not (domain_signup_allowed s users email v.now)
      || (s.billing.hosted && not accept_terms)

  abbrev pub mail_link : Visit → Text → Store → Store × List Mail
  mail_link v email st =
      let (token, cache') = create_magic_token s lib email v.jti v.set_up st.cache v.now in
      (record { users = st.users; cache = cache' }, sign_in email token ∷ [])

  -- `magic_link_request`; `password` is the unusable one that is drawn. It answers 202 but in a demo.
  unfoldable pub magic_link_request :
      Visit → Text → Option Text → Bool → Text → Store → (Reply Unit × Store) × List Mail
  unfolding by_email magic_link_error new_member create_magic_token
  magic_link_request v given display_name accept_terms password st =
      let email = lower given in
      let m = new_member s v email (pw.hash password) display_name accept_terms in
      let known = mail_link v email st in
      let created = mail_link v email (record { users = st.users ++ (m ∷ []); cache = st.cache }) in
      if s.demo_mode
      then ((http demo_read_only, st), [])
      else if is_some (by_email st.users email)
      then ((ok tt, known.0), known.1)
      else if magic_link_error v email accept_terms st.users
      then ((ok tt, st), [])
      else ((ok tt, created.0), created.1)

-- What the sign-up page is told.
pub record RegistrationState : Type 0 where
  pub mode : Mode
  pub is_open : Bool
  pub invite_required : Bool
  pub first_account : Bool
  pub hosted : Bool

abbrev is_invite : Mode → Bool
is_invite invite = true
is_invite _ = false

unfoldable pub registration_state : Settings → Users → RegistrationState
unfolding can_register effective_mode has_users
registration_state s users =
    let admits = is_admitted (can_register s users none) in
    record {
      mode = effective_mode s;
      is_open = admits && not s.demo_mode;
      invite_required = is_invite (effective_mode s) && not admits;
      first_account = not (has_users users);
      hosted = s.billing.hosted;
    }
