-- ===== src/Accounts/Registry.antt =====
-- Two registries of one-time grants, of sessions and of sign-in links, as an abstract account of what
-- the handlers of backend/app/api/auth.py keep in the cache. A grant has an owner and an end.
use readprism.Prelude.{
  ℕ, ◌+◌, ◌*◌, Bool, true, false, Option, none, some, List, [], ◌∷◌, ◌++◌, is_some, if◌then◌else◌,
}
use readprism.Prelude.Text.{Text, codes, text_eq, lower}
use readprism.Links.Signed.{second}
use readprism.Accounts.Tokens.{
  Settings, Library, Claims, Decoded, good, Entry, value_at, is_claim, refresh_secret,
}
use readprism.Accounts.Registration.{Member, Users, id_of, by_email}
use readprism.Accounts.Replies.{Visit, Error}
use readprism.Accounts.SignIn.{Passwords, register_error, new_member, magic_link_error, hash_of}
use readprism.Accounts.Sessions.{both, raw_token, mark_verified, update_row, confirm_email}
use readprism.Accounts.Calls.{
  Call, registers, logs_in, enters_demo, asks_link, uses_link, refreshes, logs_out, confirms,
  resends,
}

-- Grants by their jti.
abbrev pub Grants : Type 0
Grants = Text → Option Entry

pub record Ledger : Type 0 where
  pub users : Users
  pub sessions : Grants
  pub links : Grants

unfoldable pub grant : Grants → Text → Entry → Grants
grant g jti entry j = if text_eq j jti then some entry else g j

unfoldable pub revoke : Grants → Text → Grants
revoke g jti j = if text_eq j jti then none else g j

unfoldable pub holds : Grants → ℕ → Text → Text → Bool
holds g now jti owner = is_claim (value_at now (g jti)) owner

-- The owner and the jti that a token of a type names.
abbrev pub named_by : Text → (Claims → Option Text) → Decoded → Option (Text × Text)
named_by type owner (good c) = if is_claim c.type type then both (owner c) c.jti else none
named_by type owner _ = none

-- A grant is spent as a whole: its owner, and the registry without it.
abbrev pub spend : Grants → ℕ → Option (Text × Text) → Option (Text × Grants)
spend g now none = none
spend g now (some (owner, jti)) = if holds g now jti owner then some (owner, revoke g jti) else none

abbrev pub revoke_jti : Grants → Option Text → Grants
revoke_jti g (some (k ∷ t)) = revoke g (k ∷ t)
revoke_jti g _ = g

abbrev pub revoke_named : Grants → Decoded → Grants
revoke_named g (good c) = revoke_jti g c.jti
revoke_named g _ = g

module _ (s : Settings) (lib : Library) (pw : Passwords) where
  -- A new session of a user.
  abbrev pub begin : Visit → ℕ → Ledger → Ledger
  begin v user_id l =
      let entry : Entry = record {
        value = lib.show_uuid user_id;
        expires_at = v.now + s.refresh_token_expire_days * 86_400 * second;
      } in
      record l { sessions = grant l.sessions v.jti entry }

  -- A new sign-in link to an address.
  abbrev pub invite_by : Visit → Text → Ledger → Ledger
  invite_by v email l =
      let entry : Entry = record {
        value = email;
        expires_at = v.now + s.magic_link_expire_minutes * 60 * second;
      } in
      record l { links = grant l.links v.jti entry }

  abbrev pub begin_for : Visit → Option ℕ → Ledger → Ledger
  begin_for v none l = l
  begin_for v (some u) l = begin v u l

  abbrev pub after_refresh : Visit → Ledger → Option (Text × Grants) → Ledger
  after_refresh v l none = l
  after_refresh v l (some (owner, g)) =
      begin_for v (lib.read_uuid owner) (record l { sessions = g })

  abbrev pub begin_verified : Visit → Option Member → Ledger → Ledger
  begin_verified v none l = l
  begin_verified v (some m) l =
      begin v (id_of m)
        (record l { users = update_row s lib (mark_verified s lib v.now) (id_of m) l.users })

  abbrev pub after_link : Visit → Ledger → Option (Text × Grants) → Ledger
  after_link v l none = l
  after_link v l (some (email, g)) =
      begin_verified v (by_email l.users email) (record l { links = g })

  abbrev pub begin_signed_up : Visit → Member → Option Error → Ledger → Ledger
  begin_signed_up v m (some e) l = l
  begin_signed_up v m none l = begin v v.new_id (record l { users = l.users ++ (m ∷ []) })

  abbrev pub begin_checked : Visit → Option Member → Bool → Ledger → Ledger
  begin_checked v none password_ok l = l
  begin_checked v (some m) true l = begin v (id_of m) l
  begin_checked v (some m) false l = l

  abbrev pub begin_known : Visit → Option Member → Ledger → Ledger
  begin_known v none l = l
  begin_known v (some m) l = begin v (id_of m) l

  abbrev pub spend_raw : Visit → Grants → Option Text → Option (Text × Grants)
  spend_raw v g none = none
  spend_raw v g (some raw) =
      let decoded = lib.decode (refresh_secret s) raw true v.now in
      spend g v.now (named_by (codes "refresh") (λ c. c.sub) decoded)

  abbrev pub revoke_raw : Visit → Grants → Option Text → Grants
  revoke_raw v g none = g
  revoke_raw v g (some raw) = revoke_named g (lib.decode (refresh_secret s) raw false v.now)

  -- What a request does to the two registries and the accounts.
  unfoldable pub ledger_step : Visit → Call → Ledger → Ledger
  ledger_step v (registers body) l =
      begin_signed_up v
        (new_member s v body.email (pw.hash body.password) body.display_name body.accept_terms)
        (register_error s lib pw v body l.users) l
  ledger_step v (logs_in email password) l =
      let found = by_email l.users email in
      begin_checked v found (pw.check password (hash_of s lib pw found)) l
  ledger_step v (enters_demo email session_id seed) l =
      let users = if is_some (by_email l.users email) then l.users else seed l.users in
      if s.demo_mode then begin_known v (by_email users email) (record l { users = users }) else l
  ledger_step v (asks_link given name accept_terms password) l =
      let email = lower given in
      let m = new_member s v email (pw.hash password) name accept_terms in
      if s.demo_mode
      then l
      else if is_some (by_email l.users email)
      then invite_by v email l
      else if magic_link_error s lib pw v email accept_terms l.users
      then l
      else invite_by v email (record l { users = l.users ++ (m ∷ []) })
  ledger_step v (uses_link token) l =
      let decoded = lib.decode s.secret_key token true v.now in
      after_link v l (spend l.links v.now (named_by (codes "magic") (λ c. c.email) decoded))
  ledger_step v (refreshes body cookie) l =
      after_refresh v l (spend_raw v l.sessions (raw_token body cookie))
  ledger_step v (logs_out body cookie) l = record l {
    sessions = revoke_raw v l.sessions (raw_token body cookie);
  }
  ledger_step v (confirms token) l = record l {
    users = (confirm_email s lib v.now token l.users).1;
  }
  ledger_step v (resends u) l = l

  unfoldable pub ledger_run : List (Visit × Call) → Ledger → Ledger
  ledger_run [] l = l
  ledger_run ((v, k) ∷ ks) l = ledger_run ks (ledger_step v k l)
