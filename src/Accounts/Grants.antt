-- ===== src/Accounts/Grants.antt =====
-- The records of refresh tokens and sign-in links in the cache, and what the checks of
-- backend/app/api/auth.py make of one that is not there.
use readprism.Prelude.{
  ℕ, ◌≡◌, ◌≢◌, refl, inl, inr, Bool, true, false, Option, none, some, List, [], ◌∷◌, arith,
  if◌then◌else◌, Bool-cases,
}
use readprism.Prelude.Text.{Text, codes, text_eq, text_eq_iff}
use readprism.Accounts.Tokens.{
  Settings, Library, Claims, Cache, cache_delete, cache_get, is_claim, refresh_allowlist_key,
  magic_key, refresh_secret,
}
use readprism.Accounts.Replies.{Visit, Store, Reply, ok, http, Error}
use readprism.Accounts.SignIn.{Passwords}
use readprism.Accounts.Sessions.{
  check_refresh, check_magic, check_record, refresh_grant, magic_grant, decode_token, resend_key,
}
use readprism.Accounts.Calls.{Call, run}
use readprism.Accounts.Absent.{IsApart, AllApart, run_absent}

-- Each request draws another `uuid4` than `jti`.
unfoldable pub DrawsOther : Text → List (Visit × Call) → Type 0
DrawsOther jti [] = Unit
DrawsOther jti ((v, k) ∷ ks) = (text_eq jti v.jti ≡ false) × DrawsOther jti ks

-- The names of a session, of a link and of a resent mail do not meet.
pub refresh_key-IsApart :
    (jti : Text) (v : Visit) → text_eq jti v.jti ≡ false → IsApart (refresh_allowlist_key jti) v
unfolding refresh_allowlist_key magic_key resend_key
refresh_key-IsApart jti v h = record { of_session = h; of_link = refl; of_resend = λ t. refl }

pub magic_key-IsApart :
    (jti : Text) (v : Visit) → text_eq jti v.jti ≡ false → IsApart (magic_key jti) v
unfolding refresh_allowlist_key magic_key resend_key
magic_key-IsApart jti v h = record { of_session = refl; of_link = h; of_resend = λ t. refl }

refresh_keys-AllApart :
    (jti : Text) (ks : List (Visit × Call))
    → DrawsOther jti ks
    → AllApart (refresh_allowlist_key jti) ks
unfolding DrawsOther AllApart
refresh_keys-AllApart jti [] h = tt
refresh_keys-AllApart jti ((v, k) ∷ ks) (h, hs) =
    (refresh_key-IsApart jti v h, refresh_keys-AllApart jti ks hs)

magic_keys-AllApart :
    (jti : Text) (ks : List (Visit × Call)) → DrawsOther jti ks → AllApart (magic_key jti) ks
unfolding DrawsOther AllApart
magic_keys-AllApart jti [] h = tt
magic_keys-AllApart jti ((v, k) ∷ ks) (h, hs) =
    (magic_key-IsApart jti v h, magic_keys-AllApart jti ks hs)

pub text_eq_refl : (t : Text) → text_eq t t ≡ true
text_eq_refl t = (text_eq_iff t t).1 refl

-- After a deletion that succeeds the key is absent.
pub cache_delete_gone : (cache : Cache) (key : Text) → cache_delete true cache key key ≡ none
unfolding cache_delete
cache_delete_gone cache key = rw (text_eq_refl key) refl

cache_get_absent :
    (up : Bool) (cache : Cache) (now : ℕ) (key : Text)
    → cache key ≡ none
    → cache_get up cache now key ≡ none
unfolding cache_get
cache_get_absent up cache now key h = ground arith

taken_if :
    (b : Bool) (g h : Text × Text) (e : Error)
    → (if b then ok g else http e) ≡ ok h
    → (b ≡ true) × (g ≡ h)
taken_if true g h e eq = (refl, ground arith)
taken_if false g h e eq = cc

error-ok : (e : Error) (g : Text × Text) → http e ≢ ok g
error-ok e g eq = cc

module _ (s : Settings) (lib : Library) (pw : Passwords) where
  -- A grant is accepted on a record that is there.
  check_record_found :
      (bad : Error) (v : Visit) (cache : Cache) (key : Text → Text) (found : Option (Text × Text))
      (taken : Error) (owner jti : Text)
      → check_record s lib bad v cache key found taken ≡ ok (owner, jti)
      → is_claim (cache_get v.get_up cache v.now (key jti)) owner ≡ true
  check_record_found bad v cache key none taken owner jti e = cc
  check_record_found bad v cache key (some (o, j)) taken owner jti e =
      let live = is_claim (cache_get v.get_up cache v.now (key j)) o in
      let (t, same) = taken_if live (o, j) (owner, jti) taken e in
      let found : (o, j) ≡ (owner, jti) = same in grind (arith, t, found)

  refresh_grant_found :
      (v : Visit) (cache : Cache) (claims : Reply Claims) (owner jti : Text)
      → refresh_grant s lib v cache claims ≡ ok (owner, jti)
      → is_claim (cache_get v.get_up cache v.now (refresh_allowlist_key jti)) owner ≡ true
  refresh_grant_found v cache (http x) owner jti e = cc
  refresh_grant_found v cache (ok c) owner jti e =
      let of_type = is_claim c.type (codes "refresh") in
      elim (Bool-cases of_type) [
        | inl t ↦ check_record_found _ v cache refresh_allowlist_key _ _ owner jti (rw t at e)
        | inr f ↦ absurd (error-ok _ _ (rw f at e))
      ]

  check_refresh_found :
      (v : Visit) (raw : Option Text) (cache : Cache) (owner jti : Text)
      → check_refresh s lib v raw cache ≡ ok (owner, jti)
      → is_claim (cache_get v.get_up cache v.now (refresh_allowlist_key jti)) owner ≡ true
  unfolding check_refresh
  check_refresh_found v none cache owner jti e = cc
  check_refresh_found v (some raw) cache owner jti e =
      refresh_grant_found v cache (decode_token lib (refresh_secret s) raw v.now) owner jti e

  magic_grant_found :
      (v : Visit) (cache : Cache) (claims : Reply Claims) (owner jti : Text)
      → magic_grant s lib v cache claims ≡ ok (owner, jti)
      → is_claim (cache_get v.get_up cache v.now (magic_key jti)) owner ≡ true
  magic_grant_found v cache (http x) owner jti e = cc
  magic_grant_found v cache (ok c) owner jti e =
      let of_type = is_claim c.type (codes "magic") in
      elim (Bool-cases of_type) [
        | inl t ↦ check_record_found _ v cache magic_key _ _ owner jti (rw t at e)
        | inr f ↦ absurd (error-ok _ _ (rw f at e))
      ]

  check_magic_found :
      (v : Visit) (token : Text) (cache : Cache) (owner jti : Text)
      → check_magic s lib v token cache ≡ ok (owner, jti)
      → is_claim (cache_get v.get_up cache v.now (magic_key jti)) owner ≡ true
  unfolding check_magic
  check_magic_found v token cache owner jti e =
      magic_grant_found v cache (decode_token lib s.secret_key token v.now) owner jti e

  claim_absent :
      (up : Bool) (cache : Cache) (now : ℕ) (key owner : Text)
      → cache key ≡ none
      → is_claim (cache_get up cache now key) owner ≢ true
  claim_absent up cache now key owner h e =
      let gone = cache_get_absent up cache now key h in
      let e' : is_claim none owner ≡ true = rw gone at e in cc

  -- A key that is absent from a store is refused after any further run.
  pub refused_after :
      (jti : Text) (st : Store) (ks : List (Visit × Call)) (w : Visit) (raw : Option Text)
      (owner : Text)
      → st.cache (refresh_allowlist_key jti) ≡ none
      → DrawsOther jti ks
      → check_refresh s lib w raw (run s lib pw ks st).cache ≢ ok (owner, jti)
  refused_after jti st ks w raw owner h others e =
      let key = refresh_allowlist_key jti in
      let after = run s lib pw ks st in
      let gone = run_absent s lib pw key ks st (refresh_keys-AllApart jti ks others) h in
      claim_absent w.get_up after.cache w.now key owner gone
        (check_refresh_found w raw after.cache owner jti e)

  pub link_refused_after :
      (jti : Text) (st : Store) (ks : List (Visit × Call)) (w : Visit) (token owner : Text)
      → st.cache (magic_key jti) ≡ none
      → DrawsOther jti ks
      → check_magic s lib w token (run s lib pw ks st).cache ≢ ok (owner, jti)
  link_refused_after jti st ks w token owner h others e =
      let key = magic_key jti in
      let after = run s lib pw ks st in
      let gone = run_absent s lib pw key ks st (magic_keys-AllApart jti ks others) h in
      claim_absent w.get_up after.cache w.now key owner gone
        (check_magic_found w token after.cache owner jti e)
