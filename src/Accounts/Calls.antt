-- ===== src/Accounts/Calls.antt =====
-- The handlers of backend/app/api/auth.py as the steps of one store; a run is a sequence of
-- them. The demo sign-in brings the seed of the demo data with it.
use readprism.Prelude.{ℕ, Bool, Option, none, some, List, [], ◌∷◌}
use readprism.Prelude.Text.{Text}
use readprism.Accounts.Tokens.{Settings, Library}
use readprism.Accounts.Registration.{Member, Users, by_id}
use readprism.Accounts.Replies.{Visit, Store}
use readprism.Accounts.SignIn.{
  UserCreate, Passwords, register, login, demo_login, magic_link_request,
}
use readprism.Accounts.Sessions.{
  refresh, logout, magic_link_verify, confirm_email, resend_verification,
}

pub data Call : Type 0 where
  registers : UserCreate → Call
  logs_in : Text → Text → Call
  enters_demo : Text → Text → (Users → Users) → Call
  asks_link : Text → Option Text → Bool → Text → Call
  uses_link : Text → Call
  refreshes : Option Text → Option Text → Call
  logs_out : Option Text → Option Text → Call
  confirms : Text → Call
  resends : ℕ → Call

module _ (s : Settings) (lib : Library) (pw : Passwords) where
  abbrev pub resent : Visit → Store → Option Member → Store
  resent v st none = st
  resent v st (some m) = record st { cache = (resend_verification s lib v m st.cache).0 }

  unfoldable pub step : Visit → Call → Store → Store
  step v (registers body) st = (register s lib pw v body st).0.1
  step v (logs_in email password) st = (login s lib pw v email password st).1
  step v (enters_demo email session_id seed) st = (demo_login s lib pw v email session_id seed st).1
  step v (asks_link email name accept_terms password) st =
      (magic_link_request s lib pw v email name accept_terms password st).0.1
  step v (uses_link token) st = (magic_link_verify s lib v token st).1
  step v (refreshes body cookie) st = (refresh s lib v body cookie st).1
  step v (logs_out body cookie) st = logout s lib v body cookie st
  step v (confirms token) st = record st { users = (confirm_email s lib v.now token st.users).1 }
  step v (resends u) st = resent v st (by_id st.users u)

  unfoldable pub run : List (Visit × Call) → Store → Store
  run [] st = st
  run ((v, k) ∷ ks) st = run ks (step v k st)
