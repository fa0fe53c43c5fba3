-- ===== src/Accounts/Refinement.antt =====
-- The cache under the handlers of backend/app/api/auth.py keeps two registries of one-time grants.
use readprism.Prelude.{ℕ, ◌≡◌, refl, ap, ◌∙◌, List, [], ◌∷◌}
use readprism.Prelude.Text.{Text}
use readprism.Accounts.Tokens.{Settings, Library}
use readprism.Accounts.Registration.{by_id}
use readprism.Accounts.Replies.{Visit, Store}
use readprism.Accounts.SignIn.{Passwords}
use readprism.Accounts.Sessions.{confirm_email}
use readprism.Accounts.Calls.{
  Call, registers, logs_in, enters_demo, asks_link, uses_link, refreshes, logs_out, confirms,
  resends, step, run,
}
use readprism.Accounts.Registry.{Ledger, ledger_step, ledger_run}
use readprism.Accounts.Views.{view, IsUp}
use readprism.Accounts.Views.Rotation.{view-refresh, view-logout}
use readprism.Accounts.Views.Entry.{
  view-register, view-login, view-demo_login, view-magic_link_request, view-magic_link_verify,
  view-resent,
}

-- Redis answers every call of the requests.
unfoldable pub AllUp : List (Visit × Call) → Type 0
AllUp [] = Unit
AllUp ((v, k) ∷ ks) = IsUp v × AllUp ks

module _ (s : Settings) (lib : Library) (pw : Passwords) where
  module _ (v : Visit) (up : IsUp v) where
    view-confirm :
        (token : Text) (st : Store)
        → view (record st { users = (confirm_email s lib v.now token st.users).1 })
          ≡ ledger_step s lib pw v (confirms token) (view st)
    unfolding view ledger_step
    view-confirm token st = refl

    ledger_step-resends : (u : ℕ) (l : Ledger) → l ≡ ledger_step s lib pw v (resends u) l
    unfolding ledger_step
    ledger_step-resends u l = refl

    step_refines :
        (k : Call) (st : Store) → view (step s lib pw v k st) ≡ ledger_step s lib pw v k (view st)
    unfolding step
    step_refines (registers body) st = view-register s lib pw v up body st
    step_refines (logs_in email password) st = view-login s lib pw v up email password st
    step_refines (enters_demo email session_id seed) st =
        view-demo_login s lib pw v up email session_id seed st
    step_refines (asks_link email name accept_terms password) st =
        view-magic_link_request s lib pw v up email name accept_terms password st
    step_refines (uses_link token) st = view-magic_link_verify s lib pw v up token st
    step_refines (refreshes body cookie) st = view-refresh s lib pw v up body cookie st
    step_refines (logs_out body cookie) st = view-logout s lib pw v up body cookie st
    step_refines (confirms token) st = view-confirm token st
    step_refines (resends u) st =
        view-resent s lib pw v up st (by_id st.users u) ∙ ledger_step-resends u (view st)

  -- While Redis answers, any run of the handlers, read through the view, is the run of the abstract
  -- account with its two registries of one-time grants.
  pub run_refines :
      (ks : List (Visit × Call)) (st : Store)
      → AllUp ks
      → view (run s lib pw ks st) ≡ ledger_run s lib pw ks (view st)
  unfolding run ledger_run AllUp
  run_refines [] st up = refl
  run_refines ((v, k) ∷ ks) st (up, rest) =
      run_refines ks (step s lib pw v k st) rest
      ∙ ap (ledger_run s lib pw ks) (step_refines v up k st)
