-- ===== src/Smtp/Auth/Outcome.antt =====
-- Who authenticates a session: what the outcome of a mechanism does to it, and that nothing else does
-- (`smtp_AUTH` and the whole of a conversation in aiosmtpd/smtp.py).
use aiosmtpd.Prelude.{◌≡◌, refl, ◌⊎◌, inl, inr, Bool, true, false, ◌||◌, some, List, arith}
use aiosmtpd.Prelude.Tests.{Bool-cases}
use aiosmtpd.Prelude.Text.{Text, get}
use aiosmtpd.Smtp.State.{
  Smtp, AuthOutcome, Result, ok, err, result, value, Value, missing, none_value, bool, str, bytes,
  strs, login_password, proxy,
}
use aiosmtpd.Smtp.Exec.{◌>>=◌, continue}
use aiosmtpd.Smtp.Exec.Moves.{Law, Moves, Permits}
use aiosmtpd.Smtp.Server.{Server, AuthMechanism}
use aiosmtpd.Smtp.Auth.{auth_method, auth_status, conclude, set_authenticated, set_login_data}

-- Whether an outcome is an `AuthResult` that says so.
abbrev pub succeeds : AuthOutcome → Bool
succeeds (result r) = r.success
succeeds (value v) = false

-- A session is authenticated exactly if it was so before or the outcome says success. No value of the
-- old system authenticates it, not even those that are answered by 235.
conclude-authenticated :
    (srv : Server) (outcome : AuthOutcome) (s : Smtp)
    → (conclude srv outcome s).1.session.authenticated
      ≡ (succeeds outcome || s.session.authenticated)
unfolding conclude ◌>>=◌ set_authenticated set_login_data
conclude-authenticated srv (result r) s = ground arith
conclude-authenticated srv (value none_value) s = refl
conclude-authenticated srv (value missing) s = refl
conclude-authenticated srv (value (bool false)) s = refl
conclude-authenticated srv (value (bool true)) s = refl
conclude-authenticated srv (value (str t)) s = refl
conclude-authenticated srv (value (bytes b)) s = refl
conclude-authenticated srv (value (strs ts)) s = refl
conclude-authenticated srv (value (login_password l p)) s = refl
conclude-authenticated srv (value (proxy d)) s = refl

-- A mechanism of the server has returned an `AuthResult` that says success, to some arguments in
-- some state.
pub record IsApproved (srv : Server) : Type 0 where
  pub name : Text
  pub mechanism : AuthMechanism
  pub offered : get name srv.auth_methods ≡ some mechanism
  pub args : List Text
  pub state : Smtp
  pub outcome : AuthOutcome
  pub returned : (auth_method srv mechanism args state).0 ≡ ok outcome
  pub success : succeeds outcome ≡ true

-- Authenticated now, hence before, or by approval.
abbrev pub Traced : Server → Smtp → Smtp → Type 0
Traced srv s t = t.session.authenticated ≡ true → (s.session.authenticated ≡ true) ⊎ IsApproved srv

pub Traced-trans : (srv : Server) (s t u : Smtp) → Traced srv s t → Traced srv t u → Traced srv s u
Traced-trans srv s t u h k p = elim (k p) [ inl q ↦ h q | inr a ↦ inr a ]

abbrev pub traced_law : Server → Law
traced_law srv = record {
  rel = Traced srv;
  allowed = λ e. Unit;
  stay = λ s h. inl h;
  next = Traced-trans srv;
}

pub traced-Permits {ℓ} : {A : Type ℓ} (srv : Server) (r : Result A) → Permits (traced_law srv) r
traced-Permits srv (ok a) = tt
traced-Permits srv (err e) = tt

-- What the status of AUTH comes from keeps to that, if the mechanism itself does.
pub traced-auth_status :
    {srv : Server} (m : AuthMechanism) (k : Text)
    → get k srv.auth_methods ≡ some m
    → ((args : List Text) → Moves (traced_law srv) (auth_method srv m args))
    → (args : List Text) (v : Value) → Moves (traced_law srv) (auth_status srv m args v)
unfolding ◌>>=◌
traced-auth_status {srv} m k e moves args missing = record {
  at = λ s. go s (auth_method srv m args s).0 (auth_method srv m args s).1 refl ((moves args).at s);
  ends = λ s. traced-Permits srv _;
}
  where
    go :
        (s : Smtp) (r : Result AuthOutcome) (t : Smtp)
        → (auth_method srv m args s).0 ≡ r
        → Traced srv s t
        → Traced srv s (continue r (conclude srv) t).1
    go s (err x) t h q p = q p
    go s (ok o) t h q p = elim (Bool-cases (succeeds o)) [
      | inl y ↦ inr (record {
        name = k;
        mechanism = m;
        offered = e;
        args = args;
        state = s;
        outcome = o;
        returned = h;
        success = y;
      })
      | inr n ↦ q (ground (arith, conclude-authenticated srv o t))
    ]
traced-auth_status {srv} m k e moves args v = record { at = λ s h. inl h; ends = λ s. tt }
