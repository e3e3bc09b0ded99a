-- ===== src/Smtp/Exec.antt =====
-- Coroutines of `SMTP`: they change the connection's state and return or raise. What was changed
-- before a raise stays changed.
pub mod Moves
use aiosmtpd.Prelude.{Bool, true, false, Option, none, some}
use aiosmtpd.Smtp.State.{Smtp, Error, Result, ok, err}

abbrev pub Exec {ℓ} : Type ℓ → Type ℓ
Exec A = Smtp → Result A × Smtp

abbrev pub Done : Type 0
Done = Unit

module _ {ℓ} {A : Type ℓ} where
  unfoldable pub pure : A → Exec A
  pure a s = (ok a, s)

  unfoldable pub raise : Error → Exec A
  raise e s = (err e, s)

  unfoldable pub gets : (Smtp → A) → Exec A
  gets f s = (ok (f s), s)

  unfoldable pub lift : Result A → Exec A
  lift r s = (r, s)

unfoldable pub modify : (Smtp → Smtp) → Exec Done
modify f s = (ok tt, f s)

module _ {ℓ κ} {A : Type ℓ} {B : Type κ} where
  abbrev pub continue : Result A → (A → Smtp → Result B × Smtp) → Smtp → Result B × Smtp
  continue (ok a) f s = f a s
  continue (err e) f s = (err e, s)

infixl 5 ◌>>=◌ ◌>>◌
-- Opening this opens `pure`, `raise`, `gets`, `lift` and `modify` too.
unfoldable pub ◌>>=◌ {ℓ κ} : {A : Type ℓ} {B : Type κ} → Exec A → (A → Exec B) → Exec B
unfolding pure raise gets lift modify
◌>>=◌ m f s = let (r, s') = m s in continue r f s'

abbrev pub ◌>>◌ {ℓ} : {B : Type ℓ} → Exec Done → Exec B → Exec B
m >> n = m >>= λ _. n

-- `try: m except e: h(e)`, on the exceptions
abbrev pub recover {ℓ} : {A : Type ℓ} → Result A → (Error → Exec A) → Smtp → Result A × Smtp
recover (ok a) h s = (ok a, s)
recover (err e) h s = h e s

unfoldable pub handle {ℓ} : {A : Type ℓ} → Exec A → (Error → Exec A) → Exec A
handle m h s = let (r, s') = m s in recover r h s'

-- `if b: m else: n`
abbrev pub choose {ℓ} : {A : Type ℓ} → Bool → Exec A → Exec A → Exec A
choose true m n = m
choose false m n = n

-- a match on an `Optional`
abbrev pub match_option {ℓ κ} :
    {A : Type ℓ} {B : Type κ} → Option A → Exec B → (A → Exec B) → Exec B
match_option none m f = m
match_option (some a) m f = f a
