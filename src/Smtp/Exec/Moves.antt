-- ===== src/Smtp/Exec/Moves.antt =====
-- Rules that follow a law through a coroutine, one for each way to build a coroutine. A law relates
-- the states before and after, and says which exceptions may end the coroutine. An invariant `P` is
-- the relation `λ s t. P s → P t`.
use aiosmtpd.Prelude.{◌≡◌, refl, Bool, true, false, Option, none, some}
use aiosmtpd.Smtp.State.{Smtp, Error, Result, ok, err}
use aiosmtpd.Smtp.Exec.{
  Exec, pure, raise, gets, lift, modify, ◌>>=◌, handle, choose, match_option, continue, recover,
}

-- A law that coroutines can follow one after another.
pub record Law : Type 1 where
  pub rel : Smtp → Smtp → Type 0
  pub allowed : Error → Type 0
  pub stay : (s : Smtp) → rel s s
  pub next : (s t u : Smtp) → rel s t → rel t u → rel s u

abbrev pub Permits {ℓ} : {A : Type ℓ} → Law → Result A → Type 0
Permits L (ok a) = Unit
Permits L (err e) = L.allowed e

-- However `m` ends, it follows the law.
pub record Moves {ℓ} {A : Type ℓ} (L : Law) (m : Exec A) : Type ℓ where
  pub at : (s : Smtp) → L.rel s (m s).1
  pub ends : (s : Smtp) → Permits L (m s).0

module _ {L : Law} where
  pub Moves-pure {ℓ} : {A : Type ℓ} (a : A) → Moves L (pure a)
  unfolding pure
  Moves-pure a = record { at = λ s. L.stay s; ends = λ s. tt }

  pub Moves-raise {ℓ} : {A : Type ℓ} (e : Error) → L.allowed e → Moves L (raise {A = A} e)
  unfolding raise
  Moves-raise e h = record { at = λ s. L.stay s; ends = λ s. h }

  pub Moves-gets {ℓ} : {A : Type ℓ} (f : Smtp → A) → Moves L (gets f)
  unfolding gets
  Moves-gets f = record { at = λ s. L.stay s; ends = λ s. tt }

  pub Moves-modify : (f : Smtp → Smtp) → ((s : Smtp) → L.rel s (f s)) → Moves L (modify f)
  unfolding modify
  Moves-modify f h = record { at = h; ends = λ s. tt }

  pub Moves-lift {ℓ} : {A : Type ℓ} (r : Result A) → Permits L r → Moves L (lift r)
  unfolding lift
  Moves-lift r h = record { at = λ s. L.stay s; ends = λ s. h }

  continue_at {ℓ κ} :
      {A : Type ℓ} {B : Type κ} (r : Result A) (f : A → Exec B) (s t : Smtp)
      → L.rel s t
      → ((a : A) → Moves L (f a))
      → L.rel s (continue r f t).1
  continue_at (ok a) f s t h mf = L.next s t (f a t).1 h ((mf a).at t)
  continue_at (err e) f s t h mf = h

  continue_ends {ℓ κ} :
      {A : Type ℓ} {B : Type κ} (r : Result A) (f : A → Exec B) (t : Smtp)
      → Permits L r
      → ((a : A) → Moves L (f a))
      → Permits L (continue r f t).0
  continue_ends (ok a) f t h mf = (mf a).ends t
  continue_ends (err e) f t h mf = h

  pub Moves-bind {ℓ κ} :
      {A : Type ℓ} {B : Type κ} (m : Exec A) (f : A → Exec B)
      → Moves L m
      → ((a : A) → Moves L (f a))
      → Moves L (m >>= f)
  unfolding ◌>>=◌
  Moves-bind m f mm mf = record {
    at = λ s. continue_at (m s).0 f s (m s).1 (mm.at s) mf;
    ends = λ s. continue_ends (m s).0 f (m s).1 (mm.ends s) mf;
  }

  recover_ends {ℓ} :
      {A : Type ℓ} (r : Result A) (h : Error → Exec A) (t : Smtp)
      → Permits L r
      → ((e : Error) → L.allowed e → Moves L (h e))
      → Permits L (recover r h t).0
  recover_ends (ok a) h t p mh = tt
  recover_ends (err e) h t p mh = (mh e p).ends t

  recover_at {ℓ} :
      {A : Type ℓ} (r : Result A) (h : Error → Exec A) (s t : Smtp)
      → L.rel s t
      → Permits L r
      → ((e : Error) → L.allowed e → Moves L (h e))
      → L.rel s (recover r h t).1
  recover_at (ok a) h s t st p mh = st
  recover_at (err e) h s t st p mh = L.next s t (h e t).1 st ((mh e p).at t)

  pub Moves-handle {ℓ} :
      {A : Type ℓ} (m : Exec A) (h : Error → Exec A)
      → Moves L m
      → ((e : Error) → L.allowed e → Moves L (h e))
      → Moves L (handle m h)
  unfolding handle
  Moves-handle m h mm mh = record {
    at = λ s. recover_at (m s).0 h s (m s).1 (mm.at s) (mm.ends s) mh;
    ends = λ s. recover_ends (m s).0 h (m s).1 (mm.ends s) mh;
  }

  pub Moves-choose {ℓ} :
      {A : Type ℓ} (b : Bool) (m n : Exec A) → Moves L m → Moves L n → Moves L (choose b m n)
  Moves-choose true m n mm mn = mm
  Moves-choose false m n mm mn = mn

  pub Moves-match_option {ℓ κ} :
      {A : Type ℓ} {B : Type κ} (x : Option A) (m : Exec B) (f : A → Exec B)
      → Moves L m
      → ((a : A) → Moves L (f a))
      → Moves L (match_option x m f)
  Moves-match_option none m f mm mf = mm
  Moves-match_option (some a) m f mm mf = mf a

  pub Moves-match_option_eq {ℓ κ} :
      {A : Type ℓ} {B : Type κ} (x : Option A) (m : Exec B) (f : A → Exec B)
      → Moves L m
      → ((a : A) → x ≡ some a → Moves L (f a))
      → Moves L (match_option x m f)
  Moves-match_option_eq none m f mm mf = mm
  Moves-match_option_eq (some a) m f mm mf = mf a refl

pub ruleset moves_rules =
    (Moves-pure, Moves-gets, Moves-modify, Moves-bind, Moves-choose, Moves-match_option)
