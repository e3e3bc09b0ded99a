-- ===== src/Smtp/Init/Checks.antt =====
-- What `SMTP.__init__` and `auth_mechanism` (aiosmtpd/smtp.py) refuse.
use aiosmtpd.Prelude.{ℕ, Bool, ◌&&◌, ◌||◌, not, Option, none, some, [], ◌∷◌, ◌++◌}
use aiosmtpd.Prelude.Tests.{◌==◌, leb, if◌then◌else◌}
use aiosmtpd.Prelude.Lists.{all, is_empty}
use aiosmtpd.Prelude.Text.{Text, Dict, codes, get}
use aiosmtpd.Smtp.Server.{EhloHook, old_style, new_style, Library, CallLimit, Proxying}

-- What `__init__` raises.
pub data InitError : Type 0 where
  value_error type_error runtime_error : Text → InitError

-- A value, or an exception of `__init__`.
pub data Construction {ℓ} (A : Type ℓ) : Type ℓ where
  made : A → Construction A
  refuses : InitError → Construction A

infixl 5 ◌>>=◌
abbrev pub ◌>>=◌ {ℓ κ} :
    {A : Type ℓ} {B : Type κ} → Construction A → (A → Construction B) → Construction B
made a >>= f = f a
refuses e >>= f = refuses e

-- The version of `handle_EHLO`, by the number of its parameters.
unfoldable pub ehlo_hook_version : Option ℕ → Construction (Option EhloHook)
ehlo_hook_version none = made none
ehlo_hook_version (some n) =
    if n == 4
    then made (some old_style)
    else if n == 5
    then made (some new_style)
    else refuses (runtime_error (codes "Unsupported EHLO Hook"))

-- `command_call_limit`: `None`, a number, a dictionary whose values are numbers or something else, or
-- something else.
pub data LimitValue : Type 0 where
  int : ℕ → LimitValue
  not_int : LimitValue

pub data LimitGiven : Type 0 where
  no_limit : LimitGiven
  one_limit : ℕ → LimitGiven
  limits : Dict LimitValue → LimitGiven
  other_value : LimitGiven

-- the numbers, if all are numbers
unfoldable pub numbers : Dict LimitValue → Option (Dict ℕ)
numbers [] = some []
numbers ((k, not_int) ∷ d) = none
numbers ((k, int n) ∷ d) = elim (numbers d) [ none ↦ none | some e ↦ some ((k, n) ∷ e) ]

unfoldable pub or_value : {A : Type 0} → Option A → A → A
or_value none a = a
or_value (some b) a = b

abbrev pub call_limit_default : ℕ
call_limit_default = 20

unfoldable pub limits_of : Option (Dict ℕ) → Construction (Option CallLimit)
unfolding or_value
limits_of none = refuses (type_error (codes "All command_call_limit values must be int"))
limits_of (some d) =
    made (some (record { base = d; default = or_value (get (codes "*") d) call_limit_default }))

unfoldable pub call_limit : LimitGiven → Construction (Option CallLimit)
unfolding numbers limits_of
call_limit no_limit = made none
call_limit (one_limit n) = made (some (record { base = []; default = n }))
call_limit (limits d) = limits_of (numbers d)
call_limit other_value =
    refuses (type_error (codes "command_call_limit must be int or Dict[str, int]"))

-- `proxy_protocol_timeout`; a number that is not positive is 0.
unfoldable pub proxy_timeout : Option Proxying → Construction (Option Proxying)
proxy_timeout none = made none
proxy_timeout (some p) =
    if p.timeout == 0
    then refuses (value_error (codes "proxy_protocol_timeout must be > 0"))
    else made (some p)

-- `VALID_AUTHMECH`
unfoldable pub is_mechanism_char : ℕ → Bool
is_mechanism_char c = (leb 65 c && leb c 90) || (leb 48 c && leb c 57) || c == 95 || c == 45

-- `auth_mechanism`: the name that the decorator gives. It reads the variable when it is applied, when
-- that is the upper-case name already.
unfoldable pub auth_mechanism : Library → Text → Construction Text
unfolding is_mechanism_char
auth_mechanism lib actual_name =
    let upper = lib.upper actual_name in
    if not (is_empty upper) && all is_mechanism_char upper
    then made upper
    else refuses (value_error (codes "Invalid AUTH mechanism name: " ++ upper))
