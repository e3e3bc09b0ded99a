-- ===== src/Controller/Settings.antt =====
-- The keyword arguments that `BaseController.__init__` (aiosmtpd/controller.py) keeps for `SMTP`.
use aiosmtpd.Prelude.{◌≡◌, refl, ◌∙◌, Bool, true, false, Option, none, some, [], ◌∷◌, arith}
use aiosmtpd.Prelude.Tests.{or_else, if◌then◌else◌}
use aiosmtpd.Prelude.Text.{Text, Dict, codes, text_eq, text_eq_iff, get, put, get-put}
use aiosmtpd.Smtp.State.{Value, bool, str}

-- `d.update(e)`
unfoldable pub update : Dict Value → Dict Value → Dict Value
update d [] = d
update d ((k, v) ∷ e) = update (put k v d) e

unfoldable pub set_missing : Option Value → Text → Value → Dict Value → Dict Value
set_missing (some v) k w d = d
set_missing none k w d = put k w d

-- `d.setdefault(k, w)`
unfoldable pub setdefault : Text → Value → Dict Value → Dict Value
unfolding set_missing
setdefault k w d = set_missing (get k d) k w d

-- `if server_hostname: …`
unfoldable pub with_hostname : Option Text → Dict Value → Dict Value
with_hostname none d = d
with_hostname (some []) d = d
with_hostname (some (c ∷ cs)) d = put (codes "hostname") (str (c ∷ cs)) d

-- The deprecated `server_kwargs` where they are given, with the other parameters over them. The
-- dictionary is the one that was given, so what is put into it is seen by whoever holds it.
unfoldable pub starting_kwargs : Option (Dict Value) → Dict Value
starting_kwargs none = []
starting_kwargs (some d) = d

-- `self.SMTP_kwargs`, from `server_kwargs`, the other parameters and `server_hostname`
unfoldable pub smtp_kwargs : Option (Dict Value) → Dict Value → Option Text → Dict Value
unfolding update setdefault with_hostname starting_kwargs
smtp_kwargs server_kwargs parameters server_hostname =
    setdefault (codes "enable_SMTPUTF8") (bool true)
      (with_hostname server_hostname (update (starting_kwargs server_kwargs) parameters))

-- The value that a row of assignments leaves at a key.
abbrev pub latest : Text → Dict Value → Option Value
latest k [] = none
latest k ((j, v) ∷ e) = or_else (latest k e) (if text_eq j k then some v else none)

-- What `server_hostname` says of a key.
abbrev pub host_value : Option Text → Text → Option Value
host_value (some (c ∷ cs)) k = if text_eq (codes "hostname") k then some (str (c ∷ cs)) else none
host_value _ k = none

abbrev pub default_value : Text → Option Value
default_value k = if text_eq (codes "enable_SMTPUTF8") k then some (bool true) else none

or_else_assoc : (a b c : Option Value) → or_else (or_else a b) c ≡ or_else a (or_else b c)
or_else_assoc none b c = refl
or_else_assoc (some v) b c = refl

or_else_if :
    (t : Bool) (v : Value) (o : Option Value)
    → (if t then some v else o) ≡ or_else (if t then some v else none) o
or_else_if true v o = refl
or_else_if false v o = refl

get-update : (k : Text) (d e : Dict Value) → get k (update d e) ≡ or_else (latest k e) (get k d)
unfolding update
get-update k d [] = refl
get-update k d ((j, v) ∷ e) =
    rw
      (
        get-update k (put j v d) e,
        get-put j k v d,
        or_else_if (text_eq j k) v (get k d),
        or_else_assoc (latest k e) (if text_eq j k then some v else none) (get k d),
      )
      refl

get-with_hostname :
    (k : Text) (h : Option Text) (d : Dict Value)
    → get k (with_hostname h d) ≡ or_else (host_value h k) (get k d)
unfolding with_hostname
get-with_hostname k none d = refl
get-with_hostname k (some []) d = refl
get-with_hostname k (some (c ∷ cs)) d =
    get-put (codes "hostname") k (str (c ∷ cs)) d
    ∙ or_else_if (text_eq (codes "hostname") k) (str (c ∷ cs)) (get k d)

get-setdefault :
    (k j : Text) (v : Value) (d : Dict Value)
    → get k (setdefault j v d) ≡ or_else (get k d) (if text_eq j k then some v else none)
unfolding setdefault set_missing
get-setdefault k j v d = ground (arith, get-put j k v d, text_eq_iff j k)

-- Of each keyword argument, what the server gets is: the `server_hostname` that is not empty, if it is
-- the host's name; or else the parameter given to the controller; or else what the old
-- `server_kwargs` say; or else, for `enable_SMTPUTF8`, `True`; or else nothing.
pub get-smtp_kwargs :
    (k : Text) (server_kwargs : Option (Dict Value)) (parameters : Dict Value) (host : Option Text)
    → get k (smtp_kwargs server_kwargs parameters host)
      ≡ or_else (host_value host k) (
          or_else
            (latest k parameters)
            (or_else (get k (starting_kwargs server_kwargs)) (default_value k)))
unfolding smtp_kwargs
get-smtp_kwargs k server_kwargs parameters host =
    let old = starting_kwargs server_kwargs in
    let given = update old parameters in
    simp (
      get-setdefault k (codes "enable_SMTPUTF8") (bool true) (with_hostname host given),
      get-with_hostname k host given,
      get-update k old parameters,
      or_else_assoc,
    )
