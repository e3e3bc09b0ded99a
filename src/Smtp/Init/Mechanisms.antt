-- ===== src/Smtp/Init/Mechanisms.antt =====
-- Which AUTH mechanisms a server has that `SMTP.__init__` (aiosmtpd/smtp.py) has made.
use aiosmtpd.Prelude.{
  ◌≡◌, refl, sym, ap, ◌∙◌, Bool, true, false, Option, none, some, List, [], ◌∷◌, arith,
}
use mathlib.Core.Path.{subst}
use aiosmtpd.Prelude.Tests.{or_else, if◌then◌else◌}
use aiosmtpd.Prelude.Text.{Text, Dict, text_eq, text_eq_iff, contains, get, put, get-put, remove}
use aiosmtpd.Smtp.Server.{AuthMechanism, Proxying, EhloHook, CallLimit, Server}
use aiosmtpd.Smtp.Init.{Arguments, settings, create_server}
use aiosmtpd.Smtp.Init.Members.{
  Member, mechanism_name, is_mechanism, add_mechanism, add_mechanisms, exclude, auth_methods,
  builtin_members,
}
use aiosmtpd.Smtp.Init.Checks.{
  Construction, made, refuses, ◌>>=◌, proxy_timeout, ehlo_hook_version, call_limit,
}

-- The last of the members that has a mechanism of this name.
abbrev pub latest_mechanism : Text → List Member → Option AuthMechanism
latest_mechanism k [] = none
latest_mechanism k (m ∷ ms) = or_else (latest_mechanism k ms) (
    if is_mechanism m
    then (if text_eq (mechanism_name m.given m.name) k then some m.mechanism else none)
    else none)

-- No key stands twice.
abbrev Unique : Dict AuthMechanism → Type 0
Unique [] = Unit
Unique ((j, v) ∷ d) = (get j d ≡ none) × Unique d

put-Unique : (k : Text) (v : AuthMechanism) (d : Dict AuthMechanism) → Unique d → Unique (put k v d)
unfolding put get
put-Unique k v [] u = (refl, tt)
put-Unique k v ((j, w) ∷ d) u =
    ground (arith, put-Unique k v d, get-put k j v d, text_eq_iff j k, text_eq_iff k j)

get-remove :
    (k j : Text) (d : Dict AuthMechanism)
    → Unique d
    → get j (remove k d) ≡ (if text_eq k j then none else get j d)
unfolding remove get
get-remove k j [] u = ground arith
get-remove k j ((i, w) ∷ d) u =
    ground (arith, get-remove k j d, text_eq_iff i k, text_eq_iff i j, text_eq_iff k j)

remove-Unique : (k : Text) (d : Dict AuthMechanism) → Unique d → Unique (remove k d)
unfolding remove get
remove-Unique k [] u = u
remove-Unique k ((j, w) ∷ d) u = ground (arith, remove-Unique k d, get-remove k j d)

if-Unique :
    (b : Bool) (d e : Dict AuthMechanism) → Unique d → Unique e → Unique (if b then d else e)
if-Unique true d e u v = u
if-Unique false d e u v = v

add_mechanism-Unique : (m : Member) (d : Dict AuthMechanism) → Unique d → Unique (add_mechanism m d)
unfolding add_mechanism
add_mechanism-Unique m d u =
    if-Unique (is_mechanism m) _ d (put-Unique (mechanism_name m.given m.name) m.mechanism d u) u

add_mechanisms-Unique :
    (ms : List Member) (d : Dict AuthMechanism) → Unique d → Unique (add_mechanisms ms d)
unfolding add_mechanisms
add_mechanisms-Unique [] d u = u
add_mechanisms-Unique (m ∷ ms) d u =
    add_mechanisms-Unique ms (add_mechanism m d) (add_mechanism-Unique m d u)

get-add_mechanism :
    (k : Text) (m : Member) (d : Dict AuthMechanism)
    → get k (add_mechanism m d)
      ≡ or_else
          (if is_mechanism m
            then (if text_eq (mechanism_name m.given m.name) k then some m.mechanism else none)
            else none)
          (get k d)
unfolding add_mechanism
get-add_mechanism k m d = ground (arith, get-put (mechanism_name m.given m.name) k m.mechanism d)

or_else_assoc : (a b c : Option AuthMechanism) → or_else (or_else a b) c ≡ or_else a (or_else b c)
or_else_assoc none b c = refl
or_else_assoc (some v) b c = refl

get-add_mechanisms :
    (k : Text) (ms : List Member) (d : Dict AuthMechanism)
    → get k (add_mechanisms ms d) ≡ or_else (latest_mechanism k ms) (get k d)
unfolding add_mechanisms
get-add_mechanisms k [] d = refl
get-add_mechanisms k (m ∷ ms) d =
    get-add_mechanisms k ms (add_mechanism m d)
    ∙ ap (or_else (latest_mechanism k ms)) (get-add_mechanism k m d)
    ∙ sym (or_else_assoc (latest_mechanism k ms) _ (get k d))

get-exclude :
    (k : Text) (ex : List Text) (d : Dict AuthMechanism)
    → Unique d
    → get k (exclude ex d) ≡ (if contains ex k then none else get k d)
unfolding exclude contains
get-exclude k [] d u = refl
get-exclude k (m ∷ ex) d u = ground (
  arith,
  get-exclude k ex (remove m d) (remove-Unique m d u),
  get-remove m k d u,
  text_eq_iff m k,
  text_eq_iff k m,
)

or_else_empty : (k : Text) (o : Option AuthMechanism) → or_else o (get k []) ≡ o
unfolding get
or_else_empty k none = refl
or_else_empty k (some v) = refl

>>=-eq-made {ℓ κ} :
    {A : Type ℓ} {B : Type κ} (m : Construction A) (f : A → Construction B) {b : B}
    → (m >>= f) ≡ made b
    → (a : A) × (m ≡ made a) × (f a ≡ made b)
>>=-eq-made (made a) f h = (a, refl, h)
>>=-eq-made (refuses e) f h = cc

made-injective {ℓ} : {A : Type ℓ} {a b : A} → made a ≡ made b → a ≡ b
made-injective h = cc

-- Where a server has been made, it is what the arguments say.
created :
    (a : Arguments) (srv : Server)
    → create_server a ≡ made srv
    → (p : Option Proxying) × (v : Option EhloHook) × (l : Option CallLimit) × (settings a p v l
        ≡ srv)
unfolding create_server
created a srv h =
    let (p, ep, h1) = >>=-eq-made (proxy_timeout a.proxy) _ h in
    let (v, ev, h2) = >>=-eq-made (ehlo_hook_version a.handler.ehlo_parameters) _ h1 in
    let (l, el, h3) = >>=-eq-made (call_limit a.command_call_limit) _ h2 in
    (p, v, l, made-injective h3)

get-auth_methods :
    (k : Text) (own handlers : List Member) (ex : List Text)
    → get k (auth_methods own handlers ex) ≡ (
        if contains ex k
        then none
        else or_else (latest_mechanism k handlers) (latest_mechanism k own))
unfolding auth_methods
get-auth_methods k own handlers ex =
    let built = add_mechanisms own [] in
    let all_ = add_mechanisms handlers built in
    get-exclude k ex all_ (add_mechanisms-Unique handlers built (add_mechanisms-Unique own [] tt))
    ∙ ap (λ o. if contains ex k then none else o)
        (get-add_mechanisms k handlers built
          ∙ ap (or_else (latest_mechanism k handlers))
              (get-add_mechanisms k own [] ∙ or_else_empty k (latest_mechanism k own)))

-- What a server offers under a name.
abbrev pub offered : Arguments → Text → Option AuthMechanism
offered a k =
    if contains a.auth_exclude_mechanism k
    then none
    else or_else (latest_mechanism k a.handler.mechanisms) (latest_mechanism k builtin_members)

abbrev Offers : Arguments → Server → Type 0
Offers a srv =
    ((k : Text) → get k srv.auth_methods ≡ offered a k)
    × (srv.require_starttls ≡ true → srv.tls_context ≡ true)

settings-Offers :
    (a : Arguments) (p : Option Proxying) (v : Option EhloHook) (l : Option CallLimit)
    → Offers a (settings a p v l)
unfolding settings
settings-Offers a p v l = (
  (λ k. get-auth_methods k builtin_members a.handler.mechanisms a.auth_exclude_mechanism),
  ground arith,
)

-- A server that has been made offers a mechanism under a name exactly as its handler has it last, or
-- else as `SMTP` itself has it, and none that is excluded; and it asks for STARTTLS only if it
-- has a TLS context.
pub create_server-mechanisms :
    (a : Arguments) (srv : Server)
    → create_server a ≡ made srv
    → ((k : Text) → get k srv.auth_methods ≡ offered a k)
      × (srv.require_starttls ≡ true → srv.tls_context ≡ true)
create_server-mechanisms a srv h =
    let (p, v, l, e) = created a srv h in subst (Offers a) e (settings-Offers a p v l)
