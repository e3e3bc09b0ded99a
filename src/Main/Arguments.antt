-- ===== src/Main/Arguments.antt =====
-- `parseargs` (aiosmtpd/main.py), behind argparse.
use aiosmtpd.Prelude.{
  ℕ, ◌≡◌, refl, ap, ◌∙◌, ◌↔◌, Bool, true, false, Option, none, some, List, [], ◌∷◌, ◌++◌, arith,
}
use aiosmtpd.Prelude.Tests.{if◌then◌else◌}
use aiosmtpd.Prelude.Text.{Text, codes}
use aiosmtpd.Main.Listen.{rpartition, ParseResult, parsed, usage, raises, ℤ, Address, listen_on}

-- What argparse makes of the command line: the options that `_parser` declares.
pub record Options : Type 0 where
  pub setuid : Bool
  pub classpath : Text
  pub size : Option ℤ
  pub smtputf8 : Bool
  pub debug : ℕ
  pub listen : Option Text
  pub smtpscert : Option Text
  pub smtpskey : Option Text
  pub tlscert : Option Text
  pub tlskey : Option Text
  pub requiretls : Bool
  pub classargs : List Text

-- The defaults of `_parser`.
unfoldable pub default_options : Options
default_options = record {
  setuid = true;
  classpath = codes "aiosmtpd.handlers.Debugging";
  size = none;
  smtputf8 = false;
  debug = 0;
  listen = none;
  smtpscert = none;
  smtpskey = none;
  tlscert = none;
  tlskey = none;
  requiretls = true;
  classargs = [];
}

-- A class of handlers: what its `from_cli` makes of the arguments, or, without a `from_cli`, what a
-- call without arguments makes.
pub data Class (H : Type 0) : Type 0 where
  with_cli : (List Text → ParseResult H) → Class H
  plain : H → Class H

-- What the program looks for outside: `import_module` and `getattr`, files, and what `int` reads.
pub record Surroundings (H : Type 0) : Type 0 where
  pub find_class : Text → Text → ParseResult (Class H)
  pub exists : Text → Bool
  pub to_int : Text → Option ℤ

infixl 5 ◌>>=◌ ◌>>◌
abbrev pub ◌>>=◌ {ℓ κ} :
    {A : Type ℓ} {B : Type κ} → ParseResult A → (A → ParseResult B) → ParseResult B
parsed a >>= f = f a
usage t >>= f = usage t
raises t >>= f = raises t

abbrev pub ◌>>◌ {ℓ} : {B : Type ℓ} → ParseResult (Unit {0}) → ParseResult B → ParseResult B
p >> q = p >>= λ _. q

-- The namespace that `parseargs` returns.
pub record Namespace (H : Type 0) : Type 0 where
  pub options : Options
  pub handler : H
  pub address : Address

unfoldable pub make_handler : {H : Type 0} → Text → List Text → Class H → ParseResult H
make_handler path args (with_cli f) = f args
make_handler path [] (plain h) = parsed h
make_handler path (a ∷ rest) (plain h) =
    usage (codes "Handler class " ++ path ++ codes " takes no arguments")

-- `bool(cert) ^ bool(key)`
unfoldable pub one_without : Option Text → Option Text → Bool
one_without none none = false
one_without (some c) (some k) = false
one_without _ _ = true

unfoldable pub check_together : Text → Option Text → Option Text → ParseResult (Unit {0})
unfolding one_without
check_together message cert key = if one_without cert key then usage message else parsed tt

abbrev pub smtps_message : Text
smtps_message = codes "--smtpscert and --smtpskey must be specified together"

abbrev pub tls_message : Text
tls_message = codes "--tlscert and --tlskey must be specified together"

>>=-eq-parsed {ℓ κ} :
    {A : Type ℓ} {B : Type κ} (p : ParseResult A) (f : A → ParseResult B) {b : B}
    → (p >>= f) ≡ parsed b
    → (a : A) × (p ≡ parsed a) × (f a ≡ parsed b)
>>=-eq-parsed (parsed a) f h = (a, refl, h)
>>=-eq-parsed (usage t) f h = cc
>>=-eq-parsed (raises t) f h = cc

parsed-injective {ℓ} : {A : Type ℓ} {a b : A} → parsed a ≡ parsed b → a ≡ b
parsed-injective h = cc

module _ {H : Type 0} (w : Surroundings H) where
  -- The class is named by what stands behind the last dot.
  unfoldable pub find_handler : Text → List Text → ParseResult H
  unfolding make_handler rpartition
  find_handler classpath args =
      let (path, dot, name) = rpartition 46 classpath in
      w.find_class path name >>= make_handler path args

  unfoldable pub check_exists : Text → Option Text → ParseResult (Unit {0})
  check_exists kind none = parsed tt
  check_exists kind (some f) =
      if w.exists f then parsed tt else usage (kind ++ f ++ codes " not found")

  unfoldable pub check_files : Text → Option Text → Option Text → ParseResult (Unit {0})
  unfolding check_together check_exists
  check_files message cert key = do
    check_together message cert key
    check_exists (codes "Cert file ") cert
    check_exists (codes "Key file ") key

  -- `parseargs`
  unfoldable pub parseargs : Options → ParseResult (Namespace H)
  parseargs o = do
    h ← find_handler o.classpath o.classargs
    a ← listen_on w.to_int o.listen
    check_files smtps_message o.smtpscert o.smtpskey
    check_files tls_message o.tlscert o.tlskey
    parsed (record { options = o; handler = h; address = a })

  -- Neither file is given, or both are and are there.
  abbrev pub ArePaired : Option Text → Option Text → Type 0
  ArePaired none none = Unit
  ArePaired (some c) (some k) = (w.exists c ≡ true) × (w.exists k ≡ true)
  ArePaired _ _ = ⊥

  check_files_iff :
      (message : Text) (cert key : Option Text)
      → (check_files message cert key ≡ parsed tt) ↔ ArePaired cert key
  unfolding check_files check_together one_without check_exists
  check_files_iff message none none = ground arith
  check_files_iff message none (some k) = ground arith
  check_files_iff message (some c) none = ground arith
  check_files_iff message (some c) (some k) = ground arith

  -- The arguments are accepted exactly when there is a handler to be made of the class and its
  -- arguments, an address can be read, and of each of the two pairs of a certificate and a key
  -- neither file is given or both are and exist; the namespace then holds the handler and the address.
  pub parseargs_iff :
      (o : Options) (h : H) (a : Address)
      → (parseargs o ≡ parsed (record { options = o; handler = h; address = a })) ↔ (
          (find_handler o.classpath o.classargs ≡ parsed h)
          × (listen_on w.to_int o.listen ≡ parsed a)
          × ArePaired o.smtpscert o.smtpskey
          × ArePaired o.tlscert o.tlskey)
  unfolding parseargs
  parseargs_iff o h a = (
    λ e.
        let (h', eh, e1) = >>=-eq-parsed (find_handler o.classpath o.classargs) _ e in
        let (a', ea, e2) = >>=-eq-parsed (listen_on w.to_int o.listen) _ e1 in
        let (u, es, e3) = >>=-eq-parsed (check_files smtps_message o.smtpscert o.smtpskey) _ e2 in
        let (v, et, e4) = >>=-eq-parsed (check_files tls_message o.tlscert o.tlskey) _ e3 in
        (
          eh ∙ ap parsed (ap (λ n. n.handler) (parsed-injective e4)),
          ea ∙ ap parsed (ap (λ n. n.address) (parsed-injective e4)),
          (check_files_iff smtps_message o.smtpscert o.smtpskey).0 es,
          (check_files_iff tls_message o.tlscert o.tlskey).0 et,
        ),
    λ k.
        rw
          (
            k.0,
            k.1,
            (check_files_iff smtps_message o.smtpscert o.smtpskey).1 k.2,
            (check_files_iff tls_message o.tlscert o.tlskey).1 k.3,
          )
          refl,
  )
