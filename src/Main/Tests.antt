-- ===== src/Main/Tests.antt =====
-- The theorems about the command line at concrete inputs.
use aiosmtpd.Prelude.{ℕ, ◌≡◌, refl, ◌↔◌, true, false, not, Option, none, some, [], ◌∷◌}
use aiosmtpd.Prelude.Text.{Text, codes}
use aiosmtpd.Main.Listen.{parsed, ℤ, pos, listen_on}
use aiosmtpd.Main.Arguments.{
  Options, default_options, plain, Surroundings, Namespace, find_handler, parseargs, ArePaired,
  parseargs_iff,
}
use aiosmtpd.Main.Start.{Effect, System, main, in_order, left_open, main-in_order}

abbrev host : Text
host = codes "localhost"

abbrev port : Text
port = codes "25"

abbrev read_25 : Text → Option ℤ
read_25 t = some (pos 25)

-- An IPv6 address without a port is split at its last colon.
listen_ipv6 : listen_on read_25 (some (codes "::1")) ≡ parsed (codes ":", pos 25)
unfolding listen_on codes
listen_ipv6 = refl

-- Every class is there and takes no arguments, and of the files only `cert` and `key`.
abbrev surroundings : Surroundings ℕ
surroundings = record {
  find_class = λ path name. parsed (plain 1);
  exists = λ f. true;
  to_int = read_25;
}

abbrev with_tls : Options
with_tls = record default_options { tlscert = some (codes "cert"); tlskey = some (codes "key") }

parseargs_iff_example :
    (parseargs surroundings with_tls
      ≡ parsed (record { options = with_tls; handler = 1; address = (host, pos 8025) }))
    ↔ ((find_handler surroundings with_tls.classpath with_tls.classargs ≡ parsed 1)
        × (listen_on read_25 with_tls.listen ≡ parsed (host, pos 8025))
        × ArePaired surroundings with_tls.smtpscert with_tls.smtpskey
        × ArePaired surroundings with_tls.tlscert with_tls.tlskey)
unfolding default_options
parseargs_iff_example = parseargs_iff surroundings with_tls 1 (host, pos 8025)

abbrev root : System
root = record {
  has_pwd = true;
  nobody = some 65534;
  may_setuid = true;
  chain_error = λ c k. none;
  bind_error = λ a. none;
  loop_error = none;
}

abbrev started : Namespace ℕ
started = record { options = with_tls; handler = 1; address = (host, pos 25) }

main-in_order_example :
    (in_order (not with_tls.setuid) (main root started).0 ≡ true)
    × ((main root started).1 ≡ none → left_open false (main root started).0 ≡ false)
main-in_order_example = main-in_order root started

-- What it does there.
main_effects : main root started ≡ (
  Effect.set_user 65534
      ∷ Effect.load_chain (codes "cert") (codes "key")
      ∷ Effect.listens (host, pos 25)
      ∷ Effect.loop_runs
      ∷ Effect.server_closes
      ∷ Effect.loop_closes
      ∷ [],
  none,
)
unfolding main default_options
main_effects = refl
