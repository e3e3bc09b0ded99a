-- ===== src/Smtp/Limits.antt =====
-- How long a MAIL command may be after greetings by EHLO (`smtp_EHLO` and the limit of
-- `_handle_client` in aiosmtpd/smtp.py).
use aiosmtpd.Prelude.{
  ℕ, zero, suc, ◌+◌, ◌*◌, ◌≡◌, refl, ap, ◌∙◌, Bool, true, Option, none, some, List, [], ◌∷◌, arith,
}
use aiosmtpd.Prelude.Tests.{if◌then◌else◌, is_some}
use aiosmtpd.Prelude.Text.{Text, Bytes, Dict, codes, get, put, get-put, text_eq_refl}
use aiosmtpd.Smtp.State.{Smtp, Value, Result, ok, err}
use aiosmtpd.Smtp.Exec.{Exec, Done, continue, match_option, ◌>>=◌, modify, gets, pure, lift}
use aiosmtpd.Smtp.Wire.{write, write_closing, push, encode, connection_lost, set_rset_state}
use aiosmtpd.Smtp.Server.{Server, EhloHook}
use aiosmtpd.Smtp.Greeting.{
  limit_of, grow_mail_limit, ehlo_limits, set_extended, set_host_name, push_all, ehlo_reply,
  smtp_ehlo,
}
use aiosmtpd.Smtp.Judge.{size_limit}

-- What one EHLO adds: room for SIZE, and room for SMTPUTF8.
abbrev pub room : Server → ℕ
room srv =
    (if is_some (limit_of srv.data_size_limit) then 26 else 0)
    + (if srv.enable_smtputf8 then 10 else 0)

get-put_same {ℓ} : {V : Type ℓ} (k : Text) (v : V) (d : Dict V) → get k (put k v d) ≡ some v
get-put_same {V = V} k v d =
    get-put k k v d
    ∙ ap (λ (b : Bool). (let x : Option V = if b then some v else get k d in x)) (text_eq_refl k)

module _ (srv : Server) where
  -- The limit of MAIL in an extended session.
  abbrev pub mail_limit : Smtp → ℕ
  mail_limit s = size_limit srv (set_extended true s) (codes "MAIL")

  mail_limit-eq :
      (s t : Smtp) → t.command_size_limits ≡ s.command_size_limits → mail_limit t ≡ mail_limit s
  unfolding size_limit set_extended
  mail_limit-eq s t h = rw h refl

  grow-limit : (k : ℕ) (s : Smtp) → mail_limit (grow_mail_limit srv k s) ≡ mail_limit s + k
  unfolding grow_mail_limit size_limit set_extended
  grow-limit k s = rw (get-put_same (codes "MAIL"))

  ehlo-limit : (s : Smtp) → mail_limit (ehlo_limits srv s) ≡ mail_limit s + room srv
  unfolding ehlo_limits
  ehlo-limit s =
      ground (arith, grow-limit 10 s, grow-limit 26 s, grow-limit 10 (grow_mail_limit srv 26 s))

  closing-limits :
      (b : Bytes) (n : ℕ) (s : Smtp)
      → (write_closing b n s).1.command_size_limits ≡ s.command_size_limits
  unfolding write_closing connection_lost
  closing-limits b zero s = refl
  closing-limits b (suc n) s = refl

  write-limits : (b : Bytes) (s : Smtp) → (write b s).1.command_size_limits ≡ s.command_size_limits
  unfolding write
  write-limits b s = ground (arith, closing-limits b s.flushing s)

  push-limits :
      (v : Value) (s : Smtp) → (push srv v s).1.command_size_limits ≡ s.command_size_limits
  unfolding push ◌>>=◌ lift
  push-limits v s = go (encode srv v)
    where
      go : (r : Result Bytes) → (continue r write s).1.command_size_limits ≡ s.command_size_limits
      go (ok b) = write-limits b s
      go (err e) = refl

  push_all-limits :
      (vs : List Value) (s : Smtp)
      → (push_all srv vs s).1.command_size_limits ≡ s.command_size_limits
  unfolding push_all ◌>>=◌ pure
  push_all-limits [] s = refl
  push_all-limits (v ∷ vs) s =
      go (push_all-limits vs) (push srv v s).0 (push srv v s).1 (push-limits v s)
    where
      go :
          ((t : Smtp) → (push_all srv vs t).1.command_size_limits ≡ t.command_size_limits)
          → (r : Result Done) (t : Smtp) → t.command_size_limits ≡ s.command_size_limits
          → (continue r (λ d. push_all srv vs) t).1.command_size_limits ≡ s.command_size_limits
      go ih (ok d) t h = ih t ∙ h
      go ih (err e) t h = h

  ehlo_reply-limits :
      (o : Option (Exec Done)) (v : Option EhloHook) (name : Text) (response : List Text) (s : Smtp)
      → o ≡ none
      → v ≡ none
      → ((match_option o (pure tt) (λ hook. hook) >>= (λ d. ehlo_reply srv v name response))
          s).1.command_size_limits
        ≡ s.command_size_limits
  unfolding ◌>>=◌ modify pure ehlo_reply set_host_name
  ehlo_reply-limits none none name response s h k = push_all-limits _ (set_host_name name s)
  ehlo_reply-limits none (some v) name response s h k = cc
  ehlo_reply-limits (some o) v name response s h k = cc

  module _ (c : ℕ) (name : Text) (hook : srv.ehlo_hook ≡ none)
      (version : srv.ehlo_hook_ver ≡ none) where
    -- `n` commands EHLO, each with this name
    abbrev pub greet : ℕ → Smtp → Smtp
    greet zero s = s
    greet (suc n) s = (smtp_ehlo srv (some (c ∷ name)) (greet n s)).1

    smtp_ehlo-limit :
        (s : Smtp) → mail_limit (smtp_ehlo srv (some (c ∷ name)) s).1 ≡ mail_limit s + room srv
    unfolding smtp_ehlo ◌>>=◌ modify gets set_extended set_rset_state
    smtp_ehlo-limit s =
        let before : Smtp = set_extended true (set_rset_state s) in
        let limited : Smtp = ehlo_limits srv before in
        mail_limit-eq limited (smtp_ehlo srv (some (c ∷ name)) s).1
          (ehlo_reply-limits srv.ehlo_hook srv.ehlo_hook_ver (c ∷ name) _ limited hook version)
        ∙ ehlo-limit before
        ∙ ap (λ n. n + room srv) (mail_limit-eq s before refl)

    -- On a server without an EHLO hook, after `n` commands EHLO that name a host the limit of MAIL is
    -- `n` times the room for the parameters that EHLO announces above what it was before them,
    -- whether the replies could be sent or not.
    pub greet-limit : (n : ℕ) (s : Smtp) → mail_limit (greet n s) ≡ mail_limit s + n * room srv
    greet-limit zero s = omega arith
    greet-limit (suc n) s = smtp_ehlo-limit (greet n s) ∙ omega (arith, greet-limit n s)
