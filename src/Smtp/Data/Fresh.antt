-- ===== src/Smtp/Data/Fresh.antt =====
-- Between two messages nothing is left of the first: the reset at the end of `smtp_DATA`
-- (aiosmtpd/smtp.py).
use aiosmtpd.Prelude.{◌≡◌, refl, true, false, Bool, Option, none, some, List, map, arith}
use aiosmtpd.Prelude.Lists.{is_empty}
use aiosmtpd.Prelude.Text.{Bytes, codes}
use aiosmtpd.Smtp.State.{
  Smtp, Value, Content, raw, create_envelope, assertion_error, Error, Result, ok, err,
}
use aiosmtpd.Smtp.Exec.{Exec, Done, raise, modify, choose, match_option, continue, ◌>>=◌}
use aiosmtpd.Smtp.Server.{Server}
use aiosmtpd.Smtp.Wire.{push, write, encode, connection_lost, set_post_data_state, or_default}
use aiosmtpd.Smtp.Data.{
  Collected, concat, unstuff, is_nominal, decode_content, deliver, set_content, data_accept,
  data_end, receive_message,
}

-- If `m` returns, the envelope is new.
abbrev Fresh : Exec Done → Type 0
Fresh m = (s : Smtp) → (m s).0 ≡ ok tt → (m s).1.envelope ≡ create_envelope

Fresh-bind {ℓ} :
    {A : Type ℓ} (m : Exec A) (f : A → Exec Done) → ((a : A) → Fresh (f a)) → Fresh (m >>= f)
unfolding ◌>>=◌
Fresh-bind {A} m f ff s h = go (m s).0 (m s).1 h
  where
    go :
        (r : Result A) (t : Smtp)
        → (continue r f t).0 ≡ ok tt
        → (continue r f t).1.envelope ≡ create_envelope
    go (ok a) t h = ff a t h
    go (err e) t h = cc

Fresh-raise : (e : Error) → Fresh (raise e)
unfolding raise
Fresh-raise e s h = cc

Fresh-choose : (b : Bool) (m n : Exec Done) → Fresh m → Fresh n → Fresh (choose b m n)
Fresh-choose true m n f g = f
Fresh-choose false m n f g = g

Fresh-some :
    (o : Option Content) (m : Exec Done) (f : Content → Exec Done) (c : Content)
    → o ≡ some c
    → ((c : Content) → Fresh (f c))
    → Fresh (match_option o m f)
Fresh-some none m f c e ff = cc
Fresh-some (some b) m f c e ff = ff b

Fresh-reset : Fresh (modify set_post_data_state)
unfolding modify set_post_data_state
Fresh-reset s h = refl

module _ (srv : Server) where
  push-envelope : (v : Value) (s : Smtp) → (push srv v s).1.envelope ≡ s.envelope
  unfolding push write ◌>>=◌ connection_lost
  push-envelope v s = go (encode srv v)
    where
      go : (r : Result Bytes) → (continue {B = Done} r write s).1.envelope ≡ s.envelope
      go (ok b) = ground arith
      go (err e) = refl

  Fresh-reply : (v : Value) → Fresh (modify set_post_data_state >>= λ d. push srv v)
  unfolding modify set_post_data_state ◌>>=◌
  Fresh-reply v s h = push-envelope v (set_post_data_state s)

  module _ (raw_data : srv.decode_data ≡ false) where
    decode-raw : (original : Bytes) → decode_content srv original ≡ some (raw original)
    unfolding decode_content
    decode-raw original = rw raw_data

    Fresh-accept : (lines : List Bytes) → Fresh (data_accept srv lines)
    unfolding data_accept
    Fresh-accept lines =
        Fresh-some (decode_content srv (concat (map unstuff lines))) _ _
          (raw (concat (map unstuff lines))) (decode-raw (concat (map unstuff lines)))
          λ content. Fresh-bind (modify (set_content content (concat (map unstuff lines)))) _ λ d.
            Fresh-bind (deliver srv) _ λ status. Fresh-reply (or_default status (codes "250 OK"))

    Fresh-end : (d : Collected) → Fresh (data_end srv d)
    Fresh-end d =
        Fresh-choose (is_nominal d.state) _ _
          (Fresh-choose (is_empty d.line_fragments) _ _ (Fresh-accept d.lines)
            (Fresh-raise assertion_error))
          (Fresh-bind _ _ (λ e. Fresh-reset))

    -- On a server that does not decode data, when the part of DATA behind its checks returns, the
    -- envelope is a new one, with no sender, recipient, option or content, whether the message was
    -- handed on or was too long or too large.
    pub receive_message-fresh :
        (s : Smtp)
        → (receive_message srv s).0 ≡ ok tt
        → (receive_message srv s).1.envelope ≡ create_envelope
    receive_message-fresh = Fresh-bind _ _ (λ d. Fresh-bind _ _ Fresh-end)
