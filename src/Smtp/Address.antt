-- ===== src/Smtp/Address.antt =====
-- The arguments of MAIL, RCPT and VRFY: `_strip_command_keyword`, `_getaddr` and `_getparams`
-- (aiosmtpd/smtp.py).
use aiosmtpd.Prelude.{Bool, false, ◌&&◌, ◌||◌, not, Option, none, some, List, [], ◌∷◌}
use aiosmtpd.Prelude.Tests.{ltb, ◌==◌, if◌then◌else◌}
use aiosmtpd.Prelude.Lists.{length, is_empty, take, drop, all}
use aiosmtpd.Prelude.Text.{Text, text_eq, lstrip, strip, starts_with, partition, Dict, put}
use aiosmtpd.Smtp.Server.{Server}

-- A parameter's value: `True`, or the text after the equals sign.
pub data Param : Type 0 where
  flag : Param
  text_value : Text → Param

unfoldable pub has_at : Text → Bool
has_at [] = false
has_at (d ∷ u) = d == 64 || has_at u

-- `rpartition("@")`: what stands before the last sign, or nothing
unfoldable pub local_part : Text → Text
unfolding has_at
local_part [] = []
local_part (c ∷ t) = if has_at t then c ∷ local_part t else []

module _ (srv : Server) where
  unfoldable pub strip_command_keyword : Text → Text → Option Text
  strip_command_keyword keyword arg =
      if text_eq (srv.library.upper (take (length keyword) arg)) keyword
      then some (strip srv.library.is_space (drop (length keyword) arg))
      else none

  abbrev pub parsed_addr : Text → Option (Text × Text)
  parsed_addr arg =
      if starts_with (60 ∷ []) (lstrip srv.library.is_space arg)
      then srv.library.get_angle_addr arg
      else srv.library.get_addr_spec arg

  -- `none` for `None, None`: the address cannot be parsed, or its local part is too long.
  unfoldable pub getaddr : Text → Option (Text × Text)
  unfolding local_part
  getaddr [] = some ([], [])
  getaddr (c ∷ arg) = elim (parsed_addr (c ∷ arg)) [
    | none ↦ none
    | some (addr, rest) ↦
        if ltb 0 srv.local_part_limit && ltb srv.local_part_limit (length (local_part addr))
        then none
        else some (addr, rest)
  ]

  -- One parameter: its name and its value, unless it is malformed.
  unfoldable pub getparam : Text → Option (Text × Param)
  getparam param =
      let (name, eq, value) = partition 61 param in
      if is_empty name || not (all srv.library.is_alnum name) || (eq && is_empty value)
      then none
      else some (name, if eq then text_value value else flag)

  unfoldable pub getparams_from : Dict Param → List Text → Option (Dict Param)
  unfolding getparam
  getparams_from acc [] = some acc
  getparams_from acc (p ∷ ps) = elim (getparam p) [
    | none ↦ none
    | some (name, value) ↦ getparams_from (put name value acc) ps
  ]

  unfoldable pub getparams : List Text → Option (Dict Param)
  unfolding getparams_from
  getparams params = getparams_from [] params
