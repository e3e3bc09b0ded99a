-- ===== src/Proxy/Attribs.antt =====
-- `same_attribs` of `ProxyTLV` and of `ProxyData`, and the property `tlv` (aiosmtpd/proxy_protocol.py).
use aiosmtpd.Prelude.{
  ℕ, ◌≡◌, refl, sym, ap, ◌∙◌, inl, inr, ◌≢◌, ◌↔◌, Bool, true, false, ◌&&◌, Option, none, some, [],
  ◌∷◌, arith,
}
use aiosmtpd.Prelude.Tests.{Option-cases, if◌then◌else◌}
use aiosmtpd.Prelude.Text.{Text, Bytes, Dict, codes, get}
use aiosmtpd.Proxy.Data.{Failure, malformed_tlv, Address, ProxyData, valid}
use aiosmtpd.Proxy.Tlv.{Parsed, from_raw}

-- What `same_attribs` comes to: an answer, a `KeyError` or a `ValueError` about an attribute.
pub data Answer : Type 0 where
  answers : Bool → Answer
  not_found mismatch : Text → Answer

module _ {V : Type 0} (eq : V → V → Bool) where
  unfoldable pub compare_attribute : Bool → Text → Option V → V → Answer → Answer
  compare_attribute raises k none v rest = if raises then not_found k else answers false
  compare_attribute raises k (some actual) v rest =
      if eq actual v then rest else if raises then mismatch k else answers false

  -- The loop over the expected attributes; `lookup` is `get` of a `ProxyTLV`, or `getattr`.
  unfoldable pub same_attribs : Bool → (Text → Option V) → Dict V → Answer
  unfolding compare_attribute
  same_attribs raises lookup [] = answers true
  same_attribs raises lookup ((k, v) ∷ kwargs) =
      compare_attribute raises k (lookup k) v (same_attribs raises lookup kwargs)

  abbrev same : Option V → V → Bool
  same none v = false
  same (some a) v = eq a v

  -- Every expected attribute is there, with the value expected.
  abbrev pub all_same : (Text → Option V) → Dict V → Bool
  all_same lookup [] = true
  all_same lookup ((k, v) ∷ kwargs) = same (lookup k) v && all_same lookup kwargs

  answers_step :
      (k : Text) (o : Option V) (v : V) (rest : Answer) (b : Bool)
      → rest ≡ answers b
      → compare_attribute false k o v rest ≡ answers (same o v && b)
  unfolding compare_attribute
  answers_step k none v rest b h = refl
  answers_step k (some a) v rest b h = ground arith

  answers_all :
      (lookup : Text → Option V) (kwargs : Dict V)
      → same_attribs false lookup kwargs ≡ answers (all_same lookup kwargs)
  unfolding same_attribs
  answers_all lookup [] = refl
  answers_all lookup ((k, v) ∷ kwargs) =
      answers_step k (lookup k) v (same_attribs false lookup kwargs) (all_same lookup kwargs)
        (answers_all lookup kwargs)

  raises_step :
      (k : Text) (o : Option V) (v : V) (rest : Answer) (b : Bool)
      → ((rest ≡ answers true) ↔ (b ≡ true)) × (rest ≢ answers false)
      → ((compare_attribute true k o v rest ≡ answers true) ↔ ((same o v && b) ≡ true))
        × (compare_attribute true k o v rest ≢ answers false)
  unfolding compare_attribute
  raises_step k none v rest b h = ground arith
  raises_step k (some a) v rest b h = ground arith

  raises_all :
      (lookup : Text → Option V) (kwargs : Dict V)
      → ((same_attribs true lookup kwargs ≡ answers true) ↔ (all_same lookup kwargs ≡ true))
        × (same_attribs true lookup kwargs ≢ answers false)
  unfolding same_attribs
  raises_all lookup [] = ground arith
  raises_all lookup ((k, v) ∷ kwargs) =
      raises_step k (lookup k) v (same_attribs true lookup kwargs) (all_same lookup kwargs)
        (raises_all lookup kwargs)

  -- Without `_raises` the answer is whether every expected attribute is there and equal; with it, the
  -- answer is `True` in the same cases, and in all others there is an exception and no answer.
  pub same_attribs-answers :
      (lookup : Text → Option V) (kwargs : Dict V)
      → (same_attribs false lookup kwargs ≡ answers (all_same lookup kwargs))
        × ((same_attribs true lookup kwargs ≡ answers true) ↔ (all_same lookup kwargs ≡ true))
        × (same_attribs true lookup kwargs ≢ answers false)
  same_attribs-answers lookup kwargs =
      (answers_all lookup kwargs, (raises_all lookup kwargs).0, (raises_all lookup kwargs).1)

-- The values of the attributes of a `ProxyData`.
pub data Attribute : Type 0 where
  number : Option ℕ → Attribute
  address : Option Address → Attribute
  bytes : Bytes → Attribute
  text : Text → Attribute
  truth : Bool → Attribute

-- `getattr`, of the attributes that a header sets and of `valid`
unfoldable pub attributes : ProxyData → Dict Attribute
unfolding valid
attributes d =
    (codes "version", number d.version)
    ∷ (codes "command", number d.command)
    ∷ (codes "family", number d.family)
    ∷ (codes "protocol", number d.protocol)
    ∷ (codes "src_addr", address d.src_addr)
    ∷ (codes "dst_addr", address d.dst_addr)
    ∷ (codes "src_port", number d.src_port)
    ∷ (codes "dst_port", number d.dst_port)
    ∷ (codes "rest", bytes d.rest)
    ∷ (codes "whole_raw", bytes d.whole_raw)
    ∷ (codes "tlv_start", number d.tlv_start)
    ∷ (codes "error", text d.error)
    ∷ (codes "valid", truth (valid d))
    ∷ []

unfoldable pub same_data_attribs :
    (Attribute → Attribute → Bool) → Bool → ProxyData → Dict Attribute → Answer
unfolding same_attribs attributes
same_data_attribs eq raises d kwargs = same_attribs eq raises (λ k. get k (attributes d)) kwargs

-- `_tlv`, and what reading the property gives: vectors or `None`, or an exception.
pub record TlvReading : Type 0 where
  pub cache : Option Parsed
  pub result : Option Parsed
  pub failure : Option Failure

-- `contextlib.suppress(MalformedTLV)`
unfoldable pub keep : Option Failure × Option Parsed → TlvReading
keep (none, parsed) = record { cache = parsed; result = parsed; failure = none }
keep (some malformed_tlv, parsed) = record { cache = none; result = none; failure = none }
keep (some e, parsed) = record { cache = none; result = none; failure = some e }

-- `tlv`, given `_tlv`
unfoldable pub tlv : ProxyData → Option Parsed → TlvReading
unfolding keep
tlv d (some parsed) = record { cache = some parsed; result = some parsed; failure = none }
tlv d none = keep (from_raw d.rest false)

keep_cache :
    (r : Option Failure × Option Parsed) (p : Parsed)
    → (keep r).cache ≡ some p
    → keep r ≡ record { cache = some p; result = some p; failure = none }
unfolding keep
keep_cache r p h = ground arith

-- The vectors are parsed once: reading the property again gives the same, and changes nothing.
pub tlv_again : (d : ProxyData) (cache : Option Parsed) → tlv d (tlv d cache).cache ≡ tlv d cache
unfolding tlv
tlv_again d (some p) = refl
tlv_again d none = elim (Option-cases (keep (from_raw d.rest false)).cache) [
  | inl e ↦ ap (tlv d) e
  | inr (p, e) ↦ ap (tlv d) e ∙ sym (keep_cache (from_raw d.rest false) p e)
]
