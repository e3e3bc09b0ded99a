-- ===== src/Proxy/Tlv.antt =====
-- The TLV vectors of a version 2 header: `ProxyTLV` (aiosmtpd/proxy_protocol.py).
pub mod Vectors
pub mod Ending
pub mod Names
use Prim.Native.Nat.{◌/◌, ◌%◌}
use aiosmtpd.Prelude.{
  ℕ, zero, suc, ◌+◌, Bool, true, false, ◌&&◌, not, Option, none, some, List, [], ◌∷◌, ◌++◌,
}
use aiosmtpd.Prelude.Tests.{ltb, ◌==◌, if◌then◌else◌}
use aiosmtpd.Prelude.Lists.{length, take, drop}
use aiosmtpd.Prelude.Text.{Text, Bytes, codes, text_eq, Dict, put}
use aiosmtpd.Proxy.Data.{
  Failure, malformed_tlv, unknown_type_tlv, index_error, out_of_fuel, from_bytes,
}

pub data TlvValue : Type 0 where
  raw : Bytes → TlvValue
  number : ℕ → TlvValue
  truth : Bool → TlvValue

-- `PP2_TYPENAME`
abbrev pub pp2_typename : List (ℕ × Text)
pp2_typename =
    (1, codes "ALPN")
    ∷ (2, codes "AUTHORITY")
    ∷ (3, codes "CRC32C")
    ∷ (4, codes "NOOP")
    ∷ (5, codes "UNIQUE_ID")
    ∷ (32, codes "SSL")
    ∷ (33, codes "SSL_VERSION")
    ∷ (34, codes "SSL_CN")
    ∷ (35, codes "SSL_CIPHER")
    ∷ (36, codes "SSL_SIG_ALG")
    ∷ (37, codes "SSL_KEY_ALG")
    ∷ (48, codes "NETNS")
    ∷ []

unfoldable pub typename_in : List (ℕ × Text) → ℕ → Option Text
typename_in [] typ = none
typename_in ((k, name) ∷ rest) typ = if k == typ then some name else typename_in rest typ

-- `name_to_num`
unfoldable pub num_in : List (ℕ × Text) → Text → Option ℕ
num_in [] name = none
num_in ((k, v) ∷ rest) name = if text_eq name v then some k else num_in rest name

unfoldable pub name_to_num : Text → Option ℕ
unfolding num_in
name_to_num name = num_in pp2_typename name

abbrev pub hex_digit : ℕ → ℕ
hex_digit n = if ltb n 10 then 48 + n else 55 + n

-- The name of a type: `none` is an unknown type where only known ones are accepted.
unfoldable pub name_of : Bool → ℕ → Option Text
unfolding typename_in
name_of strict typ = elim (typename_in pp2_typename typ) [
  | some name ↦ some name
  | none ↦
      if strict then none else some (codes "x" ++ hex_digit (typ / 16) ∷ hex_digit (typ % 16) ∷ [])
]

-- `rslt` and `tlv_loc`, which stay when parsing raises.
pub record Parsed : Type 0 where
  pub rslt : Dict TlvValue
  pub tlv_loc : Dict ℕ

abbrev pub parsed_empty : Parsed
parsed_empty = record { rslt = []; tlv_loc = [] }

unfoldable pub set_value : Text → TlvValue → Parsed → Parsed
set_value name value p = record p { rslt = put name value p.rslt }

unfoldable pub set_loc : Text → ℕ → Parsed → Parsed
set_loc name loc p = record p { tlv_loc = put name loc p.tlv_loc }

-- `rslt["SSL_CLIENT"]` and `rslt["SSL_VERIFY"]`
unfoldable pub set_ssl : ℕ → Bytes → Parsed → Parsed
unfolding set_value
set_ssl client rest p =
    set_value (codes "SSL_VERIFY") (number (from_bytes 0 (take 4 rest)))
      (set_value (codes "SSL_CLIENT") (number client) p)

-- A failure, or `none` for a return.
abbrev pub Parsing : Type 0
Parsing = Option Failure × Parsed

-- What the outer vector makes of the vectors inside it.
unfoldable pub after_ssl : Bool → Parsing → (Parsed → Parsing) → Parsing
unfolding set_value
after_ssl partial_ok (none, p) next = next (set_value (codes "SSL") (truth true) p)
after_ssl partial_ok (some malformed_tlv, p) next =
    (if partial_ok then none else some malformed_tlv, set_value (codes "SSL") (truth false) p)
after_ssl partial_ok (some e, p) next = (some e, p)

-- `_pars` from the index `i` on; the vectors inside an SSL vector stand behind five bytes of it.
unfoldable pub pars : Bool → Bool → ℕ → ℕ → ℕ → Bytes → Parsed → Parsing
unfolding name_of set_value set_loc set_ssl after_ssl
pars strict partial_ok zero offset i chunk p = (some out_of_fuel, p)
pars strict partial_ok (suc fuel) offset i [] p = (none, p)
pars strict partial_ok (suc fuel) offset i (typ ∷ tail) p =
    let len = from_bytes 0 (take 2 tail) in
    let val = take len (drop 2 tail) in
    let next =
      λ (q : Parsed). pars strict partial_ok fuel offset (i + 3 + len) (drop len (drop 2 tail)) q in
    elim (ltb (length val) len) [
      | true ↦ (some malformed_tlv, p)
      | false ↦ elim (name_of strict typ) [
        | none ↦ (some unknown_type_tlv, p)
        | some name ↦
            let q = set_loc name (offset + i) p in
            elim (text_eq name (codes "SSL")) [
              | false ↦ next (set_value name (raw val) q)
              | true ↦ elim val [
                | [] ↦ (some index_error, q)
                | client ∷ rest ↦
                    after_ssl partial_ok
                      (pars strict partial_ok fuel i 0 (drop 4 rest) (set_ssl client rest q)) next
              ]
            ]
      ]
    ]

-- `parse`; a malformed vector ends it quietly if `partial_ok`
unfoldable pub parse : Bytes → Bool → Bool → Parsing
unfolding pars
parse data_ partial_ok strict =
    let (e, p) = pars strict partial_ok (suc (length data_)) 0 0 data_ parsed_empty in
    elim e [
      | some malformed_tlv ↦ (if partial_ok then none else some malformed_tlv, p)
      | some other ↦ (some other, p)
      | none ↦ (none, p)
    ]

-- `from_raw`: a failure, nothing for no bytes, or the vectors
unfoldable pub from_raw : Bytes → Bool → Option Failure × Option Parsed
unfolding parse
from_raw [] strict = (none, none)
from_raw (c ∷ b) strict =
    let (e, p) = parse (c ∷ b) false strict in
    elim e [ some failure ↦ (some failure, none) | none ↦ (none, some p) ]
