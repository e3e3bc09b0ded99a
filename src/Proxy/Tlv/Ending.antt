-- ===== src/Proxy/Tlv/Ending.antt =====
-- `ProxyTLV.parse` comes to an end on any bytes: each turn of its loop, and each vector inside an SSL
-- vector, starts behind bytes that have been read (aiosmtpd/proxy_protocol.py).
use aiosmtpd.Prelude.{
  ℕ, zero, suc, ◌+◌, ◌<◌, ◌≢◌, Bool, true, false, Option, none, some, [], ◌∷◌, arith,
}
use aiosmtpd.Prelude.Tests.{ltb, if◌then◌else◌}
use aiosmtpd.Prelude.Lists.{length, take, drop, length-drop, length-take}
use aiosmtpd.Prelude.Text.{Text, Bytes, codes, text_eq}
use aiosmtpd.Proxy.Data.{malformed_tlv, unknown_type_tlv, index_error, out_of_fuel, from_bytes}
use aiosmtpd.Proxy.Tlv.{
  raw, Parsed, Parsing, set_value, set_loc, set_ssl, after_ssl, name_of, pars, parse, parsed_empty,
}

-- It ends with a failure of the program or returns.
abbrev pub Ends : Parsing → Type 0
Ends y = y.0 ≢ some out_of_fuel

Ends-after_ssl :
    (partial_ok : Bool) (y : Parsing) (next : Parsed → Parsing)
    → Ends y
    → ((q : Parsed) → Ends (next q))
    → Ends (after_ssl partial_ok y next)
unfolding after_ssl
Ends-after_ssl partial_ok (none, p) next h f = f _
Ends-after_ssl true (some malformed_tlv, p) next h f = λ e. cc
Ends-after_ssl false (some malformed_tlv, p) next h f = λ e. cc
Ends-after_ssl partial_ok (some e, p) next h f = h

module _ (partial_ok : Bool) (q : Parsed) (inner : ℕ → Bytes → Parsing)
    (next : Parsed → Parsing) where
  -- The value of an SSL vector, which is not to be empty.
  Ends-ssl :
      (val : Bytes)
      → ((client : ℕ) (rest : Bytes) → length rest < length val → Ends (inner client rest))
      → ((q : Parsed) → Ends (next q))
      → Ends (elim val [
        | [] ↦ (some index_error, q)
        | client ∷ rest ↦ after_ssl partial_ok (inner client rest) next
      ])
  Ends-ssl [] h f = λ e. cc
  Ends-ssl (client ∷ rest) h f =
      Ends-after_ssl partial_ok (inner client rest) next (h client rest (omega arith)) f

Ends-bool : (b : Bool) (y z : Parsing) → Ends y → Ends z → Ends (elim b [ true ↦ y | false ↦ z ])
Ends-bool true y z h k = h
Ends-bool false y z h k = k

Ends-name :
    (o : Option Text) (y : Parsing) (f : Text → Parsing)
    → Ends y
    → ((name : Text) → Ends (f name))
    → Ends (elim o [ none ↦ y | some name ↦ f name ])
Ends-name none y f h k = h
Ends-name (some name) y f h k = k name

pars-Ends :
    (strict partial_ok : Bool) (fuel offset i : ℕ) (chunk : Bytes) (p : Parsed)
    → length chunk < fuel
    → Ends (pars strict partial_ok fuel offset i chunk p)
unfolding pars
pars-Ends strict partial_ok zero offset i chunk p h = absurd (omega arith)
pars-Ends strict partial_ok (suc fuel) offset i [] p h = λ e. cc
pars-Ends strict partial_ok (suc fuel) offset i (typ ∷ tail) p h =
    let len = from_bytes 0 (take 2 tail) in
    let val = take len (drop 2 tail) in
    let next = λ (q : Parsed).
      pars-Ends strict partial_ok fuel offset (i + 3 + len) (drop len (drop 2 tail)) q
        (omega (arith, length-drop len (drop 2 tail), length-drop 2 tail)) in
    Ends-bool (ltb (length val) len) (some malformed_tlv, p) _ (λ e. cc)
      (Ends-name (name_of strict typ) (some unknown_type_tlv, p) _ (λ e. cc)
        λ name.
          let q = set_loc name (offset + i) p in
          Ends-bool (text_eq name (codes "SSL")) _ _
            (Ends-ssl partial_ok q
              (λ client rest. pars strict partial_ok fuel i 0 (drop 4 rest) (set_ssl client rest q))
              (λ r. pars strict partial_ok fuel offset (i + 3 + len) (drop len (drop 2 tail)) r) val
              (λ client rest l.
                pars-Ends strict partial_ok fuel i 0 (drop 4 rest) (set_ssl client rest q) (
                  omega (
                    arith,
                    length-drop 4 rest,
                    l,
                    length-take len (drop 2 tail),
                    length-drop 2 tail,
                  )))
              next)
            (next (set_value name (raw val) q)))

-- Whatever the bytes, parsing them ends by itself: the model's fuel is never used up.
pub parse-ends :
    (data_ : Bytes) (partial_ok strict : Bool)
    → (parse data_ partial_ok strict).0 ≢ some out_of_fuel
unfolding parse
parse-ends data_ partial_ok strict =
    out (pars strict partial_ok (suc (length data_)) 0 0 data_ parsed_empty)
      (pars-Ends strict partial_ok (suc (length data_)) 0 0 data_ parsed_empty (omega arith))
  where
    out :
        (y : Parsing)
        → Ends y
        → (let z : Parsing = elim y.0 [
          | some malformed_tlv ↦ (if partial_ok then none else some malformed_tlv, y.1)
          | some other ↦ (some other, y.1)
          | none ↦ (none, y.1)
        ] in
            z.0 ≢ some out_of_fuel)
    out (none, p) h = h
    out (some malformed_tlv, p) h = go partial_ok
      where
        go : (b : Bool) → (if b then none else some malformed_tlv) ≢ some out_of_fuel
        go true = λ e. cc
        go false = λ e. cc
    out (some e, p) h = h
