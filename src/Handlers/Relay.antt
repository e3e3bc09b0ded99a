-- ===== src/Handlers/Relay.antt =====
-- `Proxy.handle_DATA` of aiosmtpd/handlers.py: the message that is passed on.
use aiosmtpd.Prelude.{
  ℕ, zero, suc, ◌+◌, ◌≡◌, refl, sym, ap, ◌∙◌, ◌<◌, Bool, true, false, ◌||◌, List, [], ◌∷◌, ◌++◌,
  map, arith,
}
use mathlib.Core.List.{append_assoc}
use native.Mathlib.Nat.{zero-add}
use aiosmtpd.Prelude.Tests.{if◌then◌else◌}
use aiosmtpd.Prelude.Lists.{length, take, drop}
use aiosmtpd.Prelude.Text.{Bytes, codes, crlf, starts_with}
use aiosmtpd.Smtp.Data.{concat}
use aiosmtpd.Handlers.Lines.{
  is_bytes_end, kept_lines, concat-append, concat-kept_lines, IsPlain, kept_lines-line,
}

-- `NLCRE.match`
unfoldable pub starts_newline : Bytes → Bool
unfolding starts_with
starts_newline l = starts_with crlf l || starts_with (13 ∷ []) l || starts_with (10 ∷ []) l

-- The loop that looks for the end of the headers: `n` is the place of the first of the lines, `last`
-- what `_i` is before it. The place where it ends, and the end of a line that is used there.
unfoldable pub header_end : ℕ → ℕ → List Bytes → ℕ × Bytes
header_end n last [] = (last, crlf)
header_end n last (l ∷ ls) = if starts_newline l then (n, l) else header_end (n + 1) n ls

-- `lines.insert(i, x)`
unfoldable pub insert : ℕ → Bytes → List Bytes → List Bytes
insert i x ls = take i ls ++ x ∷ drop i ls

unfoldable pub peer_line : Bytes → Bytes → Bytes
peer_line peer ending = codes "X-Peer: " ++ peer ++ ending

-- The lines with the peer put behind the headers.
unfoldable pub with_peer : Bytes → List Bytes → List Bytes
unfolding header_end insert peer_line
with_peer peer ls = let (i, ending) = header_end 0 0 ls in insert i (peer_line peer ending) ls

-- `data`, from the content
unfoldable pub relayed : Bytes → Bytes → Bytes
unfolding with_peer
relayed peer content = concat (with_peer peer (kept_lines is_bytes_end content))

take-drop : (n : ℕ) (ls : List Bytes) → concat (take n ls) ++ concat (drop n ls) ≡ concat ls
take-drop zero ls = refl
take-drop (suc n) [] = refl
take-drop (suc n) (l ∷ ls) = rw (append_assoc, take-drop n ls) refl

-- Whatever the content, the peer's line is all that is added, at one place, and nothing is lost or
-- moved.
pub relayed_inserts :
    (peer content : Bytes)
    → (a : Bytes) × (ending : Bytes) × (b : Bytes) × (content ≡ a ++ b)
      × (relayed peer content ≡ a ++ peer_line peer ending ++ b)
unfolding relayed insert with_peer
relayed_inserts peer content =
    let ls = kept_lines is_bytes_end content in
    let (i, ending) = header_end 0 0 ls in
    (
      concat (take i ls),
      ending,
      concat (drop i ls),
      sym (take-drop i ls ∙ concat-kept_lines is_bytes_end content),
      concat-append (take i ls) (peer_line peer ending ∷ drop i ls)
          ∙ sym (append_assoc (concat (take i ls)) (peer_line peer ending) (concat (drop i ls))),
    )

-- The headers as a client sends them.
unfoldable pub header_lines : List Bytes → Bytes
header_lines [] = []
header_lines (h ∷ hs) = h ++ crlf ++ header_lines hs

-- Headers that are not empty and hold no end of a line.
abbrev pub AreHeaders : List Bytes → Type 0
AreHeaders [] = Unit
AreHeaders (h ∷ hs) = IsPlain h × (0 < length h) × AreHeaders hs

-- A header's line.
abbrev header_line : Bytes → Bytes
header_line h = h ++ crlf

regroup : (h a body : Bytes) → (h ++ crlf ++ a) ++ crlf ++ body ≡ h ++ crlf ++ (a ++ crlf ++ body)
regroup h a body = simp append_assoc

header_lines-kept :
    (hs : List Bytes) (body : Bytes)
    → AreHeaders hs
    → kept_lines is_bytes_end (header_lines hs ++ crlf ++ body)
      ≡ map header_line hs ++ crlf ∷ kept_lines is_bytes_end body
unfolding header_lines
header_lines-kept [] body h = kept_lines-line [] body refl
header_lines-kept (x ∷ hs) body h = rw (regroup x (header_lines hs) body) (
    kept_lines-line x (header_lines hs ++ crlf ++ body) h.0
    ∙ ap (λ ls. header_line x ∷ ls) (header_lines-kept hs body h.2))

starts_newline-header :
    (h : Bytes) → IsPlain h → 0 < length h → starts_newline (header_line h) ≡ false
unfolding starts_newline is_bytes_end starts_with
starts_newline-header [] p h = absurd (omega arith)
starts_newline-header (x ∷ t) p h = ground arith

starts_newline-crlf : starts_newline crlf ≡ true
unfolding starts_newline starts_with
starts_newline-crlf = refl

plus_suc : (n m : ℕ) → n + 1 + m ≡ n + suc m
plus_suc n m = omega arith

header_end-headers :
    (n last : ℕ) (hs ls : List Bytes)
    → AreHeaders hs
    → header_end n last (map header_line hs ++ crlf ∷ ls) ≡ (n + length hs, crlf)
unfolding header_end
header_end-headers n last [] ls h = ground (arith, starts_newline-crlf)
header_end-headers n last (x ∷ hs) ls h =
    rw (starts_newline-header x h.0 h.1)
      (header_end-headers (n + 1) n hs ls h.2 ∙ ap (λ k. (k, crlf)) (plus_suc n (length hs)))

length-map : (hs : List Bytes) → length (map header_line hs) ≡ length hs
length-map [] = refl
length-map (h ∷ hs) = ap suc (length-map hs)

insert-headers :
    (hs ls : List Bytes) (x : Bytes)
    → insert (length hs) x (map header_line hs ++ ls) ≡ map header_line hs ++ x ∷ ls
unfolding insert
insert-headers [] ls x = refl
insert-headers (h ∷ hs) ls x = ap (λ k. header_line h ∷ k) (insert-headers hs ls x)

concat-headers : (hs : List Bytes) → concat (map header_line hs) ≡ header_lines hs
unfolding header_lines
concat-headers [] = refl
concat-headers (h ∷ hs) = rw (concat-headers hs, append_assoc) refl

with_peer-headers :
    (peer : Bytes) (hs ls : List Bytes)
    → AreHeaders hs
    → with_peer peer (map header_line hs ++ crlf ∷ ls)
      ≡ map header_line hs ++ peer_line peer crlf ∷ crlf ∷ ls
unfolding with_peer
with_peer-headers peer hs ls h =
    rw (header_end-headers 0 0 hs ls h, zero-add)
      (insert-headers hs (crlf ∷ ls) (peer_line peer crlf))

laid_out :
    (peer : Bytes) (hs : List Bytes) (body : Bytes)
    → concat (map header_line hs)
        ++ concat (peer_line peer crlf ∷ crlf ∷ kept_lines is_bytes_end body)
      ≡ header_lines hs ++ codes "X-Peer: " ++ peer ++ crlf ++ crlf ++ body
unfolding peer_line
laid_out peer hs body =
    rw (concat-headers hs, concat-kept_lines is_bytes_end body) (simp append_assoc)

-- Of a message with headers that are not empty and hold no carriage return or line feed, an empty line
-- and a body, what is passed on is the headers, the peer's line, the empty line and the body,
-- whatever the body.
pub relayed-headers :
    (peer : Bytes) (hs : List Bytes) (body : Bytes)
    → AreHeaders hs
    → relayed peer (header_lines hs ++ crlf ++ body)
      ≡ header_lines hs ++ codes "X-Peer: " ++ peer ++ crlf ++ crlf ++ body
unfolding relayed
relayed-headers peer hs body h =
    let rest = crlf ∷ kept_lines is_bytes_end body in
    rw (header_lines-kept hs body h, with_peer-headers peer hs (kept_lines is_bytes_end body) h)
      (concat-append (map header_line hs) (peer_line peer crlf ∷ rest) ∙ laid_out peer hs body)
