-- ===== src/Smtp/Sanitize.antt =====
-- `sanitize` of aiosmtpd/smtp.py: what of a client's AUTH may stand in a log.
use aiosmtpd.Prelude.{
  ℕ, ◌≡◌, refl, ◌<◌, Bool, true, false, ◌&&◌, not, Option, none, some, [], ◌∷◌, ◌++◌, arith,
}
use mathlib.Core.List.{append_assoc}
use aiosmtpd.Prelude.Tests.{◌==◌, if◌then◌else◌}
use aiosmtpd.Prelude.Lists.{length, all, is_empty}
use aiosmtpd.Prelude.Text.{Bytes, codes, crlf, starts_with, upper_ascii, is_space_byte}

-- `[^\S\r\n]`
unfoldable pub is_blank : ℕ → Bool
unfolding is_space_byte
is_blank c = is_space_byte c && not (c == 10) && not (c == 13)

-- `\S`
unfoldable pub is_word : ℕ → Bool
unfolding is_space_byte
is_word c = not (is_space_byte c)

-- The longest run of such bytes at the start, and what follows it.
unfoldable pub span : (ℕ → Bool) → Bytes → Bytes × Bytes
span p [] = ([], [])
span p (x ∷ xs) = let (a, b) = span p xs in if p x then (x ∷ a, b) else ([], x ∷ xs)

-- A part of the pattern that takes one such byte at least. The pattern's runs end where the next part
-- cannot start, so that nothing is gained by a shorter run.
unfoldable pub span_some : (ℕ → Bool) → Bytes → Option (Bytes × Bytes)
span_some p t = let (a, b) = span p t in if is_empty a then none else some (a, b)

-- `AUTH`, in either case
unfoldable pub auth_word : Bytes → Option (Bytes × Bytes)
unfolding upper_ascii
auth_word (a ∷ u ∷ t ∷ h ∷ rest) =
    if upper_ascii a == 65 && upper_ascii u == 85 && upper_ascii t == 84 && upper_ascii h == 72
    then some (a ∷ u ∷ t ∷ h ∷ [], rest)
    else none
auth_word _ = none

infixl 5 ◌>>=◌
abbrev ◌>>=◌ : {A B : Type 0} → Option A → (A → Option B) → Option B
none >>= f = none
some a >>= f = f a

-- The group `authm`, and what follows it.
unfoldable pub match_authm : Bytes → Option (Bytes × Bytes)
match_authm text =
    let (before, t) = span is_space_byte text in
    auth_word t >>= λ (w : Bytes × Bytes). span_some is_space_byte w.1 >>= λ (s : Bytes × Bytes).
    span_some is_word s.1 >>= λ (m : Bytes × Bytes).
    span_some is_blank m.1 >>= λ (b : Bytes × Bytes).
    some (before ++ (w.0 ++ (s.0 ++ (m.0 ++ b.0))), b.1)

-- `CLIENT_AUTH_B.match`: the groups `authm` and `crlf`
unfoldable pub client_auth : Bytes → Option (Bytes × Bytes)
client_auth text = match_authm text >>= λ (g : Bytes × Bytes).
    span_some is_word g.1 >>= λ (w : Bytes × Bytes).
    some (g.0, (if starts_with crlf w.1 then crlf else []))

unfoldable pub sanitized : Bytes → Option (Bytes × Bytes) → Bytes
sanitized text none = text
sanitized text (some (authm, end)) = authm ++ (codes "********" ++ end)

-- `sanitize`
unfoldable pub sanitize : Bytes → Bytes
sanitize text = sanitized text (client_auth text)

-- A text that is taken whole by such a run, and ends it before what follows.
abbrev pub All : (ℕ → Bool) → Bytes → Type 0
All p t = all p t ≡ true

abbrev pub StopsAt : (ℕ → Bool) → Bytes → Type 0
StopsAt p [] = Unit
StopsAt p (x ∷ xs) = p x ≡ false

span-append : (p : ℕ → Bool) (a b : Bytes) → All p a → StopsAt p b → span p (a ++ b) ≡ (a, b)
unfolding span
span-append p [] [] h k = refl
span-append p [] (x ∷ b) h k = ground arith
span-append p (x ∷ a) b h k = ground (arith, span-append p a b)

span_some-append :
    (p : ℕ → Bool) (a b : Bytes)
    → All p a
    → 0 < length a
    → StopsAt p b
    → span_some p (a ++ b) ≡ some (a, b)
unfolding span_some
span_some-append p [] b h n k = absurd (omega arith)
span_some-append p (x ∷ a) b h n k = rw (span-append p (x ∷ a) b h k) refl

-- `AUTH` itself, in either case.
abbrev pub IsAuth : Bytes → Type 0
IsAuth w = auth_word w ≡ some (w, [])

auth_word-append : (w t : Bytes) → IsAuth w → auth_word (w ++ t) ≡ some (w, t)
unfolding auth_word
auth_word-append [] t h = cc
auth_word-append (a ∷ []) t h = cc
auth_word-append (a ∷ b ∷ []) t h = cc
auth_word-append (a ∷ b ∷ c ∷ []) t h = cc
auth_word-append (a ∷ b ∷ c ∷ d ∷ []) t h = ground arith
auth_word-append (a ∷ b ∷ c ∷ d ∷ x ∷ xs) t h = ground arith

auth-StopsAt : (w t : Bytes) → IsAuth w → StopsAt is_space_byte (w ++ t)
unfolding auth_word is_space_byte
auth-StopsAt [] t h = cc
auth-StopsAt (a ∷ []) t h = cc
auth-StopsAt (a ∷ b ∷ []) t h = cc
auth-StopsAt (a ∷ b ∷ c ∷ []) t h = cc
auth-StopsAt (a ∷ b ∷ c ∷ d ∷ xs) t h = ground arith

word-StopsAt_space : (m t : Bytes) → All is_word m → 0 < length m → StopsAt is_space_byte (m ++ t)
unfolding is_word
word-StopsAt_space [] t h n = absurd (omega arith)
word-StopsAt_space (x ∷ m) t h n = ground arith

blank-StopsAt_word : (b t : Bytes) → All is_blank b → 0 < length b → StopsAt is_word (b ++ t)
unfolding is_word is_blank
blank-StopsAt_word [] t h n = absurd (omega arith)
blank-StopsAt_word (x ∷ b) t h n = ground arith

word-StopsAt_blank : (p t : Bytes) → All is_word p → 0 < length p → StopsAt is_blank (p ++ t)
unfolding is_word is_blank
word-StopsAt_blank [] t h n = absurd (omega arith)
word-StopsAt_blank (x ∷ p) t h n = ground arith

-- The parts of an AUTH command before its parameter.
pub record Authm : Type 0 where
  pub before : Bytes
  pub word : Bytes
  pub spaces : Bytes
  pub mechanism : Bytes
  pub blanks : Bytes

abbrev pub text_of : Authm → Bytes
text_of a = a.before ++ (a.word ++ (a.spaces ++ (a.mechanism ++ a.blanks)))

pub record IsAuthm (a : Authm) : Type 0 where
  pub before : All is_space_byte a.before
  pub word : IsAuth a.word
  pub spaces : All is_space_byte a.spaces × (0 < length a.spaces)
  pub mechanism : All is_word a.mechanism × (0 < length a.mechanism)
  pub blanks : All is_blank a.blanks × (0 < length a.blanks)

nested :
    (a : Authm) (t : Bytes)
    → text_of a ++ t ≡ a.before ++ (a.word ++ (a.spaces ++ (a.mechanism ++ (a.blanks ++ t))))
nested a t = simp append_assoc

match_authm-append :
    (a : Authm) (p t : Bytes)
    → IsAuthm a
    → All is_word p
    → 0 < length p
    → match_authm (text_of a ++ (p ++ t)) ≡ some (text_of a, p ++ t)
unfolding match_authm
match_authm-append a p t i h n =
    let t5 = p ++ t in
    let t4 = a.blanks ++ t5 in
    let t3 = a.mechanism ++ t4 in
    let t2 = a.spaces ++ t3 in
    let t1 = a.word ++ t2 in
    rw
      (
        nested a (p ++ t),
        span-append is_space_byte a.before t1 i.before (auth-StopsAt a.word t2 i.word),
        auth_word-append a.word t2 i.word,
        span_some-append is_space_byte a.spaces t3 i.spaces.0 i.spaces.1
            (word-StopsAt_space a.mechanism t4 i.mechanism.0 i.mechanism.1),
        span_some-append is_word a.mechanism t4 i.mechanism.0 i.mechanism.1
            (blank-StopsAt_word a.blanks t5 i.blanks.0 i.blanks.1),
        span_some-append is_blank a.blanks t5 i.blanks.0 i.blanks.1 (word-StopsAt_blank p t h n),
      )
      refl

-- Of a line that is AUTH in either case, with a mechanism and a parameter, and of what follows the
-- parameter, whatever it is, nothing of the parameter nor of what follows is kept but that there is a
-- parameter, and a line's end directly behind it.
pub sanitize-hides :
    (a : Authm) (p t : Bytes)
    → IsAuthm a
    → All is_word p
    → 0 < length p
    → StopsAt is_word t
    → sanitize (text_of a ++ (p ++ t))
      ≡ text_of a ++ (codes "********" ++ (if starts_with crlf t then crlf else []))
unfolding sanitize client_auth sanitized
sanitize-hides a p t i h n s =
    rw (match_authm-append a p t i h n, span_some-append is_word p t h n s) refl
