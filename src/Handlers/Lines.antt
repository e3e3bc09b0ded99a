-- ===== src/Handlers/Lines.antt =====
-- `splitlines` of `bytes` and `str`, which the handlers of aiosmtpd/handlers.py call.
use aiosmtpd.Prelude.{ℕ, ◌≡◌, refl, Bool, true, not, ◌&&◌, ◌||◌, List, [], ◌∷◌, ◌++◌, map, arith}
use mathlib.Core.List.{append_assoc}
use aiosmtpd.Prelude.Tests.{◌==◌, leb, if◌then◌else◌}
use aiosmtpd.Smtp.Data.{concat}
use aiosmtpd.Prelude.Lists.{all}
use aiosmtpd.Prelude.Text.{Text, Bytes, crlf, starts_with}

-- the ends of a line in `bytes`, and in `str`
unfoldable pub is_bytes_end : ℕ → Bool
is_bytes_end c = c == 10 || c == 13

unfoldable pub is_text_end : ℕ → Bool
is_text_end c =
    (leb 10 c && leb c 13) || (leb 28 c && leb c 30) || c == 133 || c == 8232 || c == 8233

unfoldable pub extend : ℕ → List Text → List Text
extend x [] = (x ∷ []) ∷ []
extend x (l ∷ ls) = (x ∷ l) ∷ ls

-- `splitlines(keepends=True)`; a carriage return and a line feed behind it are one end.
unfoldable pub kept_lines : (ℕ → Bool) → Text → List Text
unfolding extend starts_with
kept_lines p [] = []
kept_lines p (x ∷ xs) =
    if not (p x) || (x == 13 && starts_with (10 ∷ []) xs)
    then extend x (kept_lines p xs)
    else (x ∷ []) ∷ kept_lines p xs

-- a line without its end
unfoldable pub without_end : (ℕ → Bool) → Text → Text
without_end p [] = []
without_end p (x ∷ xs) = if p x then without_end p xs else x ∷ without_end p xs

-- `splitlines()`
unfoldable pub splitlines : (ℕ → Bool) → Text → List Text
unfolding kept_lines without_end
splitlines p t = map (without_end p) (kept_lines p t)

pub concat-append : (ks ls : List Text) → concat (ks ++ ls) ≡ concat ks ++ concat ls
concat-append [] ls = refl
concat-append (k ∷ ks) ls = rw (concat-append ks ls, append_assoc) refl

concat-extend : (x : ℕ) (ls : List Text) → concat (extend x ls) ≡ x ∷ concat ls
unfolding extend
concat-extend x [] = refl
concat-extend x (l ∷ ls) = refl

-- Nothing is lost.
pub concat-kept_lines : (p : ℕ → Bool) (t : Text) → concat (kept_lines p t) ≡ t
unfolding kept_lines
concat-kept_lines p [] = refl
concat-kept_lines p (x ∷ xs) =
    ground (arith, concat-kept_lines p xs, concat-extend x (kept_lines p xs))

-- A text without an end of a line in `bytes`.
abbrev pub IsPlain : Text → Type 0
IsPlain t = all (λ c. not (is_bytes_end c)) t ≡ true

pub kept_lines-line :
    (t rest : Bytes)
    → IsPlain t
    → kept_lines is_bytes_end (t ++ crlf ++ rest) ≡ (t ++ crlf) ∷ kept_lines is_bytes_end rest
unfolding kept_lines extend is_bytes_end starts_with
kept_lines-line [] rest h = refl
kept_lines-line (x ∷ t) rest h = ground (arith, kept_lines-line t rest)
