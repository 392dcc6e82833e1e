-- ===== src/Auth/Tokens/Segments.antt =====
-- Texts of the URL-safe alphabet: padding, and the cuts of a token at its dots.
use Prim.Native.Char.{Char, code}
use Prim.Native.String.{[], ◌∷◌, ◌++◌}
use text.Mathlib.TextLemmas.{nil-append, cons-append}
use trustlist_core.Base.{
  ℕ, zero, suc, ◌+◌, ◌%◌, ◌≤◌, String, ◌≡◌, refl, ap, ◌∙◌, Bool, true, not, ◌&&◌, none, some,
  String-eq, ltb, nat_eq, arith,
}
use trustlist_core.Auth.Tokens.{rstrip, pad, missing_to_four, is_ascii, cut}

-- A letter that is ASCII, but neither "=" nor ".".
abbrev pub is_safe : Char → Bool
is_safe c = ltb (code c) 128 && (not (nat_eq (code c) 61) && not (nat_eq (code c) 46))

abbrev pub all_safe : String → Bool
all_safe [] = true
all_safe (c ∷ s) = is_safe c && all_safe s

rstrip-pad : (n : ℕ) → rstrip (pad n) ≡ ""
unfolding rstrip pad
rstrip-pad zero = refl
rstrip-pad (suc n) = rw (rstrip-pad n) refl

-- Stripping the padding of a safe text leaves it.
pub rstrip-append : (s : String) (n : ℕ) → all_safe s ≡ true → rstrip (s ++ pad n) ≡ s
unfolding rstrip
rstrip-append [] n safe = ap rstrip (nil-append (pad n)) ∙ rstrip-pad n
rstrip-append (c ∷ s) n safe =
    ap rstrip (cons-append c s (pad n))
    ∙ rw (rstrip-append s n (ground (arith, safe))) (ground (arith, safe))

-- The padding that `_b64decode` restores is the one that base64 had put.
pub missing_lem : (n k : ℕ) → k ≤ 2 → (n + k) % 4 ≡ 0 → missing_to_four n ≡ k
unfolding missing_to_four
missing_lem n k short whole = omega arith

pub cut-dot : (s rest : String) → all_safe s ≡ true → cut (s ++ "." ∷ rest) ≡ (s, some rest)
unfolding cut
cut-dot [] rest safe = ap cut (nil-append ("." ∷ rest)) ∙ refl
cut-dot (c ∷ s) rest safe =
    ap cut (cons-append c s ("." ∷ rest))
    ∙ rw (cut-dot s rest (ground (arith, safe))) (ground (arith, safe))

pub cut-safe : (s : String) → all_safe s ≡ true → cut s ≡ (s, none)
unfolding cut
cut-safe [] safe = refl
cut-safe (c ∷ s) safe = rw (cut-safe s (ground (arith, safe))) (ground (arith, safe))

pub is_ascii-safe : (s : String) → all_safe s ≡ true → is_ascii s ≡ true
unfolding is_ascii
is_ascii-safe [] safe = refl
is_ascii-safe (c ∷ s) safe = ground (arith, safe, is_ascii-safe s)

pub is_ascii-dot :
    (s rest : String) → all_safe s ≡ true → is_ascii rest ≡ true → is_ascii (s ++ "." ∷ rest) ≡ true
unfolding is_ascii
is_ascii-dot [] rest safe ascii = ap is_ascii (nil-append ("." ∷ rest)) ∙ ascii
is_ascii-dot (c ∷ s) rest safe ascii =
    ap is_ascii (cons-append c s ("." ∷ rest)) ∙ ground (arith, safe, is_ascii-dot s rest)
