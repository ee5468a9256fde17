-- ===== src/Monitor/Expr/Lexer/Returns.antt =====
-- The bounds of `make_token`: which texts fit the arrays, and how many turns the loop takes.
use ics.Base.{
  ℕ, zero, suc, ◌+◌, ◌-◌, ◌≤◌, ◌<◌, ◌≡◌, refl, Bool, false, Option, none, some, List, [], ◌∷◌,
  length, arith, lt→ltb, ◌==◌, if◌then◌else◌, bind, ap, Bool-cases, inl, inr,
}
use mathlib.Core.Option.{none-ne-some, some-injective}
use ics.Monitor.Expr.Tokens.{TokenType}
use ics.Monitor.Expr.Lexer.{
  TokenArray, take, drop, add_token, match_rule, rules, make_tokens, make_token,
}

-- What a loop returns: an array with at most `k` tokens.
pub data Returns (k : ℕ) : Option (Bool × TokenArray) → Type 0 where
  returns : {b : Bool} {a : TokenArray} → a.nr_token ≤ k → Returns k (some (b, a))

pub length-drop : (n : ℕ) (xs : List ℕ) → length (drop n xs) ≡ length xs - n
length-drop zero xs = omega arith
length-drop (suc n) [] = omega arith
length-drop (suc n) (x ∷ xs) = omega (arith, length-drop n xs)

pub length-take : (n : ℕ) (xs : List ℕ) → n ≤ length xs → length (take n xs) ≡ n
length-take zero xs h = refl
length-take (suc n) [] h = absurd (omega arith)
length-take (suc n) (x ∷ xs) h = omega (arith, length-take n xs (omega arith))

wider : {j k : ℕ} {o : Option (Bool × TokenArray)} → j ≤ k → Returns j o → Returns k o
wider le (returns h) = returns (omega arith)

-- Adding a token, or a space, where there is room.
data Added (k : ℕ) : Option TokenArray → Type 0 where
  added : {next : TokenArray} → next.nr_token ≤ k → Added k (some next)

add_token-Added :
    (type : TokenType) (text : List ℕ) (a : TokenArray)
    → length text < 32
    → a.nr_token < 32
    → Added (suc a.nr_token) (add_token type text a)
add_token-Added TokenType.notype text a h k = added (omega arith)
add_token-Added TokenType.num10 text a h k =
    rw (lt→ltb (length text) 32 h, lt→ltb a.nr_token 32 k) (added (omega arith))
add_token-Added TokenType.hexadecimal text a h k =
    rw (lt→ltb (length text) 32 h, lt→ltb a.nr_token 32 k) (added (omega arith))
add_token-Added TokenType.regname text a h k =
    rw (lt→ltb (length text) 32 h, lt→ltb a.nr_token 32 k) (added (omega arith))
add_token-Added TokenType.plus text a h k = rw (lt→ltb a.nr_token 32 k) (added (omega arith))
add_token-Added TokenType.minus text a h k = rw (lt→ltb a.nr_token 32 k) (added (omega arith))
add_token-Added TokenType.times text a h k = rw (lt→ltb a.nr_token 32 k) (added (omega arith))
add_token-Added TokenType.divide text a h k = rw (lt→ltb a.nr_token 32 k) (added (omega arith))
add_token-Added TokenType.eq text a h k = rw (lt→ltb a.nr_token 32 k) (added (omega arith))
add_token-Added TokenType.lcom text a h k = rw (lt→ltb a.nr_token 32 k) (added (omega arith))
add_token-Added TokenType.rcom text a h k = rw (lt→ltb a.nr_token 32 k) (added (omega arith))
add_token-Added TokenType.notequal text a h k = rw (lt→ltb a.nr_token 32 k) (added (omega arith))
add_token-Added TokenType.and text a h k = rw (lt→ltb a.nr_token 32 k) (added (omega arith))
add_token-Added TokenType.deref text a h k = rw (lt→ltb a.nr_token 32 k) (added (omega arith))

-- What `regexec` promises of patterns like those of `rules`: none of them matches the empty text,
-- and a match lies within its text.
unfoldable pub Matches : (List ℕ → List ℕ → Option (ℕ × ℕ)) → List (List ℕ × TokenType) → Type 0
Matches regexec [] = Unit {0}
Matches regexec ((regex, type) ∷ rs) =
    ((text : List ℕ) (so eo : ℕ)
      → regexec regex text ≡ some (so, eo)
      → (so < eo) × (eo ≤ length text))
    × Matches regexec rs

module _ (regexec : List ℕ → List ℕ → Option (ℕ × ℕ)) where
  match_rule-inside :
      (rs : List (List ℕ × TokenType)) (text : List ℕ) (type : TokenType) (len : ℕ)
      → Matches regexec rs
      → match_rule regexec rs text ≡ some (type, len)
      → (1 ≤ len) × (len ≤ length text)
  unfolding Matches
  match_rule-inside [] text type len ok h = absurd (none-ne-some _ h)
  match_rule-inside ((regex, t) ∷ rs) text type len ok h =
      by_match (regexec regex text) (λ so eo e. ok.0 text so eo e)
        (λ later. match_rule-inside rs text type len ok.1 later) h
    where
      by_match :
          (o : Option (ℕ × ℕ))
          → ((so eo : ℕ) → o ≡ some (so, eo) → (so < eo) × (eo ≤ length text))
          → (match_rule regexec rs text ≡ some (type, len) → (1 ≤ len) × (len ≤ length text))
          → elim o [
            | none ↦ match_rule regexec rs text
            | some (so, eo) ↦ if so == 0 then some (t, eo) else match_rule regexec rs text
          ]
            ≡ some (type, len)
          → (1 ≤ len) × (len ≤ length text)
      by_match none inside later e = later e
      by_match (some (so, eo)) inside later e = elim (Bool-cases (so == 0)) [
        | inr f ↦ later (rw f at e)
        | inl f ↦
            (let same : eo ≡ len = ap (λ x. x.1) (some-injective (t, eo) (type, len) (rw f at e)) in
              let bounds = inside so eo refl in
              (omega (arith, bounds.0, same), omega (arith, bounds.1, same)))
      ]

  make_tokens-Returns :
      (n : ℕ) (text : List ℕ) (a : TokenArray)
      → Matches regexec rules
      → length text ≤ n
      → a.nr_token + length text < 32
      → Returns (a.nr_token + length text) (make_tokens regexec n text a)
  unfolding make_tokens
  make_tokens-Returns n [] a ok h k = returns (omega arith)
  make_tokens-Returns zero (c ∷ cs) a ok h k = absurd (omega arith)
  make_tokens-Returns (suc n) (c ∷ cs) a ok h k =
      by_rule (match_rule regexec rules (c ∷ cs))
        (λ type len e. match_rule-inside rules (c ∷ cs) type len ok e)
        (λ a' text' shorter room. make_tokens-Returns n text' a' ok shorter room)
    where
      continue :
          (len : ℕ) (o : Option TokenArray)
          → 1 ≤ len
          → len ≤ suc (length cs)
          → Added (suc a.nr_token) o
          → ((a' : TokenArray) (text' : List ℕ)
              → length text' ≤ n
              → a'.nr_token + length text' < 32
              → Returns (a'.nr_token + length text') (make_tokens regexec n text' a'))
          → Returns
              (a.nr_token + suc (length cs))
              (bind o (λ a'. make_tokens regexec n (drop len (c ∷ cs)) a'))
      continue len _ lo hi (added {next} small) rest =
          let size = length-drop len (c ∷ cs) in
          wider (omega (arith, size))
            (rest next (drop len (c ∷ cs)) (omega (arith, size)) (omega (arith, size)))

      by_rule :
          (o : Option (TokenType × ℕ))
          → ((type : TokenType) (len : ℕ)
              → o ≡ some (type, len)
              → (1 ≤ len) × (len ≤ suc (length cs)))
          → ((a' : TokenArray) (text' : List ℕ)
              → length text' ≤ n
              → a'.nr_token + length text' < 32
              → Returns (a'.nr_token + length text') (make_tokens regexec n text' a'))
          → Returns (a.nr_token + suc (length cs)) (elim o [
            | none ↦ some (false, a)
            | some (type, len) ↦
                bind
                  (add_token type (take len (c ∷ cs)) a)
                  (λ a'. make_tokens regexec n (drop len (c ∷ cs)) a')
          ])
      by_rule none inside rest = returns (omega arith)
      by_rule (some (type, len)) inside rest =
          let bounds = inside type len refl in
          continue len _ bounds.0 bounds.1
            (add_token-Added type (take len (c ∷ cs)) a
              (omega (arith, length-take len (c ∷ cs) bounds.1)) (omega arith))
            rest

-- A text of fewer than 32 bytes fits: `make_token` returns, with at most one token for each byte.
pub make_token-Returns :
    (regexec : List ℕ → List ℕ → Option (ℕ × ℕ)) (e : List ℕ) (a : TokenArray)
    → Matches regexec rules
    → length e < 32
    → Returns (length e) (make_token regexec e a)
unfolding make_token
make_token-Returns regexec e a ok short = wider (omega arith) (
    make_tokens-Returns regexec (length e) e (record a { nr_token = 0 }) ok (omega arith)
      (omega arith))
