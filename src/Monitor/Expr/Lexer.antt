-- ===== src/Monitor/Expr/Lexer.antt =====
-- `make_token` and `expr` of nemu/src/monitor/debug/expr.c. `regexec` is the C library's, for a pattern
-- and the text from the current position; it gives `rm_so` and `rm_eo` of a match.
pub mod Returns
use ics.Base.{
  ℕ, zero, suc, ◌+◌, ◌-◌, Bool, true, false, ◌&&◌, ◌||◌, Option, none, some, List, [], ◌∷◌, ltb,
  ◌==◌, if◌then◌else◌, bind, codes, length,
}
use ics.Machine.{Machine}
use ics.Monitor.Expr.Tokens.{TokenType, Token}
use ics.Monitor.Expr.{eval}

-- `tokens` and `nr_token`.
pub record TokenArray : Type 0 where
  pub tokens : ℕ → Token
  pub nr_token : ℕ

abbrev pub rules : List (List ℕ × TokenType)
rules =
    (codes " +", TokenType.notype)
    ∷ (codes "\\+", TokenType.plus)
    ∷ (codes "\\-", TokenType.minus)
    ∷ (codes "\\*", TokenType.times)
    ∷ (codes "\\/", TokenType.divide)
    ∷ (codes "==", TokenType.eq)
    ∷ (codes "\\(", TokenType.lcom)
    ∷ (codes "\\)", TokenType.rcom)
    ∷ (codes "0x[0-9ABCDEF]+", TokenType.hexadecimal)
    ∷ (codes "[0-9]+", TokenType.num10)
    ∷ (codes "\\$[a-zA-Z]{2,3}", TokenType.regname)
    ∷ (codes "!=", TokenType.notequal)
    ∷ (codes "&&", TokenType.and)
    ∷ []

abbrev pub take : ℕ → List ℕ → List ℕ
take zero xs = []
take (suc n) [] = []
take (suc n) (x ∷ xs) = x ∷ take n xs

abbrev pub drop : ℕ → List ℕ → List ℕ
drop zero xs = xs
drop (suc n) [] = []
drop (suc n) (x ∷ xs) = drop n xs

abbrev pub set_token : (ℕ → Token) → ℕ → Token → ℕ → Token
set_token tokens i t j = if j == i then t else tokens j

abbrev pub nr_tokens : ℕ
nr_tokens = 32

abbrev pub str_size : ℕ
str_size = 32

-- A token past the end of `tokens` is written outside of it.
abbrev push : Token → TokenArray → Option TokenArray
push t a =
    if ltb a.nr_token nr_tokens
    then some (record { tokens = set_token a.tokens a.nr_token t; nr_token = suc a.nr_token })
    else none

-- A token that keeps its text, and one that leaves what `str` held. The null byte of a text of
-- `str_size` bytes or more is written outside of `str`.
abbrev push_text : TokenType → List ℕ → TokenArray → Option TokenArray
push_text type text a =
    if ltb (length text) str_size then push (record { type = type; str = text }) a else none

abbrev push_plain : TokenType → TokenArray → Option TokenArray
push_plain type a = push (record { type = type; str = (a.tokens a.nr_token).str }) a

abbrev pub add_token : TokenType → List ℕ → TokenArray → Option TokenArray
add_token TokenType.notype text a = some a
add_token TokenType.num10 text a = push_text TokenType.num10 text a
add_token TokenType.hexadecimal text a = push_text TokenType.hexadecimal text a
add_token TokenType.regname text a = push_text TokenType.regname text a
add_token type text a = push_plain type a

module _ (regexec : List ℕ → List ℕ → Option (ℕ × ℕ)) where
  -- The first rule that matches at the position, and the length of its match.
  abbrev pub match_rule : List (List ℕ × TokenType) → List ℕ → Option (TokenType × ℕ)
  match_rule [] text = none
  match_rule ((regex, type) ∷ rest) text =
      let later = match_rule rest text in
      elim (regexec regex text) [
        | none ↦ later
        | some (so, eo) ↦ if so == 0 then some (type, eo) else later
      ]

  -- The loop from the position on, whose text is `e + position`. Fuel for one turn per byte is
  -- enough if no match is empty.
  unfoldable pub make_tokens : ℕ → List ℕ → TokenArray → Option (Bool × TokenArray)
  make_tokens n [] a = some (true, a)
  make_tokens zero (c ∷ cs) a = none
  make_tokens (suc n) (c ∷ cs) a = elim (match_rule rules (c ∷ cs)) [
    | none ↦ some (false, a)
    | some (type, len) ↦
        bind (add_token type (take len (c ∷ cs)) a) (λ a'. make_tokens n (drop len (c ∷ cs)) a')
  ]

  unfoldable pub make_token : List ℕ → TokenArray → Option (Bool × TokenArray)
  unfolding make_tokens
  make_token e a = make_tokens (length e) e (record a { nr_token = 0 })

-- After these tokens, and at the start, a '*' is a dereference.
abbrev pub before_deref : TokenType → Bool
before_deref TokenType.lcom = true
before_deref TokenType.eq = true
before_deref TokenType.notequal = true
before_deref TokenType.plus = true
before_deref TokenType.minus = true
before_deref TokenType.divide = true
before_deref TokenType.times = true
before_deref _ = false

abbrev pub is_times : TokenType → Bool
is_times TokenType.times = true
is_times _ = false

abbrev pub mark : Token → Token
mark t = record t { type = TokenType.deref }

abbrev pub mark_at : (ℕ → Token) → ℕ → ℕ → Token
mark_at tokens i =
    if is_times (tokens i).type && ((i == 0) || before_deref (tokens (i - 1)).type)
    then set_token tokens i (mark (tokens i))
    else tokens

-- The loop of `expr` over `n` tokens from `i`.
unfoldable pub mark_deref : (ℕ → Token) → ℕ → ℕ → ℕ → Token
mark_deref tokens zero i = tokens
mark_deref tokens (suc n) i = mark_deref (mark_at tokens i) n (suc i)

-- What `expr` returns and leaves.
pub record ExprResult : Type 0 where
  pub value : ℕ
  pub success : Bool
  pub array : TokenArray
  pub machine : Machine

abbrev evaluated : Bool → TokenArray → Option (ℕ × Machine) → Option ExprResult
evaluated success array r =
    bind r (λ (v, m). some (record { value = v; success = success; array = array; machine = m }))

-- The rest of `expr`, from what `make_token` returned.
abbrev pub expr_tokens : Bool → Bool → TokenArray → Machine → Option ExprResult
expr_tokens false success a m = some (record { value = 0; success = false; array = a; machine = m })
expr_tokens true success a m =
    let marked = mark_deref a.tokens a.nr_token 0 in
    evaluated success (record a { tokens = marked }) (eval a.nr_token marked 0 a.nr_token m)

unfoldable pub expr :
    (List ℕ → List ℕ → Option (ℕ × ℕ)) → List ℕ → Bool → TokenArray → Machine → Option ExprResult
unfolding make_token mark_deref eval
expr regexec e success a m =
    bind (make_token regexec e a) (λ (made, a'). expr_tokens made success a' m)
