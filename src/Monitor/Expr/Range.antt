-- ===== src/Monitor/Expr/Range.antt =====
-- Ranges of the token array that hold a given list, and the two scans over them.
use ics.Base.{ℕ, suc, ◌+◌, ◌≡◌, refl, Bool, true, false, List, [], ◌∷◌, ◌++◌, length, arith, ℤ}
use ics.Monitor.Expr.Tokens.{TokenType, Token}
use ics.Monitor.Expr.{Search, search_step, search_operator, count_step, count_parentheses}

-- Types whose tokens are read by their text.
abbrev pub keeps_text : TokenType → Bool
keeps_text TokenType.num10 = true
keeps_text TokenType.hexadecimal = true
keeps_text TokenType.regname = true
keeps_text _ = false

-- The same token: what `str` holds only counts where it is read.
abbrev pub SameToken : Token → Token → Type 0
SameToken t u = (t.type ≡ u.type) × (keeps_text u.type ≡ true → t.str ≡ u.str)

-- The tokens from `p` on are those of the list.
unfoldable pub Holds : (ℕ → Token) → ℕ → List Token → Type 0
Holds tokens p [] = Unit {0}
Holds tokens p (t ∷ ts) = SameToken (tokens p) t × Holds tokens (suc p) ts

pub Holds-append :
    (tokens : ℕ → Token) (p : ℕ) (xs ys : List Token)
    → Holds tokens p (xs ++ ys)
    → Holds tokens p xs × Holds tokens (p + length xs) ys
unfolding Holds
Holds-append tokens p [] ys h = (let same : p + 0 ≡ p = omega arith in (tt, rw same h))
Holds-append tokens p (x ∷ xs) ys h =
    let (first, second) = Holds-append tokens (suc p) xs ys h.1 in
    (let same : p + suc (length xs) ≡ suc p + length xs = omega arith in
      ((h.0, first), rw same second))

unfoldable pub search_list : List Token → ℕ → Search → Search
search_list [] p s = s
search_list (t ∷ ts) p s = search_list ts (suc p) (search_step t.type p s)

unfoldable pub count_list : List Token → ℤ → ℤ
count_list [] c = c
count_list (t ∷ ts) c = count_list ts (count_step t.type c)

pub search_operator-list :
    (tokens : ℕ → Token) (ts : List Token) (p : ℕ) (s : Search)
    → Holds tokens p ts
    → search_operator tokens (length ts) p s ≡ search_list ts p s
unfolding Holds search_operator search_list
search_operator-list tokens [] p s h = refl
search_operator-list tokens (t ∷ ts) p s h =
    rw (h.0.0, search_operator)
      (search_operator-list tokens ts (suc p) (search_step t.type p s) h.1)

pub count_parentheses-list :
    (tokens : ℕ → Token) (ts : List Token) (p : ℕ) (c : ℤ)
    → Holds tokens p ts
    → count_parentheses tokens (length ts) p c ≡ count_list ts c
unfolding Holds count_parentheses count_list
count_parentheses-list tokens [] p c h = refl
count_parentheses-list tokens (t ∷ ts) p c h =
    rw (h.0.0, count_parentheses)
      (count_parentheses-list tokens ts (suc p) (count_step t.type c) h.1)

pub search_list-append :
    (xs ys : List Token) (p : ℕ) (s : Search)
    → search_list (xs ++ ys) p s ≡ search_list ys (p + length xs) (search_list xs p s)
unfolding search_list
search_list-append [] ys p s = let same : p + 0 ≡ p = omega arith in rw same refl
search_list-append (x ∷ xs) ys p s =
    let same : p + suc (length xs) ≡ suc p + length xs = omega arith in
    rw same (search_list-append xs ys (suc p) (search_step x.type p s))

pub count_list-append :
    (xs ys : List Token) (c : ℤ) → count_list (xs ++ ys) c ≡ count_list ys (count_list xs c)
unfolding count_list
count_list-append [] ys c = refl
count_list-append (x ∷ xs) ys c = count_list-append xs ys (count_step x.type c)
