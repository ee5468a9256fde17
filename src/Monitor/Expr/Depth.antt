-- ===== src/Monitor/Expr/Depth.antt =====
-- The depth of parentheses along a range of tokens.
use ics.Base.{
  ℕ, zero, suc, ◌+◌, ◌≡◌, refl, ◌∙◌, sym, ap, true, false, inl, inr, Option, none, some, arith,
  bind, bind-eq-some, fun_ext, ◌⊎◌,
}
use mathlib.Core.Option.{none-ne-some}
use mathlib.Core.Bool.{true≢false}
use ics.Machine.{Machine}
use ics.Monitor.Expr.Tokens.{TokenType, Token, token_value}
use ics.Monitor.Expr.{is_lcom, is_rcom, apply_operator}

abbrev pub depth_step : TokenType → ℕ → Option ℕ
depth_step TokenType.lcom c = some (suc c)
depth_step TokenType.rcom zero = none
depth_step TokenType.rcom (suc c) = some c
depth_step _ c = some c

-- The depth after `n` tokens from `p`, where no parenthesis closes that was not opened.
unfoldable pub depth : (ℕ → Token) → ℕ → ℕ → ℕ → Option ℕ
depth tokens zero p c = some c
depth tokens (suc n) p c = bind (depth_step (tokens p).type c) (λ d. depth tokens n (suc p) d)

bind-bind :
    {X Y Z : Type 0} (o : Option X) (f : X → Option Y) (g : Y → Option Z)
    → bind (bind o f) g ≡ bind o (λ x. bind (f x) g)
bind-bind none f g = refl
bind-bind (some x) f g = refl

pub depth-append :
    (tokens : ℕ → Token) (a b p c : ℕ)
    → depth tokens (a + b) p c ≡ bind (depth tokens a p c) (λ d. depth tokens b (p + a) d)
unfolding depth
depth-append tokens zero b p c =
    let same : 0 + b ≡ b = omega arith in let here : p + 0 ≡ p = omega arith in rw (same, here) refl
depth-append tokens (suc a) b p c =
    let same : suc a + b ≡ suc (a + b) = omega arith in
    let here : p + suc a ≡ suc p + a = omega arith in
    rw (same, here, bind-bind (depth_step (tokens p).type c) _ _)
      (ap (bind (depth_step (tokens p).type c)) (fun_ext (λ d. depth-append tokens a b (suc p) d)))

-- A token that is no parenthesis.
record IsPlain (type : TokenType) : Type 0 where
  neutral : (c : ℕ) → depth_step type c ≡ some c
  not_lcom : is_lcom type ≡ false
  not_rcom : is_rcom type ≡ false

parenthesis :
    (type : TokenType) → (type ≡ TokenType.lcom) ⊎ ((type ≡ TokenType.rcom) ⊎ IsPlain type)
parenthesis TokenType.lcom = inl refl
parenthesis TokenType.rcom = inr (inl refl)
parenthesis TokenType.notype =
    inr (inr (record { neutral = λ c. refl; not_lcom = refl; not_rcom = refl }))
parenthesis TokenType.plus =
    inr (inr (record { neutral = λ c. refl; not_lcom = refl; not_rcom = refl }))
parenthesis TokenType.minus =
    inr (inr (record { neutral = λ c. refl; not_lcom = refl; not_rcom = refl }))
parenthesis TokenType.times =
    inr (inr (record { neutral = λ c. refl; not_lcom = refl; not_rcom = refl }))
parenthesis TokenType.divide =
    inr (inr (record { neutral = λ c. refl; not_lcom = refl; not_rcom = refl }))
parenthesis TokenType.eq =
    inr (inr (record { neutral = λ c. refl; not_lcom = refl; not_rcom = refl }))
parenthesis TokenType.hexadecimal =
    inr (inr (record { neutral = λ c. refl; not_lcom = refl; not_rcom = refl }))
parenthesis TokenType.num10 =
    inr (inr (record { neutral = λ c. refl; not_lcom = refl; not_rcom = refl }))
parenthesis TokenType.regname =
    inr (inr (record { neutral = λ c. refl; not_lcom = refl; not_rcom = refl }))
parenthesis TokenType.notequal =
    inr (inr (record { neutral = λ c. refl; not_lcom = refl; not_rcom = refl }))
parenthesis TokenType.and =
    inr (inr (record { neutral = λ c. refl; not_lcom = refl; not_rcom = refl }))
parenthesis TokenType.deref =
    inr (inr (record { neutral = λ c. refl; not_lcom = refl; not_rcom = refl }))

step_shift :
    (type : TokenType) (c d : ℕ)
    → depth_step type c ≡ some d
    → depth_step type (suc c) ≡ some (suc d)
step_shift type c d h = elim (parenthesis type) [
  | inl e ↦ rw e (let h' = rw e at h in cc)
  | inr (inl e) ↦ rw e (rcom_shift c d (rw e at h))
  | inr (inr plain) ↦
      plain.neutral (suc c) ∙ ap (λ o. bind o (λ x. some (suc x))) (sym (plain.neutral c) ∙ h)
]
  where
    rcom_shift :
        (c d : ℕ)
        → depth_step TokenType.rcom c ≡ some d
        → depth_step TokenType.rcom (suc c) ≡ some (suc d)
    rcom_shift zero d h = cc
    rcom_shift (suc c) d h = cc

pub depth-shift :
    (tokens : ℕ → Token) (n p c d : ℕ)
    → depth tokens n p c ≡ some d
    → depth tokens n p (suc c) ≡ some (suc d)
unfolding depth
depth-shift tokens zero p c d h = cc
depth-shift tokens (suc n) p c d h =
    let (x, first, rest) = bind-eq-some (depth_step (tokens p).type c) _ h in
    rw (step_shift (tokens p).type c x first) (depth-shift tokens n (suc p) x d rest)

-- What has a value by itself, and what is an operator, leaves the depth.
pub value-neutral :
    (t : Token) (m : Machine) (r : ℕ × Machine)
    → token_value t m ≡ some r
    → depth_step t.type 0 ≡ some 0
unfolding token_value
value-neutral t m r h = elim (parenthesis t.type) [
  | inl e ↦ absurd (none-ne-some _ (rw e at h))
  | inr (inl e) ↦ absurd (none-ne-some _ (rw e at h))
  | inr (inr plain) ↦ plain.neutral 0
]

pub operator-neutral :
    (type : TokenType) (a b v : ℕ) → apply_operator type a b ≡ some v → depth_step type 0 ≡ some 0
operator-neutral type a b v h = elim (parenthesis type) [
  | inl e ↦ absurd (none-ne-some _ (rw e at h))
  | inr (inl e) ↦ absurd (none-ne-some _ (rw e at h))
  | inr (inr plain) ↦ plain.neutral 0
]

pub lcom-depth : (type : TokenType) (c : ℕ) → is_lcom type ≡ true → depth_step type c ≡ some (suc c)
lcom-depth type c h = elim (parenthesis type) [
  | inl e ↦ rw e refl
  | inr (inl e) ↦ absurd (true≢false (sym h ∙ ap is_lcom e))
  | inr (inr plain) ↦ absurd (true≢false (sym h ∙ plain.not_lcom))
]

pub rcom-depth : (type : TokenType) (c : ℕ) → is_rcom type ≡ true → depth_step type (suc c) ≡ some c
rcom-depth type c h = elim (parenthesis type) [
  | inl e ↦ absurd (true≢false (sym h ∙ ap is_rcom e))
  | inr (inl e) ↦ rw e refl
  | inr (inr plain) ↦ absurd (true≢false (sym h ∙ plain.not_rcom))
]
