-- ===== src/Monitor/Expr/Tokens.antt =====
-- Tokens and the values of single ones: nemu/src/monitor/debug/expr.c.
use ics.Base.{
  ℕ, ◌+◌, ◌-◌, ◌*◌, ◌%◌, ◌^◌, ◌&&◌, Option, none, some, List, [], ◌∷◌, ltb, leb, ◌==◌,
  if◌then◌else◌, bind, Cmd,
}
use ics.Machine.{Machine}
use ics.X86.Reg.Names.{isa_reg_str2val}

-- The token types; `plus`, `minus`, `times` and `divide` are the characters '+', '-', '*' and '/'.
pub data TokenType : Type 0 where
  notype plus minus times divide eq lcom rcom hexadecimal num10 regname notequal and deref :
      TokenType

-- `str` is the text without the null byte.
pub record Token : Type 0 where
  pub type : TokenType
  pub str : List ℕ

abbrev pub digit : ℕ → ℕ → Option ℕ
digit base c =
    let value =
      if leb b'0' c && leb c b'9'
      then c - b'0'
      else if leb b'A' c && leb c b'F'
      then c - b'A' + 10
      else if leb b'a' c && leb c b'f'
      then c - b'a' + 10
      else base in
    if ltb value base then some value else none

-- The number that the digits in front make, as `atoi` and `strtol` read it.
abbrev pub number : ℕ → ℕ → List ℕ → ℕ
number base acc [] = acc
number base acc (c ∷ cs) = elim (digit base c) [
  | none ↦ acc
  | some d ↦ number base (acc * base + d) cs
]

-- `atoi` of a text that begins with a digit; a number that does not fit an int is undefined.
unfoldable pub atoi : List ℕ → Option ℕ
atoi s = if ltb (number 10 0 s) (2 ^ 31) then some (number 10 0 s) else none

abbrev saturate : ℕ → ℕ
saturate n = if ltb n (2 ^ 63) then n else 2 ^ 63 - 1

abbrev pub skip_0x : List ℕ → List ℕ
skip_0x (a ∷ (b ∷ s)) = if (a == b'0') && (b == b'x') then s else a ∷ (b ∷ s)
skip_0x s = s

-- `strtol(s, NULL, 16)` of a text that begins with 0x, as a uint32_t: a long has 64 bits.
unfoldable pub strtol16 : List ℕ → ℕ
strtol16 s = saturate (number 16 0 (skip_0x s)) % 2 ^ 32

-- The value of a single token.
unfoldable pub token_value : Token → Cmd Machine ℕ
unfolding atoi strtol16 isa_reg_str2val
token_value t m = elim t.type [
  | num10 ↦ bind (atoi t.str) (λ v. some (v, m))
  | hexadecimal ↦ some (strtol16 t.str, m)
  | regname ↦ bind (isa_reg_str2val t.str m) (λ v. some (v, m))
  | _ ↦ none
]
