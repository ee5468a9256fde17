-- ===== src/X86/Decode/Address.antt =====
-- The effective address that the bytes after ModR/M encode: `load_addr` of
-- nemu/src/isa/x86/decode/modrm.c.
use ics.Base.{
  ◌∙◌, ◌&&◌, ◌/◌, ◌%◌, ℕ, ◌+◌, ◌*◌, ◌^◌, ◌≤◌, ◌<◌, ◌≡◌, refl, ap, Option, none, some, ◌==◌,
  if◌then◌else◌, Ends, ends, and_then, ◌>>◌, Bool-cases, inl, inr, arith, ne→==, lt→ltb,
}
use ics.Machine.{
  Machine, Loc, OperandId, id_src, id_src2, id_dest, op_type_mem, operand, set_operand, put,
}
use ics.Rtl.{rtl_steps, rtl_mv}
use ics.X86.Arith.{s0}
use ics.Rtl.Op.{c_add, c_shl}
use ics.X86.Reg.{r_esp}
use ics.X86.Decode.{
  Parts, sib_parts, fetch_parts, base_of, set_type, disp_size, add_base, add_index, load_addr,
}
use ics.X86.Decode.Code.{
  At, HasCode, code_at, fetch_code, displacement, displaced, displacement-bound,
}

-- What a register adds to an address.
abbrev pub part : (ℕ → ℕ) → Option ℕ → ℕ
part gpr none = 0
part gpr (some r) = gpr r

based :
    (m c : Machine) (k v : ℕ) (base : Option ℕ)
    → v < 2 ^ 32
    → At m k v c
    → Ends (At m k ((v + part m.cpu.gpr base) % 2 ^ 32)) (add_base base c)
unfolding add_base rtl_steps c_add
based m c k v none word at = let same : (v + 0) % 2 ^ 32 ≡ v = omega arith in rw same (ends at)
based m c k v (some r) word at =
    let value : c.cpu.gpr r ≡ m.cpu.gpr r = ap (λ x. x.gpr r) at.cpu in
    ends (record { cpu = at.cpu; bus = at.bus; seq = at.seq; s0 = omega (arith, value, at.s0) })

indexed :
    (m c : Machine) (k v scale : ℕ) (index : Option ℕ)
    → v < 2 ^ 32
    → scale < 4
    → At m k v c
    → Ends (At m k ((v + part m.cpu.gpr index * 2 ^ scale) % 2 ^ 32)) (add_index index scale c)
unfolding add_index rtl_steps c_add c_shl
indexed m c k v scale none word few at =
    let same : (v + 0 * 2 ^ scale) % 2 ^ 32 ≡ v = omega arith in rw same (ends at)
indexed m c k v scale (some r) word few at =
    let value : c.cpu.gpr r * 2 ^ scale ≡ m.cpu.gpr r * 2 ^ scale =
      ap (λ x. x.gpr r * 2 ^ scale) at.cpu in
    rw (lt→ltb scale 32 (omega arith))
      (ends (record { cpu = at.cpu; bus = at.bus; seq = at.seq; s0 = omega (arith, value, at.s0) }))

-- The registers and the scale, and how many bytes say so.
abbrev pub parts : Machine → ℕ → Parts
parts m r_m =
    if r_m == r_esp
    then sib_parts (code_at m 0 1)
    else record { base = some r_m; index = none; scale = 0 }

abbrev pub sib_length : ℕ → ℕ
sib_length r_m = if r_m == r_esp then 1 else 0

fetched :
    (m : Machine) (r_m : ℕ)
    → HasCode m
    → (c : Machine) × (fetch_parts r_m (record m { s0 = 0 }) ≡ some (parts m r_m, c))
      × At m (sib_length r_m) 0 c
unfolding fetch_parts put
fetched m r_m code = elim (Bool-cases (r_m == r_esp)) [
  | inl e ↦
      (let start : At m 0 0 (record m { s0 = 0 }) = record {
        cpu = refl;
        bus = refl;
        seq = omega arith;
        s0 = refl;
      } in
        (
          put Loc.seq_pc (m.decinfo.seq_pc + 0 + 1) (record m { s0 = 0 }),
          rw (e, fetch_code m (record m { s0 = 0 }) 0 1 0 code (omega arith) (omega arith) start)
              refl,
          rw e (record { cpu = refl; bus = refl; seq = omega arith; s0 = refl }),
        ))
  | inr e ↦ (
    record m { s0 = 0 },
    rw e refl,
    rw e (record { cpu = refl; bus = refl; seq = omega arith; s0 = refl }),
  )
]

parts-scale : (m : Machine) (r_m : ℕ) → (parts m r_m).scale < 4
parts-scale m r_m = elim (Bool-cases (r_m == r_esp)) [
  | inl e ↦ rw e (omega arith)
  | inr e ↦ rw e (omega arith)
]

disp_size-bound : (md : ℕ) (base : Option ℕ) → disp_size md base ≤ 4
disp_size-bound md base = ground arith

sib_length-bound : (r_m : ℕ) → sib_length r_m ≤ 1
sib_length-bound r_m = ground arith

abbrev size_of : Machine → ℕ → ℕ → ℕ
size_of m md r_m = disp_size md (parts m r_m).base

abbrev computed : Machine → ℕ → ℕ → ℕ
computed m md r_m =
    (displacement m (sib_length r_m) (size_of m md r_m)
      + part m.cpu.gpr (base_of md (parts m r_m).base)
      + part m.cpu.gpr (parts m r_m).index * 2 ^ (parts m r_m).scale)
    % 2 ^ 32

-- The encoding of addresses, from the instruction set's side: R_M 4 announces a SIB byte; register 5
-- under `mod` 0 stands for no register and a displacement of four bytes; an index of 4 is none.
abbrev pub base_register : Machine → ℕ → ℕ
base_register m r_m = if r_m == 4 then code_at m 0 1 % 8 else r_m

abbrev pub disp_bytes : ℕ → ℕ → ℕ
disp_bytes md b = if md == 1 then 1 else if md == 2 then 4 else if b == 5 then 4 else 0

abbrev pub base_part : (ℕ → ℕ) → ℕ → ℕ → ℕ
base_part gpr md b = if (md == 0) && (b == 5) then 0 else gpr b

abbrev pub index_part : Machine → ℕ → ℕ
index_part m r_m =
    if r_m == 4
    then if code_at m 0 1 / 8 % 8 == 4
      then 0
      else m.cpu.gpr (code_at m 0 1 / 8 % 8) * 2 ^ (code_at m 0 1 / 64 % 4)
    else 0

abbrev pub effective : Machine → ℕ → ℕ → ℕ
effective m md r_m =
    (displacement m (sib_length r_m) (disp_bytes md (base_register m r_m))
      + base_part m.cpu.gpr md (base_register m r_m)
      + index_part m r_m)
    % 2 ^ 32

parts-base : (m : Machine) (r_m : ℕ) → (parts m r_m).base ≡ some (base_register m r_m)
parts-base m r_m = elim (Bool-cases (r_m == 4)) [ inl e ↦ rw e refl | inr e ↦ rw e refl ]

part-base : (gpr : ℕ → ℕ) (md b : ℕ) → part gpr (base_of md (some b)) ≡ base_part gpr md b
part-base gpr md b = elim (Bool-cases ((md == 0) && (b == 5))) [
  | inl e ↦ rw e refl
  | inr e ↦ rw e refl
]

part-index :
    (m : Machine) (r_m : ℕ)
    → part m.cpu.gpr (parts m r_m).index * 2 ^ (parts m r_m).scale ≡ index_part m r_m
part-index m r_m = elim (Bool-cases (r_m == 4)) [
  | inr e ↦ rw e (omega arith)
  | inl e ↦ elim (Bool-cases (code_at m 0 1 / 8 % 8 == 4)) [
    | inl f ↦ rw (e, f) (omega arith)
    | inr f ↦ rw (e, f) refl
  ]
]

disp_size-bytes : (md b : ℕ) → md < 3 → disp_size md (some b) ≡ disp_bytes md b
disp_size-bytes md b h = ground arith

size-bytes :
    (m : Machine) (md r_m : ℕ) → md < 3 → size_of m md r_m ≡ disp_bytes md (base_register m r_m)
size-bytes m md r_m h = rw (parts-base m r_m) (disp_size-bytes md (base_register m r_m) h)

computed-effective : (m : Machine) (md r_m : ℕ) → md < 3 → computed m md r_m ≡ effective m md r_m
computed-effective m md r_m h =
    rw
      (
        part-index m r_m,
        parts-base m r_m,
        part-base m.cpu.gpr md (base_register m r_m),
        disp_size-bytes md (base_register m r_m) h,
      )
      refl

-- What `load_addr` leaves of `m`.
pub record Addressed (m : Machine) (md r_m : ℕ) (id : OperandId) (c : Machine) : Type 0 where
  pub address : (operand id c).word ≡ effective m md r_m
  pub type : (operand id c).type ≡ op_type_mem
  pub behind :
      c.decinfo.seq_pc ≡ m.decinfo.seq_pc + (sib_length r_m + disp_bytes md (base_register m r_m))
  pub cpu : c.cpu ≡ m.cpu
  pub bus : c.bus ≡ m.bus

sums : (a b c : ℕ) → ((a + b) % 2 ^ 32 + c) % 2 ^ 32 ≡ (a + b + c) % 2 ^ 32
sums a b c = omega arith

as_encoded :
    (m c : Machine) (md r_m : ℕ)
    → md < 3
    → At m (sib_length r_m + size_of m md r_m) (computed m md r_m) c
    → At m (sib_length r_m + disp_bytes md (base_register m r_m)) (effective m md r_m) c
as_encoded m c md r_m h at = record {
  cpu = at.cpu;
  bus = at.bus;
  seq = omega (arith, at.seq, size-bytes m md r_m h);
  s0 = at.s0 ∙ computed-effective m md r_m h;
}

-- The operand gets the address that is in `s0`.
finished :
    (m c : Machine) (md r_m : ℕ) (id : OperandId)
    → At m (sib_length r_m + disp_bytes md (base_register m r_m)) (effective m md r_m) c
    → Ends (Addressed m md r_m id) ((rtl_mv (Loc.addr id) s0 >> set_type id op_type_mem) c)
unfolding rtl_steps operand set_operand
finished m c md r_m id_src at =
    ends (record { address = at.s0; type = refl; behind = at.seq; cpu = at.cpu; bus = at.bus })
finished m c md r_m id_src2 at =
    ends (record { address = at.s0; type = refl; behind = at.seq; cpu = at.cpu; bus = at.bus })
finished m c md r_m id_dest at =
    ends (record { address = at.s0; type = refl; behind = at.seq; cpu = at.cpu; bus = at.bus })

-- For a ModR/M byte that names memory, with its code in physical memory, `load_addr` succeeds. The
-- operand is the memory at displacement + base + index * 2^scale modulo 2^32, with the parts that
-- the encoding gives to `mod`, `R_M` and the SIB byte, and the program counter moves behind the
-- bytes of the address. The processor and the bus are unchanged.
pub load_addr-Addressed :
    (m : Machine) (md r_m : ℕ) (id : OperandId)
    → md < 3
    → HasCode m
    → Ends (Addressed m md r_m id) (load_addr md r_m id m)
unfolding load_addr rtl_steps
load_addr-Addressed m md r_m id memory code =
    let (c, parsed, at) = fetched m r_m code in
    let p = parts m r_m in
    let d = displacement m (sib_length r_m) (size_of m md r_m) in
    rw (ne→== md 3 (omega arith), parsed)
      (and_then _
        (displaced m c (sib_length r_m) (size_of m md r_m) d code (sib_length-bound r_m)
          (disp_size-bound md p.base) refl (displacement-bound m (sib_length r_m) md p.base code)
          at)
        (λ u c1 at1.
          and_then _
            (based m c1 (sib_length r_m + size_of m md r_m) d (base_of md p.base)
              (displacement-bound m (sib_length r_m) md p.base code) at1)
            (λ u c2 at2.
              and_then _
                (indexed m c2 (sib_length r_m + size_of m md r_m) _ p.scale p.index (omega arith)
                  (parts-scale m r_m) at2)
                (λ u c3 at3. finished m c3 md r_m id (
                  as_encoded m c3 md r_m memory (
                    rw
                      (sums d (part m.cpu.gpr (base_of md p.base))
                        (part m.cpu.gpr p.index * 2 ^ p.scale))
                      at at3))))))
