-- ===== src/Trap/Decode.antt =====
-- `decode_instruction` of interrupts/context_switch.c. The bit-fields of interrupts/context_switch.h
-- are packed from the lowest bit up.
pub mod RoundTrip
use echelon_sbi.Base.{ℕ, ◌/◌, ◌%◌, ◌^◌, ◌==◌, if◌then◌else◌, bit_and, ◌>>>◌}

-- `dec_inst`
pub record DecInst : Type 0 where
  pub opcode : ℕ
  pub funct3 : ℕ
  pub funct7 : ℕ
  pub rd : ℕ
  pub rs1 : ℕ
  pub rs2 : ℕ
  pub imm : ℕ

-- `struct encoded_type_i`
pub record EncodedTypeI : Type 0 where
  pub rd : ℕ
  pub funct3 : ℕ
  pub rs1 : ℕ
  pub imm : ℕ

-- `struct encoded_type_r`; its last field is declared 12 bits wide.
pub record EncodedTypeR : Type 0 where
  pub rd : ℕ
  pub funct3 : ℕ
  pub rs1 : ℕ
  pub rs2 : ℕ
  pub funct7 : ℕ

-- The bits `at … at + width - 1`.
abbrev pub field : (w at width : ℕ) → ℕ
field w at width = w / 2 ^ at % 2 ^ width

unfoldable pub enc_i : ℕ → EncodedTypeI
enc_i w = record { rd = field w 0 5; funct3 = field w 5 3; rs1 = field w 8 5; imm = field w 13 12 }

unfoldable pub enc_r : ℕ → EncodedTypeR
enc_r w = record {
  rd = field w 0 5;
  funct3 = field w 5 3;
  rs1 = field w 8 5;
  rs2 = field w 13 5;
  funct7 = field w 18 12;
}

-- The form, 0 if there is none, and what `*dinst` holds afterwards.
unfoldable pub decode_instruction : (einst : ℕ) → DecInst → ℕ × DecInst
unfolding enc_i enc_r
decode_instruction einst dinst =
    let opcode = bit_and einst 0x7f in
    let i = enc_i (einst >>> 7) in
    let r = enc_r (einst >>> 7) in
    if opcode == 0x73
    then (
      2,
      record {
        opcode = opcode;
        funct3 = i.funct3;
        funct7 = 0;
        rd = i.rd;
        rs1 = i.rs1;
        rs2 = 0;
        imm = i.imm;
      },
    )
    else if opcode == 0x33
    then (
      1,
      record {
        opcode = opcode;
        funct3 = r.funct3;
        funct7 = r.funct7;
        rd = r.rd;
        rs1 = r.rs1;
        rs2 = r.rs2;
        imm = 0;
      },
    )
    else (0, dinst)
