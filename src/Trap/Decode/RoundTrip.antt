-- ===== src/Trap/Decode/RoundTrip.antt =====
-- `decode_instruction` against the layout of the instruction formats.
use echelon_sbi.Base.{ℕ, ◌+◌, ◌*◌, ◌^◌, ◌<◌, ◌≡◌, arith}
use echelon_sbi.Base.Bits.Fields.{bit_and-ones}
use echelon_sbi.Trap.Decode.{DecInst, enc_i, enc_r, decode_instruction}

-- The fields from the lowest bit up, each at its place.
abbrev pub type_i : (opcode rd funct3 rs1 imm : ℕ) → ℕ
type_i opcode rd funct3 rs1 imm =
    opcode + 2 ^ 7 * rd + 2 ^ 12 * funct3 + 2 ^ 15 * rs1 + 2 ^ 20 * imm

abbrev pub type_r : (opcode rd funct3 rs1 rs2 funct7 : ℕ) → ℕ
type_r opcode rd funct3 rs1 rs2 funct7 =
    opcode + 2 ^ 7 * rd + 2 ^ 12 * funct3 + 2 ^ 15 * rs1 + 2 ^ 20 * rs2 + 2 ^ 25 * funct7

-- A system instruction is found to be of form 2, with the fields that it was put together from.
pub decode_instruction-type_i :
    (rd funct3 rs1 imm : ℕ) (d : DecInst)
    → rd < 2 ^ 5
    → funct3 < 2 ^ 3
    → rs1 < 2 ^ 5
    → imm < 2 ^ 12
    → decode_instruction (type_i 0x73 rd funct3 rs1 imm) d ≡ (
      2,
      record { opcode = 0x73; funct3 = funct3; funct7 = 0; rd = rd; rs1 = rs1; rs2 = 0; imm = imm },
    )
unfolding decode_instruction enc_i enc_r
decode_instruction-type_i rd funct3 rs1 imm d b0 b1 b2 b3 =
    ground (arith, bit_and-ones 7 (type_i 0x73 rd funct3 rs1 imm))

-- An integer register instruction is found to be of form 1, with the fields that it was put together
-- from.
pub decode_instruction-type_r :
    (rd funct3 rs1 rs2 funct7 : ℕ) (d : DecInst)
    → rd < 2 ^ 5
    → funct3 < 2 ^ 3
    → rs1 < 2 ^ 5
    → rs2 < 2 ^ 5
    → funct7 < 2 ^ 7
    → decode_instruction (type_r 0x33 rd funct3 rs1 rs2 funct7) d ≡ (
      1,
      record {
        opcode = 0x33;
        funct3 = funct3;
        funct7 = funct7;
        rd = rd;
        rs1 = rs1;
        rs2 = rs2;
        imm = 0;
      },
    )
unfolding decode_instruction enc_i enc_r
decode_instruction-type_r rd funct3 rs1 rs2 funct7 d b0 b1 b2 b3 b4 =
    ground (arith, bit_and-ones 7 (type_r 0x33 rd funct3 rs1 rs2 funct7))
