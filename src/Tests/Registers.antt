-- ===== src/Tests/Registers.antt =====
-- Bits, shift registers and decoded fields at concrete values.
use simpio.Base.{ℕ, ◌+◌, ◌-◌, ◌*◌, ◌/◌, ◌%◌, ◌^◌, ◌≡◌, refl, arith, true}
use mathlib.Core.List.{reverse}
use simpio.Bits.{shift_n_then_copy, op_bit_reverse}
use simpio.Bits.Registers.{shift_in_right}
use simpio.Bits.Reverse.{digits_of, digits-op_bit_reverse}
use simpio.Hardware.{Sm, u8}
use simpio.Decode.{exec_instruction_decode}
use simpio.Decode.Fields.{assemble, run_jmp-decoded}
use simpio.Decode.Machine.{Machine, mov}
use simpio.Exec.Context.{Context, in_exec}
use simpio.Exec.Flow.{run_jmp_instruction}
use simpio.Tests.Samples.{some_undefined, raw_fifo, sample_sm, sample_context, plain_instruction}

shift_in_right_example :
    shift_n_then_copy some_undefined true 0x5A 0xABCD 8
    ≡ 0xABCD / 2 ^ 8 + 0x5A % 2 ^ 8 * 2 ^ (32 - 8)
shift_in_right_example =
    shift_in_right some_undefined 8 0x5A 0xABCD (omega arith) (omega arith) (omega arith)

digits-op_bit_reverse_example : digits_of 32 (op_bit_reverse 6) ≡ reverse (digits_of 32 6)
digits-op_bit_reverse_example = digits-op_bit_reverse 6

abbrev machine_of : ℕ → Sm
machine_of mi = record (sample_sm raw_fifo) { exec_machine_instruction = mi }

-- JMP !X to 5, with 3 in X.
abbrev jmp_context : Context
jmp_context = sample_context plain_instruction (machine_of (assemble 1 0 0 0 1 5))

run_jmp-decoded_example :
    let (completed, c') =
      run_jmp_instruction in_exec
        (record jmp_context { sm = exec_instruction_decode some_undefined jmp_context.sm }) in
    (completed ≡ true) × (c'.sm.exec_instruction.jmp_pc ≡ u8 (5 + 255))
run_jmp-decoded_example =
    run_jmp-decoded some_undefined jmp_context 0 0 1 5 (omega arith) (omega arith) (omega arith)
      (omega arith) (omega arith) refl

abbrev sample_machine : Machine
sample_machine = mov 1 0 2
