-- ===== src/Lib.antt =====
-- A model of Simpio, a simulator of the programmable I/O (PIO) of the RP2040, with its correctness
-- theorems.
--
-- The program steps the state machines of a PIO through their instructions. Each state machine (`sm_t`,
-- inc/hardware.h) has its registers and a FIFO pair (src/fifo.c) that user processors are at the other
-- end of; its instructions (src/execution.c) read and set GPIO lines and IRQ flags (src/hardware.c),
-- and simulated devices, such as the SPI flash (src/device_spi_flash.c), sit on the same lines.
--
-- Files:
-- - Base: shared names, Boolean tests, C arrays as lists, C integers.
-- - Undefined: the values that C leaves undefined and the program reads, as one parameter.
-- - Bits (src/execution.c): nth_bit, set_nth_bit_to, copy_n_then_shift, shift_n_then_copy,
--   instruction_field, op_bit_reverse. A pointer argument is passed in and returned.
-- - Fifo (src/fifo.c, inc/fifo.h): the operations, without the prefix `fifo_`; Fifo/Spec has the two
--   bounded queues, Fifo/Layout and Fifo/Window the relation of the buffer to them.
-- - Instruction (inc/instruction.h, src/instruction.c): the decoded instructions and their resets.
-- - Hardware (inc/hardware.h, src/hardware.c): the state machine, the GPIO lines and the IRQ flags.
-- - Decode (src/execution.c): exec_instruction_decode, one function for each case; what the codes in its
--   fields stand for is in Instruction/Codes.
-- - Exec (src/execution.c): Context is the state that an instruction reaches; Flow, Shift and Data
--   have the handlers, Run has exec_run_instruction with OUT and MOV, which may call it again.
-- - Flash (src/device_spi_flash.c): the shifting of bits, in Flash/Commands what is done with a
--   byte, and in Flash/Machine the phases of the state machine.
-- - User (src/execution.c): the instructions of user processors; UserContext is what one reaches.
-- - Enumerator (inc/enumerator.h), Keypad (src/device_keypad.c), Symbols (src/symbols.c), Editor
--   (src/editor.c: the cursor and the buffer, without what it draws), History and
--   Changed (src/hardware_changed.c: the GPIO history, and the snapshots).
-- - System: the state of the whole program. Configure and Reset (src/hardware.c) have its
--   configuration, Entries, Table and Breakpoints (src/instruction.c) its program memories, with the
--   definitions and labels, Turns, Search,
--   Interrupt, Step and RunAll (src/execution.c) the scheduler up to exec_run_all_programs;
--   the other files under System have the proofs.
-- - Lines: the loop of ed_init (src/editor.c) and set_print_lines (src/print.c) that finds the lines of
--   a file, and print_line. Editor/Opened has ed_init itself.
-- - Print (src/print.c): the texts of the functions that print, as lists of characters.
-- - Session (src/main.c): the commands that the user interface calls, on the static variables of that
--   file, with instruction_for_line (src/instruction.c). Options has parse_options and main_test,
--   Terminal the interactive mode, Main the function main, Timeline the timeline, Registers and
--   Contents what the windows show; the other files under Session have the proofs.
-- - Tests: the theorems at concrete inputs.
--
-- State is passed and returned. An instruction in the memory of the PIO and the one that EXEC decoded
-- into the state machine are told apart by a `Place`, so that the aliasing of the C pointers is kept.
-- A pointer to a state machine or a PIO is its number.
--
-- Bounds and fuel: words are natural numbers with the wrap of C written out, and a bound of 32 bits is
-- a hypothesis where a theorem needs it. Only EXEC costs fuel: a level of EXEC inside EXEC and a round
-- of the loop that repeats a decoded instruction until it completes. No bound is enough for an
-- instruction that EXEC decoded and that waits for something
-- outside its state machine: the C loop does not end there.
--
-- What a C read outside an array, or of a variable that is not set, finds is the parameter `Outside` of
-- the functions on the whole program. A store outside an array changes nothing in the model, which says
-- nothing of what C overwrites there: the theorems on the program memory and on the history are bounded
-- to what the arrays hold. A negative index of a line in src/editor.c, and a negative program counter
-- where one is read without a test, count as 0.
--
-- A step of the program has the fuel of the instruction that it executes, and a run a bound on its
-- rounds, since it ends only at a breakpoint, by a key or by an EXIT.
--
-- Outside of main stand, as parameters, what simpio_parse answers and makes of the program, what ui_run
-- leaves of it, the input and the keys. The interactive mode has a bound on its commands, since it ends
-- only at a q of the input.
--
-- Not modelled: the name and the display function of a device; the call by which exec_run_instruction
-- adds to the GPIO history, which is modelled on its own; symbols_done; saveit and temp_window_handler of
-- src/main.c; what src/ui.c draws and its switch on the keys; and the parser.
pub mod Base
pub mod Undefined
pub mod Bits
pub mod Fifo
pub mod Instruction
pub mod Hardware
pub mod Decode
pub mod Exec
pub mod User
pub mod Flash
pub mod Enumerator
pub mod History
pub mod Keypad
pub mod System
pub mod Changed
pub mod Print
pub mod Session
pub mod Symbols
pub mod Lines
pub mod Editor
pub mod Tests
