-- ===== src/Undefined.antt =====
-- What the C sources leave undefined and the program still reads: a shift by the full width, a
-- variable or a result that no statement has set. The definitions take these values as a parameter,
-- so a theorem with no hypothesis on it holds whatever a compiler makes of that code.
use simpio.Base.{ℕ, Bool}

pub record Undefined : Type 0 where
  -- `x << n` and `x >> n` of a 32-bit value, at a count of 32 or more.
  pub wide_left : ℕ → ℕ → ℕ
  pub wide_right : ℕ → ℕ → ℕ
  -- What `exec_instruction_decode`, a `bool` function with no return statement, hands its caller.
  pub decode_result : Bool
  -- `completed` of `run_wait_instruction` and of `exec_run_instruction`, where no case sets it.
  pub wait_completed : Bool
  -- `value` of `run_mov_instruction` at a source with no case.
  pub mov_value : ℕ
  -- `pin_num` of `run_set_instruction` at the destination PINDIRS.
  pub set_pin : ℕ
  -- What `spif_get_addr`, a function with no return statement, hands its caller: the address that it
  -- computed may or may not be what arrives.
  pub address_result : ℕ → ℕ
