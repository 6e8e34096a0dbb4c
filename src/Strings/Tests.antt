-- ===== src/Strings/Tests.antt =====
-- The string routines on a memory where byte `a` is the low byte of `a`.
use io_scheduling.Prelude.{◌+◌, ◌%◌, inl, arith}
use io_scheduling.Strings.{Memory, memmove, safestrcpy}
use io_scheduling.Strings.Copy.{IsWritten, Terminated, memmove_correct, safestrcpy_correct}

abbrev bytes : Memory
bytes a = a % 256

memmove_correct_example : IsWritten 12 5 (λ j. bytes (10 + j)) bytes (memmove 12 10 5 bytes)
memmove_correct_example = memmove_correct 12 10 5 bytes

safestrcpy_correct_example : Terminated 15 10 250 bytes (safestrcpy 10 250 16 bytes)
safestrcpy_correct_example = safestrcpy_correct 16 10 250 bytes (omega arith) (inl (omega arith))
