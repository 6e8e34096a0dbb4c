-- ===== src/Pipe/Tests.antt =====
-- Pipes at concrete states: an empty one, one with three bytes, and one with the 600 bytes of a caller.
use io_scheduling.Prelude.{ℕ, ◌+◌, ◌%◌, ◌≡◌, refl, arith, true, false, some, []}
use io_scheduling.Pipe.{Pipe, pipewrite, piperead, asleep}
use io_scheduling.Pipe.Fifo.{Holds, append, pipewrite_correct}
use io_scheduling.Pipe.Receive.{Answered, piperead_correct}

abbrev zeros : ℕ → ℕ
zeros i = 0

-- three bytes, the last of them at the start of the array
abbrev three : Pipe
three = record {
  bytes = λ i. i;
  nread = 1022;
  nwrite = 1025;
  readopen = true;
  writeopen = true;
  events = [];
}

abbrev content : ℕ → ℕ
content i = (1022 + i) % 512

three-Holds : Holds 3 content three
three-Holds = record {
  small = omega arith;
  read = omega arith;
  write = refl;
  bytes = λ i low. refl;
}

pipewrite_correct_example :
    let (a, p') = pipewrite false (λ j. some (j + 7)) 600 three in
    (a ≡ asleep 509) × Holds 512 (append 3 content (λ j. j + 7)) p'
pipewrite_correct_example =
    pipewrite_correct (λ j. some (j + 7)) 600 (λ j. j + 7) 3 content three three-Holds refl
      (λ j low. refl)

piperead_correct_example : Answered 3 2 content three (piperead false (λ j. true) 2 zeros three)
piperead_correct_example =
    piperead_correct (λ j. true) 2 3 content zeros three three-Holds (λ j low. refl)
