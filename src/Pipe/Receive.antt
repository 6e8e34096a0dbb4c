-- ===== src/Pipe/Receive.antt =====
-- `piperead` of kernel/pipe.c.
use io_scheduling.Prelude.{
  ℕ, zero, suc, ◌+◌, ◌-◌, ◌%◌, ◌^◌, ◌<◌, ◌≡◌, ◌∙◌, refl, arith, Bool, true, false, ◌==◌, update,
  ℕ_discrete, if_elim, Bool-cases, ◌&&◌, ◌⊎◌, inl, inr,
}
use io_scheduling.Pipe.{Pipe, pipesize, read_loop, piperead, Answer, moved, asleep}
use io_scheduling.Pipe.Fifo.{Holds, Holds-ext, least}

abbrev popped : Pipe → Pipe
popped p = record p { nread = (p.nread + 1) % 2 ^ 32 }

popped-Holds :
    (n : ℕ) (f : ℕ → ℕ) (p : Pipe) → Holds (suc n) f p → Holds n (λ j. f (j + 1)) (popped p)
popped-Holds n f p h = record {
  small = omega (arith, h.small);
  read = omega arith;
  write = omega (arith, h.write, h.read);
  bytes = λ j low.
      let e : ((p.nread + 1) % 2 ^ 32 + j) % pipesize ≡ (p.nread + (j + 1)) % pipesize =
        omega (arith, h.read) in
      rw e (h.bytes (j + 1) (omega arith));
}

read_loop_step :
    (mapped : ℕ → Bool) (k i n : ℕ) (f got : ℕ → ℕ) (p : Pipe)
    → Holds (suc n) f p
    → mapped i ≡ true
    → read_loop mapped (suc k) i got p
      ≡ read_loop mapped k (i + 1) (update got i (p.bytes (p.nread % pipesize))) (popped p)
unfolding read_loop
read_loop_step mapped k i n f got p h e = ground (arith, h.write, h.read, h.small)

read_loop_empty :
    (mapped : ℕ → Bool) (k i : ℕ) (f got : ℕ → ℕ) (p : Pipe)
    → Holds 0 f p
    → read_loop mapped k i got p ≡ (i, got, p)
unfolding read_loop
read_loop_empty mapped zero i f got p h = refl
read_loop_empty mapped (suc k) i f got p h = ground (arith, h.write, h.read)

-- `k` bytes are taken from offset `i` on: as many as there are.
Received : ℕ → ℕ → (ℕ → ℕ) → ℕ → (ℕ → ℕ) → ℕ × (ℕ → ℕ) × Pipe → Type 0
Received n k f i got (r, got', p) =
    (r ≡ i + least k n)
    × ((j : ℕ) → j < least k n → got' (i + j) ≡ f j)
    × ((j : ℕ) → j < i → got' j ≡ got j)
    × Holds (n - least k n) (λ j. f (j + least k n)) p

read_loop_lem :
    (mapped : ℕ → Bool) (k i n : ℕ) (f got : ℕ → ℕ) (p : Pipe)
    → Holds n f p
    → ((j : ℕ) → j < k → mapped (i + j) ≡ true)
    → Received n k f i got (read_loop mapped k i got p)
unfolding read_loop Received
read_loop_lem mapped zero i n f got p h all = (
  ground arith,
  λ j low. absurd (ground arith),
  λ j low. refl,
  Holds-ext n (n - least 0 n) f (λ j. f (j + least 0 n)) p (ground arith) (λ j low. ground arith) h,
)
read_loop_lem mapped (suc k) i zero f got p h all =
    rw (read_loop_empty mapped (suc k) i f got p h) (
      ground arith,
      λ j low. absurd (ground arith),
      λ j low. refl,
      Holds-ext 0 (0 - least (suc k) 0) f (λ j. f (j + least (suc k) 0)) p (ground arith)
          (λ j low. absurd (omega arith)) h,
    )
read_loop_lem mapped (suc k) i (suc n) f got p h all =
    let first : p.bytes (p.nread % pipesize) ≡ f 0 = ground (arith, h.bytes 0 (omega arith)) in
    let got1 = update got i (p.bytes (p.nread % pipesize)) in
    let (e, now, before, h') =
      read_loop_lem mapped k (i + 1) n (λ j. f (j + 1)) got1 (popped p) (popped-Holds n f p h)
        (λ j low. ground (arith, all (j + 1) (omega arith))) in
    let all0 : mapped i ≡ true = ground (arith, all 0 (omega arith)) in
    rw (read_loop_step mapped k i n f got p h all0) (
      ground (arith, e),
      λ j low. elim (ℕ_discrete j 0) [
        | yes z ↦ ground (arith, before i (omega arith), first)
        | no nz ↦ ground (arith, now (j - 1) (ground arith))
      ],
      λ j low. before j (omega arith) ∙ ground arith,
      Holds-ext (n - least k n) (suc n - least (suc k) (suc n)) (λ j. f (j + least k n + 1))
          (λ j. f (j + least (suc k) (suc n))) (read_loop mapped k (i + 1) got1 (popped p)).2
          (ground arith) (λ j low. ground arith) h',
    )

-- the two answers of piperead
pub Answered : ℕ → ℕ → (ℕ → ℕ) → Pipe → Answer × (ℕ → ℕ) × Pipe → Type 0
Answered n k f p (a, got', p') =
    ((n ≡ 0) × (p.writeopen ≡ true) × (a ≡ asleep 0) × (p' ≡ p))
    ⊎ (((0 < n) ⊎ (p.writeopen ≡ false))
        × (a ≡ moved (least k n))
        × ((j : ℕ) → j < least k n → got' j ≡ f j)
        × Holds (n - least k n) (λ j. f (j + least k n)) p')

-- Reading from a pipe that holds `n` bytes, into memory that can be written, for a process that is
-- not killed: piperead sleeps if the pipe is empty and open for writing, and changes nothing;
-- otherwise, that is with a byte in the pipe or no writer left, it returns, and gets the first `k`
-- bytes in the order in which they were sent, or all that there are.
pub piperead_correct :
    (mapped : ℕ → Bool) (k n : ℕ) (f got : ℕ → ℕ) (p : Pipe)
    → Holds n f p
    → ((j : ℕ) → j < k → mapped j ≡ true)
    → Answered n k f p (piperead false mapped k got p)
unfolding piperead Received Answered
piperead_correct mapped k n f got p h all =
    let (e, now, before, h') =
      read_loop_lem mapped k 0 n f got p h (λ j low. ground (arith, all j low)) in
    if_elim (Answered n k f p) (p.nread == p.nwrite && p.writeopen)
      (λ wait. inl (ground (arith, h.write, h.read, h.small), ground arith, refl, refl))
      (λ go. inr (
        elim (Bool-cases p.writeopen) [
          | inr closed ↦ inr closed
          | inl open_end ↦ inl (ground (arith, h.write, h.read, h.small, open_end))
        ],
        ground (arith, e),
        λ j low. ground (arith, now j low),
        record { small = h'.small; read = h'.read; write = h'.write; bytes = h'.bytes },
      ))
