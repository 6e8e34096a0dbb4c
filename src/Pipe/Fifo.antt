-- ===== src/Pipe/Fifo.antt =====
-- `pipewrite` and `piperead` of kernel/pipe.c over the queue of the bytes in transit.
use io_scheduling.Prelude.{
  ℕ, zero, suc, ◌+◌, ◌-◌, ◌%◌, ◌^◌, ◌≤◌, ◌<◌, ◌≡◌, ◌≢◌, ◌∙◌, refl, arith, true, false, ltb, leb,
  if◌then◌else◌, Option, some, ℕ_discrete, dec_lt,
}
use io_scheduling.Pipe.{
  Pipe, pipesize, push, write_loop, pipewrite, Answer, moved, asleep, wake_readers, log_event,
}

-- The pipe holds the bytes `f 0`, ..., `f (n - 1)`.
pub record Holds (n : ℕ) (f : ℕ → ℕ) (p : Pipe) : Type 0 where
  pub small : n ≤ pipesize
  pub read : p.nread < 2 ^ 32
  pub write : p.nwrite ≡ (p.nread + n) % 2 ^ 32
  pub bytes : (i : ℕ) → i < n → p.bytes ((p.nread + i) % pipesize) ≡ f i

-- `f`, and `u` from index `n` on
abbrev pub append : ℕ → (ℕ → ℕ) → (ℕ → ℕ) → ℕ → ℕ
append n f u i = if ltb i n then f i else u (i - n)

abbrev pub least : ℕ → ℕ → ℕ
least k m = if leb k m then k else m

-- two different bytes in transit have different places
place :
    (r n i : ℕ)
    → r < 2 ^ 32
    → i < n
    → n < pipesize
    → (r + n) % 2 ^ 32 % pipesize ≢ (r + i) % pipesize
place r n i small low high e = omega arith

push-Holds :
    (n : ℕ) (f : ℕ → ℕ) (p : Pipe) (ch : ℕ)
    → Holds n f p
    → n < pipesize
    → Holds (n + 1) (append n f (λ i. ch)) (push ch p)
unfolding push
push-Holds n f p ch h low = record {
  small = omega arith;
  read = h.read;
  write = ground arith;
  bytes = λ i inside. elim (ℕ_discrete i n) [
    | yes e ↦ rw e (ground (arith, h.write))
    | no ne ↦
        (let other = place p.nread n i h.read (omega arith) low in
          ground (arith, h.write, h.bytes i (omega arith), other))
  ];
}

pub Holds-ext :
    (n m : ℕ) (f g : ℕ → ℕ) (p : Pipe)
    → n ≡ m
    → ((i : ℕ) → i < n → f i ≡ g i)
    → Holds n f p
    → Holds m g p
Holds-ext n m f g p same e h = record {
  small = omega (arith, h.small);
  read = h.read;
  write = ground (arith, h.write);
  bytes = λ i low. h.bytes i (omega arith) ∙ e i (omega arith);
}

push_open : (ch : ℕ) (p : Pipe) → (push ch p).readopen ≡ p.readopen
unfolding push
push_open ch p = refl

write_loop_step :
    (u : ℕ → Option ℕ) (ch k i n : ℕ) (f : ℕ → ℕ) (p : Pipe)
    → Holds n f p
    → p.readopen ≡ true
    → u i ≡ some ch
    → n < pipesize
    → write_loop false u (suc k) i p ≡ write_loop false u k (i + 1) (push ch p)
unfolding write_loop
write_loop_step u ch k i n f p h is_open e low = ground (arith, h.write, h.read)

write_loop_full :
    (u : ℕ → Option ℕ) (k i n : ℕ) (f : ℕ → ℕ) (p : Pipe)
    → Holds n f p
    → p.readopen ≡ true
    → n ≡ pipesize
    → write_loop false u (suc k) i p ≡ (asleep i, log_event wake_readers p)
unfolding write_loop
write_loop_full u k i n f p h is_open e = ground (arith, h.write, h.read)

-- `k` bytes `g 0`, `g 1`, ... are offered from offset `i` on: as many as there is room for are sent.
Sent : ℕ → ℕ → (ℕ → ℕ) → ℕ → (ℕ → ℕ) → Answer × Pipe → Type 0
Sent n k f i g (a, p) =
    (a ≡ (if leb k (pipesize - n) then moved (i + k) else asleep (i + (pipesize - n))))
    × Holds (n + least k (pipesize - n)) (append n f g) p

write_loop_lem :
    (u : ℕ → Option ℕ) (k : ℕ) (g : ℕ → ℕ) (i n : ℕ) (f : ℕ → ℕ) (p : Pipe)
    → Holds n f p
    → p.readopen ≡ true
    → ((j : ℕ) → j < k → u (i + j) ≡ some (g j))
    → Sent n k f i g (write_loop false u k i p)
unfolding write_loop Sent
write_loop_lem u zero g i n f p h is_open all = (
  ground arith,
  record {
    small = ground (arith, h.small);
    read = h.read;
    write = ground (arith, h.write);
    bytes = λ j low. ground (arith, h.bytes j (ground arith));
  },
)
write_loop_lem u (suc k) g i n f p h is_open all = elim (dec_lt n pipesize) [
  | yes low ↦
      (let (e, h') =
          write_loop_lem u k (λ j. g (j + 1)) (i + 1) (n + 1) (append n f (λ j. g 0)) (push (g 0) p)
            (push-Holds n f p (g 0) h low) (push_open (g 0) p ∙ is_open)
            (λ j s. ground (arith, all (j + 1) (omega arith))) in
        rw (write_loop_step u (g 0) k i n f p h is_open (ground (arith, all 0)) low) (
          ground (arith, e),
          Holds-ext (n + 1 + least k (pipesize - (n + 1))) (n + least (suc k) (pipesize - n))
              (append (n + 1) (append n f (λ j. g 0)) (λ j. g (j + 1))) (append n f g)
              (write_loop false u k (i + 1) (push (g 0) p)).1 (ground arith) (λ j s. ground arith)
              h',
        ))
  | no full ↦
      (let e : n ≡ pipesize = omega (arith, h.small) in
        rw (write_loop_full u k i n f p h is_open e) (
          ground arith,
          Holds-ext n (n + least (suc k) (pipesize - n)) f (append n f g) (log_event wake_readers p)
              (ground arith) (λ j s. ground arith)
              (record { small = h.small; read = h.read; write = h.write; bytes = h.bytes }),
        ))
]

-- Sending to a pipe that is open for reading and holds `n` bytes, from a process that is not killed
-- and whose bytes can be read: pipewrite sends all the bytes, in order behind those in transit, or as
-- many as there is room for, and then sleeps.
pub pipewrite_correct :
    (u : ℕ → Option ℕ) (k : ℕ) (g : ℕ → ℕ) (n : ℕ) (f : ℕ → ℕ) (p : Pipe)
    → Holds n f p
    → p.readopen ≡ true
    → ((j : ℕ) → j < k → u j ≡ some (g j))
    → let (a, p') = pipewrite false u k p in
      (a ≡ (if leb k (pipesize - n) then moved k else asleep (pipesize - n)))
      × Holds (n + least k (pipesize - n)) (append n f g) p'
unfolding pipewrite Sent
pipewrite_correct u k g n f p h is_open all =
    let (e, h') = write_loop_lem u k g 0 n f p h is_open (λ j low. ground (arith, all j low)) in
    (ground (arith, e), h')
