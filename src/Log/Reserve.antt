-- ===== src/Log/Reserve.antt =====
-- The room that `begin_op` reserves (kernel/log.c), over the system calls that run at the same time.
-- `left` is no state of the program: it has, for each call between begin_op and end_op, how many more
-- times it may call log_write; a call does so at most MAXOPBLOCKS times.
use io_scheduling.Prelude.{ℕ, suc, ◌+◌, ◌≤◌, ◌<◌, ◌≡◌, false, some, ok, pos, List, [], ◌∷◌}
use io_scheduling.Log.{Log, Buffers, logsize, maxopblocks, begin_op, end_op, log_write}

-- one of the calls has called log_write once more
pub data Spent : List ℕ → List ℕ → Type 0 where
  here : (r : ℕ) (l : List ℕ) → Spent (suc r ∷ l) (r ∷ l)
  there : (x : ℕ) {l l' : List ℕ} → Spent l l' → Spent (x ∷ l) (x ∷ l')

-- one of the calls has ended
pub data Ended : List ℕ → List ℕ → Type 0 where
  here : (x : ℕ) (l : List ℕ) → Ended (x ∷ l) l
  there : (x : ℕ) {l l' : List ℕ} → Ended l l' → Ended (x ∷ l) (x ∷ l')

pub record Calls : Type 0 where
  pub log : Log
  pub left : List ℕ

-- begin_op, log_write and end_op of any of the calls; a call also changes buffers in the cache
pub data Step : Calls → Calls → Type 0 where
  begin :
      (s : Calls) (t : Log)
      → begin_op s.log ≡ some t
      → Step s (record { log = t; left = maxopblocks ∷ s.left })
  write :
      (s : Calls) (b : ℕ) (t : Log) (l : List ℕ)
      → Spent s.left l
      → log_write b s.log ≡ ok t
      → Step s (record { log = t; left = l })
  finish :
      (s : Calls) (t : Log) (l : List ℕ)
      → Ended s.left l
      → end_op s.log ≡ ok t
      → Step s (record { log = t; left = l })
  change : (s : Calls) (m : Buffers) → Step s (record s { log = record s.log { buffers = m } })

-- no call is running and the log is empty, as initlog leaves it; the log on the disk has room for a
-- header and LOGSIZE blocks
pub record IsStart (s : Calls) : Type 0 where
  pub idle : s.left ≡ []
  pub none_out : s.log.outstanding ≡ pos 0
  pub quiet : s.log.committing ≡ false
  pub empty : s.log.n ≡ 0
  pub room : logsize < s.log.size

pub data Reach : Calls → Type 0 where
  start : {s : Calls} → IsStart s → Reach s
  next : {s t : Calls} → Reach s → Step s t → Reach t

count : List ℕ → ℕ
count [] = 0
count (x ∷ l) = count l + 1

sum : List ℕ → ℕ
sum [] = 0
sum (x ∷ l) = x + sum l

IsLow : List ℕ → Type 0
IsLow [] = Unit
IsLow (x ∷ l) = (x ≤ maxopblocks) × IsLow l

-- The blocks in the log and those that the running calls may add fit.
record Inv (s : Calls) : Type 0 where
  quiet : s.log.committing ≡ false
  out : s.log.outstanding ≡ pos (count s.left)
  low : IsLow s.left
  reserved : s.log.n + sum s.left ≤ logsize
  room : logsize < s.log.size
