-- ===== src/Log/Tests.antt =====
-- The log at concrete states. It starts at block 2 and has 31 blocks.
use io_scheduling.Prelude.{
  ℕ, ◌≤◌, ◌≡◌, ◌⊎◌, inl, inr, refl, arith, false, ◌==◌, if◌then◌else◌, pos, Returns, fun_ext,
  ℕ_discrete,
}
use io_scheduling.Log.{Block, Buffers, Log, initlog, commit, log_write}
use io_scheduling.Log.Safe.{IsSafe}
use io_scheduling.Log.Recover.{IsDone, initlog_correct}
use io_scheduling.Log.Commit.{IsPending, commit-IsSafe, commit_complete}
use io_scheduling.Log.Ops.{IsAdded, log_write_correct}
use io_scheduling.Log.Reserve.{start}

abbrev zeros : Block
zeros j = 0

abbrev sevens : Block
sevens j = 7

-- block 40 was changed in the cache, and power fails after `k` disk writes
abbrev buffers : ℕ → Buffers
buffers k = record {
  cache = λ b. if b == 40 then sevens else zeros;
  pins = λ b. 0;
  disk = λ b. zeros;
  power = k;
}

abbrev changed : ℕ → ℕ → Log
changed n k = record {
  start = 2;
  size = 31;
  outstanding = pos 1;
  committing = false;
  n = n;
  block = λ i. 40;
  buffers = buffers k;
}

changed-IsPending : (k : ℕ) → IsPending (changed 1 k)
changed-IsPending k = record {
  fits = omega arith;
  empty = refl;
  homes = λ i h. omega arith;
  clean = λ b home. elim (ℕ_discrete 40 b) [
    | yes e ↦ inr (0, omega arith, e)
    | no e ↦ inl (ground arith)
  ];
}

-- power fails after the header is written
commit-IsSafe_example :
    IsSafe 2 31 (λ b. zeros) (commit (changed 1 2)).buffers.disk
    ⊎ IsSafe 2 31 (λ b. if b == 40 then sevens else zeros) (commit (changed 1 2)).buffers.disk
commit-IsSafe_example = commit-IsSafe (changed 1 2) (changed-IsPending 2)

commit_complete_example :
    IsDone 2 31 (λ b. if b == 40 then sevens else zeros) (commit (changed 1 9)).buffers.disk
    × ((commit (changed 1 9)).buffers.disk 2 0 ≡ 0)
commit_complete_example = commit_complete (changed 1 9) (changed-IsPending 9) (omega arith)

-- the disk of a committed transaction that is not installed
abbrev committed : ℕ → Block
committed b j =
    if b == 2 then (if j == 0 then 1 else if j == 1 then 40 else 0) else if b == 3 then 7 else 0

abbrev rebooted : Log
rebooted = record (changed 0 9) { buffers = record (buffers 9) { disk = committed } }

abbrev contents : ℕ → Block
contents b = if b == 40 then sevens else zeros

committed-IsSafe : IsSafe 2 31 contents committed
committed-IsSafe = record {
  fits = omega arith;
  homes = λ i h. (let e : i ≡ 0 = omega arith in rw e (omega arith));
  copies = λ i h. (let e : i ≡ 0 = omega arith in rw e refl);
  rest = λ b home. elim (ℕ_discrete 40 b) [
    | yes e ↦ inr (0, omega arith, e)
    | no e ↦ inl (fun_ext λ j. ground arith)
  ];
}

initlog_correct_example :
    IsSafe 2 31 contents (initlog 2 31 rebooted).buffers.disk
    × ((◌≤◌ 9 1)
        ⊎ (IsDone 2 31 contents (initlog 2 31 rebooted).buffers.disk
            × ((initlog 2 31 rebooted).buffers.disk 2 0 ≡ 0)))
initlog_correct_example = initlog_correct 2 31 contents rebooted (omega arith) committed-IsSafe

-- three calls at once, as many as begin_op lets in
abbrev fresh : Log
fresh = record (changed 0 9) { outstanding = pos 0 }

abbrev three : Log
three = record fresh { outstanding = pos 3 }

log_write_correct_example : Returns (IsAdded 40 (changed 0 9)) (log_write 40 (changed 0 9))
log_write_correct_example =
    log_write_correct 40 0 (changed 0 9)
      (record {
        fits = omega arith;
        empty = refl;
        homes = λ i h. absurd (omega arith);
        home = omega arith;
        clean = λ c ne home. inl (ground arith);
      })
      refl (omega arith) (omega arith)
