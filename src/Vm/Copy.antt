-- ===== src/Vm/Copy.antt =====
-- Copying between the kernel and user memory (kernel/vm.c).
-- The kernel's buffer is a function of the offset. `false` is -1. memmove between a page and the
-- kernel's buffer, which do not overlap, copies forward: Strings.antt has the routine itself.
pub mod Bytewise
pub mod Fetch
use io_scheduling.Prelude.{
  ℕ, zero, suc, ◌+◌, ◌-◌, ◌*◌, ◌/◌, ◌%◌, Bool, true, false, not, ltb, leb, ◌==◌, ◌&&◌, ◌||◌,
  if◌then◌else◌, Option, none, some, Run, ok, stop, out_of_fuel, ◌>>=◌, update,
}
use io_scheduling.Vm.{Vm, pgsize, round_down, walkaddr}

pub poke : ℕ → ℕ → ℕ → Vm → Vm
poke page j c s = record s { bytes = update s.bytes page (update (s.bytes page) j c) }

-- memmove of `n` bytes from offset `i` of the kernel's buffer to place `j` of a page
pub move_in : ℕ → ℕ → ℕ → (ℕ → ℕ) → ℕ → Vm → Vm
move_in zero page j src i s = s
move_in (suc n) page j src i s = move_in n page (j + 1) src (i + 1) (poke page j (src i) s)

-- memmove of `n` bytes from place `j` of a page to offset `i` of the kernel's buffer
pub move_out : ℕ → ℕ → ℕ → Vm → ℕ → (ℕ → ℕ) → ℕ → ℕ
move_out zero page j s i dst = dst
move_out (suc n) page j s i dst = move_out n page (j + 1) s (i + 1) (update dst i (s.bytes page j))

-- how many bytes of `len` from `va` on are in its page
abbrev pub part : ℕ → ℕ → ℕ
part va len = let n = pgsize - (va - round_down va) in if ltb len n then len else n

pub copyout_loop : ℕ → ℕ → ℕ → (ℕ → ℕ) → ℕ → ℕ → Vm → Run (Bool × Vm)
copyout_loop zero root dstva src i len s = stop out_of_fuel
copyout_loop (suc k) root dstva src i len s =
    let va0 = round_down dstva in
    let n = part dstva len in
    let copied = walkaddr root va0 s >>= λ pa0. elim pa0 [
      | none ↦ ok (false, s)
      | some page ↦
          copyout_loop k root (va0 + pgsize) src (i + n) (len - n)
            (move_in n page (dstva - va0) src i s)
    ] in
    if len == 0 then ok (true, s) else copied

-- each round copies at least one byte
pub copyout : ℕ → ℕ → (ℕ → ℕ) → ℕ → Vm → Run (Bool × Vm)
copyout root dstva src len s = copyout_loop (len + 1) root dstva src 0 len s

pub copyin_loop : ℕ → ℕ → (ℕ → ℕ) → ℕ → ℕ → ℕ → Vm → Run (Bool × (ℕ → ℕ))
copyin_loop zero root dst i srcva len s = stop out_of_fuel
copyin_loop (suc k) root dst i srcva len s =
    let va0 = round_down srcva in
    let n = part srcva len in
    let copied = walkaddr root va0 s >>= λ pa0. elim pa0 [
      | none ↦ ok (false, dst)
      | some page ↦
          copyin_loop k root (move_out n page (srcva - va0) s i dst) (i + n) (va0 + pgsize)
            (len - n) s
    ] in
    if len == 0 then ok (true, dst) else copied

pub copyin : ℕ → (ℕ → ℕ) → ℕ → ℕ → Vm → Run (Bool × (ℕ → ℕ))
copyin root dst srcva len s = copyin_loop (len + 1) root dst 0 srcva len s

-- The inner `while` of copyinstr, for `n` bytes from place `j` of a page: whether it got to a NUL.
pub string_loop : ℕ → ℕ → ℕ → Vm → ℕ → (ℕ → ℕ) → Bool × (ℕ → ℕ)
string_loop zero page j s i dst = (false, dst)
string_loop (suc n) page j s i dst =
    let rest = string_loop n page (j + 1) s (i + 1) (update dst i (s.bytes page j)) in
    if s.bytes page j == 0 then (true, update dst i 0) else rest

pub copyinstr_loop : ℕ → ℕ → (ℕ → ℕ) → ℕ → ℕ → ℕ → Vm → Run (Bool × (ℕ → ℕ))
copyinstr_loop zero root dst i srcva max s = stop out_of_fuel
copyinstr_loop (suc k) root dst i srcva max s =
    let va0 = round_down srcva in
    let n = part srcva max in
    let copied = walkaddr root va0 s >>= λ pa0. elim pa0 [
      | none ↦ ok (false, dst)
      | some page ↦
          (let (got_null, dst') = string_loop n page (srcva - va0) s i dst in
            let rest = copyinstr_loop k root dst' (i + n) (va0 + pgsize) (max - n) s in
            if got_null then ok (true, dst') else rest)
    ] in
    if max == 0 then ok (false, dst) else copied

pub copyinstr : ℕ → (ℕ → ℕ) → ℕ → ℕ → Vm → Run (Bool × (ℕ → ℕ))
copyinstr root dst srcva max s = copyinstr_loop (max + 1) root dst 0 srcva max s
