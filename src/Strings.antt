-- ===== src/Strings.antt =====
-- The C string routines (kernel/string.c), on memory as a function from addresses to bytes.
-- Addresses do not wrap around. Loops over NUL-terminated strings have a bound on the length as fuel.
pub mod Copy
mod Tests
use io_scheduling.Prelude.{
  ℕ, zero, suc, ◌+◌, ◌-◌, ◌%◌, Bool, true, false, not, ltb, leb, ◌==◌, ◌&&◌, if◌then◌else◌, Option,
  none, some, ℤ, pos, negsuc, update,
}

abbrev pub Memory : Type 0
Memory = ℕ → ℕ

pub memset_loop : ℕ → ℕ → ℕ → Memory → Memory
memset_loop zero d c m = m
memset_loop (suc n) d c m = memset_loop n (d + 1) c (update m d (c % 256))

pub memset : ℕ → ℕ → ℕ → Memory → Memory
memset dst c n m = memset_loop n dst c m

-- the difference of two bytes as an `int`
abbrev pub minus : ℕ → ℕ → ℤ
minus a b = if leb b a then pos (a - b) else negsuc (b - a - 1)

pub memcmp : ℕ → ℕ → ℕ → Memory → ℤ
memcmp v1 v2 zero m = pos 0
memcmp v1 v2 (suc n) m =
    let rest = memcmp (v1 + 1) (v2 + 1) n m in if m v1 == m v2 then rest else minus (m v1) (m v2)

-- the two loops of memmove
pub forward_loop : ℕ → ℕ → ℕ → Memory → Memory
forward_loop zero d s m = m
forward_loop (suc n) d s m = forward_loop n (d + 1) (s + 1) (update m d (m s))

pub backward_loop : ℕ → ℕ → ℕ → Memory → Memory
backward_loop zero d s m = m
backward_loop (suc n) d s m =
    let d' = d - 1 in let s' = s - 1 in backward_loop n d' s' (update m d' (m s'))

pub memmove : ℕ → ℕ → ℕ → Memory → Memory
memmove dst src n m =
    if n == 0
    then m
    else if ltb src dst && ltb dst (src + n)
    then backward_loop n (dst + n) (src + n) m
    else forward_loop n dst src m

pub strncmp : ℕ → ℕ → ℕ → Memory → ℤ
strncmp p q zero m = pos 0
strncmp p q (suc n) m =
    let rest = strncmp (p + 1) (q + 1) n m in
    if not (m p == 0) && m p == m q then rest else minus (m p) (m q)

-- the second loop of strncpy
pub pad_loop : ℕ → ℕ → Memory → Memory
pad_loop zero s m = m
pad_loop (suc n) s m = pad_loop n (s + 1) (update m s 0)

pub strncpy : ℕ → ℕ → ℕ → Memory → Memory
strncpy s t zero m = m
strncpy s t (suc n) m =
    let rest = strncpy (s + 1) (t + 1) n (update m s (m t)) in
    let pad = pad_loop n (s + 1) (update m s (m t)) in if m t == 0 then pad else rest

-- The loop of safestrcpy, for `n` bytes, the last of which is for the NUL: where `s` stands at the
-- end, and the memory.
pub safe_loop : ℕ → ℕ → ℕ → Memory → ℕ × Memory
safe_loop zero s t m = (s, m)
safe_loop (suc n) s t m =
    let rest = safe_loop n (s + 1) (t + 1) (update m s (m t)) in
    if m t == 0 then (s + 1, update m s (m t)) else rest

pub safestrcpy : ℕ → ℕ → ℕ → Memory → Memory
safestrcpy s t n m = let (e, m') = safe_loop (n - 1) s t m in if n == 0 then m else update m' e 0

-- `none` if there is no NUL within the first `k` bytes
pub strlen_loop : ℕ → ℕ → ℕ → Memory → Option ℕ
strlen_loop zero s n m = none
strlen_loop (suc k) s n m =
    let rest = strlen_loop k s (n + 1) m in if m (s + n) == 0 then some n else rest

pub strlen : ℕ → ℕ → Memory → Option ℕ
strlen k s m = strlen_loop k s 0 m
