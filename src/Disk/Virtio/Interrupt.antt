-- ===== src/Disk/Virtio/Interrupt.antt =====
-- The loop of `virtio_disk_intr` of kernel/virtio_disk.c.
use io_scheduling.Prelude.{
  ℕ, zero, suc, ◌+◌, ◌-◌, ◌%◌, ◌^◌, ◌<◌, ◌≡◌, ◌≢◌, refl, arith, Bool, false, some, List, [], ◌∷◌,
  ok, stop, panic, Returns, update, ◌==◌, ◌||◌, if◌then◌else◌,
}
use io_scheduling.Disk.Virtio.{
  Disk, Info, Event, ack, num, wake_buf, complete, intr_loop, intr_used,
}

-- The entry of the used ring at `i` names a transfer that ended well, for the buffer `b`.
abbrev pub IsDone : (ℕ → Info) → (ℕ → ℕ) → ℕ → ℕ → Type 0
IsDone info used i b =
    (used (i % num) < num)
    × ((info (used (i % num))).status ≡ 0)
    × ((info (used (i % num))).b ≡ some b)

-- the buffers `bs` of the next entries of the used ring, from index `i`
abbrev pub AreDone : (ℕ → Info) → (ℕ → ℕ) → ℕ → List ℕ → Type 0
AreDone info used i [] = Unit
AreDone info used i (b ∷ bs) = IsDone info used i b × AreDone info used ((i + 1) % 2 ^ 16) bs

abbrev pub contains : List ℕ → ℕ → Bool
contains [] b = false
contains (x ∷ xs) b = (x == b) || contains xs b

abbrev pub length : List ℕ → ℕ
length [] = 0
length (x ∷ xs) = suc (length xs)

-- the wakeups, the latest first
abbrev pub wakeups : List ℕ → List Event → List Event
wakeups [] es = es
wakeups (b ∷ bs) es = wakeups bs (wake_buf b ∷ es)

-- what the loop leaves, from the state `s`
pub record HandedBack (bs : List ℕ) (device : ℕ) (s t : Disk) : Type 0 where
  pub index : t.used_idx ≡ device
  pub owned : (b : ℕ) → t.owned b ≡ (if contains bs b then false else s.owned b)
  pub events : t.events ≡ wakeups bs s.events
  pub free : t.free ≡ s.free
  pub info : t.info ≡ s.info

-- the state after one entry
abbrev after : ℕ → Disk → Disk
after b s = record s {
  owned = update s.owned b false;
  used_idx = (s.used_idx + 1) % 2 ^ 16;
  events = wake_buf b ∷ s.events;
}

complete_lem :
    (used : ℕ → ℕ) (s : Disk) (b : ℕ)
    → IsDone s.info used s.used_idx b
    → complete used s ≡ ok (after b s)
unfolding complete
complete_lem used s b d = ground arith

intr_loop_lem :
    (k : ℕ) (bs : List ℕ) (device : ℕ) (used : ℕ → ℕ) (s : Disk)
    → s.used_idx < 2 ^ 16
    → length bs < k
    → length bs < 2 ^ 16
    → device ≡ (s.used_idx + length bs) % 2 ^ 16
    → AreDone s.info used s.used_idx bs
    → Returns (HandedBack bs device s) (intr_loop k device used s)
unfolding intr_loop
intr_loop_lem zero bs device used s small f g e d = absurd (omega arith)
intr_loop_lem (suc k) [] device used s small f g e d = (
  s,
  ground arith,
  record { index = omega arith; owned = λ b. refl; events = refl; free = refl; info = refl },
)
intr_loop_lem (suc k) (b ∷ bs) device used s small f g e (d, ds) =
    let (t, run, h) =
      intr_loop_lem k bs device used (after b s) (omega arith) (omega arith) (omega arith)
        (omega arith) ds in
    (
      t,
      ground (arith, complete_lem used s b d, run),
      record {
        index = h.index;
        owned = λ c. ground (arith, h.owned c);
        events = h.events;
        free = h.free;
        info = h.info;
      },
    )

-- Where the device has completed the transfers of the buffers `bs` (fewer than 2^16) since the last
-- interrupt, all of them well, the loop of virtio_disk_intr ends at the device's index. Exactly these
-- buffers are handed back and woken up, in this order, and the descriptors stay as they are.
pub intr_used_correct :
    (bs : List ℕ) (device : ℕ) (used : ℕ → ℕ) (s : Disk)
    → s.used_idx < 2 ^ 16
    → length bs < 2 ^ 16
    → device ≡ (s.used_idx + length bs) % 2 ^ 16
    → AreDone s.info used s.used_idx bs
    → Returns
        (HandedBack bs device (record s { events = ack ∷ s.events }))
        (intr_used device used s)
unfolding intr_used
intr_used_correct bs device used s small g e d =
    intr_loop_lem (2 ^ 16) bs device used (record s { events = ack ∷ s.events }) small g g e d

intr_loop-failed :
    (k device : ℕ) (used : ℕ → ℕ) (s : Disk)
    → s.used_idx ≢ device
    → used (s.used_idx % num) < num
    → (s.info (used (s.used_idx % num))).status ≢ 0
    → intr_loop (suc k) device used s ≡ stop panic
unfolding intr_loop complete
intr_loop-failed k device used s more inside bad = ground arith

-- virtio_disk_intr panics at an entry whose transfer failed.
pub intr_used-failed :
    (device : ℕ) (used : ℕ → ℕ) (s : Disk)
    → s.used_idx ≢ device
    → used (s.used_idx % num) < num
    → (s.info (used (s.used_idx % num))).status ≢ 0
    → intr_used device used s ≡ stop panic
unfolding intr_used
intr_used-failed device used s more inside bad =
    intr_loop-failed (2 ^ 16 - 1) device used (record s { events = ack ∷ s.events }) more inside bad
