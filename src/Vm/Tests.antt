-- ===== src/Vm/Tests.antt =====
-- An empty page table in page 10, with pages 11 to 14 free.
use io_scheduling.Prelude.{◌≡◌, refl, arith, if◌then◌else◌, ◌==◌, [], ◌∷◌, ok, ◌>>=◌}
use io_scheduling.Vm.{Vm, walkaddr, mappages}
use io_scheduling.Vm.Tree.{IsTable, is_in, AllDifferent}
use io_scheduling.Vm.Map.{Mapped, mappages_correct}
use io_scheduling.Vm.Translate.{LooksUp, walkaddr-mappages}
use io_scheduling.Vm.Copy.{copyout, copyin, copyinstr}
use io_scheduling.Vm.Copy.Bytewise.{poke_all, copyout-poke_all}
use io_scheduling.Vm.Copy.Fetch.{peek_all, peek_string, copyin-peek_all, copyinstr-peek_string}

abbrev empty_table : Vm
empty_table = record { word = λ p i. 0; bytes = λ p j. 5; free = 11 ∷ 12 ∷ 13 ∷ 14 ∷ [] }

empty_table-IsTable : IsTable 10 empty_table
unfolding IsTable is_in AllDifferent
empty_table-IsTable = (
  record { rank = λ p. if p == 10 then 1 else 0; up = λ p. 0; at = λ p. 0 },
  record {
    top = refl;
    one = λ i a w v. absurd (ground (arith, w, v));
    two = λ i j a b w v w' v'. absurd (ground (arith, w, v));
    free = λ p f. ground (arith, f);
    different = (refl, (refl, (refl, (refl, tt))));
  },
)

-- 5000 bytes from 8000 on are in the pages 1 to 3; 30 is PTE_R, PTE_W, PTE_X and PTE_U
mappages_correct_example : Mapped 10 1 3 20 30 empty_table (mappages 10 8000 5000 20 30 empty_table)
mappages_correct_example =
    mappages_correct 10 8000 5000 20 30 empty_table empty_table-IsTable (omega arith) (omega arith)

walkaddr-mappages_example : LooksUp 9000 1 20 empty_table (
    mappages 10 8000 5000 20 30 empty_table >>= λ (done, t).
    walkaddr 10 9000 t >>= λ r. ok (done, t, r))
walkaddr-mappages_example =
    walkaddr-mappages 10 8000 5000 20 30 9000 empty_table empty_table-IsTable (omega arith)
      (omega arith) (omega arith) (omega arith) refl refl

copyout-poke_all_example :
    copyout 10 8000 (λ i. i) 300 empty_table ≡ ok (poke_all 300 10 8000 (λ i. i) 0 empty_table)
copyout-poke_all_example = copyout-poke_all 10 8000 (λ i. i) 300 empty_table

copyin-peek_all_example :
    copyin 10 (λ i. 0) 8000 300 empty_table ≡ ok (peek_all 300 10 8000 empty_table 0 (λ i. 0))
copyin-peek_all_example = copyin-peek_all 10 (λ i. 0) 8000 300 empty_table

copyinstr-peek_string_example :
    copyinstr 10 (λ i. 0) 8000 300 empty_table ≡ ok (peek_string 300 10 8000 empty_table 0 (λ i. 0))
copyinstr-peek_string_example = copyinstr-peek_string 10 (λ i. 0) 8000 300 empty_table
