-- ===== src/RegisterAllocator/Tests.antt =====
-- Three physical registers: 2 holds the committed value of register 1, 0 its next one, and 1 is free.
use cscore_sstelem.Prelude.{zero, suc, ◌≡◌, refl, [], ◌∷◌, true, false, none, some, arith}
use cscore_sstelem.Prelude.Result.{ok}
use cscore_sstelem.RegisterAllocator.{PhysicalRegister, RegisterAllocator, rename_dest_register}
use cscore_sstelem.RegisterAllocator.Partition.{
  IsPartition, busy_at, occurrences, rename_dest_register-IsPartition,
}

abbrev committed : PhysicalRegister
committed = record { arch_reg_index = 1; producing_instruction_id = 4; valid = true; busy = true }

abbrev next_one : PhysicalRegister
next_one = record committed { producing_instruction_id = 9 }

abbrev free_one : PhysicalRegister
free_one = record committed { producing_instruction_id = 0; valid = false; busy = false }

abbrev allocator : RegisterAllocator
allocator = record {
  frontend_rat = none ∷ some 0 ∷ [];
  backend_rat = none ∷ some 2 ∷ [];
  free_registers = 1 ∷ [];
  physical_register_file = next_one ∷ free_one ∷ committed ∷ [];
}

allocator-IsPartition : IsPartition allocator
unfolding IsPartition busy_at occurrences
allocator-IsPartition zero = refl
allocator-IsPartition (suc zero) = refl
allocator-IsPartition (suc (suc zero)) = refl
allocator-IsPartition (suc (suc (suc p))) = ground arith

rename_dest_register-IsPartition_example :
    (ra' : RegisterAllocator) × (rename_dest_register allocator 0 12 ≡ ok (ra', 1))
    × IsPartition ra'
    × (ra'.free_registers ≡ [])
    × (busy_at ra'.physical_register_file 1 ≡ 1)
rename_dest_register-IsPartition_example =
    rename_dest_register-IsPartition allocator 0 12 1 [] allocator-IsPartition refl

busy_2 : busy_at allocator.physical_register_file 2 ≡ 1
unfolding busy_at
busy_2 = refl
