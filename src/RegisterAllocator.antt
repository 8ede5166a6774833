-- ===== src/RegisterAllocator.antt =====
-- src/register_allocator.cc and inc/register_allocator.h: renaming of architectural to physical registers.
-- In the two tables `none` is -1, the only negative entry. An architectural register is below 256. The
-- front of an empty free list, which the code asserts away or leaves undefined, is an error here.
pub mod Partition
mod Tests
use cscore_sstelem.Prelude.{
  ℕ, zero, suc, ◌+◌, ◌%◌, ◌^◌, List, [], ◌∷◌, ◌++◌, Bool, true, false, Option, none, some, length,
  set, get_or, get_elem?, replicate, if◌then◌else◌,
}
use cscore_sstelem.Prelude.Result.{Result, ok, err, ◌>>=◌}

pub record PhysicalRegister : Type 0 where
  pub arch_reg_index : ℕ
  pub producing_instruction_id : ℕ
  pub valid : Bool
  pub busy : Bool

pub data AllocatorError : Type 0 where
  no_free_register out_of_range : AllocatorError

pub record RegisterAllocator : Type 0 where
  pub frontend_rat : List (Option ℕ)
  pub backend_rat : List (Option ℕ)
  pub free_registers : List ℕ
  pub physical_register_file : List PhysicalRegister

-- The registers from `i` on.
unfoldable pub registers_from : ℕ → ℕ → List ℕ
registers_from i zero = []
registers_from i (suc n) = i ∷ registers_from (i + 1) n

unfoldable pub make_allocator : ℕ → RegisterAllocator
unfolding registers_from
make_allocator num_physical_registers = record {
  frontend_rat = replicate 256 none;
  backend_rat = replicate 256 none;
  free_registers = registers_from 0 num_physical_registers;
  physical_register_file =
      replicate num_physical_registers
        (record { arch_reg_index = 0; producing_instruction_id = 0; valid = false; busy = false });
}

-- `physical_register_file.at(p) = r`
unfoldable pub put_register :
    RegisterAllocator → ℕ → PhysicalRegister → Result AllocatorError RegisterAllocator
put_register ra p r = elim (get_elem? ra.physical_register_file p) [
  | none ↦ err out_of_range
  | some _ ↦ ok (record ra { physical_register_file = set ra.physical_register_file p r })
]

unfoldable pub rename_dest_register :
    RegisterAllocator → ℕ → ℕ → Result AllocatorError (RegisterAllocator × ℕ)
unfolding put_register
rename_dest_register ra reg producer_id = elim ra.free_registers [
  | [] ↦ err no_free_register
  | p ∷ ps ↦
      put_register
        (record ra { free_registers = ps; frontend_rat = set ra.frontend_rat reg (some p) }) p
        (record {
          arch_reg_index = reg;
          producing_instruction_id = producer_id;
          valid = false;
          busy = true;
        })
      >>= λ ra'. ok (ra', p)
]

-- The allocation of `rename_src_register`, for a register that has no mapping.
unfoldable pub allocate_src : RegisterAllocator → ℕ → Result AllocatorError (RegisterAllocator × ℕ)
unfolding put_register
allocate_src ra reg = elim ra.free_registers [
  | [] ↦ err no_free_register
  | p ∷ ps ↦
      put_register
        (record ra {
          free_registers = ps;
          frontend_rat = set ra.frontend_rat reg (some p);
          backend_rat = set ra.backend_rat reg (some p);
        })
        p (record { arch_reg_index = reg; producing_instruction_id = 0; valid = true; busy = true })
      >>= λ ra'. ok (ra', p)
]

unfoldable pub rename_src_register :
    RegisterAllocator → ℕ → Result AllocatorError (RegisterAllocator × ℕ)
unfolding allocate_src
rename_src_register ra reg = elim (get_or ra.frontend_rat reg none) [
  | some phys ↦ ok (ra, phys)
  | none ↦ allocate_src ra reg
]

unfoldable pub complete_dest_register :
    RegisterAllocator → ℕ → Result AllocatorError RegisterAllocator
complete_dest_register ra physreg = elim (get_elem? ra.physical_register_file physreg) [
  | none ↦ err out_of_range
  | some r ↦ ok (record ra {
    physical_register_file = set ra.physical_register_file physreg (record r { valid = true });
  })
]

unfoldable pub free_register : RegisterAllocator → ℕ → Result AllocatorError RegisterAllocator
unfolding put_register
free_register ra physreg =
    put_register ra physreg
      (record { arch_reg_index = 255; producing_instruction_id = 0; valid = false; busy = false })
    >>= λ (q : RegisterAllocator).
        ok (record q { free_registers = q.free_registers ++ (physreg ∷ []) })

unfoldable pub retire_dest_register :
    RegisterAllocator → ℕ → Result AllocatorError RegisterAllocator
unfolding free_register
retire_dest_register ra physreg = elim (get_elem? ra.physical_register_file physreg) [
  | none ↦ err out_of_range
  | some r ↦
      let ra' : RegisterAllocator = record ra {
        backend_rat = set ra.backend_rat r.arch_reg_index (some physreg);
      } in
      elim (get_or ra.backend_rat r.arch_reg_index none) [
        | none ↦ ok ra'
        | some old ↦ free_register ra' old
      ]
]

unfoldable pub is_valid : RegisterAllocator → ℕ → Result AllocatorError Bool
is_valid ra physreg = elim (get_elem? ra.physical_register_file physreg) [
  | none ↦ err out_of_range
  | some r ↦ ok r.valid
]

unfoldable pub is_allocated : RegisterAllocator → ℕ → Bool
is_allocated ra archreg = elim (get_or ra.frontend_rat archreg none) [
  | none ↦ false
  | some _ ↦ true
]

unfoldable pub count_free_registers : RegisterAllocator → ℕ
count_free_registers ra = length ra.free_registers

-- `count_reg_dependencies`, of an instruction's source registers.
unfoldable pub count_reg_dependencies : RegisterAllocator → List ℕ → Result AllocatorError ℕ
unfolding is_valid
count_reg_dependencies ra [] = ok 0
count_reg_dependencies ra (reg ∷ regs) =
    is_valid ra reg >>= λ v. count_reg_dependencies ra regs >>= λ n. ok (if v then n else n + 1)

unfoldable pub reset_frontend_rat : RegisterAllocator → RegisterAllocator
reset_frontend_rat ra = record ra { frontend_rat = ra.backend_rat }
