-- ===== src/RegisterAllocator/Partition.antt =====
-- src/register_allocator.cc: every physical register is either free, once, or in use.
use cscore_sstelem.Prelude.{
  ℕ, zero, suc, ◌+◌, ◌<◌, ◌≡◌, refl, ◌∙◌, List, [], ◌∷◌, ◌++◌, true, false, none, some, length, set,
  get_or, get_elem?, length-set, arith, ◌==◌, ltb, if◌then◌else◌,
}
use cscore_sstelem.Prelude.Result.{ok}
use cscore_sstelem.RegisterAllocator.{
  PhysicalRegister, RegisterAllocator, put_register, rename_dest_register, allocate_src,
  rename_src_register, free_register, retire_dest_register,
}

-- How often `p` stands in a list.
unfoldable pub occurrences : ℕ → List ℕ → ℕ
occurrences p [] = 0
occurrences p (x ∷ xs) = if x == p then occurrences p xs + 1 else occurrences p xs

-- 1 for a register in use, and 0 for any other.
unfoldable pub busy_at : List PhysicalRegister → ℕ → ℕ
busy_at [] p = 0
busy_at (r ∷ rs) zero = if r.busy then 1 else 0
busy_at (r ∷ rs) (suc p) = busy_at rs p

-- Each register of the file stands once in the free list or is in use, and no other one is free.
unfoldable pub IsPartition : RegisterAllocator → Type 0
IsPartition ra =
    (p : ℕ)
    → occurrences p ra.free_registers + busy_at ra.physical_register_file p
      ≡ (if ltb p (length ra.physical_register_file) then 1 else 0)

busy_at-set :
    (rs : List PhysicalRegister) (p q : ℕ) (r : PhysicalRegister)
    → busy_at (set rs p r) q ≡ (
        if p == q
        then (if ltb p (length rs) then (if r.busy then 1 else 0) else 0)
        else busy_at rs q)
unfolding busy_at
busy_at-set [] p q r = ground arith
busy_at-set (x ∷ rs) zero zero r = ground arith
busy_at-set (x ∷ rs) zero (suc q) r = ground arith
busy_at-set (x ∷ rs) (suc p) zero r = ground arith
busy_at-set (x ∷ rs) (suc p) (suc q) r = ground (arith, busy_at-set rs p q r)

occurrences-append :
    (p : ℕ) (xs ys : List ℕ) → occurrences p (xs ++ ys) ≡ occurrences p xs + occurrences p ys
unfolding occurrences
occurrences-append p [] ys = omega arith
occurrences-append p (x ∷ xs) ys = ground (arith, occurrences-append p xs ys)

get_elem?-lt :
    (rs : List PhysicalRegister) (p : ℕ)
    → p < length rs
    → (r : PhysicalRegister) × (get_elem? rs p ≡ some r)
get_elem?-lt [] p h = absurd (omega arith)
get_elem?-lt (r ∷ rs) zero h = (r, refl)
get_elem?-lt (r ∷ rs) (suc p) h = get_elem?-lt rs p (omega arith)

front-lt :
    (ra : RegisterAllocator) (p : ℕ) (ps : List ℕ)
    → IsPartition ra
    → ra.free_registers ≡ p ∷ ps
    → p < length ra.physical_register_file
unfolding IsPartition occurrences
front-lt ra p ps part e = ground (arith, part p)

put_register-ok :
    (ra : RegisterAllocator) (p : ℕ) (r : PhysicalRegister)
    → p < length ra.physical_register_file
    → put_register ra p r
      ≡ ok (record ra { physical_register_file = set ra.physical_register_file p r })
unfolding put_register
put_register-ok ra p r h =
    let (old, e) = get_elem?-lt ra.physical_register_file p h in rw (e, put_register) refl

IsPartition-take :
    (ra ra' : RegisterAllocator) (p : ℕ) (ps : List ℕ) (r : PhysicalRegister)
    → IsPartition ra
    → ra.free_registers ≡ p ∷ ps
    → r.busy ≡ true
    → ra'.free_registers ≡ ps
    → ra'.physical_register_file ≡ set ra.physical_register_file p r
    → IsPartition ra'
unfolding IsPartition occurrences
IsPartition-take ra ra' p ps r part e busy free file q =
    rw
      (
        free,
        file,
        length-set ra.physical_register_file p r,
        busy_at-set ra.physical_register_file p q r,
      )
      (ground (arith, part q, part p, front-lt ra p ps part e))

IsPartition-give :
    (ra ra' : RegisterAllocator) (p : ℕ) (r : PhysicalRegister)
    → IsPartition ra
    → busy_at ra.physical_register_file p ≡ 1
    → r.busy ≡ false
    → ra'.free_registers ≡ ra.free_registers ++ (p ∷ [])
    → ra'.physical_register_file ≡ set ra.physical_register_file p r
    → IsPartition ra'
unfolding IsPartition occurrences
IsPartition-give ra ra' p r part was busy free file q =
    rw
      (
        free,
        file,
        length-set ra.physical_register_file p r,
        busy_at-set ra.physical_register_file p q r,
        occurrences-append q ra.free_registers (p ∷ []),
      )
      (ground (arith, part q, part p))

-- Where each physical register is free once or in use, and some register is free, renaming a
-- destination raises no error and takes the front of the free list, which is in use then; again each
-- register is free once or in use.
pub rename_dest_register-IsPartition :
    (ra : RegisterAllocator) (reg id p : ℕ) (ps : List ℕ)
    → IsPartition ra
    → ra.free_registers ≡ p ∷ ps
    → (ra' : RegisterAllocator) × (rename_dest_register ra reg id ≡ ok (ra', p))
      × IsPartition ra'
      × (ra'.free_registers ≡ ps)
      × (busy_at ra'.physical_register_file p ≡ 1)
unfolding rename_dest_register
rename_dest_register-IsPartition ra reg id p ps part e =
    let taken : RegisterAllocator = record ra {
      free_registers = ps;
      frontend_rat = set ra.frontend_rat reg (some p);
    } in
    let r : PhysicalRegister = record {
      arch_reg_index = reg;
      producing_instruction_id = id;
      valid = false;
      busy = true;
    } in
    let lt = front-lt ra p ps part e in
    (
      record taken { physical_register_file = set ra.physical_register_file p r },
      rw (e, put_register-ok taken p r lt) refl,
      IsPartition-take ra _ p ps r part e refl refl refl,
      refl,
      rw (busy_at-set ra.physical_register_file p p r) (ground arith),
    )

rename_src_register-allocate_src :
    (ra : RegisterAllocator) (reg : ℕ)
    → get_or ra.frontend_rat reg none ≡ none
    → rename_src_register ra reg ≡ allocate_src ra reg
unfolding rename_src_register
rename_src_register-allocate_src ra reg unmapped = ground arith

-- Where each physical register is free once or in use, and some register is free, renaming a source
-- that has no mapping raises no error and gives the front of the free list, which both tables then
-- hold for the architectural register; again each register is free once or in use.
pub rename_src_register-IsPartition :
    (ra : RegisterAllocator) (reg p : ℕ) (ps : List ℕ)
    → IsPartition ra
    → ra.free_registers ≡ p ∷ ps
    → get_or ra.frontend_rat reg none ≡ none
    → (ra' : RegisterAllocator) × (rename_src_register ra reg ≡ ok (ra', p))
      × IsPartition ra'
      × (ra'.frontend_rat ≡ set ra.frontend_rat reg (some p))
      × (ra'.backend_rat ≡ set ra.backend_rat reg (some p))
unfolding allocate_src
rename_src_register-IsPartition ra reg p ps part e unmapped =
    let taken : RegisterAllocator = record ra {
      free_registers = ps;
      frontend_rat = set ra.frontend_rat reg (some p);
      backend_rat = set ra.backend_rat reg (some p);
    } in
    let r : PhysicalRegister = record {
      arch_reg_index = reg;
      producing_instruction_id = 0;
      valid = true;
      busy = true;
    } in
    let lt = front-lt ra p ps part e in
    (
      record taken { physical_register_file = set ra.physical_register_file p r },
      rename_src_register-allocate_src ra reg unmapped ∙ rw (e, put_register-ok taken p r lt) refl,
      IsPartition-take ra _ p ps r part e refl refl refl,
      refl,
      refl,
    )

busy_at-lt : (rs : List PhysicalRegister) (p : ℕ) → busy_at rs p ≡ 1 → p < length rs
unfolding busy_at
busy_at-lt [] p h = ground arith
busy_at-lt (r ∷ rs) zero h = omega arith
busy_at-lt (r ∷ rs) (suc p) h = omega (arith, busy_at-lt rs p h)

retire_dest_register-free_register :
    (ra : RegisterAllocator) (physreg old : ℕ) (r : PhysicalRegister)
    → get_elem? ra.physical_register_file physreg ≡ some r
    → get_or ra.backend_rat r.arch_reg_index none ≡ some old
    → retire_dest_register ra physreg
      ≡ free_register
          (record ra { backend_rat = set ra.backend_rat r.arch_reg_index (some physreg) })
          old
unfolding retire_dest_register
retire_dest_register-free_register ra physreg old r e b = ground arith

-- Where each physical register is free once or in use, retiring a register whose architectural register
-- was committed to a register in use raises no error, commits it to the retired one, and puts the old
-- one at the end of the free list; again each register is free once or in use.
pub retire_dest_register-IsPartition :
    (ra : RegisterAllocator) (physreg old : ℕ) (r : PhysicalRegister)
    → IsPartition ra
    → get_elem? ra.physical_register_file physreg ≡ some r
    → get_or ra.backend_rat r.arch_reg_index none ≡ some old
    → busy_at ra.physical_register_file old ≡ 1
    → (ra' : RegisterAllocator) × (retire_dest_register ra physreg ≡ ok ra')
      × IsPartition ra'
      × (ra'.free_registers ≡ ra.free_registers ++ (old ∷ []))
      × (ra'.backend_rat ≡ set ra.backend_rat r.arch_reg_index (some physreg))
unfolding free_register
retire_dest_register-IsPartition ra physreg old r part e b was =
    let committed : RegisterAllocator = record ra {
      backend_rat = set ra.backend_rat r.arch_reg_index (some physreg);
    } in
    let freed : PhysicalRegister = record {
      arch_reg_index = 255;
      producing_instruction_id = 0;
      valid = false;
      busy = false;
    } in
    let lt = busy_at-lt ra.physical_register_file old was in
    (
      record committed {
        physical_register_file = set ra.physical_register_file old freed;
        free_registers = ra.free_registers ++ (old ∷ []);
      },
      retire_dest_register-free_register ra physreg old r e b
          ∙ rw (put_register-ok committed old freed lt) refl,
      IsPartition-give ra _ old freed part was refl refl refl,
      refl,
      refl,
    )
