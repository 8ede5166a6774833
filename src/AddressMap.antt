-- ===== src/AddressMap.antt =====
-- src/address_map.cc and inc/address_map.h: the ranges of virtual addresses that go to a CXL pool or a
-- remote node. The lines of the file, split at commas and read by `std::stoul`, are the argument `rows`.
-- `std::sort` leaves open the order of entries with equal starts; here it is that of the file.
pub mod Lookup
pub mod Offsets
mod Tests
use text.Mathlib.Text.{◌==◌ as str_eq}
use Prim.Native.String.{String}
use cscore_sstelem.Prelude.{
  ℕ, zero, suc, ◌+◌, ◌%◌, ◌^◌, List, [], ◌∷◌, ◌++◌, map, Bool, true, false, ◌&&◌, ◌||◌, not, Option,
  none, some, get_elem?, ltb, leb, ◌==◌, if◌then◌else◌,
}
use cscore_sstelem.Prelude.Result.{Result, ok, err, ◌>>=◌, ◌>>◌, throw_if}

-- `PAGE_SIZE`
abbrev pub page_size : ℕ
page_size = 4096

pub data AddressType : Type 0 where
  local remote pool : AddressType

pub record AddressEntry : Type 0 where
  pub node_id : ℕ
  pub start : ℕ
  pub size : ℕ
  pub type : AddressType
  pub target : ℕ
  pub pool_offset : ℕ

-- `start + size`, in 64 bits.
abbrev pub range_end : AddressEntry → ℕ
range_end e = (e.start + e.size) % 2 ^ 64

unfoldable pub contains : AddressEntry → ℕ → Bool
contains e addr = leb e.start addr && ltb addr (range_end e)

unfoldable pub parse_type : String → AddressType
parse_type s =
    if str_eq s "local" || str_eq s "LOCAL"
    then local
    else if str_eq s "pool" || str_eq s "POOL"
    then pool
    else remote

-- A line that is no comment and has a type: its numbers, and the word for its type.
pub record Row : Type 0 where
  pub node_id : ℕ
  pub start : ℕ
  pub size : ℕ
  pub type_word : String
  pub target : ℕ

pub data LoadError : Type 0 where
  not_page_aligned : ℕ → LoadError

unfoldable pub parse_row : ℕ → Row → Result LoadError AddressEntry
unfolding parse_type
parse_row line_no row = do
  throw_if (not (row.start % page_size == 0) || not (row.size % page_size == 0))
      (not_page_aligned line_no)
  ok (record {
    node_id = row.node_id;
    start = row.start;
    size = row.size;
    type = parse_type row.type_word;
    target = row.target;
    pool_offset = 0;
  })

-- `entries_by_node_[node]`, grown where it is too short, with `e` at the end.
unfoldable pub push_entry : ℕ → AddressEntry → List (List AddressEntry) → List (List AddressEntry)
push_entry zero e [] = (e ∷ []) ∷ []
push_entry zero e (v ∷ vs) = (v ++ (e ∷ [])) ∷ vs
push_entry (suc n) e [] = [] ∷ push_entry n e []
push_entry (suc n) e (v ∷ vs) = v ∷ push_entry n e vs

-- The loop over the lines, with the entries so far.
unfoldable pub read_rows :
    List (ℕ × Row) → List (List AddressEntry) → Result LoadError (List (List AddressEntry))
unfolding parse_row push_entry
read_rows [] acc = ok acc
read_rows ((line_no, row) ∷ rows) acc = do
  e ← parse_row line_no row
  read_rows rows (push_entry e.node_id e acc)

-- `std::sort` by the start.
unfoldable pub insert_sorted : AddressEntry → List AddressEntry → List AddressEntry
insert_sorted e [] = e ∷ []
insert_sorted e (x ∷ xs) = if ltb e.start x.start then e ∷ x ∷ xs else x ∷ insert_sorted e xs

-- From the left, so that an entry goes behind those with its start.
unfoldable pub sort_entries : List AddressEntry → List AddressEntry → List AddressEntry
unfolding insert_sorted
sort_entries [] acc = acc
sort_entries (e ∷ es) acc = sort_entries es (insert_sorted e acc)

-- The running sum of the sizes of the pool entries.
unfoldable pub assign_offsets : ℕ → List AddressEntry → List AddressEntry
assign_offsets running [] = []
assign_offsets running (e ∷ es) = elim e.type [
  | pool ↦ record e { pool_offset = running } ∷ assign_offsets ((running + e.size) % 2 ^ 64) es
  | _ ↦ e ∷ assign_offsets running es
]

unfoldable pub load : List (ℕ × Row) → Result LoadError (List (List AddressEntry))
unfolding read_rows sort_entries assign_offsets
load rows = do
  by_node ← read_rows rows []
  ok (map (λ v. assign_offsets 0 (sort_entries v [])) by_node)

-- `std::prev(std::upper_bound(...))`: in a list sorted by the start, the last entry that starts at or
-- before `addr`; `before` is the one just passed.
unfoldable pub last_not_after : ℕ → Option AddressEntry → List AddressEntry → Option AddressEntry
last_not_after addr before [] = before
last_not_after addr before (e ∷ es) =
    let rest = last_not_after addr (some e) es in if ltb addr e.start then before else rest

unfoldable pub lookup_in : List AddressEntry → ℕ → Option AddressEntry
lookup_in vec addr = elim (last_not_after addr none vec) [
  | none ↦ none
  | some candidate ↦ if contains candidate addr then some candidate else none
]

unfoldable pub lookup : List (List AddressEntry) → ℕ → ℕ → Option AddressEntry
unfolding lookup_in
lookup entries_by_node node_id addr = elim (get_elem? entries_by_node node_id) [
  | none ↦ none
  | some vec ↦ lookup_in vec addr
]
