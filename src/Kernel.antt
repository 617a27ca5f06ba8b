-- ===== src/Kernel.antt =====
-- The start of the system in sys/kernel.c: the loop of main that loads the programs of a directory.
-- A directory is the list of its entries in the order in which `readdir` returns them, each with
-- what opening its file gives; the allocations and `rand` are arguments, as in Loader.
pub mod Arguments
pub mod Start
pub mod Release
pub mod Shutdown
pub mod Residents
pub mod Directory
pub mod Loaded
pub mod Room
pub mod Tests
use the_loc_os.Base.{
  ℕ, zero, suc, ◌+◌, ◌-◌, Bool, true, false, ◌&&◌, Option, none, some, List, [], ◌∷◌, ◌++◌, length,
  ltb, ◌==◌, if◌then◌else◌, pos, eqb_ℤ,
}
use the_loc_os.Queue.{Ptr, null, ProcessQueue, enqueue_process}
use the_loc_os.Process.{Heap, destroy_pcb}
use the_loc_os.Loader.{Loading, Program, create_process_from_program}
use the_loc_os.Loader.Scan.{Line, drop}
use the_loc_os.Loader.Elf.{ElfMemory, load_program_from_elf, take}

-- `strcmp(a, b) == 0`
unfoldable pub same_text : Line → Line → Bool
same_text [] [] = true
same_text [] (c ∷ s) = false
same_text (c ∷ s) [] = false
same_text (c ∷ s) (c' ∷ s') = c == c' && same_text s s'

abbrev pub elf_suffix : Line
elf_suffix = b'.' ∷ b'e' ∷ b'l' ∷ b'f' ∷ []

abbrev pub programs_dir : Line
programs_dir =
    b'.' ∷ b'/' ∷ b'.' ∷ b'.' ∷ b'/' ∷ b'p' ∷ b'r' ∷ b'o' ∷ b'g' ∷ b'r' ∷ b'a' ∷ b'm' ∷ b's' ∷ []

-- an entry of the directory: its name, the lines of its file, and what the library answers while it
-- is loaded
pub record Entry : Type 0 where
  pub name : Line
  pub file : Option (List Line)
  pub random : ℕ
  pub allocated : ElfMemory

-- what the loop reads and changes
pub record Boot : Type 0 where
  pub loading : Loading
  pub ready_queue : ProcessQueue
  pub programs_loaded : ℕ

-- "Check if file ends with .elf"
unfoldable pub is_elf : Line → Bool
is_elf name = ltb 4 (length name) && same_text (drop (length name - 4) name) elf_suffix

-- the path, in an array of 512 bytes
abbrev pub file_path : Line → Line
file_path name = take 511 (programs_dir ++ (b'/' ∷ name))

-- "Add to ready queue": the answer of `create_process_from_program` is queued, or dropped.
unfoldable pub enqueue_loaded : Boot → Ptr → Loading → Boot
enqueue_loaded s pcb loading =
    let (answer, queue) = enqueue_process s.ready_queue pcb in
    if pcb == null
    then record s { loading = loading }
    else if eqb_ℤ answer (pos 0)
    then record { loading = loading; ready_queue = queue; programs_loaded = s.programs_loaded + 1 }
    else record s {
      loading = record loading { heap = destroy_pcb pcb loading.heap };
      ready_queue = queue;
    }

-- the process of a program that was read
abbrev pub load_program : (Heap → Ptr) → Boot → Option Program → Boot
load_program malloc s none = s
load_program malloc s (some prog) =
    let (pcb, loading) = create_process_from_program malloc s.loading prog in
    enqueue_loaded s pcb loading

-- the body of the loop
unfoldable pub load_entry : (Heap → Ptr) → Entry → Boot → Boot
load_entry malloc entry s =
    if is_elf entry.name
    then load_program malloc s
        (load_program_from_elf entry.file (file_path entry.name) entry.random entry.allocated)
    else s

unfoldable pub load_directory : (Heap → Ptr) → List Entry → Boot → Boot
load_directory malloc [] s = s
load_directory malloc (entry ∷ entries) s =
    load_directory malloc entries (load_entry malloc entry s)

-- the loading as a whole, where the directory can be opened or not
unfoldable pub load_programs : (Heap → Ptr) → Option (List Entry) → Boot → Boot
load_programs malloc none s = s
load_programs malloc (some entries) s = load_directory malloc entries s
