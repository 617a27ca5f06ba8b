-- ===== src/Prometheus/Loaded.antt =====
-- The kernel of sys/kernel.c on a directory of the files that programs/prometheus/prometheus.c wrote.
use the_loc_os.Base.{ℕ, ◌+◌, ◌*◌, ◌/◌, ◌<◌, ◌≡◌, some, List, length}
use the_loc_os.Loader.{Program}
use the_loc_os.Kernel.Residents.{InOrder}
use the_loc_os.Kernel.Directory.{ReadsAll}
use the_loc_os.Loader.Scan.{Line}
use the_loc_os.Kernel.{Boot, Entry}
use the_loc_os.Kernel.Room.{Room}
use the_loc_os.Prometheus.Run.{all_ok}
use the_loc_os.Prometheus.Files.{Configuration}

-- the pages that a generated program has at most
abbrev pub pages_of : Configuration → ℕ
pages_of conf = (2 * conf.max_lines + 1030) / 1024

module _ (random : Line → ℕ) (garbage : Line → ℕ → ℕ) where
  -- the entry of the directory, where the loader's allocations succeed
  abbrev pub entry_of : Line × List Line → Entry
  entry_of (name, file) = record {
    name = name;
    file = some file;
    random = random name;
    allocated = all_ok (garbage name);
  }

  -- As many more processes wait as there are entries, each of the program of its entry.
  pub record AllLoaded (entries : List Entry) (s : Boot) (program : ℕ → Program) (s' : Boot)
      : Type 0 where
    pub counted : s'.programs_loaded ≡ s.programs_loaded + length entries
    pub queued : s'.ready_queue.current_size ≡ s.ready_queue.current_size + length entries
    pub order : InOrder s'
    pub kept : (i : ℕ) → i < s.ready_queue.current_size → order.program i ≡ program i
    pub new : ReadsAll entries (λ j. order.program (s.ready_queue.current_size + j))
