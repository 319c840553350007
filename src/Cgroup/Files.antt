-- ===== src/Cgroup/Files.antt =====
-- Reading the accounting files of a cgroup, src/systemd/cgroup.rs. The file system is the argument
-- `read_to_string`; all numbers are `u64`. A path is its text, without a slash at its end.
use Prim.Native.Char.{Char, code}
use Prim.Native.String.{◌++◌ as cat}
use procstar.Prelude.{
  ℕ, Bool, true, false, String, List, [], ◌∷◌, Option, none, some, Result, ok, err, and_then,
  map_err, BTreeMap, get, insert, string_key, str_eq, if◌then◌else◌, contains,
}
use procstar.Prelude.Text.{split, trim, is_whitespace}
use procstar.Prelude.Decimal.{parse_uint}
use procstar.Io.{IoError}
use procstar.Cgroup.{
  Pids, CpuStat, MemoryEvents, MemoryMax, Memory, CgroupAccounting, unlimited, bytes,
}

pub data Error : Type 0 where
  io : IoError → Error
  parse : (path : String) → Error

abbrev pub u64_max : ℕ
u64_max = 18446744073709551615

-- `Path::join`, of a relative name.
abbrev pub join_path : String → String → String
join_path path name = cat path (cat "/" name)

abbrev pub ok_or : {A : Type 0} → Option A → Error → Result Error A
ok_or none e = err e
ok_or (some a) e = ok a

abbrev pub accept : {A : Type 0} → Result Error A → Option A
accept (ok a) = some a
accept (err e) = none

-- `str::split_whitespace`: the parts between white characters that are not empty.
abbrev pub put_char : Bool → Char → List String → List String
put_char true c words = "" ∷ words
put_char false c [] = String.◌∷◌ c "" ∷ []
put_char false c (w ∷ words) = String.◌∷◌ c w ∷ words

abbrev pub split_white : String → List String
split_white String.[] = "" ∷ []
split_white (String.◌∷◌ c s) = put_char (is_whitespace (code c)) c (split_white s)

abbrev pub not_empty : List String → List String
not_empty [] = []
not_empty (String.[] ∷ words) = not_empty words
not_empty ((String.◌∷◌ c s) ∷ words) = (String.◌∷◌ c s) ∷ not_empty words

unfoldable pub split_whitespace : String → List String
unfolding is_whitespace
split_whitespace s = not_empty (split_white s)

-- `str::lines`, of a text without white characters at its ends; what stays of a line's end is white.
abbrev pub lines : String → List String
lines String.[] = []
lines (String.◌∷◌ c s) = split b'\n' (String.◌∷◌ c s)

module _ (read_to_string : String → Result IoError String) where
  abbrev pub read : String → Result Error String
  read path = map_err Error.io (read_to_string path)

  abbrev pub parsed : String → String → Result Error ℕ
  parsed path text = ok_or (parse_uint u64_max text) (Error.parse path)

  unfoldable pub load_scalar : String → Result Error ℕ
  unfolding trim parse_uint
  load_scalar path = and_then (read path) λ text. parsed path (trim text)

  -- The key and the value of a line; what follows them is not looked at.
  abbrev pub key_value : String → List String → Result Error (String × ℕ)
  key_value path [] = err (Error.parse path)
  key_value path (k ∷ []) = err (Error.parse path)
  key_value path (k ∷ v ∷ _) = and_then (parsed path v) λ n. ok (k, n)

  unfoldable pub load_lines :
      String → List String → BTreeMap String ℕ → Result Error (BTreeMap String ℕ)
  unfolding split_whitespace parse_uint
  load_lines path [] output = ok output
  load_lines path (line ∷ rest) output =
      and_then (key_value path (split_whitespace line))
        λ (k, v). load_lines path rest (insert k v output)

  unfoldable pub load_flat_keyed : String → Result Error (BTreeMap String ℕ)
  unfolding load_lines trim split
  load_flat_keyed path = and_then (read path) λ text. load_lines path (lines (trim text)) []

  unfoldable pub load_pids : String → Result Error Pids
  unfolding load_scalar
  load_pids cgroup_path = and_then (load_scalar (join_path cgroup_path "pids.current")) λ current.
      and_then (load_scalar (join_path cgroup_path "pids.peak"))
        λ peak. ok (record { current = current; peak = peak })

  -- `mapping.remove(key).ok_or(..)`; each key is taken once.
  abbrev pub required : String → BTreeMap String ℕ → String → Result Error ℕ
  required path mapping key = ok_or (get key mapping) (Error.parse path)

  unfoldable pub load_cpu_stat : String → Result Error CpuStat
  unfolding load_flat_keyed get
  load_cpu_stat cgroup_path =
      let path = join_path cgroup_path "cpu.stat" in
      and_then (load_flat_keyed path) λ mapping.
        and_then (required path mapping "usage_usec") λ usage_usec.
          and_then (required path mapping "user_usec") λ user_usec.
            and_then (required path mapping "system_usec") λ system_usec. ok (record {
              usage_usec = usage_usec;
              user_usec = user_usec;
              system_usec = system_usec;
              nr_periods = get "nr_periods" mapping;
              nr_throttled = get "nr_throttled" mapping;
              throttled_usec = get "throttled_usec" mapping;
              nr_bursts = get "nr_bursts" mapping;
              burst_usec = get "burst_usec" mapping;
            })

  unfoldable pub load_events : String → Result Error MemoryEvents
  unfolding load_flat_keyed get
  load_events path = and_then (load_flat_keyed path) λ map.
      and_then (required path map "low") λ low. and_then (required path map "high") λ high.
        and_then (required path map "max") λ max. and_then (required path map "oom") λ oom.
          and_then (required path map "oom_kill") λ oom_kill. ok (record {
            low = low;
            high = high;
            max = max;
            oom = oom;
            oom_kill = oom_kill;
            oom_group_kill = get "oom_group_kill" map;
          })

  abbrev pub max_of : String → String → Result Error MemoryMax
  max_of path text =
      if str_eq text "max"
      then ok (unlimited text)
      else and_then (parsed path text) λ n. ok (bytes n)

  unfoldable pub load_max : String → Result Error MemoryMax
  unfolding trim parse_uint
  load_max path = and_then (read path) λ text. max_of path (trim text)

  -- The three files that old kernels lack are optional.
  unfoldable pub load_memory : String → Result Error Memory
  unfolding load_scalar load_events load_max
  load_memory cgroup_path =
      let events = accept (load_events (join_path cgroup_path "memory.events")) in
      let events_local = accept (load_events (join_path cgroup_path "memory.events.local")) in
      let max = accept (load_max (join_path cgroup_path "memory.max")) in
      and_then (load_scalar (join_path cgroup_path "memory.current")) λ current.
        and_then (load_scalar (join_path cgroup_path "memory.peak")) λ peak.
          and_then (load_scalar (join_path cgroup_path "memory.swap.current")) λ swap_current.
            and_then (load_scalar (join_path cgroup_path "memory.swap.peak")) λ swap_peak.
              ok (record {
                current = current;
                peak = peak;
                swap_current = swap_current;
                swap_peak = swap_peak;
                events = events;
                events_local = events_local;
                max = max;
              })

  abbrev pub control_file : String → String
  control_file cgroup_path =
      if str_eq cgroup_path "/sys/fs/cgroup"
      then join_path cgroup_path "cgroup.subtree_control"
      else join_path cgroup_path "cgroup.controllers"

  unfoldable pub enabled_controllers : String → Result Error (List String)
  unfolding split_whitespace
  enabled_controllers cgroup_path =
      and_then (read (control_file cgroup_path)) λ text. ok (split_whitespace text)

  abbrev pub if_enabled : {A : Type 0} → Bool → Result Error A → Result Error (Option A)
  if_enabled true loaded = and_then loaded λ a. ok (some a)
  if_enabled false loaded = ok none

  -- The fields in the order in which they are evaluated.
  unfoldable pub load_accounting : String → Result Error CgroupAccounting
  unfolding enabled_controllers load_pids load_memory load_cpu_stat
  load_accounting cgroup_path = and_then (enabled_controllers cgroup_path) λ controllers.
      and_then (if_enabled (contains controllers "pids") (load_pids cgroup_path)) λ pids.
        and_then (if_enabled (contains controllers "memory") (load_memory cgroup_path)) λ memory.
          and_then (load_cpu_stat cgroup_path)
            λ cpu_stat. ok (record { pids = pids; cpu_stat = some cpu_stat; memory = memory })

  unfoldable pub load_accounting_or_log : String → Option CgroupAccounting
  unfolding load_accounting
  load_accounting_or_log cgroup_path = accept (load_accounting cgroup_path)
