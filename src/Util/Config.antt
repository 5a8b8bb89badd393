-- ===== src/Util/Config.antt =====
-- util/Init.h and util/Init.cpp: the configuration and what `start` makes of it.
--
-- The JSON document and the conversions of texts are arguments: `Json` has the calls of the JSON
-- library that the source makes, and `Texts` those of the standard library, of boost and of the
-- system. A key of the document has its section's name left out. `none` is the end of the process:
-- `std::terminate`, or an exception that nothing catches.
pub mod Defaults
mod Tests
use ssxrver.Prelude.{
  ℕ, zero, suc, ◌+◌, ◌-◌, ◌*◌, ◌/◌, ◌%◌, ◌^◌, ◌≤◌, ◌<◌, min, ◌≡◌, refl, sym, ap, ◌∙◌, ◌≢◌, ◌↔◌, ◌⊎◌,
  inl, inr, Bool, true, false, not, ◌&&◌, ◌||◌, Option, none, some, List, [], ◌∷◌, ◌++◌, map,
  append-nil, append_assoc, arith, ltb, leb, ◌==◌, if◌then◌else◌, ltb→lt, lt→ltb, leb→le, ==_iff,
  tests, Bool-cases, Option-cases, length, get_elem?, set, length-append, length-set,
  get_elem?-set_self, get_elem?-set_ne, get_or, take, drop, replicate, take-append-drop,
  length-take, length-drop, length-replicate, length-map, take-append, drop-append, take_all,
  drop_all, take-append_past, drop-drop, drop-take, take-take, select, All, All-append, All-map,
  ◌>>=◌, ◌>>◌, assert, codes, same, strncmp_equal, c_str, value_from, decimal_onto, decimal,
}
use ssxrver.Log.Stream.{ℤ, pos, negsuc}

pub data Key : Type 0 where
  ansync_started flush_second roll_size level path base_name : Key
  port address worker_connections worker_processes task_processes cpu_affinity : Key
  max_body_size root_path : Key

pub record Json : Type 1 where
  pub Doc : Type 0
  pub get : Doc → Key → List ℕ
  -- `Replace` of a value by a number.
  pub replace : Doc → Key → ℤ → Doc
  -- The entries of `blocks_ip`, `none` for one of which `Get` gives no text.
  pub blocks_ip : Doc → List (Option (List ℕ))

pub record Texts : Type 0 where
  -- `boost::lexical_cast<int>`, `none` where it throws.
  pub lexical_cast : List ℕ → Option ℤ
  pub stoi : List ℕ → Option ℤ
  -- `inet_pton`, in the order of the network.
  pub inet_pton : List ℕ → Option ℕ

-- What `Init` keeps, but for the log.
pub record Init (D : Type 0) : Type 0 where
  pub conf_data : D
  pub blocks_ip : List (List ℕ)
  pub http_max_body_size : ℤ
  pub worker_connections : ℤ
  pub cpu_used_number : ℕ
  pub cpu_max_number : ℕ
  pub cpu_affinity : Bool
  pub root_path : List ℕ

unfoldable pub new_init : {D : Type 0} → D → ℕ → Init D
new_init d cpus = record {
  conf_data = d;
  blocks_ip = [];
  http_max_body_size = pos 0;
  worker_connections = pos 0;
  cpu_used_number = 0;
  cpu_max_number = cpus;
  cpu_affinity = false;
  root_path = [];
}

-- `getUsefulCpuNumber`, `none` for -1.
unfoldable pub get_useful_cpu_number : {D : Type 0} → Init D → Option ℕ × Init D
get_useful_cpu_number i =
    if leb i.cpu_max_number i.cpu_used_number
    then (none, i)
    else (some i.cpu_used_number, record i { cpu_used_number = i.cpu_used_number + 1 })

-- `getTypeConversion<int>`.
unfoldable pub get_type_conversion : Texts → List ℕ → ℤ → ℤ
get_type_conversion t value def = elim (t.lexical_cast value) [ none ↦ def | some n ↦ n ]

-- `n > 0 ? n : def`
abbrev pub or_default : ℤ → ℤ → ℤ
or_default (pos n) def = if ltb 0 n then pos n else def
or_default (negsuc n) def = def

-- The loop over `blocks_ip`: `ip` keeps its last text where an entry gives none.
unfoldable pub block_all : List (Option (List ℕ)) → List ℕ → List (List ℕ) → List (List ℕ)
block_all [] ip set = set
block_all (none ∷ es) ip set = block_all es ip (ip ∷ set)
block_all (some e ∷ es) ip set = block_all es e (e ∷ set)

module _ (o : Json) (t : Texts) where
  -- The part of `initConf` behind the first test.
  unfoldable pub read_conf : Init o.Doc → Init o.Doc
  unfolding get_useful_cpu_number get_type_conversion block_all
  read_conf i =
      let conf = i.conf_data in
      let on = same (o.get conf cpu_affinity) (codes "on") in
      let i1 = if on then (get_useful_cpu_number (record i { cpu_affinity = true })).1 else i in
      let flush = get_type_conversion t (o.get conf flush_second) (pos 3) in
      let c1 = o.replace conf flush_second (or_default flush (pos 3)) in
      let roll = get_type_conversion t (o.get c1 roll_size) (pos 67108864) in
      let c2 = o.replace c1 roll_size (or_default roll (pos 67108864)) in
      let port_read = get_type_conversion t (o.get c2 port) (pos 4507) in
      let c3 = o.replace c2 port (or_default port_read (pos 4507)) in
      let connections = get_type_conversion t (o.get c3 worker_connections) (negsuc 0) in
      let body = get_type_conversion t (o.get c3 max_body_size) (pos 67108864) in
      let c4 = o.replace c3 max_body_size (or_default body (pos 67108864)) in
      let workers = get_type_conversion t (o.get c4 worker_processes) (pos 4) in
      let c5 = o.replace c4 worker_processes (or_default workers (pos 4)) in
      let tasks = get_type_conversion t (o.get c5 task_processes) (pos 0) in
      let c6 = o.replace c5 task_processes (or_default tasks (pos 0)) in
      let root = o.get c6 root_path in
      record i1 {
        conf_data = c6;
        worker_connections = connections;
        http_max_body_size = body;
        root_path = if same root [] then codes "./" else root;
        blocks_ip = block_all (o.blocks_ip c6) [] i1.blocks_ip;
      }

  -- `initConf` on a document that was read. The `throw` without an exception ends the process
  -- where `ansync_started` is neither of its two values.
  unfoldable pub init_conf : Init o.Doc → Option (Init o.Doc)
  unfolding read_conf
  init_conf i =
      let started = o.get i.conf_data ansync_started in
      if not (same started (codes "on")) && not (same started (codes "off"))
      then none
      else some (read_conf i)

-- The levels that `logMap_` has; any other text gives the first of the enumeration.
unfoldable pub level_of : List ℕ → ℕ
level_of text = if same text (codes "INFO") then 1 else if same text (codes "WARN") then 2 else 0

-- What `start` sets up before the loop runs.
pub record Launch : Type 0 where
  -- The name, the interval and the size that `AsyncLogThread` is made with.
  pub async_log : Option (List ℕ × ℤ × ℤ)
  pub log_level : ℕ
  pub sin_port : ℕ
  pub sin_addr : ℕ
  pub task_threads : ℤ
  pub loop_threads : ℤ

-- The low half of a number, as the argument of `htons`.
unfoldable pub low_16 : ℤ → ℕ
low_16 (pos n) = n % 65536
low_16 (negsuc n) = 65535 - n % 65536

module _ (o : Json) (t : Texts) where
  -- `initAsyncLogThreadLog`.
  unfoldable pub init_async_log : o.Doc → Option (List ℕ × ℤ × ℤ)
  init_async_log c = do
    flush ← t.stoi (o.get c flush_second)
    roll ← t.stoi (o.get c roll_size)
    some (o.get c path ++ o.get c base_name, flush, roll)

  unfoldable pub start_log : o.Doc → Option (Option (List ℕ × ℤ × ℤ))
  unfolding init_async_log
  start_log c =
      if same (o.get c ansync_started) (codes "on")
      then (init_async_log c >>= λ l. some (some l))
      else some none

  -- The part of `start` behind `initConf`.
  unfoldable pub launch : o.Doc → Option Launch
  launch c = do
    log ← start_log c
    port_number ← t.stoi (o.get c port)
    tasks ← t.stoi (o.get c task_processes)
    workers ← t.stoi (o.get c worker_processes)
    some (record {
      async_log = log;
      log_level = level_of (o.get c level);
      sin_port = low_16 port_number;
      sin_addr = elim (t.inet_pton (o.get c address)) [ none ↦ 0 | some a ↦ a ];
      task_threads = tasks;
      loop_threads = workers;
    })

  -- `start`, from a document that was read on.
  unfoldable pub start : Init o.Doc → Option (Init o.Doc × Launch)
  start i = do i' ← init_conf o t i; l ← launch i'.conf_data; some (i', l)
