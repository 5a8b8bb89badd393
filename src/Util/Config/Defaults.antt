-- ===== src/Util/Config/Defaults.antt =====
-- util/Init.cpp: the settings that the server starts with.
use ssxrver.Prelude.{
  ℕ, ◌≡◌, refl, ◌∙◌, Bool, true, false, ◌&&◌, Option, none, some, List, ◌++◌, ◌==◌, if◌then◌else◌,
  codes, same, ◌^◌, ◌<◌,
}
use ssxrver.Log.Stream.{ℤ, pos, negsuc}
use ssxrver.Util.Config.{
  Key, ansync_started, flush_second, roll_size, level, path, base_name, port, address,
  worker_connections, worker_processes, task_processes, cpu_affinity, max_body_size, root_path,
  Json, Texts, Init, get_type_conversion, or_default, init_conf, Launch, low_16, level_of, start,
}

-- The keys in order.
abbrev pub place : Key → ℕ
place ansync_started = 0
place flush_second = 1
place roll_size = 2
place level = 3
place path = 4
place base_name = 5
place port = 6
place address = 7
place worker_connections = 8
place worker_processes = 9
place task_processes = 10
place cpu_affinity = 11
place max_body_size = 12
place root_path = 13

-- The numbers of an `int` of 32 bits.
abbrev pub IsInt : ℤ → Type 0
IsInt (pos n) = n < 2 ^ 31
IsInt (negsuc n) = n < 2 ^ 31

-- What the JSON library and the conversions of texts promise: a number that replaces a value that
-- is there is read back where it is an `int`, no other value changes, and `lexical_cast` gives
-- nothing but an `int`.
pub record IsJson (o : Json) (t : Texts) : Type 0 where
  pub has : o.Doc → Key → Bool
  pub text_of : ℤ → List ℕ
  pub get-replace :
      (d : o.Doc) (k : Key) (n : ℤ) (k' : Key)
      → o.get (o.replace d k n) k'
        ≡ (if (place k == place k') && has d k then text_of n else o.get d k')
  pub has-replace : (d : o.Doc) (k : Key) (n : ℤ) (k' : Key) → has (o.replace d k n) k' ≡ has d k'
  pub cast-IsInt : (v : List ℕ) (n : ℤ) → t.lexical_cast v ≡ some n → IsInt n
  pub stoi-text_of : (n : ℤ) → IsInt n → t.stoi (text_of n) ≡ some n

module _ (o : Json) (t : Texts) where
  -- The number that a document gives for a key, the default where it gives none above 0.
  abbrev pub setting : o.Doc → Key → ℤ → ℤ
  setting d k def = or_default (get_type_conversion t (o.get d k) def) def

  module _ (laws : IsJson o t) where
    after :
        (d : o.Doc) (k : Key) (n : ℤ) (k' : Key)
        → laws.has d k ≡ true
        → o.get (o.replace d k n) k' ≡ (if place k == place k' then laws.text_of n else o.get d k')
    after d k n k' h = laws.get-replace d k n k' ∙ by_key (place k == place k')
      where
        by_key :
            (b : Bool)
            → (if b && laws.has d k then laws.text_of n else o.get d k')
              ≡ (if b then laws.text_of n else o.get d k')
        by_key true = rw h
        by_key false = refl

    -- The document that `initConf` leaves.
    final : o.Doc → o.Doc
    final d =
        let c1 = o.replace d flush_second (setting d flush_second (pos 3)) in
        let c2 = o.replace c1 roll_size (setting d roll_size (pos 67108864)) in
        let c3 = o.replace c2 port (setting d port (pos 4507)) in
        let c4 = o.replace c3 max_body_size (setting d max_body_size (pos 67108864)) in
        let c5 = o.replace c4 worker_processes (setting d worker_processes (pos 4)) in
        o.replace c5 task_processes (setting d task_processes (pos 0))

    module _ (d : o.Doc) (h : (k : Key) → laws.has d k ≡ true) where
      abbrev log_wanted : Option (List ℕ × ℤ × ℤ)
      log_wanted =
          if same (o.get d ansync_started) (codes "on")
          then some (
            o.get d path ++ o.get d base_name,
            setting d flush_second (pos 3),
            setting d roll_size (pos 67108864),
          )
          else none

    launched : o.Doc → Launch
    launched d = record {
      async_log =
          if same (o.get d ansync_started) (codes "on")
          then some (
            o.get d path ++ o.get d base_name,
            setting d flush_second (pos 3),
            setting d roll_size (pos 67108864),
          )
          else none;
      log_level = level_of (o.get d level);
      sin_port = low_16 (setting d port (pos 4507));
      sin_addr = elim (t.inet_pton (o.get d address)) [ none ↦ 0 | some a ↦ a ];
      task_threads = setting d task_processes (pos 0);
      loop_threads = setting d worker_processes (pos 4);
    }

  -- Where `ansync_started` is neither on nor off, missing as well, the process ends.
  pub start_aborts :
      (i : Init o.Doc)
      → same (o.get i.conf_data ansync_started) (codes "on") ≡ false
      → same (o.get i.conf_data ansync_started) (codes "off") ≡ false
      → start o t i ≡ none
  unfolding start init_conf
  start_aborts i e f = simp (e, f) refl
