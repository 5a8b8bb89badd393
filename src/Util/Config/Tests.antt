-- ===== src/Util/Config/Tests.antt =====
-- The configuration at inputs. The texts of numbers are made up: a sign and a value.
use mathlib.Core.Path.{subst}
use ssxrver.Prelude.{
  ℕ, ◌≡◌, refl, Bool, true, false, ◌&&◌, Option, none, some, List, [], ◌∷◌, ◌==◌, if◌then◌else◌,
  ◌>>=◌, codes, ltb, ◌^◌, ◌<◌, Bool-cases, inl, inr, arith,
}
use ssxrver.Log.Stream.{ℤ, pos, negsuc}
use ssxrver.Util.Config.{
  Key, ansync_started, flush_second, roll_size, level, path, base_name, port, address,
  worker_connections, worker_processes, task_processes, cpu_affinity, max_body_size, root_path,
  Json, Texts, Init, new_init, get_useful_cpu_number, get_type_conversion, block_all, read_conf,
  init_conf, Launch, low_16, level_of, init_async_log, start_log, start, launch,
}
use ssxrver.Util.Config.Defaults.{place, IsInt, IsJson}

abbrev text_of : ℤ → List ℕ
text_of (pos n) = 0 ∷ n ∷ []
text_of (negsuc n) = 1 ∷ n ∷ []

abbrev read_number : List ℕ → Option ℤ
read_number (s ∷ n ∷ []) =
    if ltb n (2 ^ 31) then some (if s == 0 then pos n else negsuc n) else none
read_number _ = none

abbrev json : Json
json = record {
  Doc = Key → List ℕ;
  get = λ d k. d k;
  replace = λ d k n k'. if place k == place k' then text_of n else d k';
  blocks_ip = λ d. some (codes "9.9.9.9") ∷ none ∷ [];
}

abbrev texts : Texts
texts = record { lexical_cast = read_number; stoi = read_number; inet_pton = λ s. none }

abbrev doc : Key → List ℕ
doc ansync_started = codes "on"
doc flush_second = text_of (negsuc 4)
doc roll_size = codes "many"
doc level = codes "WARN"
doc path = codes "logs/"
doc base_name = codes "a"
doc port = text_of (pos 8080)
doc address = codes "0.0.0.0"
doc worker_connections = text_of (negsuc 0)
doc worker_processes = text_of (pos 0)
doc task_processes = text_of (negsuc 1)
doc cpu_affinity = codes "on"
doc max_body_size = text_of (negsuc 8)
doc root_path = []

abbrev init : Init (Key → List ℕ)
init = new_init doc 8

launch_test :
    (start json texts init >>= λ r. some r.1)
    ≡ some (record {
      async_log = some (codes "logs/a", pos 3, pos 67108864);
      log_level = 2;
      sin_port = 8080;
      sin_addr = 0;
      task_threads = pos 0;
      loop_threads = pos 4;
    })
unfolding start launch start_log init_async_log init_conf read_conf get_useful_cpu_number
    get_type_conversion block_all level_of low_16 new_init
launch_test = refl

abbrev kept : Init (Key → List ℕ) × Launch → Option (ℤ × List ℕ × List (List ℕ) × ℕ)
kept (i, l) = some (i.http_max_body_size, i.root_path, i.blocks_ip, i.cpu_used_number)

kept_test :
    (start json texts init >>= kept)
    ≡ some (negsuc 8, codes "./", codes "9.9.9.9" ∷ codes "9.9.9.9" ∷ [], 1)
unfolding start launch start_log init_async_log init_conf read_conf get_useful_cpu_number
    get_type_conversion block_all level_of low_16 new_init
kept_test = refl

json-IsJson : IsJson json texts
json-IsJson = record {
  has = λ d k. true;
  text_of = text_of;
  get-replace = λ d k n k'. under_and (place k == place k') (text_of n) (d k');
  has-replace = λ d k n k'. refl;
  cast-IsInt = ints;
  stoi-text_of = reads;
}
  where
    under_and : (b : Bool) (x y : List ℕ) → (if b then x else y) ≡ (if b && true then x else y)
    under_and true x y = refl
    under_and false x y = refl

    reads : (n : ℤ) → IsInt n → read_number (text_of n) ≡ some n
    reads (pos n) h = let e : ltb n (2 ^ 31) ≡ true = ground (arith, h) in simp e refl
    reads (negsuc n) h = let e : ltb n (2 ^ 31) ≡ true = ground (arith, h) in simp e refl

    signed : (s n : ℕ) → n < 2 ^ 31 → IsInt (if s == 0 then pos n else negsuc n)
    signed s n h = by_sign (s == 0)
      where
        by_sign : (b : Bool) → IsInt (if b then pos n else negsuc n)
        by_sign true = h
        by_sign false = h

    ints : (v : List ℕ) (n : ℤ) → read_number v ≡ some n → IsInt n
    ints [] n e = absurd (ground (arith, e))
    ints (s ∷ []) n e = absurd (ground (arith, e))
    ints (s ∷ m ∷ x ∷ v) n e = absurd (ground (arith, e))
    ints (s ∷ m ∷ []) n e = elim (Bool-cases (ltb m (2 ^ 31))) [
      | inl fits ↦
          let read : some (if s == 0 then pos m else negsuc m) ≡ some n = simp fits at e in
          subst IsInt {x = if s == 0 then pos m else negsuc m} (cc read)
            (signed s m (ground (arith, fits)))
      | inr over ↦ let unread : none ≡ some n = simp over at e in absurd (ground (arith, unread))
    ]
