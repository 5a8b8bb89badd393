-- ===== src/Util/Sql.antt =====
-- util/MySQL.cpp: how queries are written.
--
-- What the methods of the JSON library give is an argument: an object is the list of its keys with
-- their values, in the order of `GetKey`, and an array is a list. Texts are lists of bytes.
pub mod Shape
pub mod Where
use ssxrver.Prelude.{
  ℕ, zero, suc, ◌+◌, ◌-◌, ◌*◌, ◌/◌, ◌%◌, ◌^◌, ◌≤◌, ◌<◌, min, ◌≡◌, refl, sym, ap, ◌∙◌, ◌≢◌, ◌↔◌, ◌⊎◌,
  inl, inr, Bool, true, false, not, ◌&&◌, ◌||◌, Option, none, some, List, [], ◌∷◌, ◌++◌, map,
  append-nil, append_assoc, arith, ltb, leb, ◌==◌, if◌then◌else◌, ltb→lt, lt→ltb, leb→le, ==_iff,
  tests, Bool-cases, Option-cases, length, get_elem?, set, length-append, length-set,
  get_elem?-set_self, get_elem?-set_ne, get_or, take, drop, replicate, take-append-drop,
  length-take, length-drop, length-replicate, length-map, take-append, drop-append, take_all,
  drop_all, take-append_past, drop-drop, drop-take, take-take, select, All, All-append, All-map,
  ◌>>=◌, ◌>>◌, assert, codes, same, strncmp_equal, c_str, value_from, decimal_onto, decimal,
}

abbrev pub Row : Type 0
Row = List (List ℕ × List ℕ)

-- `text.back() = c`.
abbrev pub set_back : List ℕ → ℕ → List ℕ
set_back [] c = []
set_back (x ∷ []) c = c ∷ []
set_back (x ∷ y ∷ xs) c = x ∷ set_back (y ∷ xs) c

abbrev pub comma : ℕ
comma = 44

-- `keyStr + ","` for each key.
abbrev pub keys_text : Row → List ℕ
keys_text [] = []
keys_text ((k, v) ∷ row) = (k ++ (comma ∷ [])) ++ keys_text row

abbrev pub values_text : Row → List ℕ
values_text [] = []
values_text ((k, v) ∷ row) = (v ++ (comma ∷ [])) ++ values_text row

-- The turns of `sqlInsert`'s loop behind the first.
unfoldable pub insert_more : List ℕ → List Row → List ℕ
insert_more query [] = query
insert_more query (row ∷ rows) =
    insert_more (query ++ (set_back (codes "(" ++ values_text row) 41 ++ (comma ∷ []))) rows

unfoldable pub insert_rows : List ℕ → List Row → List ℕ
unfolding insert_more
insert_rows query [] = query
insert_rows query (row ∷ rows) =
    let values = set_back (codes "VALUES(" ++ values_text row) 41 in
    insert_more (set_back (query ++ keys_text row) 41 ++ (values ++ (comma ∷ []))) rows

-- `sqlInsert`, up to the query.
unfoldable pub insert_query : List ℕ → List Row → List ℕ
unfolding insert_rows
insert_query table rows =
    set_back (insert_rows (codes "INSERT INTO " ++ (table ++ codes "(")) rows) 59

-- The loop over the keys of `data`, at the condition `i`: `ops(i)` is empty out of range.
unfoldable pub conditions : ℕ → List (List ℕ) → Row → List ℕ
conditions i ops [] = []
conditions i ops ((k, v) ∷ row) =
    (if i == 0 then [] else codes " AND ")
    ++ (k ++ (get_or ops i [] ++ (v ++ conditions (suc i) ops row)))

unfoldable pub delete_query : List ℕ → Row → List (List ℕ) → List ℕ
unfolding conditions
delete_query table row ops =
    codes "DELETE FROM " ++ (table ++ (codes " WHERE " ++ (conditions 0 ops row ++ codes ";")))

abbrev pub assignments : Row → List ℕ
assignments [] = []
assignments ((k, v) ∷ row) = (k ++ codes "=") ++ ((v ++ (comma ∷ [])) ++ assignments row)

unfoldable pub update_query : List ℕ → Row → Row → List (List ℕ) → List ℕ
unfolding conditions
update_query table fields row ops =
    set_back (codes "UPDATE " ++ (table ++ (codes " SET " ++ assignments fields))) 32
    ++ (codes "WHERE " ++ (conditions 0 ops row ++ codes ";"))

abbrev pub columns : List (List ℕ) → List ℕ
columns [] = []
columns (c ∷ cs) = (c ++ (comma ∷ [])) ++ columns cs

-- `op` and `limit` are `none` where they are empty.
unfoldable pub select_query :
    List ℕ → List (List ℕ) → Option (List (List ℕ)) → Row → Option (List ℕ) → List ℕ
unfolding conditions
select_query table what op row limit =
    set_back (codes "SELECT " ++ columns what) 32
    ++ (codes "FROM "
        ++ (table
            ++ (elim op [ none ↦ [] | some ops ↦ codes " WHERE " ++ conditions 0 ops row ]
                ++ (elim limit [ none ↦ [] | some n ↦ codes " LIMIT " ++ n ] ++ codes ";"))))
