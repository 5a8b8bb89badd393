-- ===== src/Util/Sql/Shape.antt =====
-- The queries as texts with separators: no comma of a loop is left at an end.
use ssxrver.Prelude.{
  ℕ, ◌<◌, ◌≡◌, refl, sym, ap, ◌∙◌, List, [], ◌∷◌, ◌++◌, map, append-nil, append_assoc, arith,
  length, All, codes,
}
use ssxrver.Util.Sql.{
  Row, set_back, comma, keys_text, values_text, insert_more, insert_rows, insert_query, columns,
}

-- The items with a comma between each two.
abbrev pub with_commas : List (List ℕ) → List ℕ
with_commas [] = []
with_commas (x ∷ []) = x
with_commas (x ∷ y ∷ xs) = x ++ (comma ∷ with_commas (y ∷ xs))

set_back-append : (xs : List ℕ) (y c : ℕ) → set_back (xs ++ (y ∷ [])) c ≡ xs ++ (c ∷ [])
set_back-append [] y c = refl
set_back-append (x ∷ []) y c = refl
set_back-append (x ∷ z ∷ xs) y c = ap (◌∷◌ x) (set_back-append (z ∷ xs) y c)

-- A loop that puts a comma behind each item ends in one.
columns_lem :
    (c : List ℕ) (cs : List (List ℕ)) → columns (c ∷ cs) ≡ with_commas (c ∷ cs) ++ (comma ∷ [])
columns_lem c [] = append-nil (c ++ (comma ∷ []))
columns_lem c (d ∷ cs) =
    ap (◌++◌ (c ++ (comma ∷ []))) (columns_lem d cs)
    ∙ append_assoc c (comma ∷ []) (with_commas (d ∷ cs) ++ (comma ∷ []))
    ∙ sym (append_assoc c (comma ∷ with_commas (d ∷ cs)) (comma ∷ []))

abbrev pub keys : Row → List (List ℕ)
keys = map λ r. r.0

abbrev pub values : Row → List (List ℕ)
values = map λ r. r.1

keys-columns : (row : Row) → keys_text row ≡ columns (keys row)
keys-columns [] = refl
keys-columns ((k, v) ∷ row) = ap (◌++◌ (k ++ (comma ∷ []))) (keys-columns row)

values-columns : (row : Row) → values_text row ≡ columns (values row)
values-columns [] = refl
values-columns ((k, v) ∷ row) = ap (◌++◌ (v ++ (comma ∷ []))) (values-columns row)

-- The last comma behind `head` and the items becomes `c`.
pub closed :
    (head x : List ℕ) (xs : List (List ℕ)) (c : ℕ)
    → set_back (head ++ columns (x ∷ xs)) c ≡ head ++ (with_commas (x ∷ xs) ++ (c ∷ []))
closed head x xs c =
    ap (λ t. set_back (head ++ t) c) (columns_lem x xs)
    ∙ ap (λ t. set_back t c) (sym (append_assoc head (with_commas (x ∷ xs)) (comma ∷ [])))
    ∙ set_back-append (head ++ with_commas (x ∷ xs)) comma c
    ∙ append_assoc head (with_commas (x ∷ xs)) (c ∷ [])

-- A row of values in parentheses.
abbrev pub tuple_of : Row → List ℕ
tuple_of row = codes "(" ++ (with_commas (values row) ++ codes ")")

abbrev pub NonEmpty : Row → Type 0
NonEmpty row = 0 < length row

tuple_closed :
    (head : List ℕ) (row : Row)
    → 0 < length row
    → set_back (head ++ values_text row) 41 ≡ head ++ (with_commas (values row) ++ codes ")")
tuple_closed head [] h = absurd (omega (arith, h))
tuple_closed head ((k, v) ∷ row) h =
    ap (λ t. set_back (head ++ t) 41) (values-columns ((k, v) ∷ row))
    ∙ closed head v (values row) 41

insert_more_lem :
    (query : List ℕ) (rows : List Row)
    → All (λ row. 0 < length row) rows
    → insert_more query rows ≡ query ++ columns (map tuple_of rows)
unfolding insert_more
insert_more_lem query [] h = sym (append-nil query)
insert_more_lem query (row ∷ rows) h =
    ap (λ t. insert_more (query ++ (t ++ (comma ∷ []))) rows) (tuple_closed (codes "(") row h.0)
    ∙ insert_more_lem (query ++ (tuple_of row ++ (comma ∷ []))) rows h.1
    ∙ append_assoc query (tuple_of row ++ (comma ∷ [])) (columns (map tuple_of rows))

-- `sqlInsert` of rows that each have a field writes the columns of the first row and the values of
-- every row, in parentheses with commas between, and ends the query with a semicolon.
pub insert_query_lem :
    (table : List ℕ) (row : Row) (rows : List Row)
    → All (λ r. 0 < length r) (row ∷ rows)
    → insert_query table (row ∷ rows)
      ≡ (codes "INSERT INTO " ++ (table ++ codes "("))
        ++ ((with_commas (keys row) ++ codes ")VALUES")
            ++ (with_commas (map tuple_of (row ∷ rows)) ++ codes ";"))
unfolding insert_query insert_rows
insert_query_lem table [] rows h = absurd (omega (arith, h.0))
insert_query_lem table ((k, v) ∷ fields) rows h =
    ap (λ t. set_back (insert_more (t ++ (values_part ++ (comma ∷ []))) rows) 59)
      (ap (λ t. set_back (start ++ t) 41) (keys-columns row) ∙ closed start k (keys fields) 41)
    ∙ ap (λ t. set_back (insert_more (head ++ (t ++ (comma ∷ []))) rows) 59)
        (tuple_closed (codes "VALUES(") row h.0)
    ∙ ap (λ t. set_back t 59)
        (insert_more_lem (head ++ ((codes "VALUES" ++ tuple_of row) ++ (comma ∷ []))) rows h.1
          ∙ append_assoc head ((codes "VALUES" ++ tuple_of row) ++ (comma ∷ [])) more
          ∙ sym (append_assoc head (codes "VALUES") ((tuple_of row ++ (comma ∷ [])) ++ more)))
    ∙ closed (head ++ codes "VALUES") (tuple_of row) (map tuple_of rows) 59
    ∙ append_assoc head (codes "VALUES") done
    ∙ append_assoc start (with_commas (keys row) ++ codes ")") (codes "VALUES" ++ done)
    ∙ ap (◌++◌ start) (
        append_assoc (with_commas (keys row)) (codes ")") (codes "VALUES" ++ done)
        ∙ sym (append_assoc (with_commas (keys row)) (codes ")VALUES") done))
  where
    row : Row
    row = (k, v) ∷ fields

    start : List ℕ
    start = codes "INSERT INTO " ++ (table ++ codes "(")

    values_part : List ℕ
    values_part = set_back (codes "VALUES(" ++ values_text row) 41

    head : List ℕ
    head = start ++ (with_commas (keys row) ++ codes ")")

    more : List ℕ
    more = columns (map tuple_of rows)

    done : List ℕ
    done = with_commas (map tuple_of (row ∷ rows)) ++ codes ";"
