-- ===== src/Util/Tests.antt =====
-- The theorems on queries, at small tables.
use ssxrver.Prelude.{some, ◌≡◌, refl, [], ◌∷◌, ◌++◌, codes}
use ssxrver.Util.Sql.{Row, insert_query, delete_query, update_query, select_query}
use ssxrver.Util.Sql.Where.{separated, and_text, comparisons, settings, where_queries_lem}
use ssxrver.Util.Sql.Shape.{with_commas}

abbrev ann : Row
ann = (codes "name", codes "'Ann'") ∷ (codes "age", codes "30") ∷ []

abbrev bob : Row
bob = (codes "name", codes "'Bob'") ∷ (codes "age", codes "41") ∷ []

abbrev by_id : Row
by_id = (codes "id", codes "7") ∷ (codes "age", codes "30") ∷ []

insert_query_text :
    insert_query (codes "user") (ann ∷ bob ∷ [])
    ≡ codes "INSERT INTO user(name,age)VALUES('Ann',30),('Bob',41);"
unfolding insert_query
insert_query_text = refl

where_queries_lem_example :
    let test = separated and_text (comparisons 0 (codes ">" ∷ codes "=" ∷ []) by_id) in
    (delete_query (codes "user") by_id (codes ">" ∷ codes "=" ∷ [])
      ≡ codes "DELETE FROM " ++ (codes "user" ++ (codes " WHERE " ++ (test ++ codes ";"))))
    × (update_query (codes "user") ann by_id (codes ">" ∷ codes "=" ∷ [])
        ≡ codes "UPDATE "
          ++ (codes "user"
              ++ (codes " SET "
                  ++ (with_commas (settings ann) ++ (codes " WHERE " ++ (test ++ codes ";"))))))
    × (select_query
          (codes "user")
          (codes "id" ∷ codes "age" ∷ [])
          (some (codes ">" ∷ codes "=" ∷ []))
          by_id
          (some (codes "5"))
        ≡ codes "SELECT "
          ++ (with_commas (codes "id" ∷ codes "age" ∷ [])
              ++ (codes " FROM "
                  ++ (codes "user"
                      ++ (codes " WHERE "
                          ++ (test ++ (codes " LIMIT " ++ (codes "5" ++ codes ";"))))))))
where_queries_lem_example =
    where_queries_lem (codes "user") (codes ">" ∷ codes "=" ∷ []) by_id
      (codes "name", codes "'Ann'") ((codes "age", codes "30") ∷ []) (codes "id") (codes "age" ∷ [])
      (codes "5")

delete_query_text :
    delete_query (codes "user") by_id (codes ">" ∷ codes "=" ∷ [])
    ≡ codes "DELETE FROM user WHERE id>7 AND age=30;"
unfolding delete_query
delete_query_text = refl
