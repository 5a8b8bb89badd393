-- ===== src/Util/Sql/Where.antt =====
-- util/MySQL.cpp: the queries with conditions.
use ssxrver.Prelude.{
  ℕ, suc, ◌≡◌, refl, sym, ap, ◌∙◌, false, some, List, [], ◌∷◌, ◌++◌, map, append-nil, append_assoc,
  arith, ◌==◌, if◌then◌else◌, get_or, codes,
}
use ssxrver.Util.Sql.{
  Row, set_back, comma, conditions, delete_query, update_query, select_query, assignments, columns,
}
use ssxrver.Util.Sql.Shape.{with_commas, closed}

-- The items with `sep` between each two.
abbrev pub separated : List ℕ → List (List ℕ) → List ℕ
separated sep [] = []
separated sep (x ∷ []) = x
separated sep (x ∷ y ∷ xs) = x ++ (sep ++ separated sep (y ∷ xs))

-- The comparisons: the operator of a field stands at its place, and is empty where there is none.
abbrev pub comparisons : ℕ → List (List ℕ) → Row → List (List ℕ)
comparisons i ops [] = []
comparisons i ops ((k, v) ∷ row) = (k ++ (get_or ops i [] ++ v)) ∷ comparisons (suc i) ops row

abbrev pub settings : Row → List (List ℕ)
settings = map λ r. r.0 ++ (codes "=" ++ r.1)

abbrev pub and_text : List ℕ
and_text = codes " AND "

behind_first : (i : ℕ) → (suc i == 0) ≡ false
behind_first i = ground arith

-- What stands behind the first comparison.
later_conditions :
    (i : ℕ) (ops : List (List ℕ)) (x : List ℕ) (row : Row)
    → x ++ conditions (suc i) ops row ≡ separated and_text (x ∷ comparisons (suc i) ops row)
unfolding conditions
later_conditions i ops x [] = append-nil x
later_conditions i ops x ((k, v) ∷ row) =
    ap
      (λ b.
        x
        ++ ((if b then [] else and_text)
            ++ (k ++ (get_or ops (suc i) [] ++ (v ++ conditions (suc (suc i)) ops row)))))
      (behind_first i)
    ∙ ap (λ t. x ++ (and_text ++ t))
        (ap (◌++◌ k)
            (sym (append_assoc (get_or ops (suc i) []) v (conditions (suc (suc i)) ops row)))
          ∙ sym (append_assoc k (get_or ops (suc i) [] ++ v) (conditions (suc (suc i)) ops row))
          ∙ later_conditions (suc i) ops (k ++ (get_or ops (suc i) [] ++ v)) row)

conditions_lem :
    (ops : List (List ℕ)) (row : Row)
    → conditions 0 ops row ≡ separated and_text (comparisons 0 ops row)
unfolding conditions
conditions_lem ops [] = refl
conditions_lem ops ((k, v) ∷ row) =
    ap (◌++◌ k) (sym (append_assoc (get_or ops 0 []) v (conditions 1 ops row)))
    ∙ sym (append_assoc k (get_or ops 0 [] ++ v) (conditions 1 ops row))
    ∙ later_conditions 0 ops (k ++ (get_or ops 0 [] ++ v)) row

setting :
    (k eq v sep rest : List ℕ)
    → (k ++ eq) ++ ((v ++ sep) ++ rest) ≡ ((k ++ (eq ++ v)) ++ sep) ++ rest
setting k eq v sep rest = simp append_assoc refl

assignments-columns : (row : Row) → assignments row ≡ columns (settings row)
assignments-columns [] = refl
assignments-columns ((k, v) ∷ row) =
    setting k (codes "=") v (comma ∷ []) (assignments row)
    ∙ ap (◌++◌ ((k ++ (codes "=" ++ v)) ++ (comma ∷ []))) (assignments-columns row)

in_parts :
    (a t s w sp r : List ℕ)
    → ((a ++ (t ++ s)) ++ (w ++ sp)) ++ r ≡ a ++ (t ++ (s ++ (w ++ (sp ++ r))))
in_parts a t s w sp r = simp append_assoc refl

-- The three queries with conditions: `sqlDeleteWhere`; `sqlUpdateWhere` of at least one field, and
-- `sqlSelectWhere` of at least one column, with conditions and a limit. Each field is compared with
-- its value by the operator of the same place, with AND between the comparisons, the items of a
-- list have commas between them, and a semicolon ends the query.
pub where_queries_lem :
    (table : List ℕ) (ops : List (List ℕ)) (row : Row) (field : List ℕ × List ℕ) (fields : Row)
    (column : List ℕ) (more : List (List ℕ)) (limit : List ℕ)
    → let test = separated and_text (comparisons 0 ops row) in
      (delete_query table row ops
        ≡ codes "DELETE FROM " ++ (table ++ (codes " WHERE " ++ (test ++ codes ";"))))
      × (update_query table (field ∷ fields) row ops
          ≡ codes "UPDATE "
            ++ (table
                ++ (codes " SET "
                    ++ (with_commas (settings (field ∷ fields))
                        ++ (codes " WHERE " ++ (test ++ codes ";"))))))
      × (select_query table (column ∷ more) (some ops) row (some limit)
          ≡ codes "SELECT "
            ++ (with_commas (column ∷ more)
                ++ (codes " FROM "
                    ++ (table
                        ++ (codes " WHERE "
                            ++ (test ++ (codes " LIMIT " ++ (limit ++ codes ";"))))))))
unfolding delete_query update_query select_query
where_queries_lem table ops row (k, v) fields column more limit = (
  ap (λ t. codes "DELETE FROM " ++ (table ++ (codes " WHERE " ++ (t ++ codes ";"))))
      (conditions_lem ops row),
  ap (λ t. set_back t 32 ++ (codes "WHERE " ++ (conditions 0 ops row ++ codes ";")))
        (ap (λ t. codes "UPDATE " ++ (table ++ (codes " SET " ++ t)))
            (assignments-columns ((k, v) ∷ fields))
          ∙ sym (
              append_assoc (codes "UPDATE ") (table ++ codes " SET ")
                (columns (settings ((k, v) ∷ fields)))
              ∙ ap (◌++◌ (codes "UPDATE "))
                  (append_assoc table (codes " SET ") (columns (settings ((k, v) ∷ fields))))))
      ∙ ap (λ t. t ++ (codes "WHERE " ++ (conditions 0 ops row ++ codes ";")))
          (closed (codes "UPDATE " ++ (table ++ codes " SET ")) (k ++ (codes "=" ++ v))
            (settings fields) 32)
      ∙ in_parts (codes "UPDATE ") table (codes " SET ") (with_commas (settings ((k, v) ∷ fields)))
          (codes " ") (codes "WHERE " ++ (conditions 0 ops row ++ codes ";"))
      ∙ ap
          (λ t.
            codes "UPDATE "
            ++ (table
                ++ (codes " SET "
                    ++ (with_commas (settings ((k, v) ∷ fields))
                        ++ (codes " WHERE " ++ (t ++ codes ";"))))))
          (conditions_lem ops row),
  ap
        (λ t.
          t
          ++ (codes "FROM "
              ++ (table
                  ++ ((codes " WHERE " ++ conditions 0 ops row)
                      ++ ((codes " LIMIT " ++ limit) ++ codes ";")))))
        (closed (codes "SELECT ") column more 32)
      ∙ in_parts (codes "SELECT ") [] [] (with_commas (column ∷ more)) (codes " ") (
          codes "FROM "
          ++ (table
              ++ ((codes " WHERE " ++ conditions 0 ops row)
                  ++ ((codes " LIMIT " ++ limit) ++ codes ";"))))
      ∙ ap
          (λ t.
            codes "SELECT "
            ++ (with_commas (column ∷ more)
                ++ (codes " FROM "
                    ++ (table
                        ++ (codes " WHERE " ++ (t ++ (codes " LIMIT " ++ (limit ++ codes ";"))))))))
          (conditions_lem ops row),
)
