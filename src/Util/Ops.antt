-- ===== src/Util/Ops.antt =====
-- util/MySQLOps.h and util/MySQLOps.cpp: the table from operation numbers to queries.
--
-- `none` is the exception of an empty `std::function`, which `operator[]` makes for a number that
-- is not in the table.
use ssxrver.Prelude.{
  ℕ, ◌<◌, ◌≡◌, ◌≢◌, ◌⊎◌, Option, none, some, List, [], ◌∷◌, arith, ◌==◌, if◌then◌else◌,
}

-- The method of `MySQL` that the function in the table calls.
pub data NoResult : Type 0 where
  sql_insert sql_update_where sql_delete_where : NoResult

pub data HasResult : Type 0 where
  sql_select_where : HasResult

-- The members of the enumeration, from 0.
abbrev pub no_result_map : List (ℕ × NoResult)
no_result_map =
    (1, sql_insert)
    ∷ (2, sql_insert)
    ∷ (3, sql_insert)
    ∷ (4, sql_insert)
    ∷ (5, sql_insert)
    ∷ (6, sql_insert)
    ∷ (7, sql_update_where)
    ∷ (8, sql_update_where)
    ∷ (9, sql_update_where)
    ∷ (10, sql_update_where)
    ∷ (11, sql_update_where)
    ∷ (12, sql_update_where)
    ∷ (13, sql_delete_where)
    ∷ (14, sql_delete_where)
    ∷ (15, sql_delete_where)
    ∷ (16, sql_delete_where)
    ∷ (17, sql_delete_where)
    ∷ (18, sql_delete_where)
    ∷ []

abbrev pub has_result_map : List (ℕ × HasResult)
has_result_map =
    (20, sql_select_where)
    ∷ (21, sql_select_where)
    ∷ (22, sql_select_where)
    ∷ (23, sql_select_where)
    ∷ (24, sql_select_where)
    ∷ (25, sql_select_where)
    ∷ []

abbrev pub find {ℓ} : {A : Type ℓ} → List (ℕ × A) → ℕ → Option A
find [] x = none
find ((k, a) ∷ m) x = if k == x then some a else find m x

unfoldable pub query_no_result : ℕ → Option NoResult
query_no_result x = find no_result_map x

unfoldable pub query_has_result : ℕ → Option HasResult
query_has_result x = find has_result_map x

-- A number finds a function in one of the tables, and in no more than one, if it is between 1 and 25
-- and not 19.
query_either :
    (x : ℕ)
    → (0 < x × x < 19 × (query_has_result x ≡ none) × (query_no_result x ≢ none))
      ⊎ (19 < x × x < 26 × (query_no_result x ≡ none) × (query_has_result x ≢ none))
      ⊎ ((query_no_result x ≡ none) × (query_has_result x ≡ none) × ((x ≡ 0) ⊎ (x ≡ 19) ⊎ 25 < x))
unfolding query_no_result query_has_result
query_either x = ground arith
