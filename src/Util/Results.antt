-- ===== src/Util/Results.antt =====
-- util/MySQL.cpp: sending a query and reading its result.
--
-- What the client library answers is an argument. A field is `none` where it is a null pointer, as
-- for an SQL NULL; making a text of it is undefined, which is `none` here. A JSON object is the
-- calls of `Add` on it, in order, and an array its entries.
use ssxrver.Prelude.{
  ℕ, zero, suc, ◌+◌, ◌≡◌, refl, sym, ap, ◌∙◌, Option, none, some, List, [], ◌∷◌, ◌++◌, append-nil,
  append_assoc, arith, length, length-append, get_or, All, ◌>>=◌, codes,
}

-- `mysql_query` refused the query, or `mysql_use_result` gave nothing, or the rows that
-- `mysql_fetch_row` gave.
pub data Answer : Type 0 where
  refused no_result : Answer
  rows : List (List (Option (List ℕ))) → Answer

-- -1 and 1.
pub data Code : Type 0 where
  failure success : Code

-- The inner loop of `queryTableColName`, from the column `j` with `count` left.
unfoldable pub add_fields : ℕ → ℕ → List (Option (List ℕ)) → List (List ℕ) → Option (List (List ℕ))
add_fields zero j row array = some array
add_fields (suc count) j row array = do
  field ← get_or row j none
  add_fields count (j + 1) row (array ++ (field ∷ []))

unfoldable pub add_rows : ℕ → List (List (Option (List ℕ))) → List (List ℕ) → Option (List (List ℕ))
unfolding add_fields
add_rows count [] array = some array
add_rows count (row ∷ more) array = do
  array' ← add_fields count 0 row array
  add_rows count more array'

-- `queryTableColName`: the array `what` and the code.
unfoldable pub query_table_col_name : ℕ → Answer → Option (List (List ℕ) × Code)
unfolding add_rows
query_table_col_name count refused = some ([], failure)
query_table_col_name count no_result = some ([], failure)
query_table_col_name count (rows rs) = do array ← add_rows count rs []; some (array, success)

abbrev pub column_query : List ℕ → List ℕ
column_query table_name =
    codes
      "SELECT column_name FROM information_schema.columns WHERE table_schema='ttms' AND table_name='"
    ++ (table_name ++ codes "';")

abbrev pub Object : Type 0
Object = List (List ℕ × List ℕ)

-- The inner loop of `queryHasResult`; a name that `what` does not have is empty.
unfoldable pub add_named : List (List ℕ) → ℕ → ℕ → List (Option (List ℕ)) → Object → Option Object
add_named what zero j row temp = some temp
add_named what (suc count) j row temp = do
  field ← get_or row j none
  add_named what count (j + 1) row (temp ++ ((get_or what j [], field) ∷ []))

unfoldable pub add_objects :
    List (List ℕ) → ℕ → List (List (Option (List ℕ))) → List Object → Option (List Object)
unfolding add_named
add_objects what count [] array = some array
add_objects what count (row ∷ more) array = do
  temp ← add_named what count 0 row []
  add_objects what count more (array ++ (temp ∷ []))

-- `queryHasResult`: the array `data` and the code.
unfoldable pub query_has_result : List (List ℕ) → ℕ → Answer → Option (List Object × Code)
unfolding add_objects
query_has_result what count refused = some ([], failure)
query_has_result what count no_result = some ([], failure)
query_has_result what count (rows rs) = do
  array ← add_objects what count rs []
  some (array, success)

-- A row of fields that are all there, with a name for each.
abbrev pub named : List (List ℕ) → List (List ℕ) → Object
named [] fields = []
named (w ∷ what) [] = []
named (w ∷ what) (f ∷ fields) = (w, f) ∷ named what fields

abbrev pub present : List (List ℕ) → List (Option (List ℕ))
present [] = []
present (f ∷ fields) = some f ∷ present fields

module _ {A : Type 0} where
  get_or-append : (xs ys : List A) (y d : A) → get_or (xs ++ (y ∷ ys)) (length xs) d ≡ y
  get_or-append [] ys y d = refl
  get_or-append (x ∷ xs) ys y d = get_or-append xs ys y d

present-append : (fs gs : List (List ℕ)) → present (fs ++ gs) ≡ present fs ++ present gs
present-append [] gs = refl
present-append (f ∷ fs) gs = ap (◌∷◌ (some f)) (present-append fs gs)

length-present : (fs : List (List ℕ)) → length (present fs) ≡ length fs
length-present [] = refl
length-present (f ∷ fs) = ap suc (length-present fs)

-- The loop behind the columns `fs` with the names `ws`.
add_named_from :
    (ws what fs fields : List (List ℕ)) (temp : Object)
    → length ws ≡ length fs
    → length what ≡ length fields
    → add_named (ws ++ what) (length fields) (length fs) (present (fs ++ fields)) temp
      ≡ some (temp ++ named what fields)
unfolding add_named
add_named_from ws [] fs [] temp e l = ap some (sym (append-nil temp))
add_named_from ws [] fs (f ∷ fields) temp e l = absurd (omega (arith, l))
add_named_from ws (w ∷ what) fs [] temp e l = absurd (omega (arith, l))
add_named_from ws (w ∷ what) fs (f ∷ fields) temp e l =
    simp (field, name)
      (again (
        add_named_from (ws ++ (w ∷ [])) what (fs ++ (f ∷ [])) fields (temp ++ ((w, f) ∷ [])) lengths
          (omega (arith, l))))
  where
    field : get_or (present (fs ++ (f ∷ fields))) (length fs) none ≡ some f
    field =
        ap (λ r. get_or r (length fs) none) (present-append fs (f ∷ fields))
        ∙ ap (λ n. get_or (present fs ++ (some f ∷ present fields)) n none)
            (sym (length-present fs))
        ∙ get_or-append (present fs) (present fields) (some f) none

    name : get_or (ws ++ (w ∷ what)) (length fs) [] ≡ w
    name = ap (λ n. get_or (ws ++ (w ∷ what)) n []) (sym e) ∙ get_or-append ws what w []

    lengths : length (ws ++ (w ∷ [])) ≡ length (fs ++ (f ∷ []))
    lengths = omega (arith, e, length-append ws (w ∷ []), length-append fs (f ∷ []))

    again :
        add_named
            ((ws ++ (w ∷ [])) ++ what)
            (length fields)
            (length (fs ++ (f ∷ [])))
            (present ((fs ++ (f ∷ [])) ++ fields))
            (temp ++ ((w, f) ∷ []))
          ≡ some ((temp ++ ((w, f) ∷ [])) ++ named what fields)
        → add_named
            (ws ++ (w ∷ what))
            (length fields)
            (length fs + 1)
            (present (fs ++ (f ∷ fields)))
            (temp ++ ((w, f) ∷ []))
          ≡ some (temp ++ ((w, f) ∷ named what fields))
    again h =
        ap
          (λ u.
            add_named u (length fields) (length fs + 1) (present (fs ++ (f ∷ fields)))
              (temp ++ ((w, f) ∷ [])))
          (sym (append_assoc ws (w ∷ []) what))
        ∙ ap
            (λ n.
              add_named ((ws ++ (w ∷ [])) ++ what) (length fields) n (present (fs ++ (f ∷ fields)))
                (temp ++ ((w, f) ∷ [])))
            (sym (length-append fs (f ∷ [])))
        ∙ ap
            (λ r.
              add_named ((ws ++ (w ∷ [])) ++ what) (length fields) (length (fs ++ (f ∷ [])))
                (present r) (temp ++ ((w, f) ∷ [])))
            (sym (append_assoc fs (f ∷ []) fields))
        ∙ h
        ∙ ap some (append_assoc temp ((w, f) ∷ []) (named what fields))

abbrev pub Fits : ℕ → List (List ℕ) → Type 0
Fits count fields = length fields ≡ count

abbrev pub all_present : List (List (List ℕ)) → List (List (Option (List ℕ)))
all_present [] = []
all_present (fs ∷ fss) = present fs ∷ all_present fss

abbrev pub all_named : List (List ℕ) → List (List (List ℕ)) → List Object
all_named what [] = []
all_named what (fs ∷ fss) = named what fs ∷ all_named what fss

add_objects_whole :
    (what : List (List ℕ)) (fss : List (List (List ℕ))) (array : List Object)
    → All (Fits (length what)) fss
    → add_objects what (length what) (all_present fss) array ≡ some (array ++ all_named what fss)
unfolding add_objects
add_objects_whole what [] array h = ap some (sym (append-nil array))
add_objects_whole what (fs ∷ fss) array h = simp one (
    add_objects_whole what fss (array ++ (named what fs ∷ [])) h.1
    ∙ ap some (append_assoc array (named what fs ∷ []) (all_named what fss)))
  where
    one : add_named what (length what) 0 (present fs) [] ≡ some (named what fs)
    one =
        ap (λ n. add_named what n 0 (present fs) []) (sym h.0)
        ∙ add_named_from [] what [] fs [] refl (sym h.0)

-- A result without an SQL NULL, with as many columns as there are names, gives an object for each
-- row, in order, with each column under its name.
pub query_has_result_lem :
    (what : List (List ℕ)) (fss : List (List (List ℕ)))
    → All (Fits (length what)) fss
    → query_has_result what (length what) (rows (all_present fss))
      ≡ some (all_named what fss, success)
unfolding query_has_result
query_has_result_lem what fss h = simp (add_objects_whole what fss [] h) refl
