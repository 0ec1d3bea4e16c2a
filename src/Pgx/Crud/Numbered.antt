-- ===== src/Pgx/Crud/Numbered.antt =====
-- pkg/pgx/crud.go: which argument each placeholder of a statement stands for.
use pigo.Pgx.Crud.{insert_columns, insert_row, insert_map}
use pigo.Base.{is_empty, suc, refl, false, Option, some, arith, ◌∙◌}
use pigo.Base.Bytes.{join}
use pigo.Pipeline.Cdc.{row}
use pigo.Base.{length, ℕ, ◌+◌, ◌≡◌, List, [], ◌∷◌, ◌++◌}
use pigo.Base.Bytes.{Bytes, decimal, codes}
use pigo.Base.Json.{Value}
use pigo.Base.Maps.{StringMap}
use mathlib.Core.List.{append_assoc, append-nil}
use pigo.Pgx.Crud.{
  QueryBuilder, new_query_builder, placeholder, add_value, table_identifier, assignments,
  update_map, update_row,
}

-- a column beside the placeholder of its number, for the columns of a map from a number on
abbrev pub numbered : (List Bytes → Bytes) → ℕ → StringMap Value → List Bytes
numbered sanitize i [] = []
numbered sanitize i ((k, v) ∷ m) =
    (sanitize (k ∷ []) ++ codes " = " ++ (codes "$" ++ decimal i)) ∷ numbered sanitize (i + 1) m

abbrev pub values_of : StringMap Value → List Value
values_of [] = []
values_of ((k, v) ∷ m) = v ∷ values_of m

abbrev blanks : StringMap Value → List Bytes
blanks [] = []
blanks (kv ∷ m) = [] ∷ blanks m

plus_zero : (n : ℕ) → n + 0 ≡ n
plus_zero n = omega arith

plus_suc : (n k : ℕ) → n + 1 + k ≡ n + suc k
plus_suc n k = omega arith

assignments-numbered :
    (sanitize : List Bytes → Bytes) (m : StringMap Value) (clauses : List Bytes) (qb : QueryBuilder)
    → assignments sanitize m clauses qb ≡ (
      clauses ++ numbered sanitize qb.next_index m,
      record qb {
        columns = qb.columns ++ blanks m;
        values = qb.values ++ values_of m;
        next_index = qb.next_index + length m;
      },
    )
unfolding assignments placeholder add_value
assignments-numbered sanitize [] clauses qb =
    rw (append-nil clauses, append-nil qb.columns, append-nil qb.values, plus_zero qb.next_index)
      refl
assignments-numbered sanitize ((k, v) ∷ m) clauses qb =
    let clause = sanitize (k ∷ []) ++ codes " = " ++ (codes "$" ++ decimal qb.next_index) in
    rw
      (
        assignments-numbered sanitize m (clauses ++ clause ∷ [])
            (add_value [] v (placeholder qb).1),
        append_assoc clauses (clause ∷ []) (numbered sanitize (qb.next_index + 1) m),
        append_assoc qb.columns ([] ∷ []) (blanks m),
        append_assoc qb.values (v ∷ []) (values_of m),
        plus_suc qb.next_index (length m),
      )
      refl

numbered-length :
    (sanitize : List Bytes → Bytes) (i : ℕ) (m : StringMap Value)
    → is_empty (numbered sanitize i m) ≡ is_empty m
numbered-length sanitize i [] = refl
numbered-length sanitize i ((k, v) ∷ m) = refl

update_map-numbered :
    (sanitize : List Bytes → Bytes) (exec : Bytes → List Value → Option ℕ)
    (m conditions : StringMap Value) (qb : QueryBuilder)
    → is_empty conditions ≡ false
    → (update_map sanitize exec m conditions qb).1
      ≡ some (
        codes "UPDATE "
            ++ sanitize (qb.schema ∷ qb.table ∷ [])
            ++ codes " SET "
            ++ join (codes ", ") (numbered sanitize qb.next_index m)
            ++ codes " WHERE "
            ++ join (codes " AND ") (numbered sanitize (qb.next_index + length m) conditions),
        qb.values ++ values_of m ++ values_of conditions,
      )
unfolding update_map table_identifier
update_map-numbered sanitize exec m conditions qb h =
    let set_qb = record qb {
      columns = qb.columns ++ blanks m;
      values = qb.values ++ values_of m;
      next_index = qb.next_index + length m;
    } in
    rw
      (
        update_map,
        assignments-numbered sanitize m [] qb,
        assignments-numbered sanitize conditions [] set_qb,
        numbered-length sanitize (qb.next_index + length m) conditions,
        h,
      )
      refl

update_row_lem :
    (sanitize : List Bytes → Bytes) (exec : Bytes → List Value → Option ℕ) (table schema : Bytes)
    (m conditions : StringMap Value)
    → is_empty schema ≡ false
    → is_empty conditions ≡ false
    → (update_row sanitize exec table (row m) conditions (schema ∷ [])).1
      ≡ some (
        codes "UPDATE "
            ++ sanitize (schema ∷ table ∷ [])
            ++ codes " SET "
            ++ join (codes ", ") (numbered sanitize 1 m)
            ++ codes " WHERE "
            ++ join (codes " AND ") (numbered sanitize (1 + length m) conditions),
        values_of m ++ values_of conditions,
      )
unfolding update_row new_query_builder
update_row_lem sanitize exec table schema m conditions hs hc =
    update_map-numbered sanitize exec m conditions (new_query_builder table (schema ∷ [])) hc
    ∙ rw hs refl

-- the columns of an INSERT, and its placeholders from a number on
abbrev pub column_names : (List Bytes → Bytes) → StringMap Value → List Bytes
column_names sanitize [] = []
column_names sanitize ((k, v) ∷ m) = sanitize (k ∷ []) ∷ column_names sanitize m

abbrev pub placeholders_from : ℕ → StringMap Value → List Bytes
placeholders_from i [] = []
placeholders_from i ((k, v) ∷ m) = (codes "$" ++ decimal i) ∷ placeholders_from (i + 1) m

insert_columns-numbered :
    (sanitize : List Bytes → Bytes) (m : StringMap Value) (columns placeholders : List Bytes)
    (qb : QueryBuilder)
    → insert_columns sanitize m columns placeholders qb ≡ (
      columns ++ column_names sanitize m,
      placeholders ++ placeholders_from qb.next_index m,
      record qb {
        columns = qb.columns ++ blanks m;
        values = qb.values ++ values_of m;
        next_index = qb.next_index + length m;
      },
    )
unfolding insert_columns placeholder add_value
insert_columns-numbered sanitize [] columns placeholders qb =
    rw
      (
        append-nil columns,
        append-nil placeholders,
        append-nil qb.columns,
        append-nil qb.values,
        plus_zero qb.next_index,
      )
      refl
insert_columns-numbered sanitize ((k, v) ∷ m) columns placeholders qb =
    let mark = codes "$" ++ decimal qb.next_index in
    rw
      (
        insert_columns-numbered sanitize m (columns ++ sanitize (k ∷ []) ∷ [])
            (placeholders ++ mark ∷ []) (add_value [] v (placeholder qb).1),
        append_assoc columns (sanitize (k ∷ []) ∷ []) (column_names sanitize m),
        append_assoc placeholders (mark ∷ []) (placeholders_from (qb.next_index + 1) m),
        append_assoc qb.columns ([] ∷ []) (blanks m),
        append_assoc qb.values (v ∷ []) (values_of m),
        plus_suc qb.next_index (length m),
      )
      refl

insert_map-numbered :
    (sanitize : List Bytes → Bytes) (exec : Bytes → List Value → Option ℕ) (m : StringMap Value)
    (qb : QueryBuilder)
    → (insert_map sanitize exec m qb).1
      ≡ some (
        codes "INSERT INTO "
            ++ sanitize (qb.schema ∷ qb.table ∷ [])
            ++ codes " ("
            ++ join (codes ", ") (column_names sanitize m)
            ++ codes ") VALUES ("
            ++ join (codes ", ") (placeholders_from qb.next_index m)
            ++ codes ")",
        qb.values ++ values_of m,
      )
unfolding insert_map table_identifier
insert_map-numbered sanitize exec m qb =
    rw (insert_map, insert_columns-numbered sanitize m [] [] qb) refl

insert_row_lem :
    (sanitize : List Bytes → Bytes) (exec : Bytes → List Value → Option ℕ) (table schema : Bytes)
    (m : StringMap Value)
    → is_empty schema ≡ false
    → (insert_row sanitize exec table (row m) (schema ∷ [])).1
      ≡ some (
        codes "INSERT INTO "
            ++ sanitize (schema ∷ table ∷ [])
            ++ codes " ("
            ++ join (codes ", ") (column_names sanitize m)
            ++ codes ") VALUES ("
            ++ join (codes ", ") (placeholders_from 1 m)
            ++ codes ")",
        values_of m,
      )
unfolding insert_row new_query_builder
insert_row_lem sanitize exec table schema m hs =
    insert_map-numbered sanitize exec m (new_query_builder table (schema ∷ [])) ∙ rw hs refl

-- An insert of a row that is a map sends one statement with the row's columns, the placeholders from $1
-- on and the row's values, in one order. An update with conditions sends one statement, which sets each
-- column of the row and compares each column of the conditions by a placeholder, numbered from $1 on
-- through both, and the arguments have the values in that order.
pub writes_bind_their_values :
    (sanitize : List Bytes → Bytes) (exec : Bytes → List Value → Option ℕ) (table schema : Bytes)
    (m conditions : StringMap Value)
    → is_empty schema ≡ false
    → is_empty conditions ≡ false
    → ((insert_row sanitize exec table (row m) (schema ∷ [])).1
        ≡ some (
          codes "INSERT INTO "
              ++ sanitize (schema ∷ table ∷ [])
              ++ codes " ("
              ++ join (codes ", ") (column_names sanitize m)
              ++ codes ") VALUES ("
              ++ join (codes ", ") (placeholders_from 1 m)
              ++ codes ")",
          values_of m,
        ))
      × ((update_row sanitize exec table (row m) conditions (schema ∷ [])).1
          ≡ some (
            codes "UPDATE "
                ++ sanitize (schema ∷ table ∷ [])
                ++ codes " SET "
                ++ join (codes ", ") (numbered sanitize 1 m)
                ++ codes " WHERE "
                ++ join (codes " AND ") (numbered sanitize (1 + length m) conditions),
            values_of m ++ values_of conditions,
          ))
writes_bind_their_values sanitize exec table schema m conditions hs hc = (
  insert_row_lem sanitize exec table schema m hs,
  update_row_lem sanitize exec table schema m conditions hs hc,
)
