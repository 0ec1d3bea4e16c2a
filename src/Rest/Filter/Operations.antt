-- ===== src/Rest/Filter/Operations.antt =====
-- pkg/rest/filter.go: the operations that filterParser.operation returns.
use pigo.Base.{◌≡◌, Bool, true, false, [], is_empty}
use pigo.Base.Bytes.{Bytes, codes, ◌==◌, ==_sound, index_map}
use pigo.Base.Utf8.{Unicode}
use pigo.Rest.Filter.{Condition, quantifiable, fts_functions, sql_operators}
use pigo.Rest.Filter.Parse.{
  any_or_all, quant_modifier, in_operation, is_operation, valued_operation, operation_of, operation,
  lang_modifier,
}
use pigo.Rest.Filter.Post.{reads_rules}
use pigo.Rest.Filter.Reads.{Reads-operand, Reads-list_operand, Reads-lang_modifier}
use pigo.Rest.Filter.Valid.{
  IsQuant, no_quant, any_quant, all_quant, IsOperation, in_list, is_value, distinct, text_search,
  comparison, Yields, yields_rules, Yields-bind, Yields-if, Yields-errorf, Yields-raise,
  Yields-after,
}
use pigo.Rest.Filter.Parser.{◌>>=◌}

any_or_all-IsQuant : (op : Bytes) → quantifiable op ≡ true → Yields (IsQuant op) any_or_all
unfolding any_or_all
any_or_all-IsQuant op h = search (yields_rules, reads_rules, any_quant, all_quant) depth 12

quant_modifier-IsQuant : (op : Bytes) → Yields (IsQuant op) (quant_modifier op)
unfolding quant_modifier
quant_modifier-IsQuant op =
    search (yields_rules, reads_rules, any_or_all-IsQuant, no_quant) depth 12

in_operation-IsOperation :
    (in_tree : Bool) (c : Condition)
    → c.operator ≡ codes "in"
    → Yields IsOperation (in_operation in_tree c)
unfolding in_operation
in_operation-IsOperation in_tree c h =
    search (yields_rules, reads_rules, Reads-list_operand, in_list) depth 12

valued_operation-IsOperation :
    (in_tree : Bool) (c : Condition)
    → ((v : Bytes) → IsOperation (record c { value = v }))
    → Yields IsOperation (valued_operation in_tree c)
unfolding valued_operation
valued_operation-IsOperation in_tree c h =
    search (yields_rules, reads_rules, Reads-operand, h) depth 12

module _ (u : Unicode) where
  is_operation-IsOperation :
      (c : Condition) → c.operator ≡ codes "is" → Yields IsOperation (is_operation u c)
  unfolding is_operation
  is_operation-IsOperation c h = search (yields_rules, reads_rules, is_value) depth 12

  sql_case-IsOperation :
      (in_tree : Bool) (c : Condition)
      → is_empty (index_map c.operator sql_operators) ≡ false
      → Yields IsOperation
          (quant_modifier c.operator >>= λ q. valued_operation in_tree (record c { quant = q }))
  sql_case-IsOperation in_tree c h =
      Yields-bind (quant_modifier c.operator) _ (quant_modifier-IsQuant c.operator)
        λ q k. valued_operation-IsOperation in_tree (record c { quant = q }) λ v. comparison h k

  distinct_case-IsOperation :
      (in_tree : Bool) (c : Condition)
      → c.operator ≡ codes "isdistinct"
      → Yields IsOperation (valued_operation in_tree c)
  distinct_case-IsOperation in_tree c h = valued_operation-IsOperation in_tree c (λ v. distinct h)

  fts_case-IsOperation :
      (in_tree : Bool) (c : Condition)
      → is_empty (index_map c.operator fts_functions) ≡ false
      → Yields IsOperation (lang_modifier >>= λ l. valued_operation in_tree (record c { lang = l }))
  fts_case-IsOperation in_tree c h =
      Yields-after lang_modifier _ Reads-lang_modifier
        λ l. valued_operation-IsOperation in_tree (record c { lang = l }) λ v. text_search h

  operation_of-IsOperation :
      (in_tree : Bool) (c : Condition) → Yields IsOperation (operation_of u in_tree c)
  unfolding operation_of
  operation_of-IsOperation in_tree c =
      Yields-if (c.operator == []) _ _ (λ _. Yields-errorf _)
        λ _.
          Yields-if (c.operator == codes "in") _ _
            (λ e. in_operation-IsOperation in_tree c (==_sound _ _ e))
            λ _.
              Yields-if (c.operator == codes "is") _ _
                (λ e. is_operation-IsOperation c (==_sound _ _ e))
                λ _.
                  Yields-if (c.operator == codes "isdistinct") _ _
                    (λ e. distinct_case-IsOperation in_tree c (==_sound _ _ e))
                    λ _.
                      Yields-if (is_empty (index_map c.operator fts_functions)) _ _
                        (λ _.
                          Yields-if (is_empty (index_map c.operator sql_operators)) _ _
                            (λ _. Yields-raise _ tt) (sql_case-IsOperation in_tree c))
                        (fts_case-IsOperation in_tree c)

  pub operation-IsOperation : (in_tree : Bool) → Yields IsOperation (operation u in_tree)
  unfolding operation
  operation-IsOperation in_tree =
      search (yields_rules, reads_rules, operation_of-IsOperation) depth 9
