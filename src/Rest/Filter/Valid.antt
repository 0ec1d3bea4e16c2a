-- ===== src/Rest/Filter/Valid.antt =====
-- pkg/rest/filter.go: predicates on filters, on their operations, groups and nesting.
use Prim.Native.Nat.{max}
use pigo.Base.{ℕ, suc, ◌≡◌, refl, ◌⊎◌, Bool, true, false, [], is_empty, is_some, if◌then◌else◌, ◌≤◌}
use pigo.Base.Bytes.{Bytes, codes, lookup, index_map}
use pigo.Rest.Error.{Message, Error}
use pigo.Rest.Filter.{
  Condition, FilterNode, group, condition, FilterNodes, nil, cons, quantifiable, sql_operators,
  fts_functions, is_values,
}
use pigo.Rest.Filter.Parser.{Parser, Parse, ◌>>=◌, pure, raise, errorf}
use pigo.Rest.Filter.Post.{Post, Post-bind, left, Reads, IsProper}

-- the modifier is absent, or stands behind an operator that takes it
pub data IsQuant (op quant : Bytes) : Type 0 where
  no_quant : quant ≡ [] → IsQuant op quant
  any_quant : quantifiable op ≡ true → quant ≡ codes "ANY" → IsQuant op quant
  all_quant : quantifiable op ≡ true → quant ≡ codes "ALL" → IsQuant op quant

-- An operation that the renderer has a form for: no lookup of its operator or of its operand fails.
pub data IsOperation (c : Condition) : Type 0 where
  in_list : c.operator ≡ codes "in" → IsOperation c
  is_value : c.operator ≡ codes "is" → is_some (lookup c.value is_values) ≡ true → IsOperation c
  distinct : c.operator ≡ codes "isdistinct" → IsOperation c
  text_search : is_empty (index_map c.operator fts_functions) ≡ false → IsOperation c
  comparison :
      is_empty (index_map c.operator sql_operators) ≡ false
      → IsQuant c.operator c.quant
      → IsOperation c

abbrev pub IsLogic : Bytes → Type 0
IsLogic logic = (logic ≡ codes "AND") ⊎ (logic ≡ codes "OR")

abbrev pub IsCons : FilterNodes → Type 0
IsCons nil = ⊥
IsCons (cons n ns) = Unit

unfoldable mutual
  pub IsWellFormed : FilterNode → Type 0
  IsWellFormed (group negate logic ns) = IsLogic logic × IsCons ns × AreWellFormed ns
  IsWellFormed (condition c) = IsOperation c

  pub AreWellFormed : FilterNodes → Type 0
  AreWellFormed nil = Unit
  AreWellFormed (cons n ns) = IsWellFormed n × AreWellFormed ns

-- how deep groups are nested
unfoldable mutual
  pub height : FilterNode → ℕ
  height (group negate logic ns) = suc (heights ns)
  height (condition c) = 0

  pub heights : FilterNodes → ℕ
  heights nil = 0
  heights (cons n ns) = max (height n) (heights ns)

-- Every result of the parser has the property.
pub record Yields {A : Type 0} (Q : A → Type 0) (m : Parse A) : Type 0 where
  pub at : (p : Parser) → Post (λ a _. Q a) (m p)

module _ {A B : Type 0} {P : A → Type 0} {Q : B → Type 0} where
  pub Yields-bind :
      (m : Parse A) (f : A → Parse B)
      → Yields P m
      → ((a : A) → P a → Yields Q (f a))
      → Yields Q (m >>= f)
  Yields-bind m f h k = record {
    at = λ p. Post-bind (λ a _. P a) (λ b _. Q b) m f p (h.at p) (λ a q pa. (k a pa).at q);
  }

module _ {A B : Type 0} {Q : B → Type 0} where
  pub Yields-after :
      (m : Parse A) (f : A → Parse B) → Reads m → ((a : A) → Yields Q (f a)) → Yields Q (m >>= f)
  Yields-after m f h k = record {
    at = λ p. Post-bind (λ _ q. left q ≤ left p) (λ b _. Q b) m f p (h.at p) (λ a q le. (k a).at q);
  }

module _ {A : Type 0} {Q : A → Type 0} where
  pub Yields-pure : (a : A) → Q a → Yields Q (pure a)
  unfolding pure
  Yields-pure a h = record { at = λ p. h }

  pub Yields-errorf : (msg : Message) → Yields Q (errorf msg)
  unfolding errorf
  Yields-errorf msg = record { at = λ p. tt }

  pub Yields-raise : (e : Error) → IsProper e → Yields Q (raise e)
  unfolding raise
  Yields-raise e h = record { at = λ p. h }

  pub Yields-if :
      (b : Bool) (m n : Parse A)
      → (b ≡ true → Yields Q m)
      → (b ≡ false → Yields Q n)
      → Yields Q (if b then m else n)
  Yields-if true m n hm hn = hm refl
  Yields-if false m n hm hn = hn refl

pub ruleset yields_rules = (Yields-after, Yields-pure, Yields-errorf, Yields-raise, Yields-if)
