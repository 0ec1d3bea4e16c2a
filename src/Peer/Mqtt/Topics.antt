-- ===== src/Peer/Mqtt/Topics.antt =====
-- pkg/pipeline/peer/mqtt/transform.go: fields from topics, scalar values, and rewritten topics.
-- Regular expressions and the reading of fractions are parameters.
use pigo.Base.{
  if◌then◌else◌, ltb, find, is_empty, length, drop, any, ℕ, ◌+◌, ◌-◌, Bool, true, false, not, ◌&&◌,
  Option, none, some, List, [], ◌∷◌, ◌++◌, map, get_elem?,
}
use pigo.Base.Bytes.{split, trim_slashes, decimal, codes, replace_all, ◌==◌, Bytes}
use pigo.Base.Int.{negsuc, ℤ, pos}
use pigo.Base.Json.{Value, bool, text, number}
use pigo.Base.Maps.{StringMap, assign}
use pigo.Base.Number.{atoi}

pub record TopicToField : Type 0 where
  pub field : Bytes
  pub index : Bytes
  pub pattern : Bytes
  pub static : Bytes
  pub type : Bytes

-- regexp.Compile, with FindStringSubmatch of what compiles, and strconv.ParseFloat as a JSON number
pub record Library : Type 0 where
  pub compile : Bytes → Option (Bytes → Option (List Bytes))
  pub parse_float : Bytes → Option Bytes

-- strconv.ParseBool
unfoldable pub parse_bool : Bytes → Option Bool
parse_bool s =
    if any (λ t. t == s) (map codes ("1" ∷ "t" ∷ "T" ∷ "true" ∷ "TRUE" ∷ "True" ∷ []))
    then some true
    else if any (λ t. t == s) (map codes ("0" ∷ "f" ∷ "F" ∷ "false" ∷ "FALSE" ∷ "False" ∷ []))
    then some false
    else none

-- an integer as a JSON number
unfoldable pub integer : ℤ → Value
unfolding decimal
integer (pos n) = number (decimal n)
integer (negsuc n) = number (codes "-" ++ decimal (n + 1))

module _ (lib : Library) where
  -- parseScalarValue with a type, which may be ""
  unfoldable pub parse_typed : Bytes → Bytes → Value
  unfolding parse_bool integer atoi
  parse_typed value type =
      if type == codes "bool"
      then elim (parse_bool value) [ some b ↦ bool b | none ↦ text value ]
      else if type == codes "int"
      then elim (atoi value) [ some n ↦ integer n | none ↦ text value ]
      else if type == codes "float"
      then elim (lib.parse_float value) [ some n ↦ number n | none ↦ text value ]
      else text value

  -- parseScalarValue without one
  unfoldable pub parse_scalar : Bytes → Value
  unfolding parse_bool integer atoi
  parse_scalar value = elim (parse_bool value) [
    | some b ↦ bool b
    | none ↦ elim (atoi value) [
      | some n ↦ integer n
      | none ↦ elim (lib.parse_float value) [ some n ↦ number n | none ↦ text value ]
    ]
  ]

  -- segments[idx], with an index below zero from the end
  unfoldable pub segment_at : ℤ → List Bytes → Bytes
  segment_at (pos i) segments = elim (get_elem? segments i) [ none ↦ [] | some s ↦ s ]
  segment_at (negsuc i) segments =
      if ltb i (length segments)
      then elim (get_elem? segments (length segments - (i + 1))) [ none ↦ [] | some s ↦ s ]
      else []

  unfoldable pub raw_value : Bytes → List Bytes → TopicToField → Bytes
  unfolding atoi segment_at
  raw_value topic segments f =
      if not (is_empty f.static)
      then f.static
      else if not (is_empty f.index)
      then elim (atoi f.index) [ none ↦ [] | some i ↦ segment_at i segments ]
      else if not (is_empty f.pattern)
      then elim (lib.compile f.pattern) [
        | none ↦ []
        | some find ↦ elim (find topic) [
          | none ↦ []
          | some groups ↦ elim (get_elem? groups 1) [ none ↦ [] | some g ↦ g ]
        ]
      ]
      else []

  -- the loop over the fields, with the result so far
  unfoldable pub extract_fields :
      Bytes → List Bytes → List TopicToField → StringMap Value → StringMap Value
  unfolding raw_value parse_typed assign
  extract_fields topic segments [] result = result
  extract_fields topic segments (f ∷ fs) result =
      let raw = raw_value topic segments f in
      extract_fields topic segments fs
        (if is_empty raw then result else assign f.field (parse_typed raw f.type) result)

  unfoldable pub extract_fields_from_topic : Bytes → List TopicToField → StringMap Value
  unfolding extract_fields split trim_slashes
  extract_fields_from_topic topic fields =
      extract_fields topic (split b'/' (trim_slashes topic)) fields []

-- matchParts, on what is left of the pattern and of the topic
unfoldable pub match_parts : List Bytes → List Bytes → Bool
match_parts [] [] = true
match_parts [] (t ∷ ts) = false
match_parts (p ∷ ps) [] = is_empty ps && p == codes "#"
match_parts (p ∷ ps) (t ∷ ts) =
    let rest = match_parts ps ts in
    if p == codes "#" then true else if p == codes "+" then rest else p == t && rest

unfoldable pub topic_match : Bytes → Bytes → Bool
unfolding match_parts split
topic_match pattern topic = match_parts (split b'/' pattern) (split b'/' topic)

pub data RewriteAction : Type 0 where
  pub_sub publish subscribe : RewriteAction

-- whether a rule's action is for an operation
abbrev pub serves : RewriteAction → RewriteAction → Bool
serves pub_sub action = true
serves publish publish = true
serves publish subscribe = false
serves publish pub_sub = false
serves subscribe subscribe = true
serves subscribe publish = false
serves subscribe pub_sub = false

pub record TopicRewriteRule : Type 0 where
  pub action : RewriteAction
  pub from : Bytes
  pub to : Bytes
  pub regex : Bytes

-- a rule with what its regular expression compiles to
abbrev pub CompiledRule : Type 0
CompiledRule = TopicRewriteRule × (Bytes → Option (List Bytes))

-- NewTopicRewriter: none where a regular expression does not compile
unfoldable pub new_topic_rewriter : Library → List TopicRewriteRule → Option (List CompiledRule)
new_topic_rewriter lib [] = some []
new_topic_rewriter lib (rule ∷ rules) =
    let rest = new_topic_rewriter lib rules in
    elim (lib.compile rule.regex) [
      | none ↦ none
      | some find ↦ elim rest [ none ↦ none | some compiled ↦ some ((rule, find) ∷ compiled) ]
    ]

-- the loop over the groups, from the number i on
unfoldable pub fill_groups : ℕ → List Bytes → Bytes → Bytes
unfolding replace_all decimal
fill_groups i [] dest = dest
fill_groups i (g ∷ gs) dest = fill_groups (i + 1) gs (replace_all (codes "$" ++ decimal i) g dest)

unfoldable pub destination : Bytes → List Bytes → Bytes → Bytes → Bytes
unfolding fill_groups
destination to matches client_id username =
    replace_all (codes "${username}") username
      (replace_all (codes "${clientid}") client_id (fill_groups 1 (drop 1 matches) to))

-- RewriteTopic; no rules are a nil rewriter too
unfoldable pub rewrite_topic : List CompiledRule → Bytes → RewriteAction → Bytes → Bytes → Bytes
unfolding topic_match destination
rewrite_topic [] topic action client_id username = topic
rewrite_topic ((rule, find) ∷ rules) topic action client_id username =
    let rest = rewrite_topic rules topic action client_id username in
    if not (serves rule.action action)
    then rest
    else if not (topic_match rule.from topic)
    then rest
    else elim (find topic) [
      | none ↦ topic
      | some matches ↦ destination rule.to matches client_id username
    ]
