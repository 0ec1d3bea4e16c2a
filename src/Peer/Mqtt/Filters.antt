-- ===== src/Peer/Mqtt/Filters.antt =====
-- topicMatch of pkg/pipeline/peer/mqtt/transform.go beside MQTT's rules for topic filters.
use pigo.Base.{
  Bool-cases, ◌↔◌, inl, inr, false, ◌⊎◌, is_empty, ◌≡◌, refl, Bool, true, not, ◌&&◌, ◌||◌, List, [],
  ◌∷◌, arith,
}
use pigo.Base.Bytes.{has_prefix, split, ==_sound, ==_refl, ◌==◌, Bytes, codes}
use pigo.Peer.Mqtt.Topics.{match_parts, topic_match}

-- the levels of a filter, and those of the topics that it stands for, whatever these begin with
pub data Matches : List Bytes → List Bytes → Type 0 where
  same : Matches [] []
  rest_of : (ts : List Bytes) → Matches (codes "#" ∷ []) ts
  one_level : (t : Bytes) (ps ts : List Bytes) → Matches ps ts → Matches (codes "+" ∷ ps) (t ∷ ts)
  literal : (t : Bytes) (ps ts : List Bytes) → Matches ps ts → Matches (t ∷ ps) (t ∷ ts)

-- a # stands last, as MQTT demands
abbrev pub is_filter : List Bytes → Bool
is_filter [] = true
is_filter (p ∷ ps) = (not (p == codes "#") || is_empty ps) && is_filter ps

nothing_left : (ps : List Bytes) → is_empty ps ≡ true → ps ≡ []
nothing_left [] h = refl
nothing_left (p ∷ ps) h = cc

match_parts-Matches :
    (ps ts : List Bytes) → is_filter ps ≡ true → match_parts ps ts ≡ true → Matches ps ts
unfolding match_parts
match_parts-Matches [] [] f h = same
match_parts-Matches [] (t ∷ ts) f h = cc
match_parts-Matches (p ∷ []) [] f h = rw (==_sound p (codes "#") (ground (arith, h))) (rest_of [])
match_parts-Matches (p ∷ q ∷ ps) [] f h = cc
match_parts-Matches (p ∷ ps) (t ∷ ts) f h = elim (Bool-cases (p == codes "#")) [
  | inl hash ↦
      rw (==_sound p (codes "#") hash, nothing_left ps (ground (arith, f, hash))) (rest_of (t ∷ ts))
  | inr no_hash ↦ elim (Bool-cases (p == codes "+")) [
    | inl plus ↦ rw (==_sound p (codes "+") plus) (
        one_level t ps ts
          (match_parts-Matches ps ts (ground (arith, f)) (ground (arith, h, no_hash, plus))))
    | inr no_plus ↦
        let level : (p == t) ≡ true = ground (arith, h, no_hash, no_plus) in
        rw (==_sound p t level) (
          literal t ps ts
            (match_parts-Matches ps ts (ground (arith, f)) (ground (arith, h, no_hash, no_plus))))
  ]
]

Matches-match_parts : (ps ts : List Bytes) → Matches ps ts → match_parts ps ts ≡ true
unfolding match_parts ◌==◌
Matches-match_parts ps ts same = refl
Matches-match_parts ps ts (rest_of []) = refl
Matches-match_parts ps ts (rest_of (u ∷ us)) = refl
Matches-match_parts ps ts (one_level t qs us m) = Matches-match_parts qs us m
Matches-match_parts ps ts (literal t qs us m) =
    ground (arith, ==_refl t, Matches-match_parts qs us m)

-- MQTT's rule [MQTT-4.7.2-1]: a filter that begins with a wildcard stands for no topic that begins
-- with a dollar sign.
abbrev pub is_kept_back : Bytes → Bytes → Bool
is_kept_back pattern topic =
    (has_prefix pattern (codes "#") || has_prefix pattern (codes "+"))
    && has_prefix topic (codes "$")

-- the topics that a filter stands for in MQTT
abbrev pub MatchesInMqtt : Bytes → Bytes → Type 0
MatchesInMqtt pattern topic =
    (is_kept_back pattern topic ≡ false) × Matches (split b'/' pattern) (split b'/' topic)

-- For every filter whose # is its last level, topicMatch holds of the topics that the filter stands for
-- in MQTT and, against MQTT, of the topics beginning with a dollar sign that a filter with a leading
-- wildcard fits level by level; it holds of no others.
pub topic_match_iff :
    (pattern topic : Bytes)
    → is_filter (split b'/' pattern) ≡ true
    → (topic_match pattern topic ≡ true) ↔ (
        MatchesInMqtt pattern topic
        ⊎ ((is_kept_back pattern topic ≡ true) × Matches (split b'/' pattern) (split b'/' topic)))
unfolding topic_match
topic_match_iff pattern topic f = (
  λ h.
      let m = match_parts-Matches (split b'/' pattern) (split b'/' topic) f h in
      elim (Bool-cases (is_kept_back pattern topic)) [
        | inl kept_back ↦ inr (kept_back, m)
        | inr served ↦ inl (served, m)
      ],
  λ m.
      Matches-match_parts (split b'/' pattern) (split b'/' topic)
        (elim m [ inl in_mqtt ↦ in_mqtt.1 | inr kept_back ↦ kept_back.1 ]),
)
