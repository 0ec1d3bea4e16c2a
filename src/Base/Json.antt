-- ===== src/Base/Json.antt =====
-- The values that encoding/json decodes into `any`, with numbers left as their text.
use pigo.Base.{Bool}
use pigo.Base.Bytes.{Bytes}

mutual
  pub data Value : Type 0 where
    null : Value
    bool : Bool → Value
    number : Bytes → Value
    text : Bytes → Value
    array : Values → Value
    object : Members → Value

  pub data Values : Type 0 where
    nil : Values
    cons : Value → Values → Values

  pub data Members : Type 0 where
    end : Members
    member : Bytes → Value → Members → Members
